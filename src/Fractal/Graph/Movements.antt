-- ===== src/Fractal/Graph/Movements.antt =====
-- The movement episodes of a ledger.
use forex_platform.Fractal.Graph.{
  CausalMovementLedger, Legs, MovementEpisode, leg_episode, leg_step, leg_steps, new_ledger,
  no_legs, turn_leg, turns, stamp, all_of, head_symbol,
}
use mathlib.Core.List.{append-nil, append_assoc}
use forex_platform.Fractal.Ladder.{CanonicalTimeframe}
use forex_platform.Fractal.States.{CanonicalTimeframeState, trend_or_zero}
use forex_platform.Prelude.{
  ℕ, ◌+◌, ◌∙◌, map, All-append, All, true, Bool-cases, Option-cases, List, [], ◌∷◌, ◌++◌, length,
  length-append, Option, some, none, ℤ, pos, Text, sort_by, ◌≡◌, ◌≢◌, refl, ap, arith, inl, inr, ok,
  subst, sym,
}

-- Each episode ends where the next one begins, in another direction, and only the last has not ended.
abbrev pub Chained : List MovementEpisode → Type 0
Chained [] = Unit
Chained (e ∷ []) = e.ended_at ≡ none
Chained (e ∷ f ∷ es) =
    (e.ended_at ≡ some f.started_at) × (e.direction ≢ f.direction) × Chained (f ∷ es)

-- So too for episodes that a leg follows.
abbrev Leads : List MovementEpisode → ℤ → ℕ → Type 0
Leads [] d n = Unit
Leads (e ∷ []) d n = (e.ended_at ≡ some n) × (e.direction ≢ d)
Leads (e ∷ f ∷ es) d n =
    (e.ended_at ≡ some f.started_at) × (e.direction ≢ f.direction) × Leads (f ∷ es) d n

Leads-append :
    (es : List MovementEpisode) (e : MovementEpisode) (d : ℤ) (n : ℕ)
    → e.ended_at ≡ some n
    → e.direction ≢ d
    → Leads es e.direction e.started_at
    → Leads (es ++ e ∷ []) d n
Leads-append [] e d n h k leads = (h, k)
Leads-append (x ∷ []) e d n h k leads = (leads.0, leads.1, (h, k))
Leads-append (x ∷ y ∷ ys) e d n h k leads =
    (leads.0, leads.1, Leads-append (y ∷ ys) e d n h k leads.2)

Leads-Chained :
    (es : List MovementEpisode) (e : MovementEpisode)
    → e.ended_at ≡ none
    → Leads es e.direction e.started_at
    → Chained (es ++ e ∷ [])
Leads-Chained [] e h leads = h
Leads-Chained (x ∷ []) e h leads = (leads.0, leads.1, h)
Leads-Chained (x ∷ y ∷ ys) e h leads = (leads.0, leads.1, Leads-Chained (y ∷ ys) e h leads.2)

abbrev Current : List MovementEpisode → ℤ → ℕ → Option (Text × ℕ) → Type 0
Current es d sequence none = (es ≡ []) × (sequence ≡ 0) × (d ≡ pos 0)
Current es d sequence (some (id, start)) =
    Leads es d start × (sequence ≡ length es + 1) × (d ≢ pos 0)

abbrev pub IsMoving : MovementEpisode → Type 0
IsMoving e = e.direction ≢ pos 0

record Sound (legs : Legs) : Type 0 where
  follows : Current legs.closed legs.current_direction legs.sequence legs.current
  moving : All IsMoving legs.closed

turn_leg-Sound :
    (symbol : Text) (timeframe : CanonicalTimeframe) (direction : ℤ) (t : ℕ) (legs : Legs)
    → Sound legs
    → Sound (turn_leg symbol timeframe direction t legs)
unfolding turn_leg leg_episode
turn_leg-Sound symbol timeframe direction t legs s =
    elim (Bool-cases (turns direction legs.current_direction)) [
      | inr straight ↦ rw straight s
      | inl turned ↦ elim (Option-cases legs.current) [
        | inl idle ↦
            rw (turned, idle)
              (let (es_nil, count, d) =
                  subst (Current legs.closed legs.current_direction legs.sequence) idle s.follows in
                record {
                  follows = rw es_nil (tt, ground (arith, count), ground arith);
                  moving = rw es_nil tt;
                })
        | inr ((id, start), going) ↦
            rw (turned, going)
              (let (leads, count, d) =
                  subst (Current legs.closed legs.current_direction legs.sequence) going
                    s.follows in
                let e : MovementEpisode = record {
                  movement_id = id;
                  symbol = symbol;
                  identity_timeframe = timeframe;
                  direction = legs.current_direction;
                  started_at = start;
                  ended_at = some t;
                } in
                record {
                  follows = (
                    Leads-append legs.closed e direction t refl (ground arith) leads,
                    ground (arith, count, length-append legs.closed (e ∷ [])),
                    ground arith,
                  );
                  moving = All-append IsMoving legs.closed (e ∷ []) s.moving (d, tt);
                })
      ]
    ]

leg_steps-Sound :
    (symbol : Text) (timeframe : CanonicalTimeframe) (ss : List CanonicalTimeframeState)
    (legs : Legs)
    → Sound legs
    → Sound (leg_steps symbol timeframe ss legs)
unfolding leg_steps leg_step
leg_steps-Sound symbol timeframe [] legs s = s
leg_steps-Sound symbol timeframe (x ∷ xs) legs s =
    let r = turn_leg-Sound symbol timeframe (trend_or_zero x.structural_trend) x.timestamp legs s in
    leg_steps-Sound symbol timeframe xs (leg_step symbol timeframe x legs)
      (record { follows = r.follows; moving = r.moving })

episodes-Chained :
    (symbol : Text) (timeframe : CanonicalTimeframe) (legs : Legs)
    → Sound legs
    → let es = leg_episode symbol timeframe legs.current_direction legs.current none in
      Chained (legs.closed ++ es)
      × All IsMoving (legs.closed ++ es)
      × (length (legs.closed ++ es) ≡ legs.sequence)
unfolding leg_episode
episodes-Chained symbol timeframe legs s = elim (Option-cases legs.current) [
  | inl idle ↦
      let (es_nil, count, d) =
        subst (Current legs.closed legs.current_direction legs.sequence) idle s.follows in
      rw (idle, es_nil) (tt, tt, sym count)
  | inr ((id, start), going) ↦ rw going (
      let (leads, count, d) =
        subst (Current legs.closed legs.current_direction legs.sequence) going s.follows in
      let e : MovementEpisode = record {
        movement_id = id;
        symbol = symbol;
        identity_timeframe = timeframe;
        direction = legs.current_direction;
        started_at = start;
        ended_at = none;
      } in
      (
        Leads-Chained legs.closed e refl leads,
        All-append IsMoving legs.closed (e ∷ []) s.moving (d, tt),
        ground (arith, count, length-append legs.closed (e ∷ [])),
      ))
]

leg_steps-times :
    (symbol : Text) (timeframe : CanonicalTimeframe) (ss : List CanonicalTimeframeState)
    (legs : Legs)
    → (leg_steps symbol timeframe ss legs).times ≡ legs.times ++ map stamp ss
unfolding leg_steps leg_step turn_leg
leg_steps-times symbol timeframe [] legs = sym (append-nil legs.times)
leg_steps-times symbol timeframe (x ∷ xs) legs =
    elim (Bool-cases (turns (trend_or_zero x.structural_trend) legs.current_direction)) [
      | inl turned ↦
          leg_steps-times symbol timeframe xs (leg_step symbol timeframe x legs)
          ∙ ap (λ (ts : List ℕ). ts ++ map stamp xs) (rw turned refl)
          ∙ append_assoc legs.times (x.timestamp ∷ []) (map stamp xs)
      | inr straight ↦
          leg_steps-times symbol timeframe xs (leg_step symbol timeframe x legs)
          ∙ ap (λ (ts : List ℕ). ts ++ map stamp xs) (rw straight refl)
          ∙ append_assoc legs.times (x.timestamp ∷ []) (map stamp xs)
    ]

-- The ledger of states of one timeframe is built, with their times in order; each of its episodes has a
-- direction other than 0, ends where the next one begins, in another direction, and only the last one has
-- not ended.
pub new_ledger-Chained :
    (s : CanonicalTimeframeState) (ss : List CanonicalTimeframeState)
    → all_of s.timeframe (s ∷ ss) ≡ true
    → (ledger : CausalMovementLedger) × (new_ledger (s ∷ ss) ≡ ok ledger)
      × Chained ledger.episodes
      × All IsMoving ledger.episodes
      × (ledger.times ≡ map stamp (sort_by stamp (s ∷ ss)))
unfolding new_ledger
new_ledger-Chained s ss one =
    let ordered = sort_by stamp (s ∷ ss) in
    let symbol = head_symbol ordered in
    let legs = leg_steps symbol s.timeframe ordered no_legs in
    let start : Sound no_legs = record { follows = (refl, refl, refl); moving = tt } in
    let (chained, moving, count) =
      episodes-Chained symbol s.timeframe legs
        (leg_steps-Sound symbol s.timeframe ordered no_legs start) in
    let ledger : CausalMovementLedger = record {
      identity_timeframe = some s.timeframe;
      episodes =
          legs.closed ++ leg_episode symbol s.timeframe legs.current_direction legs.current none;
      state_to_movement = legs.state_to_movement;
      times = legs.times;
      movement_by_time = legs.movement_by_time;
    } in
    (ledger, rw one refl, chained, moving, leg_steps-times symbol s.timeframe ordered no_legs)
