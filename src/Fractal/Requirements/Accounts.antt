-- ===== src/Fractal/Requirements/Accounts.antt =====
-- Every requirement is accounted for.
use forex_platform.Fractal.Requirements.{
  Arrival, ChildRequirement, EventKind, MergeState, RequirementLifecycle, ResolvedRequirement,
  arrive, arrive_all, build_requirement_lifecycle, carry_or_create, create_requirement, child_state,
  head_timeframe, merged, new, parent_state, push_child, push_parent, rank, resolve, same_timeframe,
  signature_eq, signature_of, stamp, superseded, supersede, verdict_of, expected_child_shift,
}
use forex_platform.Fractal.States.{CanonicalTimeframeState}
use forex_platform.Prelude.{
  ℤ, All-weaken, ℕ, ◌+◌, ◌*◌, ◌≤◌, ltb, false, All, All-append, IsSorted, sort_by-IsSorted, length,
  length-append, Option, none, some, List, [], ◌∷◌, ◌++◌, map, Text, sort_by, ok, ◌≡◌, refl, subst,
  inl, inr, arith, Bool-cases, Option-cases,
}

abbrev pub held : Option ChildRequirement → ℕ
held none = 0
held (some r) = 1

abbrev CreatedBy : ℕ → Option ChildRequirement → Type 0
CreatedBy t none = Unit
CreatedBy t (some r) = r.created_at ≤ t

abbrev pub IsCausal : ResolvedRequirement → Type 0
IsCausal x = x.requirement.created_at ≤ x.resolved_at

-- The requirements that were created are resolved or pending, and none is resolved before its creation.
record Sound (t : ℕ) (l : RequirementLifecycle) : Type 0 where
  counted : l.sequence ≡ length l.resolved + held l.pending
  causal : All IsCausal l.resolved
  past : CreatedBy t l.pending

resolve-Sound :
    (t now : ℕ) (r : ChildRequirement) (event : EventKind) (child : Option Text)
    (l : RequirementLifecycle)
    → l.pending ≡ some r
    → r.created_at ≤ now
    → Sound t l
    → Sound now (resolve r event now child l).1
unfolding resolve
resolve-Sound t now r event child l waits due s = record {
  counted =
      let x : ResolvedRequirement = record {
        requirement = r;
        status = event;
        resolved_at = now;
        resolved_by_state_id = child;
        child_states_observed = l.pending_children;
      } in
      ground (arith, s.counted, length-append l.resolved (x ∷ []));
  causal = All-append IsCausal l.resolved _ s.causal (due, tt);
  past = tt;
}

later-Sound : (t now : ℕ) (l : RequirementLifecycle) → t ≤ now → Sound t l → Sound now l
later-Sound t now l h s = record {
  counted = s.counted;
  causal = s.causal;
  past = ground (arith, s.past);
}

supersede-Sound :
    (t : ℕ) (parent : CanonicalTimeframeState) (l : RequirementLifecycle)
    → t ≤ parent.timestamp
    → Sound t l
    → Sound parent.timestamp (supersede parent l).1
unfolding supersede
supersede-Sound t parent l h s =
    let later = later-Sound t parent.timestamp l h s in
    elim (Option-cases l.pending) [
      | inl idle ↦
          let same : l ≡ (supersede parent l).1 = ground arith in
          subst (Sound parent.timestamp) same later
      | inr (r, waits) ↦
          elim (Bool-cases (signature_eq r.expectation_signature (signature_of parent))) [
            | inl kept ↦
                let same : l ≡ (supersede parent l).1 = ground arith in
                subst (Sound parent.timestamp) same later
            | inr changed ↦
                let gone : (resolve r superseded parent.timestamp none l).1
                    ≡ (supersede parent l).1 =
                  ground arith in
                let due : r.created_at ≤ parent.timestamp = ground (arith, later.past) in
                subst (Sound parent.timestamp) gone
                  (resolve-Sound t parent.timestamp r superseded none l waits due s)
          ]
    ]

carry-Sound :
    (parent : CanonicalTimeframeState) (child : Option CanonicalTimeframeState) (shift : ℤ)
    (l : RequirementLifecycle)
    → Sound parent.timestamp l
    → Sound parent.timestamp (carry_or_create parent child shift l).1
unfolding carry_or_create create_requirement
carry-Sound parent child shift l s = elim (Option-cases l.pending) [
  | inl idle ↦
      rw idle
        (record { counted = ground (arith, s.counted); causal = s.causal; past = omega arith })
  | inr (r, waits) ↦ rw waits (record {
    counted = ground (arith, s.counted);
    causal = s.causal;
    past = ground (arith, s.past);
  })
]

push_parent-Sound :
    (t : ℕ) (parent : CanonicalTimeframeState) (child : Option CanonicalTimeframeState)
    (l : RequirementLifecycle)
    → t ≤ parent.timestamp
    → Sound t l
    → Sound parent.timestamp (push_parent parent child l).1
unfolding push_parent
push_parent-Sound t parent child l h s =
    let l' = (supersede parent l).1 in
    let s' = supersede-Sound t parent l h s in
    elim (Option-cases (expected_child_shift parent)) [
      | inl idle ↦
          let same : l' ≡ (push_parent parent child l).1 = ground arith in
          subst (Sound parent.timestamp) same s'
      | inr (shift, due) ↦
          let same : (carry_or_create parent child shift l').1 ≡ (push_parent parent child l).1 =
            ground arith in
          subst (Sound parent.timestamp) same (carry-Sound parent child shift l' s')
    ]

push_child-Sound :
    (t : ℕ) (child : CanonicalTimeframeState) (l : RequirementLifecycle)
    → t ≤ child.timestamp
    → Sound t l
    → Sound child.timestamp (push_child child l).1
unfolding push_child
push_child-Sound t child l h s =
    let now = child.timestamp in
    let later = later-Sound t now l h s in
    let l' = record l { pending_children = l.pending_children + 1 } in
    let later' : Sound now l' = record {
      counted = later.counted;
      causal = later.causal;
      past = later.past;
    } in
    elim (Option-cases l.pending) [
      | inl idle ↦
          let same : l ≡ (push_child child l).1 = ground arith in subst (Sound now) same later
      | inr (r, waits) ↦ elim (Bool-cases (ltb child.timestamp r.created_at)) [
        | inl early ↦
            let same : l ≡ (push_child child l).1 = ground arith in subst (Sound now) same later
        | inr late ↦ elim (Option-cases (verdict_of r child)) [
          | inl open_still ↦
              let same : l' ≡ (push_child child l).1 = ground arith in subst (Sound now) same later'
          | inr (event, decided) ↦
              let gone : (resolve r event child.timestamp (some child.state_id) l').1
                  ≡ (push_child child l).1 =
                ground arith in
              let due : r.created_at ≤ child.timestamp = ground arith in
              subst (Sound now) gone
                (resolve-Sound now now r event (some child.state_id) l' waits due later')
        ]
      ]
    ]

abbrev time_of : Arrival → ℕ
time_of (parent_state s) = s.timestamp
time_of (child_state s) = s.timestamp

arrive-Sound :
    (t : ℕ) (a : Arrival) (p : MergeState)
    → t ≤ time_of a
    → Sound t p.0
    → Sound (time_of a) (arrive a p).0
unfolding arrive
arrive-Sound t (parent_state s) (l, last_child) h sound =
    let r = push_parent-Sound t s last_child l h sound in
    record { counted = r.counted; causal = r.causal; past = r.past }
arrive-Sound t (child_state s) (l, last_child) h sound =
    let r = push_child-Sound t s l h sound in
    record { counted = r.counted; causal = r.causal; past = r.past }

All-zero : (xs : List Arrival) → All (λ (x : Arrival). 2 * 0 ≤ rank x) xs
All-zero [] = tt
All-zero (x ∷ xs) = (omega arith, All-zero xs)

arrive_all-Sound :
    (t : ℕ) (xs : List Arrival) (p : MergeState)
    → IsSorted rank xs
    → All (λ (x : Arrival). 2 * t ≤ rank x) xs
    → Sound t p.0
    → (now : ℕ) × Sound now (arrive_all xs p).0
unfolding arrive_all
arrive_all-Sound t [] p sorted later s = (t, s)
arrive_all-Sound t (parent_state x ∷ xs) p sorted later s =
    let a = parent_state x in
    let n = x.timestamp in
    let t_le : t ≤ n = omega (arith, later.0) in
    let rest = All-weaken rank (2 * n) (rank a) xs (omega arith) sorted.0 in
    arrive_all-Sound n xs (arrive a p) sorted.1 rest (arrive-Sound t a p t_le s)
arrive_all-Sound t (child_state x ∷ xs) p sorted later s =
    let a = child_state x in
    let n = x.timestamp in
    let t_le : t ≤ n = omega (arith, later.0) in
    let rest = All-weaken rank (2 * n) (rank a) xs (omega arith) sorted.0 in
    arrive_all-Sound n xs (arrive a p) sorted.1 rest (arrive-Sound t a p t_le s)

-- For two histories whose earliest states are of different timeframes, the lifecycle is built; as many
-- requirements as it has numbered are resolved or, at most one of them, pending, and each was resolved at
-- its creation or later.
pub build_requirement_lifecycle_accounted :
    (ps cs : List CanonicalTimeframeState)
    → same_timeframe (head_timeframe (sort_by stamp ps)) (head_timeframe (sort_by stamp cs)) ≡ false
    → (l : RequirementLifecycle) × (build_requirement_lifecycle ps cs ≡ ok l)
      × (l.sequence ≡ length l.resolved + held l.pending)
      × All IsCausal l.resolved
unfolding build_requirement_lifecycle merged
build_requirement_lifecycle_accounted ps cs differ =
    let parent = head_timeframe (sort_by stamp ps) in
    let child = head_timeframe (sort_by stamp cs) in
    let xs = merged ps cs in
    let sorted =
      sort_by-IsSorted rank
        (map parent_state (sort_by stamp ps) ++ map child_state (sort_by stamp cs)) in
    let start : Sound 0 (new parent child) =
      unfold new in record { counted = refl; causal = tt; past = tt } in
    let (now, s) = arrive_all-Sound 0 xs (new parent child, none) sorted (All-zero xs) start in
    ((arrive_all xs (new parent child, none)).0, rw differ refl, s.counted, s.causal)
