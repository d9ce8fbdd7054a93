-- ===== src/Fractal/Graph/Views.antt =====
-- A view does not see later states.
use forex_platform.Fractal.Graph.{
  CausalMovementLedger, Histories, build_set_views, history_of, normalized, stamp, state_asof,
  view_at,
}
use forex_platform.Fractal.Ladder.{CanonicalTimeframe, Roles, normalized_set_key, timeframe_sets}
use forex_platform.Fractal.Timeline.{insert_time, sorted_set}
use forex_platform.Fractal.Timeline.Latest.{as_of-until, until}
use forex_platform.Prelude.{
  ℕ, ◌≤◌, All, List, [], ◌∷◌, map, Option, some, Text, sort_by, ◌≡◌, refl, arith, inl, inr, lookup,
  Result-cases, Option-cases,
}

-- The histories of the states up to an instant.
unfoldable pub known_by : ℕ → Histories → Histories
unfolding until
known_by bound [] = []
known_by bound ((tf, states) ∷ hs) = (tf, until stamp bound states) ∷ known_by bound hs

history_of-normalized :
    (timeframe : CanonicalTimeframe) (hs : Histories)
    → history_of timeframe (normalized hs) ≡ sort_by stamp (history_of timeframe hs)
unfolding history_of normalized
history_of-normalized timeframe [] = unfold sort_by in refl
history_of-normalized timeframe ((tf, states) ∷ hs) =
    ground (arith, history_of-normalized timeframe hs)

history_of-known_by :
    (timeframe : CanonicalTimeframe) (bound : ℕ) (hs : Histories)
    → history_of timeframe (known_by bound hs) ≡ until stamp bound (history_of timeframe hs)
unfolding history_of known_by
history_of-known_by timeframe bound [] = unfold until in refl
history_of-known_by timeframe bound ((tf, states) ∷ hs) =
    ground (arith, history_of-known_by timeframe bound hs)

state_asof-known_by :
    (hs : Histories) (timeframe : CanonicalTimeframe) (bound t : ℕ)
    → t ≤ bound
    → state_asof (normalized (known_by bound hs)) timeframe t
      ≡ state_asof (normalized hs) timeframe t
unfolding state_asof
state_asof-known_by hs timeframe bound t h =
    rw
      (
        history_of-normalized timeframe (known_by bound hs),
        history_of-normalized timeframe hs,
        history_of-known_by timeframe bound hs,
      )
      (as_of-until stamp bound t (history_of timeframe hs) h)

view_at-known_by :
    (key : Text) (roles : Roles) (hs : Histories) (ledger : Option CausalMovementLedger)
    (bound t : ℕ)
    → t ≤ bound
    → view_at key roles (normalized (known_by bound hs)) ledger t
      ≡ view_at key roles (normalized hs) ledger t
unfolding view_at
view_at-known_by key (htf, mtf, ltf) hs ledger bound t h =
    rw
      (
        state_asof-known_by hs htf bound t h,
        state_asof-known_by hs mtf bound t h,
        state_asof-known_by hs ltf bound t h,
      )
      refl

map_eq {ℓ κ} :
    {A : Type ℓ} {B : Type κ} (P : A → Type 0) (f g : A → B) (xs : List A)
    → ((x : A) → P x → f x ≡ g x)
    → All P xs
    → map f xs ≡ map g xs
map_eq P f g [] same all = refl
map_eq P f g (x ∷ xs) same all = rw (same x all.0, map_eq P f g xs same all.1) refl

All-insert_time :
    (bound x : ℕ) (xs : List ℕ)
    → x ≤ bound
    → All (λ (t : ℕ). t ≤ bound) xs
    → All (λ (t : ℕ). t ≤ bound) (insert_time x xs)
unfolding insert_time
All-insert_time bound x [] h all = (h, tt)
All-insert_time bound x (y ∷ ys) h all = ground (arith, All-insert_time bound x ys h all.1)

All-sorted_set :
    (bound : ℕ) (xs : List ℕ)
    → All (λ (t : ℕ). t ≤ bound) xs
    → All (λ (t : ℕ). t ≤ bound) (sorted_set xs)
unfolding sorted_set
All-sorted_set bound [] all = tt
All-sorted_set bound (x ∷ xs) all =
    All-insert_time bound x (sorted_set xs) all.0 (All-sorted_set bound xs all.1)

-- The views of a set at given instants, none of them after a bound, are the same, and the same errors are
-- raised, when the states that come after the bound are removed from every history.
pub build_set_views_causal :
    (hs : Histories) (key : Text) (ts : List ℕ) (ledger : Option CausalMovementLedger) (bound : ℕ)
    → All (λ (t : ℕ). t ≤ bound) ts
    → build_set_views (known_by bound hs) key (some ts) ledger
      ≡ build_set_views hs key (some ts) ledger
unfolding build_set_views
build_set_views_causal hs key ts ledger bound all = elim (Result-cases (normalized_set_key key)) [
  | inl (name, found) ↦ elim (Option-cases (lookup name timeframe_sets)) [
    | inl missing ↦ rw (found, missing) refl
    | inr (roles, known) ↦
        rw
          (
            found,
            known,
            map_eq (λ (t : ℕ). t ≤ bound)
                (view_at name roles (normalized (known_by bound hs)) ledger)
                (view_at name roles (normalized hs) ledger) (sorted_set ts)
                (λ t h. view_at-known_by name roles hs ledger bound t h)
                (All-sorted_set bound ts all),
          )
          refl
  ]
  | inr (e, wrong) ↦ rw wrong refl
]
