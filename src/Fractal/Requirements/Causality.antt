-- ===== src/Fractal/Requirements/Causality.antt =====
-- A lifecycle depends on the past only.
use mathlib.Core.List.{map-append}
use forex_platform.Fractal.Requirements.{
  Arrival, MergeState, RequirementLifecycle, arrive_all, build_requirement_lifecycle, child_state,
  head_timeframe, merged, new, parent_state, rank, same_timeframe, stamp,
}
use forex_platform.Fractal.Requirements.Growth.{Grown, arrive_all-Grown, arrive_all-append}
use forex_platform.Fractal.States.{CanonicalTimeframeState}
use forex_platform.Prelude.{
  ℕ, ◌+◌, ◌*◌, ◌≤◌, ◌<◌, if◌then◌else◌, none, List, [], ◌∷◌, ◌++◌, map, All, insert_by, sort_by,
  sort_by_split, sort_by_blocks, All-sort_by, ok, err, ◌≡◌, ◌≢◌, ◌∙◌, ap, refl, subst, arith,
  Bool-cases, inl, inr, value_error,
}

abbrev pub Upto : ℕ → List CanonicalTimeframeState → Type 0
Upto t = All (λ s. s.timestamp ≤ t)

abbrev pub After : ℕ → List CanonicalTimeframeState → Type 0
After t = All (λ s. t < s.timestamp)

All-map :
    (P : Arrival → Type 0) (f : CanonicalTimeframeState → Arrival)
    (Q : CanonicalTimeframeState → Type 0) (xs : List CanonicalTimeframeState)
    → ((s : CanonicalTimeframeState) → Q s → P (f s))
    → All Q xs
    → All P (map f xs)
All-map P f Q [] h all = tt
All-map P f Q (x ∷ xs) h all = (h x all.0, All-map P f Q xs h all.1)

-- The arrivals up to a time come before those after it.
merged_split :
    (t : ℕ) (ps qs cs ds : List CanonicalTimeframeState)
    → Upto t ps
    → After t qs
    → Upto t cs
    → After t ds
    → merged (ps ++ qs) (cs ++ ds) ≡ merged ps cs ++ merged qs ds
unfolding merged
merged_split t ps qs cs ds hp hq hc hd =
    rw
      (
        sort_by_split stamp t ps qs hp hq,
        sort_by_split stamp t cs ds hc hd,
        map-append parent_state (sort_by stamp ps) (sort_by stamp qs),
        map-append child_state (sort_by stamp cs) (sort_by stamp ds),
      )
      (sort_by_blocks rank (2 * t + 1) (map parent_state (sort_by stamp ps))
        (map parent_state (sort_by stamp qs)) (map child_state (sort_by stamp cs))
        (map child_state (sort_by stamp ds))
        (All-map (λ a. rank a ≤ 2 * t + 1) parent_state (λ s. s.timestamp ≤ t) (sort_by stamp ps)
          (λ s h. omega arith) (All-sort_by stamp (λ s. s.timestamp ≤ t) ps hp))
        (All-map (λ a. 2 * t + 1 < rank a) parent_state (λ s. t < s.timestamp) (sort_by stamp qs)
          (λ s h. omega arith) (All-sort_by stamp (λ s. t < s.timestamp) qs hq))
        (All-map (λ a. rank a ≤ 2 * t + 1) child_state (λ s. s.timestamp ≤ t) (sort_by stamp cs)
          (λ s h. omega arith) (All-sort_by stamp (λ s. s.timestamp ≤ t) cs hc))
        (All-map (λ a. 2 * t + 1 < rank a) child_state (λ s. t < s.timestamp) (sort_by stamp ds)
          (λ s h. omega arith) (All-sort_by stamp (λ s. t < s.timestamp) ds hd)))

insert_by-ne-nil :
    (x : CanonicalTimeframeState) (xs : List CanonicalTimeframeState) → insert_by stamp x xs ≢ []
unfolding insert_by
insert_by-ne-nil x [] e = cc
insert_by-ne-nil x (y ∷ ys) e = ground arith

head_append :
    (xs ys : List CanonicalTimeframeState) → xs ≢ [] → head_timeframe (xs ++ ys) ≡ head_timeframe xs
head_append [] ys h = absurd (h refl)
head_append (x ∷ xs) ys h = refl

-- Later states do not change the timeframe that a history starts with.
head_sorted :
    (t : ℕ) (xs ys : List CanonicalTimeframeState)
    → xs ≢ []
    → Upto t xs
    → After t ys
    → head_timeframe (sort_by stamp (xs ++ ys)) ≡ head_timeframe (sort_by stamp xs)
unfolding sort_by
head_sorted t [] ys ne h k = absurd (ne refl)
head_sorted t (x ∷ xs) ys ne h k =
    ap head_timeframe (sort_by_split stamp t (x ∷ xs) ys h k)
    ∙ head_append (sort_by stamp (x ∷ xs)) (sort_by stamp ys)
        (insert_by-ne-nil x (sort_by stamp xs))

-- When both histories have states up to a time, later states change nothing that a lifecycle recorded up to it: a
-- longer pair of histories builds the events and the resolutions of the shorter one, with more behind them.
pub build_requirement_lifecycle_prefix :
    (t : ℕ) (ps qs cs ds : List CanonicalTimeframeState) (full : RequirementLifecycle)
    → ps ≢ []
    → cs ≢ []
    → Upto t ps
    → After t qs
    → Upto t cs
    → After t ds
    → build_requirement_lifecycle (ps ++ qs) (cs ++ ds) ≡ ok full
    → (l : RequirementLifecycle) × (build_requirement_lifecycle ps cs ≡ ok l) × Grown l full
unfolding build_requirement_lifecycle
build_requirement_lifecycle_prefix t ps qs cs ds full np nc hp hq hc hd built =
    let parent = head_timeframe (sort_by stamp ps) in
    let child = head_timeframe (sort_by stamp cs) in
    let start : MergeState = (new parent child, none) in
    let past = arrive_all (merged ps cs) start in
    let same : (if same_timeframe parent child
          then err value_error
          else ok (arrive_all (merged qs ds) past).0)
        ≡ ok full =
      rw
        (
          head_sorted t ps qs np hp hq,
          head_sorted t cs ds nc hc hd,
          merged_split t ps qs cs ds hp hq hc hd,
          arrive_all-append (merged ps cs) (merged qs ds) start,
        )
        at built in
    elim (Bool-cases (same_timeframe parent child)) [
      | inl clash ↦ absurd (ground arith)
      | inr apart ↦
          let ends : (arrive_all (merged qs ds) past).0 ≡ full = ground arith in
          (past.0, ground arith, subst (Grown past.0) ends (arrive_all-Grown (merged qs ds) past))
    ]
