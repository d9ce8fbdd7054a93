-- ===== src/Fractal/Hypotheses/Distribution.antt =====
-- The distribution that a hypothesis gives.
use forex_platform.Fractal.Graph.{SetStateView}
use forex_platform.Fractal.Hypotheses.{
  Engine, FractalHypothesis, PathAlternative, TransitionObservation, alternative,
  conditional_hypothesis, count_one, counter, hypothesis, infer, categorical_condition,
  insufficient_historical_evidence, insert_outcome, precedes, prior, ranked, total,
}
use forex_platform.Fractal.Hypotheses.Counts.{
  IsEarlier, Selects, counted, counted-occurrences, occurrences, prior-Selects,
}
use forex_platform.Fractal.Ladder.{normalized_set_key}
use forex_platform.Fractal.States.{CanonicalTimeframeState}
use forex_platform.Prelude.{
  ℕ, ◌+◌, ◌≤◌, subst, ◌⊎◌, Result-cases, ok, Option-cases, ltb, Bool-cases, All, length, some, List,
  [], ◌∷◌, ◌++◌, map, Text, Dict, ◌≡◌, ◌∙◌, refl, ap, arith, inl, inr,
}

total-count_one : (o : Text) (counts : Dict ℕ) → total (count_one o counts) ≡ total counts + 1
unfolding total count_one
total-count_one o [] = refl
total-count_one o ((p, n) ∷ counts) = ground (arith, total-count_one o counts)

total-counter :
    (items : List TransitionObservation) (counts : Dict ℕ)
    → total (counter items counts) ≡ total counts + length items
unfolding counter
total-counter [] counts = omega arith
total-counter (x ∷ xs) counts =
    omega (arith, total-counter xs (count_one x.outcome counts), total-count_one x.outcome counts)

total-insert_outcome : (x : Text × ℕ) (ys : Dict ℕ) → total (insert_outcome x ys) ≡ x.1 + total ys
unfolding total insert_outcome
total-insert_outcome x [] = refl
total-insert_outcome x (y ∷ ys) = ground (arith, total-insert_outcome x ys)

total-ranked : (xs : Dict ℕ) → total (ranked xs) ≡ total xs
unfolding total ranked
total-ranked [] = refl
total-ranked (x ∷ xs) = ground (arith, total-ranked xs, total-insert_outcome x (ranked xs))

-- No count is below a later one.
abbrev IsFalling : Dict ℕ → Type 0
IsFalling [] = Unit
IsFalling (x ∷ xs) = All (λ (y : Text × ℕ). y.1 ≤ x.1) xs × IsFalling xs

All-insert_outcome :
    (n : ℕ) (x : Text × ℕ) (ys : Dict ℕ)
    → x.1 ≤ n
    → All (λ (y : Text × ℕ). y.1 ≤ n) ys
    → All (λ (y : Text × ℕ). y.1 ≤ n) (insert_outcome x ys)
unfolding insert_outcome
All-insert_outcome n x [] h all = (h, tt)
All-insert_outcome n x (y ∷ ys) h all = ground (arith, All-insert_outcome n x ys h all.1)

All-up :
    (m n : ℕ) (ys : Dict ℕ)
    → m ≤ n
    → All (λ (y : Text × ℕ). y.1 ≤ m) ys
    → All (λ (y : Text × ℕ). y.1 ≤ n) ys
All-up m n [] h all = tt
All-up m n (y ∷ ys) h all = (omega (arith, all.0), All-up m n ys h all.1)

insert_outcome-IsFalling :
    (x : Text × ℕ) (ys : Dict ℕ) → IsFalling ys → IsFalling (insert_outcome x ys)
unfolding insert_outcome
insert_outcome-IsFalling x [] h = (tt, tt)
insert_outcome-IsFalling x (y ∷ ys) h = elim (Bool-cases (precedes x y)) [
  | inl first ↦ let le : y.1 ≤ x.1 = ground arith in rw first ((le, All-up y.1 x.1 ys le h.0), h)
  | inr later ↦
      let le : x.1 ≤ y.1 = ground arith in
      rw later (All-insert_outcome y.1 x ys le h.0, insert_outcome-IsFalling x ys h.1)
]

ranked-IsFalling : (xs : Dict ℕ) → IsFalling (ranked xs)
unfolding ranked
ranked-IsFalling [] = tt
ranked-IsFalling (x ∷ xs) = insert_outcome-IsFalling x (ranked xs) (ranked-IsFalling xs)

abbrev weight : List PathAlternative → ℕ
weight [] = 0
weight (a ∷ as_) = a.count + weight as_

-- The alternatives, with the most frequent first.
abbrev IsRanked : List PathAlternative → Type 0
IsRanked [] = Unit
IsRanked (a ∷ as_) = All (λ (b : PathAlternative). b.count ≤ a.count) as_ × IsRanked as_

weight-alternative : (n : ℕ) (xs : Dict ℕ) → weight (map (alternative n) xs) ≡ total xs
unfolding total
weight-alternative n [] = refl
weight-alternative n (x ∷ xs) = ap (λ (k : ℕ). x.1 + k) (weight-alternative n xs)

All-alternative :
    (n m : ℕ) (xs : Dict ℕ)
    → All (λ (y : Text × ℕ). y.1 ≤ m) xs
    → All (λ (b : PathAlternative). b.count ≤ m) (map (alternative n) xs)
All-alternative n m [] all = tt
All-alternative n m (x ∷ xs) all = (all.0, All-alternative n m xs all.1)

alternative-IsRanked : (n : ℕ) (xs : Dict ℕ) → IsFalling xs → IsRanked (map (alternative n) xs)
alternative-IsRanked n [] h = tt
alternative-IsRanked n (x ∷ xs) h = (All-alternative n x.1 xs h.0, alternative-IsRanked n xs h.1)

shares :
    (n : ℕ) (xs : Dict ℕ)
    → All (λ (a : PathAlternative). a.probability ≡ (a.count, n)) (map (alternative n) xs)
shares n [] = tt
shares n (x ∷ xs) = (refl, shares n xs)

-- What a hypothesis says of a number of observations.
abbrev pub Weighs : ℕ → ℕ → FractalHypothesis → Type 0
Weighs least n h =
    (h.historical_sample_count ≡ n)
    × (((n + 1 ≤ least)
          × (h.status ≡ insufficient_historical_evidence)
          × (h.acceptable_alternatives ≡ []))
        ⊎ ((least ≤ n)
            × (h.status ≡ conditional_hypothesis)
            × (weight h.acceptable_alternatives ≡ n)
            × All (λ (a : PathAlternative). a.probability ≡ (a.count, n)) h.acceptable_alternatives
            × IsRanked h.acceptable_alternatives))

-- What it says of some observations: it counts each outcome as often as they have it.
abbrev pub Distributes : ℕ → List TransitionObservation → FractalHypothesis → Type 0
Distributes least items h =
    Weighs least (length items) h
    × ((length items + 1 ≤ least)
        ⊎ ((o : Text) → counted o h.acceptable_alternatives ≡ occurrences o items))

hypothesis-Weighs :
    (least : ℕ) (key : Text) (view : SetStateView) (htf : CanonicalTimeframeState)
    (condition : List Text) (counts : Dict ℕ)
    → Weighs least (total counts) (hypothesis least key view htf condition counts)
unfolding hypothesis
hypothesis-Weighs least key view htf condition counts =
    let n = total counts in
    elim (Bool-cases (ltb n least)) [
      | inl few ↦ rw few (refl, inl (ground arith, refl, refl))
      | inr enough ↦ rw enough (
        refl,
        inr (
          ground arith,
          refl,
          weight-alternative n (ranked counts) ∙ total-ranked counts,
          shares n (ranked counts),
          alternative-IsRanked n (ranked counts) (ranked-IsFalling counts),
        ),
      )
    ]

hypothesis-counted :
    (least : ℕ) (key : Text) (view : SetStateView) (htf : CanonicalTimeframeState)
    (condition : List Text) (items : List TransitionObservation)
    → total (counter items []) ≡ length items
    → let h = hypothesis least key view htf condition (counter items []) in
      (length items + 1 ≤ least)
      ⊎ ((o : Text) → counted o h.acceptable_alternatives ≡ occurrences o items)
unfolding hypothesis
hypothesis-counted least key view htf condition items n =
    let t = total (counter items []) in
    elim (Bool-cases (ltb t least)) [
      | inl few ↦ inl (ground (arith, n, few))
      | inr enough ↦ inr (λ o. rw enough (counted-occurrences o t items))
    ]

infer_complete :
    (view : SetStateView) (engine : Engine) (key : Text) (htf mtf ltf : CanonicalTimeframeState)
    (h : FractalHypothesis)
    → normalized_set_key view.set_key ≡ ok key
    → view.htf ≡ some htf
    → view.mtf ≡ some mtf
    → view.ltf ≡ some ltf
    → let condition = categorical_condition htf mtf in
      hypothesis engine.min_observations key view htf condition
          (counter (prior key condition view.timestamp engine.observations) [])
        ≡ h
      → infer view engine ≡ ok h
unfolding infer
infer_complete view engine key htf mtf ltf h named has_htf has_mtf has_ltf same =
    rw (named, has_htf, has_mtf, has_ltf) (ap (λ (x : FractalHypothesis). ok x) same)

-- For a view with its three states and a valid set key, a hypothesis is returned on the observations that are of
-- that set, under the condition of its two upper states, and earlier than the view: with fewer than the
-- engine's least number it has no alternative; otherwise its alternatives count each outcome as often as
-- those observations have it, their counts sum to the number of the observations, each probability is the
-- count over that number, and no count is below a later one.
pub infer_distribution :
    (view : SetStateView) (engine : Engine) (key : Text) (htf mtf ltf : CanonicalTimeframeState)
    → normalized_set_key view.set_key ≡ ok key
    → view.htf ≡ some htf
    → view.mtf ≡ some mtf
    → view.ltf ≡ some ltf
    → (items : List TransitionObservation) × Selects
        (IsEarlier key (categorical_condition htf mtf) view.timestamp)
        engine.observations
        items
      × ((h : FractalHypothesis) × (infer view engine ≡ ok h)
          × Distributes engine.min_observations items h)
infer_distribution view engine key htf mtf ltf named has_htf has_mtf has_ltf =
    let condition = categorical_condition htf mtf in
    let items = prior key condition view.timestamp engine.observations in
    let counts = counter items [] in
    let least = engine.min_observations in
    let h = hypothesis least key view htf condition counts in
    let n : total counts ≡ length items = unfold total in omega (arith, total-counter items []) in
    (
      items,
      prior-Selects key condition view.timestamp engine.observations,
      (
        h,
        infer_complete view engine key htf mtf ltf h named has_htf has_mtf has_ltf refl,
        (
          subst (λ (k : ℕ). Weighs least k h) n
              (hypothesis-Weighs least key view htf condition counts),
          hypothesis-counted least key view htf condition items n,
        ),
      ),
    )

prior_later :
    (key : Text) (condition : List Text) (now : ℕ) (xs ys : List TransitionObservation)
    → All (λ (y : TransitionObservation). now ≤ y.timestamp) ys
    → prior key condition now (xs ++ ys) ≡ prior key condition now xs
unfolding prior
prior_later key condition now [] [] late = refl
prior_later key condition now [] (y ∷ ys) late =
    ground (arith, prior_later key condition now [] ys late.1, late.0)
prior_later key condition now (x ∷ xs) ys late =
    ground (arith, prior_later key condition now xs ys late)

-- Observations at the instant of a view or later change nothing of what is inferred for it.
pub infer_causal :
    (view : SetStateView) (engine : Engine) (later : List TransitionObservation)
    → All (λ (y : TransitionObservation). view.timestamp ≤ y.timestamp) later
    → infer view (record engine { observations = engine.observations ++ later }) ≡ infer view engine
unfolding infer
infer_causal view engine later late = elim (Result-cases (normalized_set_key view.set_key)) [
  | inr (e, wrong) ↦ rw wrong refl
  | inl (key, named) ↦ elim (Option-cases view.htf) [
    | inl missing ↦ rw (named, missing) refl
    | inr (htf, has_htf) ↦ elim (Option-cases view.mtf) [
      | inl missing ↦ rw (named, has_htf, missing) refl
      | inr (mtf, has_mtf) ↦ elim (Option-cases view.ltf) [
        | inl missing ↦ rw (named, has_htf, has_mtf, missing) refl
        | inr (ltf, has_ltf) ↦
            rw
              (
                named,
                has_htf,
                has_mtf,
                has_ltf,
                prior_later key (categorical_condition htf mtf) view.timestamp engine.observations
                    later late,
              )
              refl
      ]
    ]
  ]
]
