-- ===== src/Fractal/Hypotheses/Counts.antt =====
-- Which observations a hypothesis is made of, and how often each outcome is among them.
use forex_platform.Fractal.Hypotheses.{
  PathAlternative, TransitionObservation, alternative, count_one, counter, insert_outcome, matches,
  prior, ranked, texts_eq,
}
use forex_platform.Prelude.{
  ℕ, ◌+◌, ◌<◌, true, if◌then◌else◌, Bool-cases, List, [], ◌∷◌, map, Text, text_eq, text_eq_iff,
  text_eq_sound, Dict, ◌≡◌, ◌⊎◌, ap, refl, arith, inl, inr, ltb,
}

-- An observation of the set under the condition, before an instant.
abbrev pub IsEarlier : Text → List Text → ℕ → TransitionObservation → Type 0
IsEarlier key condition now item =
    (item.set_key ≡ key) × (item.condition_key ≡ condition) × (item.timestamp < now)

-- The items are those of a list that have a property, in its order.
abbrev pub Selects :
    (TransitionObservation → Type 0)
    → List TransitionObservation
    → List TransitionObservation
    → Type 0
Selects P [] items = items ≡ []
Selects P (x ∷ xs) items =
    (P x × ((rest : List TransitionObservation) × (items ≡ x ∷ rest) × Selects P xs rest))
    ⊎ ((P x → ⊥) × Selects P xs items)

texts_eq_sound : (ss ts : List Text) → texts_eq ss ts ≡ true → ss ≡ ts
texts_eq_sound [] [] e = refl
texts_eq_sound [] (t ∷ ts) e = absurd (ground arith)
texts_eq_sound (s ∷ ss) [] e = absurd (ground arith)
texts_eq_sound (s ∷ ss) (t ∷ ts) e =
    let head : s ≡ t = text_eq_sound s t (ground arith) in
    let tail : ss ≡ ts = texts_eq_sound ss ts (ground arith) in rw (head, tail) refl

text_eq_self : (s : Text) → text_eq s s ≡ true
text_eq_self s = ground (arith, text_eq_iff s s)

texts_eq_self : (ss : List Text) → texts_eq ss ss ≡ true
texts_eq_self [] = refl
texts_eq_self (s ∷ ss) = rw (text_eq_self s, texts_eq_self ss) refl

matches-IsEarlier :
    (key : Text) (condition : List Text) (now : ℕ) (item : TransitionObservation)
    → matches key condition now item ≡ true
    → IsEarlier key condition now item
matches-IsEarlier key condition now item e = (
  text_eq_sound item.set_key key (ground arith),
  texts_eq_sound item.condition_key condition (ground arith),
  ground arith,
)

IsEarlier-matches :
    (key : Text) (condition : List Text) (now : ℕ) (item : TransitionObservation)
    → IsEarlier key condition now item
    → matches key condition now item ≡ true
IsEarlier-matches key condition now item (same_key, same_condition, earlier) =
    let in_time : ltb item.timestamp now ≡ true = ground arith in
    rw (same_key, same_condition, text_eq_self key, texts_eq_self condition, in_time) refl

pub prior-Selects :
    (key : Text) (condition : List Text) (now : ℕ) (items : List TransitionObservation)
    → Selects (IsEarlier key condition now) items (prior key condition now items)
unfolding prior
prior-Selects key condition now [] = refl
prior-Selects key condition now (x ∷ xs) = elim (Bool-cases (matches key condition now x)) [
  | inl fits ↦ rw fits (
      inl (
        matches-IsEarlier key condition now x fits,
        (prior key condition now xs, refl, prior-Selects key condition now xs),
      ))
  | inr other ↦ rw other (
      inr (
        λ h.
            let fits = IsEarlier-matches key condition now x h in
            absurd (ground (arith, fits, other)),
        prior-Selects key condition now xs,
      ))
]

-- How many observations have an outcome.
abbrev pub occurrences : Text → List TransitionObservation → ℕ
occurrences o [] = 0
occurrences o (item ∷ items) = (if text_eq o item.outcome then 1 else 0) + occurrences o items

-- What the alternatives count for an outcome.
abbrev pub counted : Text → List PathAlternative → ℕ
counted o [] = 0
counted o (a ∷ as_) = (if text_eq o a.outcome then a.count else 0) + counted o as_

abbrev share : Text → Dict ℕ → ℕ
share o [] = 0
share o ((p, n) ∷ counts) = (if text_eq o p then n else 0) + share o counts

share-count_one :
    (o p : Text) (counts : Dict ℕ)
    → share o (count_one p counts) ≡ (if text_eq o p then 1 else 0) + share o counts
unfolding count_one
share-count_one o p [] = refl
share-count_one o p ((q, n) ∷ counts) = elim (Bool-cases (text_eq p q)) [
  | inl same ↦
      let e : p ≡ q = text_eq_sound p q same in
      elim (Bool-cases (text_eq o q)) [
        | inl here ↦ rw (same, e, here) (omega arith)
        | inr there ↦ rw (same, e, there) (omega arith)
      ]
  | inr other ↦ rw (other, share-count_one o p counts) (omega arith)
]

share-counter :
    (o : Text) (items : List TransitionObservation) (counts : Dict ℕ)
    → share o (counter items counts) ≡ occurrences o items + share o counts
unfolding counter
share-counter o [] counts = omega arith
share-counter o (x ∷ xs) counts =
    omega
      (arith, share-counter o xs (count_one x.outcome counts), share-count_one o x.outcome counts)

share-insert_outcome :
    (o : Text) (x : Text × ℕ) (ys : Dict ℕ) → share o (insert_outcome x ys) ≡ share o (x ∷ ys)
unfolding insert_outcome
share-insert_outcome o x [] = refl
share-insert_outcome o x (y ∷ ys) = ground (arith, share-insert_outcome o x ys)

share-ranked : (o : Text) (xs : Dict ℕ) → share o (ranked xs) ≡ share o xs
unfolding ranked
share-ranked o [] = refl
share-ranked o (x ∷ xs) = omega (arith, share-ranked o xs, share-insert_outcome o x (ranked xs))

counted-alternative :
    (o : Text) (n : ℕ) (xs : Dict ℕ) → counted o (map (alternative n) xs) ≡ share o xs
counted-alternative o n [] = refl
counted-alternative o n ((p, m) ∷ xs) =
    ap (λ (k : ℕ). (if text_eq o p then m else 0) + k) (counted-alternative o n xs)

-- The ranked alternatives of some observations count each outcome as often as it occurs.
pub counted-occurrences :
    (o : Text) (n : ℕ) (items : List TransitionObservation)
    → counted o (map (alternative n) (ranked (counter items []))) ≡ occurrences o items
counted-occurrences o n items = omega (
  arith,
  counted-alternative o n (ranked (counter items [])),
  share-ranked o (counter items []),
  share-counter o items [],
)
