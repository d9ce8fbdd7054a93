-- ===== src/Prelude/Dicts.antt =====
-- A Python dict keyed by text, in insertion order.
use mathlib.Core.Path.{◌≡◌, refl, subst, sym}
use mathlib.Core.Bool.{Bool, true, false, ◌||◌}
use mathlib.Core.Option.{Option, none, some}
use mathlib.Core.List.{List, [], ◌∷◌, map}
use native.Mathlib.Omega.{arith}
use mathlib.Core.Logic.{◌↔◌, inl, inr}
use forex_platform.Prelude.Tests.{if◌then◌else◌, Bool-cases}
use forex_platform.Prelude.Lists.{All}
use forex_platform.Prelude.Texts.{Text, text_eq, text_eq_iff, text_eq_sound, is_member, add_sorted}

abbrev pub Dict {ℓ} : Type ℓ → Type ℓ
Dict V = List (Text × V)

module _ {ℓ} {V : Type ℓ} where
  unfoldable pub lookup : Text → Dict V → Option V
  lookup k [] = none
  lookup k ((j, v) ∷ d) = if text_eq k j then some v else lookup k d

  -- `k in d`
  abbrev pub contains : Text → Dict V → Bool
  contains k d = elim (lookup k d) [ none ↦ false | some _ ↦ true ]

  -- `d[k] = v`: a known key keeps its place
  unfoldable pub insert : Text → V → Dict V → Dict V
  insert k v [] = (k, v) ∷ []
  insert k v ((j, w) ∷ d) = if text_eq k j then (j, v) ∷ d else (j, w) ∷ insert k v d

  -- `d.pop(k, None)`, `del d[k]`
  unfoldable pub erase : Text → Dict V → Dict V
  erase k [] = []
  erase k ((j, w) ∷ d) = if text_eq k j then erase k d else (j, w) ∷ erase k d

  pub lookup-insert :
      (k j : Text) (v : V) (d : Dict V)
      → lookup j (insert k v d) ≡ (if text_eq j k then some v else lookup j d)
  unfolding lookup insert
  lookup-insert k j v [] = refl
  lookup-insert k j v ((i, w) ∷ d) =
      ground (arith, text_eq_iff k i, text_eq_iff j i, text_eq_iff j k, lookup-insert k j v d)

  pub lookup-erase :
      (k j : Text) (d : Dict V) → lookup j (erase k d) ≡ (if text_eq j k then none else lookup j d)
  unfolding lookup erase
  lookup-erase k j [] = ground arith
  lookup-erase k j ((i, w) ∷ d) =
      ground (arith, text_eq_iff k i, text_eq_iff j i, text_eq_iff j k, lookup-erase k j d)

-- `d.values()`
abbrev pub values {ℓ} : {V : Type ℓ} → Dict V → List V
values d = map (λ e. e.1) d

pub ruleset dict_laws = (lookup-insert, lookup-erase)

-- No key is listed twice.
abbrev pub Distinct {ℓ} : {V : Type ℓ} → Dict V → Type ℓ
Distinct [] = Unit
Distinct ((k, v) ∷ d) = (lookup k d ≡ none) × Distinct d

module _ {ℓ} {V : Type ℓ} where
  pub insert-Distinct : (k : Text) (v : V) (d : Dict V) → Distinct d → Distinct (insert k v d)
  unfolding lookup insert
  insert-Distinct k v [] h = (refl, tt)
  insert-Distinct k v ((j, w) ∷ d) h =
      ground
        (arith, insert-Distinct k v d h.1, lookup-insert k j v d, text_eq_iff j k, text_eq_iff k j)

  pub erase-Distinct : (k : Text) (d : Dict V) → Distinct d → Distinct (erase k d)
  unfolding lookup erase
  erase-Distinct k [] h = h
  erase-Distinct k ((j, w) ∷ d) h = ground (arith, erase-Distinct k d h.1, lookup-erase k j d)

module _ {ℓ} {V : Type ℓ} (P : Text × V → Type 0) where
  -- A new key adds its entry, and an old one may replace one.
  pub All-insert_new :
      (k : Text) (v : V) (d : Dict V)
      → lookup k d ≡ none
      → All P (insert k v d) ↔ (P (k, v) × All P d)
  unfolding lookup insert
  All-insert_new k v [] e = (λ h. h, λ h. h)
  All-insert_new k v ((j, w) ∷ d) e = elim (Bool-cases (text_eq k j)) [
    | inl same ↦ absurd (ground arith)
    | inr other ↦
        let ih = All-insert_new k v d (rw other at e) in
        rw other (λ h. ((ih.0 h.1).0, (h.0, (ih.0 h.1).1)), λ h. (h.1.0, ih.1 (h.0, h.1.1)))
  ]

  pub All-lookup :
      (k : Text) {v : V} (d : Dict V)
      → ((j : Text) (w : V) → P (j, w) → text_eq k j ≡ true → P (k, w))
      → All P d
      → lookup k d ≡ some v
      → P (k, v)
  unfolding lookup
  All-lookup k [] same h e = cc
  All-lookup k {v} ((j, w) ∷ d) same h e = elim (Bool-cases (text_eq k j)) [
    | inl hit ↦ let at_v : w ≡ v = ground arith in subst (λ x. P (k, x)) at_v (same j w h.0 hit)
    | inr miss ↦ All-lookup k d same h.1 (rw miss at e)
  ]

pub is_member-All :
    (P : Text → Type 0) (s : Text) (ts : List Text) → is_member s ts ≡ true → All P ts → P s
unfolding is_member
is_member-All P s [] h all = cc
is_member-All P s (t ∷ ts) h all = elim (Bool-cases (text_eq s t)) [
  | inl same ↦ subst P (sym (text_eq_sound s t same)) all.0
  | inr other ↦ is_member-All P s ts (ground arith) all.1
]

-- A member of a sorted list with one more text.
pub is_member-add_sorted :
    (k s : Text) (ts : List Text) → is_member k (add_sorted s ts) ≡ (text_eq k s || is_member k ts)
unfolding is_member add_sorted
is_member-add_sorted k s [] = refl
is_member-add_sorted k s (t ∷ ts) =
    ground (arith, is_member-add_sorted k s ts, text_eq_iff s t, text_eq_iff k s, text_eq_iff k t)
