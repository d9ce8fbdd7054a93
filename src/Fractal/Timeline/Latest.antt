-- ===== src/Fractal/Timeline/Latest.antt =====
-- What a read at an instant finds, and what it does not depend on.
use forex_platform.Fractal.Timeline.{as_of, bisect_right, item_before}
use forex_platform.Prelude.{
  ℕ, ◌≤◌, ◌<◌, leb, if◌then◌else◌, Option, none, some, List, [], ◌∷◌, map, All, IsSorted, sort_by,
  insert_by, sort_by-IsSorted, ◌≡◌, ◌∙◌, refl, ap, arith, sym, zero, suc, inl, inr, Bool-cases,
}

module _ {ℓ} {A : Type ℓ} (key : A → ℕ) where
  -- The items up to a bound.
  unfoldable pub until : ℕ → List A → List A
  until bound [] = []
  until bound (x ∷ xs) = let rest = until bound xs in if leb (key x) bound then x ∷ rest else rest

  abbrev found : Option A → List A → ℕ → Option A
  found prev xs t = item_before prev (bisect_right (map key xs) t) xs

  item_before-cons :
      (prev : Option A) (x : A) (n : ℕ) (xs : List A)
      → item_before prev (suc n) (x ∷ xs) ≡ item_before (some x) n xs
  item_before-cons prev x zero xs = refl
  item_before-cons prev x (suc n) xs = refl

  found-cons :
      (prev : Option A) (x : A) (xs : List A) (t : ℕ)
      → found prev (x ∷ xs) t ≡ (if leb (key x) t then found (some x) xs t else prev)
  unfolding bisect_right
  found-cons prev x xs t = elim (Bool-cases (leb (key x) t)) [
    | inl early ↦ rw early (item_before-cons prev x (bisect_right (map key xs) t) xs)
    | inr late ↦ rw late refl
  ]

  until_late : (bound : ℕ) (xs : List A) → All (λ x. bound < key x) xs → until bound xs ≡ []
  unfolding until
  until_late bound [] h = refl
  until_late bound (x ∷ xs) h = ground (arith, until_late bound xs h.1, h.0)

  All-lt :
      (bound n : ℕ) (xs : List A)
      → bound < n
      → All (λ y. n ≤ key y) xs
      → All (λ y. bound < key y) xs
  All-lt bound n [] h all = tt
  All-lt bound n (x ∷ xs) h all = (omega (arith, all.0), All-lt bound n xs h all.1)

  found-until :
      (bound t : ℕ) (prev : Option A) (xs : List A)
      → t ≤ bound
      → IsSorted key xs
      → found prev (until bound xs) t ≡ found prev xs t
  unfolding until
  found-until bound t prev [] h sorted = refl
  found-until bound t prev (x ∷ xs) h sorted = elim (Bool-cases (leb (key x) bound)) [
    | inl early ↦ ground (
      arith,
      found-cons prev x (until bound xs) t,
      found-cons prev x xs t,
      found-until bound t (some x) xs h sorted.1,
    )
    | inr late ↦
        let gone : until bound xs ≡ [] =
          until_late bound xs (All-lt bound (key x) xs (ground arith) sorted.0) in
        unfold bisect_right in ground (arith, found-cons prev x xs t, gone)
  ]

  until-insert_by :
      (bound : ℕ) (x : A) (xs : List A)
      → IsSorted key xs
      → until bound (insert_by key x xs)
        ≡ (if leb (key x) bound then insert_by key x (until bound xs) else until bound xs)
  unfolding until insert_by
  until-insert_by bound x [] sorted = ground arith
  until-insert_by bound x (y ∷ ys) sorted = elim (Bool-cases (leb (key y) bound)) [
    | inl early ↦ ground (arith, until-insert_by bound x ys sorted.1)
    | inr late ↦
        let gone : until bound ys ≡ [] =
          until_late bound ys (All-lt bound (key y) ys (ground arith) sorted.0) in
        ground (arith, gone, until-insert_by bound x ys sorted.1)
  ]

  until-sort_by :
      (bound : ℕ) (xs : List A) → until bound (sort_by key xs) ≡ sort_by key (until bound xs)
  unfolding until sort_by
  until-sort_by bound [] = refl
  until-sort_by bound (x ∷ xs) = ground (
    arith,
    until-insert_by bound x (sort_by key xs) (sort_by-IsSorted key xs),
    until-sort_by bound xs,
  )

  -- A read at `t` of a sorted history does not see the items that come after a later bound.
  pub as_of-until :
      (bound t : ℕ) (xs : List A)
      → t ≤ bound
      → as_of key (sort_by key (until bound xs)) t ≡ as_of key (sort_by key xs) t
  unfolding as_of
  as_of-until bound t xs h =
      ap (λ (ys : List A). found none ys t) (sym (until-sort_by bound xs))
      ∙ found-until bound t none (sort_by key xs) h (sort_by-IsSorted key xs)
