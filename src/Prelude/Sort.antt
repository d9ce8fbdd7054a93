-- ===== src/Prelude/Sort.antt =====
-- Python's `sorted`, with a key that is a number: equal keys keep their order.
use Prim.Native.Nat.{ℕ, ◌≤◌, ◌<◌}
use mathlib.Core.Path.{◌≡◌, refl, ap, ◌∙◌}
use mathlib.Core.List.{List, [], ◌∷◌, ◌++◌, append_assoc}
use native.Mathlib.Omega.{arith}
use forex_platform.Prelude.Lists.{All, All-append}
use forex_platform.Prelude.Tests.{leb, if◌then◌else◌}

module _ {ℓ} {A : Type ℓ} (key : A → ℕ) where
  unfoldable pub insert_by : A → List A → List A
  insert_by x [] = x ∷ []
  insert_by x (y ∷ ys) = if leb (key x) (key y) then x ∷ y ∷ ys else y ∷ insert_by x ys

  unfoldable pub sort_by : List A → List A
  unfolding insert_by
  sort_by [] = []
  sort_by (x ∷ xs) = insert_by x (sort_by xs)

  -- No key is above that of a later element.
  abbrev pub IsSorted : List A → Type 0
  IsSorted [] = Unit
  IsSorted (x ∷ xs) = All (λ y. key x ≤ key y) xs × IsSorted xs

  pub All-weaken :
      (m n : ℕ) (xs : List A) → m ≤ n → All (λ y. n ≤ key y) xs → All (λ y. m ≤ key y) xs
  All-weaken m n [] h all = tt
  All-weaken m n (x ∷ xs) h all = (omega arith, All-weaken m n xs h all.1)

  pub All-insert_by :
      (P : A → Type 0) (x : A) (xs : List A) → P x → All P xs → All P (insert_by x xs)
  unfolding insert_by
  All-insert_by P x [] h all = (h, tt)
  All-insert_by P x (y ∷ ys) h all = ground (arith, All-insert_by P x ys h all.1)

  pub All-sort_by : (P : A → Type 0) (xs : List A) → All P xs → All P (sort_by xs)
  unfolding sort_by
  All-sort_by P [] all = tt
  All-sort_by P (x ∷ xs) all = All-insert_by P x (sort_by xs) all.0 (All-sort_by P xs all.1)

  insert_by-IsSorted : (x : A) (xs : List A) → IsSorted xs → IsSorted (insert_by x xs)
  unfolding insert_by
  insert_by-IsSorted x [] h = (tt, tt)
  insert_by-IsSorted x (y ∷ ys) h = ground (
    arith,
    insert_by-IsSorted x ys h.1,
    All-weaken (key x) (key y) ys,
    All-insert_by (λ z. key y ≤ key z) x ys,
  )

  pub sort_by-IsSorted : (xs : List A) → IsSorted (sort_by xs)
  unfolding sort_by
  sort_by-IsSorted [] = tt
  sort_by-IsSorted (x ∷ xs) = insert_by-IsSorted x (sort_by xs) (sort_by-IsSorted xs)

  -- An element that is below all of the second list is placed in the first.
  insert_by-append :
      (x : A) (xs ys : List A)
      → All (λ y. key x ≤ key y) ys
      → insert_by x (xs ++ ys) ≡ insert_by x xs ++ ys
  unfolding insert_by
  insert_by-append x [] [] h = refl
  insert_by-append x [] (y ∷ ys) h = ground arith
  insert_by-append x (z ∷ zs) ys h = ground (arith, insert_by-append x zs ys h)

  -- The elements of a list, placed in a sorted one.
  abbrev insert_all : List A → List A → List A
  insert_all [] ys = ys
  insert_all (x ∷ xs) ys = insert_by x (insert_all xs ys)

  sort_by-insert_all : (xs ys : List A) → sort_by (xs ++ ys) ≡ insert_all xs (sort_by ys)
  unfolding sort_by
  sort_by-insert_all [] ys = refl
  sort_by-insert_all (x ∷ xs) ys = ap (insert_by x) (sort_by-insert_all xs ys)

  All-le : (m t : ℕ) (xs : List A) → m ≤ t → All (λ y. t < key y) xs → All (λ y. m ≤ key y) xs
  All-le m t [] h all = tt
  All-le m t (x ∷ xs) h all = (omega arith, All-le m t xs h all.1)

  -- Early elements are placed in the first part, and late ones in the second.
  insert_all_early :
      (t : ℕ) (xs ys zs : List A)
      → All (λ x. key x ≤ t) xs
      → All (λ z. t < key z) zs
      → insert_all xs (ys ++ zs) ≡ insert_all xs ys ++ zs
  insert_all_early t [] ys zs h k = refl
  insert_all_early t (x ∷ xs) ys zs h k =
      ap (insert_by x) (insert_all_early t xs ys zs h.1 k)
      ∙ insert_by-append x (insert_all xs ys) zs (All-le (key x) t zs h.0 k)

  insert_by_late :
      (t : ℕ) (x : A) (ys zs : List A)
      → t < key x
      → All (λ y. key y ≤ t) ys
      → insert_by x (ys ++ zs) ≡ ys ++ insert_by x zs
  unfolding insert_by
  insert_by_late t x [] zs h k = refl
  insert_by_late t x (y ∷ ys) zs h k = ground (arith, insert_by_late t x ys zs h k.1)

  insert_all_late :
      (t : ℕ) (xs ys zs : List A)
      → All (λ x. t < key x) xs
      → All (λ y. key y ≤ t) ys
      → insert_all xs (ys ++ zs) ≡ ys ++ insert_all xs zs
  insert_all_late t [] ys zs h k = refl
  insert_all_late t (x ∷ xs) ys zs h k =
      ap (insert_by x) (insert_all_late t xs ys zs h.1 k)
      ∙ insert_by_late t x ys (insert_all xs zs) h.0 k

  -- Elements up to a bound are sorted before those above it.
  pub sort_by_split :
      (t : ℕ) (xs ys : List A)
      → All (λ x. key x ≤ t) xs
      → All (λ y. t < key y) ys
      → sort_by (xs ++ ys) ≡ sort_by xs ++ sort_by ys
  unfolding sort_by
  sort_by_split t [] ys h k = refl
  sort_by_split t (x ∷ xs) ys h k =
      ap (insert_by x) (sort_by_split t xs ys h.1 k)
      ∙ insert_by-append x (sort_by xs) (sort_by ys)
          (All-le (key x) t (sort_by ys) h.0 (All-sort_by (λ y. t < key y) ys k))

  -- So too where two lists have such parts.
  pub sort_by_blocks :
      (t : ℕ) (ps qs xs ys : List A)
      → All (λ p. key p ≤ t) ps
      → All (λ q. t < key q) qs
      → All (λ x. key x ≤ t) xs
      → All (λ y. t < key y) ys
      → sort_by ((ps ++ qs) ++ (xs ++ ys)) ≡ sort_by (ps ++ xs) ++ sort_by (qs ++ ys)
  sort_by_blocks t ps qs xs ys hp hq hx hy =
      let late = All-sort_by (λ y. t < key y) ys hy in
      let early = All-sort_by (λ x. key x ≤ t) xs hx in
      rw
        (
          append_assoc ps qs (xs ++ ys),
          sort_by-insert_all ps (qs ++ (xs ++ ys)),
          sort_by-insert_all qs (xs ++ ys),
          sort_by_split t xs ys hx hy,
          insert_all_late t qs (sort_by xs) (sort_by ys) hq early,
          ← sort_by-insert_all qs ys,
          insert_all_early t ps (sort_by xs) (sort_by (qs ++ ys)) hp
              (All-sort_by (λ y. t < key y) (qs ++ ys) (All-append (λ y. t < key y) qs ys hq hy)),
          ← sort_by-insert_all ps xs,
        )
        refl
