-- ===== src/Fractal/Timeline.antt =====
-- Reads of a history at an instant, with `bisect_right`, as forex_platform/fractal_engine/state_graph.py and
-- consistency.py do them, and the sorted set of instants that both evaluate. A list of times is sorted
-- where it is searched.
pub mod Latest
use forex_platform.Prelude.{
  ℕ, zero, suc, ◌==◌, ltb, leb, if◌then◌else◌, Option, none, some, List, [], ◌∷◌, map, get_elem?,
}

-- How many of the leading times are not after `t`: the bisection, on sorted times.
unfoldable pub bisect_right : List ℕ → ℕ → ℕ
bisect_right [] t = zero
bisect_right (x ∷ xs) t = if leb x t then suc (bisect_right xs t) else zero

-- The item at the index `n - 1`, if that is not negative.
abbrev pub item_before {ℓ} : {A : Type ℓ} → Option A → ℕ → List A → Option A
item_before first zero xs = first
item_before first (suc i) xs = get_elem? xs i

unfoldable pub as_of {ℓ} : {A : Type ℓ} → (A → ℕ) → List A → ℕ → Option A
unfolding bisect_right
as_of key xs t = item_before none (bisect_right (map key xs) t) xs

unfoldable pub insert_time : ℕ → List ℕ → List ℕ
insert_time x [] = x ∷ []
insert_time x (y ∷ ys) =
    let rest = insert_time x ys in
    if ltb x y then x ∷ y ∷ ys else if x == y then y ∷ ys else y ∷ rest

-- `sorted(set(times))`
unfoldable pub sorted_set : List ℕ → List ℕ
unfolding insert_time
sorted_set [] = []
sorted_set (x ∷ xs) = insert_time x (sorted_set xs)
