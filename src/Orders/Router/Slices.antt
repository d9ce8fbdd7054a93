-- ===== src/Orders/Router/Slices.antt =====
-- The slicing loop of `slice_intent`, of forex_platform/order_management/router.py: the sizes of
-- the slices of an order of so many units.
use forex_platform.Prelude.{
  ℕ, zero, suc, ◌+◌, ◌-◌, ◌*◌, ◌≤◌, ◌<◌, ltb, if◌then◌else◌, true, false, Option, none, some, List,
  [], ◌∷◌, ◌≡◌, ◌≢◌, arith, All, value_of, value_of-some, length,
}

abbrev clip : ℕ
clip = 500000

abbrev chunk_of : ℕ → ℕ
chunk_of remaining = if ltb clip remaining then clip else remaining

abbrev push : ℕ → Option (List ℕ) → Option (List ℕ)
push c none = none
push c (some cs) = some (c ∷ cs)

-- `while remaining > 0`, with fuel; `none` means that the fuel ran out.
unfoldable pub slice_loop : ℕ → ℕ → Option (List ℕ)
slice_loop zero remaining = none
slice_loop (suc fuel) remaining = elim (ltb 0 remaining) [
  | false ↦ some []
  | true ↦ let chunk = chunk_of remaining in push chunk (slice_loop fuel (remaining - chunk))
]

slice_loop_total : (fuel remaining : ℕ) → remaining < fuel → slice_loop fuel remaining ≢ none
unfolding slice_loop
slice_loop_total zero remaining enough e = omega arith
slice_loop_total (suc fuel) remaining enough e =
    ground (arith, slice_loop_total fuel (remaining - chunk_of remaining))

-- One round for each unit would be enough.
pub slice_loop_enough : (total : ℕ) → slice_loop (suc total) total ≢ none
slice_loop_enough total = slice_loop_total (suc total) total (omega arith)

unfoldable pub slice_sizes : ℕ → List ℕ
slice_sizes total = value_of (slice_loop (suc total) total) (slice_loop_enough total)

abbrev pub sum : List ℕ → ℕ
sum [] = 0
sum (n ∷ ns) = n + sum ns

slice_loop_sound :
    (fuel remaining : ℕ) (cs : List ℕ)
    → slice_loop fuel remaining ≡ some cs
    → (sum cs ≡ remaining)
      × All (λ c. (1 ≤ c) × (c ≤ 500000)) cs
      × (length cs * 500000 < remaining + 500000)
unfolding slice_loop
slice_loop_sound zero remaining cs e = cc
slice_loop_sound (suc fuel) remaining [] e = ground arith
slice_loop_sound (suc fuel) remaining (c ∷ cs) e =
    ground (arith, slice_loop_sound fuel (remaining - chunk_of remaining) cs)

-- The slices of an order add up to it, each has between 1 and 500,000 units, and there are no more
-- of them than that size calls for.
pub slice_sizes_sound :
    (total : ℕ)
    → (sum (slice_sizes total) ≡ total)
      × All (λ c. (1 ≤ c) × (c ≤ 500000)) (slice_sizes total)
      × (length (slice_sizes total) * 500000 < total + 500000)
unfolding slice_sizes
slice_sizes_sound total =
    slice_loop_sound (suc total) total (slice_sizes total)
      (value_of-some (slice_loop (suc total) total) (slice_loop_enough total))
