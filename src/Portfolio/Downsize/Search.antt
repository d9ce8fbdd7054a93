-- ===== src/Portfolio/Downsize/Search.antt =====
-- The search for a smaller size: it ends, its result passes the test, and it is the largest one.
use forex_platform.Prelude.{
  ℕ, zero, suc, ◌+◌, ◌-◌, ◌*◌, ◌/◌, ◌%◌, ◌≤◌, ◌<◌, leb, Bool, true, none, some, Result, ok, ◌≡◌,
  ◌≢◌, ◌⊎◌, inl, inr, arith, Bool-cases, leb→le,
}
use forex_platform.Portfolio.Downsize.{search_units}

-- The middle of the range, in steps of 1000, lies in the range.
abbrev middle : ℕ → ℕ → ℕ
middle low high = (low + high) / 2000 * 1000

middle_bounds :
    (low high : ℕ)
    → low % 1000 ≡ 0
    → low ≤ high
    → (low ≤ middle low high) × (middle low high ≤ high) × (middle low high % 1000 ≡ 0)
middle_bounds low high aligned range = (omega arith, omega arith, omega arith)

-- With more fuel than the range is wide, from an aligned lower end of at least 1000, the search does not
-- run out of fuel.
pub search_units_total :
    (test : ℕ → Result Bool) (fuel low high best : ℕ)
    → low % 1000 ≡ 0
    → 1000 ≤ low
    → 0 < fuel
    → high + 1 < low + fuel
    → search_units test fuel low high best ≢ none
unfolding search_units
search_units_total test zero low high best aligned least some_fuel enough e = omega arith
search_units_total test (suc f) low high best aligned least some_fuel enough e =
    elim (Bool-cases (leb low high)) [
      | inl range ↦
          let (above, below, whole) = middle_bounds low high aligned (leb→le low high range) in
          ground (
            arith,
            search_units_total test f (middle low high + 1000) high (middle low high),
            search_units_total test f low (middle low high - 1000) best,
          )
      | inr done ↦ ground arith
    ]

-- A result is the size that was best before, or one that passes the test, a multiple of 1000 in the
-- range.
pub search_units_sound :
    (test : ℕ → Result Bool) (fuel low high best b : ℕ)
    → low % 1000 ≡ 0
    → search_units test fuel low high best ≡ some (ok b)
    → (b ≡ best) ⊎ ((test b ≡ ok true) × (1000 ≤ b) × (b ≤ high) × (b % 1000 ≡ 0))
unfolding search_units
search_units_sound test zero low high best b aligned e = cc
search_units_sound test (suc f) low high best b aligned e = elim (Bool-cases (leb low high)) [
  | inl range ↦
      let (above, below, whole) = middle_bounds low high aligned (leb→le low high range) in
      ground (
        arith,
        search_units_sound test f (middle low high + 1000) high (middle low high) b,
        search_units_sound test f low (middle low high - 1000) best b,
      )
  | inr done ↦ ground arith
]

-- If a size passes whenever a larger one does, the result is at least every multiple of 1000
-- up to the upper end that passes.
pub search_units_largest :
    (test : ℕ → Result Bool)
    → ((j k : ℕ) → j ≤ k → test k ≡ ok true → test j ≡ ok true)
    → (fuel low high best b k : ℕ) → low % 1000 ≡ 0
    → best + 1000 ≡ low
    → search_units test fuel low high best ≡ some (ok b)
    → k % 1000 ≡ 0
    → k ≤ high
    → test k ≡ ok true
    → k ≤ b
unfolding search_units
search_units_largest test mono zero low high best b k aligned next e whole inside pass = cc
search_units_largest test mono (suc f) low high best b k aligned next e whole inside pass =
    elim (Bool-cases (leb low high)) [
      | inl range ↦
          let m = middle low high in
          let (above, below, mid_whole) = middle_bounds low high aligned (leb→le low high range) in
          ground (
            arith,
            mono m k,
            search_units_largest test mono f (m + 1000) high m b k,
            search_units_largest test mono f low (m - 1000) best b k,
          )
      | inr done ↦ ground arith
    ]
