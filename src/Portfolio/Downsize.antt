-- ===== src/Portfolio/Downsize.antt =====
-- The search of `_attempt_downsize`, of forex_platform/portfolio_engine/allocator.py, over a test of
-- a size. `none` means that the fuel ran out.
pub mod Search
use forex_platform.Prelude.{
  ℕ, zero, suc, ◌+◌, ◌-◌, ◌*◌, ◌/◌, ◌%◌, ◌≤◌, ◌<◌, ltb, leb, ◌==◌, Bool, true, false, Option, none,
  some, Result, ok, err, ◌≡◌, ◌≢◌, ◌⊎◌, inl, inr, refl, arith, Error,
}

abbrev pub minimum_trade_units : ℕ
minimum_trade_units = 1000

abbrev pub search_step : ℕ
search_step = 1000

unfoldable pub search_units : (ℕ → Result Bool) → ℕ → ℕ → ℕ → ℕ → Option (Result ℕ)
search_units test zero low high best = none
search_units test (suc fuel) low high best =
    let mid = (low + high) / (2 * search_step) * search_step in
    elim (leb low high) [
      | false ↦ some (ok best)
      | true ↦ elim (ltb mid minimum_trade_units) [
        | true ↦ some (ok best)
        | false ↦ elim (test mid) [
          | err e ↦ some (err e)
          | ok balanced ↦ elim balanced [
            | true ↦ search_units test fuel (mid + search_step) high mid
            | false ↦ search_units test fuel low (mid - search_step) best
          ]
        ]
      ]
    ]
