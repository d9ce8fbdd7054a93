-- ===== src/Portfolio/Governor.antt =====
-- `CurrencyExposureGovernor` of forex_platform/portfolio_engine/allocator.py. The reason of a
-- decision is kept as a tag with the currency; its text is not modelled.
pub mod Verdict
use forex_platform.Decimal
use forex_platform.Decimal.{Decimal, decimal}
use forex_platform.Domain.Lots.{LotSize, from_units, standard_lot_units}
use forex_platform.Domain.Orders.{OrderIntent}
use forex_platform.Domain.Pair.{zero_decimal}
use forex_platform.Domain.Position.{Position}
use forex_platform.Portfolio.Downsize.{search_units, minimum_trade_units}
use forex_platform.Portfolio.Exposure.{
  CurrencyDelta, ExposureSnapshot, simulate_order_exposure, calculate_portfolio_exposure,
}
use forex_platform.Portfolio.Rates.{ExposureMatrix}
use forex_platform.Prelude.{
  ℕ, suc, ◌+◌, ◌++◌, ltb, leb, if◌then◌else◌, ◌&&◌, ◌==◌, Bool, true, false, Option, none, some,
  List, [], ◌∷◌, pos, pos_part, leb_ℤ, ltb_ℤ, Text, codes, Dict, lookup, Result, ok, err, ◌>>=◌,
  reverse,
}

pub data GovernorReason : Type 0 where
  equity_not_positive within_limits : GovernorReason
  downsized_for rejected_for : Text → GovernorReason

pub record GovernorDecision : Type 0 where
  pub approved : Bool
  pub downsized : Bool
  pub reason : GovernorReason
  pub breached_currency : Option Text
  pub current_exposure_pct : Option Decimal
  pub projected_exposure_pct : Option Decimal
  pub original_lots : Option LotSize
  pub allowed_lots : Option LotSize
  pub suggested_order : Option OrderIntent
  pub snapshot : Option ExposureSnapshot

pub record Governor : Type 0 where
  pub max_exposure_pct : Decimal
  pub allow_downsizing : Bool
  pub matrix : ExposureMatrix

-- The portfolio against which an intent is judged.
pub record Portfolio : Type 0 where
  pub open_positions : List Position
  pub account_equity : Decimal
  pub current_prices : Option (Dict Decimal)

unfoldable pub simulate : Governor → Portfolio → OrderIntent → Result ExposureSnapshot
simulate g p intent =
    simulate_order_exposure p.open_positions intent p.account_equity p.current_prices
      g.max_exposure_pct g.matrix

-- `s.strip("_")`
unfoldable pub lstrip_underscores : Text → Text
lstrip_underscores [] = []
lstrip_underscores (c ∷ s) = if c == b'_' then lstrip_underscores s else c ∷ s

unfoldable pub strip_underscores : Text → Text
unfolding lstrip_underscores
strip_underscores s = reverse (lstrip_underscores (reverse (lstrip_underscores s)))

abbrev text_or_empty : Option Text → Text
text_or_empty none = []
text_or_empty (some s) = s

-- The intent at another size, under a suffixed id and tag.
unfoldable pub resized : OrderIntent → Text → LotSize → OrderIntent
unfolding strip_underscores
resized intent suffix lots = record intent {
  intent_id = intent.intent_id ++ suffix;
  lot_size = lots;
  client_tag = some (strip_underscores (text_or_empty intent.client_tag ++ codes "_DOWNSIZED"));
}

unfoldable pub is_size_balanced : Governor → Portfolio → OrderIntent → ℕ → Result Bool
unfolding simulate
is_size_balanced g p intent units = do
  test_lot ← from_units (pos units) standard_lot_units
  snapshot ← simulate g p (resized intent (codes "_downsized") test_lot)
  ok snapshot.is_balanced

-- The final intent of a size that the search found.
unfoldable pub accept_size : OrderIntent → ℕ → Result (Option (OrderIntent × LotSize))
accept_size intent best =
    if leb minimum_trade_units best && ltb_ℤ (pos best) intent.lot_size.units
    then (from_units (pos best) standard_lot_units >>= λ final_lot.
        ok (some (resized intent (codes "_adj") final_lot, final_lot)))
    else ok none

-- `_attempt_downsize`. The fuel is the original size, more than the search can use; that it does
-- not run out is `attempt_downsize_total`.
unfoldable pub attempt_downsize :
    Governor → Portfolio → OrderIntent → Option (Result (Option (OrderIntent × LotSize)))
unfolding accept_size
attempt_downsize g p intent =
    if leb_ℤ intent.lot_size.units (pos minimum_trade_units)
    then some (ok none)
    else let original = pos_part intent.lot_size.units in
      elim (search_units (is_size_balanced g p intent) original minimum_trade_units original 0) [
        | none ↦ none
        | some found ↦ some (found >>= accept_size intent)
      ]

abbrev pub abs_pct : Option CurrencyDelta → Decimal
abs_pct none = zero_decimal
abs_pct (some d) = d.abs_exposure_pct

-- Above the cap, and not below its exposure before the order.
abbrev pub is_breach : Decimal → Dict CurrencyDelta → Text → CurrencyDelta → Bool
is_breach limit base curr delta =
    Decimal.lt limit delta.abs_exposure_pct
    && Decimal.le (abs_pct (lookup curr base)) delta.abs_exposure_pct

unfoldable pub breached_currencies : Decimal → Dict CurrencyDelta → Dict CurrencyDelta → List Text
breached_currencies limit base [] = []
breached_currencies limit base ((curr, delta) ∷ rest) =
    let more = breached_currencies limit base rest in
    if is_breach limit base curr delta then curr ∷ more else more

unfoldable pub approve : OrderIntent → ExposureSnapshot → GovernorDecision
approve intent projected = record {
  approved = true;
  downsized = false;
  reason = within_limits;
  breached_currency = none;
  current_exposure_pct = none;
  projected_exposure_pct = none;
  original_lots = some intent.lot_size;
  allowed_lots = some intent.lot_size;
  suggested_order = none;
  snapshot = some projected;
}

unfoldable pub refuse : OrderIntent → Text → ExposureSnapshot → ExposureSnapshot → GovernorDecision
refuse intent primary base projected = record {
  approved = false;
  downsized = false;
  reason = rejected_for primary;
  breached_currency = some primary;
  current_exposure_pct = some (abs_pct (lookup primary base.deltas));
  projected_exposure_pct = some (abs_pct (lookup primary projected.deltas));
  original_lots = some intent.lot_size;
  allowed_lots = none;
  suggested_order = none;
  snapshot = some projected;
}

unfoldable pub downsize :
    OrderIntent
    → Text
    → ExposureSnapshot
    → ExposureSnapshot
    → OrderIntent
    → LotSize
    → ExposureSnapshot
    → GovernorDecision
unfolding refuse
downsize intent primary base projected smaller lots checked =
    record (refuse intent primary base projected) {
      approved = true;
      downsized = true;
      reason = downsized_for primary;
      allowed_lots = some lots;
      suggested_order = some smaller;
      snapshot = some checked;
    }

-- After a breach: the downsized order where there is one, or the refusal.
unfoldable pub settle_downsize :
    Governor
    → Portfolio
    → OrderIntent
    → Text
    → ExposureSnapshot
    → ExposureSnapshot
    → Option (OrderIntent × LotSize)
    → Result GovernorDecision
unfolding refuse downsize simulate
settle_downsize g p intent primary base projected none = ok (refuse intent primary base projected)
settle_downsize g p intent primary base projected (some (smaller, lots)) = do
  checked ← simulate g p smaller
  ok (downsize intent primary base projected smaller lots checked)

unfoldable pub settle :
    Governor
    → Portfolio
    → OrderIntent
    → ExposureSnapshot
    → ExposureSnapshot
    → List Text
    → Option (Result GovernorDecision)
unfolding approve refuse settle_downsize
settle g p intent base projected [] = some (ok (approve intent projected))
settle g p intent base projected (primary ∷ _) =
    if g.allow_downsizing
    then elim (attempt_downsize g p intent) [
      | none ↦ none
      | some tried ↦ some (tried >>= settle_downsize g p intent primary base projected)
    ]
    else some (ok (refuse intent primary base projected))

abbrev equity_refusal : GovernorDecision
equity_refusal = record {
  approved = false;
  downsized = false;
  reason = equity_not_positive;
  breached_currency = none;
  current_exposure_pct = none;
  projected_exposure_pct = none;
  original_lots = none;
  allowed_lots = none;
  suggested_order = none;
  snapshot = none;
}

-- `evaluate_intent`; `none` only if the search ran out of fuel, which it does not.
unfoldable pub evaluate_intent :
    Governor → Portfolio → OrderIntent → Option (Result GovernorDecision)
unfolding settle simulate breached_currencies
evaluate_intent g p intent =
    let before =
      calculate_portfolio_exposure p.open_positions p.account_equity [] p.current_prices
        g.max_exposure_pct g.matrix in
    if Decimal.le p.account_equity (decimal (pos 0) 0)
    then some (ok equity_refusal)
    else elim before [
      | err e ↦ some (err e)
      | ok base ↦ elim (simulate g p intent) [
        | err e ↦ some (err e)
        | ok projected ↦
            settle g p intent base projected
              (breached_currencies g.max_exposure_pct base.deltas projected.deltas)
      ]
    ]
