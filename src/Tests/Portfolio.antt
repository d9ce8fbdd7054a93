-- ===== src/Tests/Portfolio.antt =====
-- Examples for forex_platform/portfolio_engine/.
use forex_platform.Domain.Pair.{pair_of_code, from_symbol}
use forex_platform.Portfolio.Rates.{
  rate_symbol, merge_rates, legs, legs_at, positive_or_rate, limit_or_rate, intent_price,
  decompose_order_intent, inverse_rate, get_rate, get_rate_to_account,
}
use forex_platform.Decimal
use forex_platform.Decimal.{Decimal, decimal}
use forex_platform.Domain.Lots.{from_units, LotSize}
use forex_platform.Domain.Orders.{OrderIntent}
use forex_platform.Portfolio.Downsize.{search_units}
use forex_platform.Portfolio.Exposure.{
  currency_delta, record_delta, simulate_order_exposure, convert, add_legs, add_intents,
  add_positions, zero_totals, ExposureSnapshot, calculate_portfolio_exposure,
}
use forex_platform.Portfolio.Exposure.Balance.{Within, Below, is_balanced_iff}
use forex_platform.Portfolio.Governor.{
  breached_currencies, approve, refuse, downsize, lstrip_underscores, settle_downsize,
  strip_underscores, resized, settle, accept_size, is_size_balanced, equity_not_positive,
  GovernorDecision, attempt_downsize, evaluate_intent, simulate,
}
use forex_platform.Portfolio.Governor.Verdict.{
  verdict, Approval, evaluate_intent_total, attempt_downsize_sound, evaluate_intent_sound,
}
use forex_platform.Prelude.{
  add_sorted, text_lt, insert, lookup, remove_char, to_upper, upper, is_space, lstrip, strip,
  clean_symbol, text_eq, value_of, codes, catch, ℕ, ◌%◌, ◌≤◌, leb, Bool, true, false, none, some,
  [], ◌∷◌, All, pos, ltb_ℤ, Result, ok, ◌≡◌, ◌≢◌, ◌↔◌, refl, arith,
}
use forex_platform.Tests.Data.{governor, portfolio, matrix, equity, large}

abbrev up_to_27000 : ℕ → Result Bool
up_to_27000 n = ok (leb n 27000)

found_27000 : search_units up_to_27000 40000 1000 40000 0 ≡ some (ok 27000)
unfolding search_units
found_27000 = refl

monotone : (j k : ℕ) → j ≤ k → up_to_27000 k ≡ ok true → up_to_27000 j ≡ ok true
monotone j k le passes = ground arith

abbrev lots : LotSize
lots = record { units = pos 27000; standard_lots = decimal (pos 2700) 4 }

abbrev smaller : OrderIntent
smaller = record large {
  intent_id = codes "I1_adj";
  lot_size = lots;
  client_tag = some (codes "DOWNSIZED");
}

large_downsized : attempt_downsize governor portfolio large ≡ some (ok (some (smaller, lots)))
unfolding attempt_downsize search_units is_size_balanced accept_size resized strip_underscores
    lstrip_underscores simulate simulate_order_exposure calculate_portfolio_exposure zero_totals
    add_positions add_intents add_legs convert record_delta currency_delta get_rate_to_account
    get_rate inverse_rate decompose_order_intent intent_price limit_or_rate positive_or_rate legs_at
    legs merge_rates rate_symbol text_lt add_sorted from_symbol from_units Decimal.add Decimal.mul
    Decimal.neg Decimal.abs Decimal.div Decimal.quantize Decimal.lt text_eq clean_symbol strip
    lstrip is_space upper to_upper remove_char lookup insert
large_downsized = refl

attempt_downsize_sound_example :
    ((smaller.lot_size ≡ lots) × (ltb_ℤ lots.units large.lot_size.units ≡ true))
    × ((n : ℕ) × (lots.units ≡ pos n) × (1000 ≤ n) × (n % 1000 ≡ 0))
    × ((s : ExposureSnapshot) × (simulate governor portfolio smaller ≡ ok s)
        × (s.is_balanced ≡ true))
attempt_downsize_sound_example =
    attempt_downsize_sound governor portfolio large smaller lots large_downsized

evaluate_intent_total_example : evaluate_intent governor portfolio large ≢ none
evaluate_intent_total_example = evaluate_intent_total governor portfolio large

abbrev none_made : GovernorDecision
none_made = record {
  approved = false;
  downsized = false;
  reason = equity_not_positive;
  breached_currency = none;
  current_exposure_pct = none;
  projected_exposure_pct = none;
  original_lots = none;
  allowed_lots = none;
  suggested_order = none;
  snapshot = none;
}

abbrev decided : GovernorDecision
decided = catch (verdict governor portfolio large) (λ e. none_made)

large_judged :
    (evaluate_intent governor portfolio large ≡ some (ok decided)) × (decided.approved ≡ true)
unfolding verdict value_of evaluate_intent settle settle_downsize downsize refuse approve
    breached_currencies attempt_downsize search_units is_size_balanced accept_size resized
    strip_underscores lstrip_underscores simulate simulate_order_exposure
    calculate_portfolio_exposure zero_totals add_positions add_intents add_legs convert record_delta
    currency_delta get_rate_to_account get_rate inverse_rate decompose_order_intent intent_price
    limit_or_rate positive_or_rate legs_at legs merge_rates rate_symbol text_lt add_sorted
    from_symbol pair_of_code from_units Decimal.add Decimal.mul Decimal.neg Decimal.abs Decimal.div
    Decimal.quantize Decimal.lt text_eq clean_symbol strip lstrip is_space upper to_upper
    remove_char lookup insert
large_judged = (refl, refl)

evaluate_intent_sound_example : Approval governor portfolio large decided
evaluate_intent_sound_example =
    evaluate_intent_sound governor portfolio large decided large_judged.0 large_judged.1

abbrev empty_snapshot : ExposureSnapshot
empty_snapshot = record {
  account_currency = [];
  account_equity = equity;
  deltas = [];
  max_currency_exposure_pct = equity;
  dominant_currency = [];
  gross_exposure_base = equity;
  is_balanced = false;
  active_pairs = [];
}

abbrev limit : Decimal
limit = decimal (pos 30) 1

abbrev exposure : ExposureSnapshot
exposure =
    catch (calculate_portfolio_exposure [] equity (large ∷ []) none limit matrix)
      (λ e. empty_snapshot)

exposure_made : calculate_portfolio_exposure [] equity (large ∷ []) none limit matrix ≡ ok exposure
unfolding calculate_portfolio_exposure zero_totals add_positions add_intents add_legs convert
    record_delta currency_delta get_rate_to_account get_rate inverse_rate decompose_order_intent
    intent_price limit_or_rate positive_or_rate legs_at legs merge_rates rate_symbol text_lt
    add_sorted from_symbol pair_of_code from_units Decimal.add Decimal.mul Decimal.neg Decimal.abs
    Decimal.div Decimal.quantize Decimal.lt text_eq clean_symbol strip lstrip is_space upper
    to_upper remove_char lookup insert
exposure_made = refl

is_balanced_iff_example :
    ((exposure.is_balanced ≡ true) ↔ All (Within limit) exposure.deltas)
    × All (Below exposure.max_currency_exposure_pct) exposure.deltas
is_balanced_iff_example = is_balanced_iff [] equity (large ∷ []) none limit matrix exposure_made
