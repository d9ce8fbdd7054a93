-- ===== src/Risk/Firewall/Conditions.antt =====
-- The conditions of tiers 1, 4 and 6 of the firewall.
use forex_platform.Decimal
use forex_platform.Decimal.{Decimal, decimal}
use forex_platform.Domain.Orders.{OrderIntent}
use forex_platform.Domain.Pair.{CurrencyPair}
use forex_platform.Risk.Firewall.{
  sanity_gate, spread_gate, is_live_tag, needs_limit, is_positive_price, stop_misplaced,
  take_misplaced,
}
use forex_platform.Risk.Quotes.{
  Firewall, MarketTelemetry, RiskDecision, spread_pips, median_spread_pips, major_symbols,
  major_spread_limit, relative_spread_multiplier,
}
use forex_platform.Portfolio.Governor.{GovernorDecision, Portfolio, evaluate_intent}
use forex_platform.Portfolio.Governor.Verdict.{Approval}
use forex_platform.Domain.Kinds.{OrderSide, OrderType, buy, sell}
use forex_platform.Domain.Position.{Position}
use forex_platform.Prelude.{
  List, [], ◌∷◌, Option, Text, codes, has_substring, is_member, Bool-cases, not, ◌&&◌, true, false,
  none, some, pos, leb_ℤ, ok, ◌≡◌, ◌⊎◌, arith, inl, inr, Result-cases,
}

-- A client tag is not that of a live execution.
abbrev pub IsPaper : Option Text → Type 0
IsPaper none = Unit
IsPaper (some tag) = has_substring (codes "LIVE_EXECUTION") tag ≡ false

-- Limit and stop orders have a price above zero.
abbrev pub IsPriced : OrderType → Option Decimal → Type 0
IsPriced OrderType.limit (some p) = Decimal.lt (decimal (pos 0) 0) p ≡ true
IsPriced OrderType.limit none = ⊥
IsPriced OrderType.stop (some p) = Decimal.lt (decimal (pos 0) 0) p ≡ true
IsPriced OrderType.stop none = ⊥
IsPriced _ price = Unit

abbrev pub IsBelow : Option Decimal → Option Decimal → Type 0
IsBelow (some low) (some high) = Decimal.lt low high ≡ true
IsBelow _ _ = Unit

-- An order with a price has its stop loss on the losing side of it and its take profit on the other.
abbrev pub IsGuarded : OrderSide → Option Decimal → Option Decimal → Option Decimal → Type 0
IsGuarded buy price stop_loss take_profit = IsBelow stop_loss price × IsBelow price take_profit
IsGuarded sell price stop_loss take_profit = IsBelow price stop_loss × IsBelow take_profit price

-- Tier 1 of an order.
pub record IsSane (f : Firewall) (intent : OrderIntent) : Type 0 where
  pub sized : leb_ℤ intent.lot_size.units (pos 0) ≡ false
  pub paper : (f.allow_live_capital ≡ true) ⊎ IsPaper intent.client_tag
  pub priced : IsPriced intent.order_type intent.limit_price
  pub guarded : IsGuarded intent.side intent.limit_price intent.stop_loss intent.take_profit

pub is_live_tag-IsPaper : (tag : Option Text) → is_live_tag tag ≡ false → IsPaper tag
is_live_tag-IsPaper none e = tt
is_live_tag-IsPaper (some tag) e = e

pub needs_limit-IsPriced :
    (t : OrderType) (price : Option Decimal)
    → (needs_limit t && not (is_positive_price price)) ≡ false
    → IsPriced t price
needs_limit-IsPriced OrderType.limit none e = absurd (ground arith)
needs_limit-IsPriced OrderType.limit (some p) e = ground arith
needs_limit-IsPriced OrderType.stop none e = absurd (ground arith)
needs_limit-IsPriced OrderType.stop (some p) e = ground arith
needs_limit-IsPriced OrderType.market price e = tt
needs_limit-IsPriced OrderType.stop_loss price e = tt
needs_limit-IsPriced OrderType.take_profit price e = tt

pub misplaced-IsGuarded :
    (side : OrderSide) (price stop_loss take_profit : Option Decimal)
    → stop_misplaced side price stop_loss ≡ false
    → take_misplaced side price take_profit ≡ false
    → IsGuarded side price stop_loss take_profit
misplaced-IsGuarded buy none none none h k = (tt, tt)
misplaced-IsGuarded buy none none (some t) h k = (tt, tt)
misplaced-IsGuarded buy none (some s) none h k = (tt, tt)
misplaced-IsGuarded buy none (some s) (some t) h k = (tt, tt)
misplaced-IsGuarded buy (some p) none none h k = (tt, tt)
misplaced-IsGuarded buy (some p) none (some t) h k = (tt, ground arith)
misplaced-IsGuarded buy (some p) (some s) none h k = (ground arith, tt)
misplaced-IsGuarded buy (some p) (some s) (some t) h k = (ground arith, ground arith)
misplaced-IsGuarded sell none none none h k = (tt, tt)
misplaced-IsGuarded sell none none (some t) h k = (tt, tt)
misplaced-IsGuarded sell none (some s) none h k = (tt, tt)
misplaced-IsGuarded sell none (some s) (some t) h k = (tt, tt)
misplaced-IsGuarded sell (some p) none none h k = (tt, tt)
misplaced-IsGuarded sell (some p) none (some t) h k = (tt, ground arith)
misplaced-IsGuarded sell (some p) (some s) none h k = (ground arith, tt)
misplaced-IsGuarded sell (some p) (some s) (some t) h k = (ground arith, ground arith)

-- The spread of a major pair is within its limit, and each spread within its multiple of a positive median.
abbrev pub Tight : Firewall → CurrencyPair → MarketTelemetry → Type 0
Tight f pair t =
    (spread : Decimal) × (median : Decimal) × (spread_pips t ≡ ok spread)
    × (median_spread_pips f t ≡ ok median)
    × ((is_member pair.symbol major_symbols ≡ false)
        ⊎ (Decimal.lt major_spread_limit spread ≡ false))
    × ((Decimal.lt (decimal (pos 0) 0) median ≡ false)
        ⊎ (Decimal.lt (Decimal.mul median relative_spread_multiplier) spread ≡ false))

-- With open positions, the exposure governor has approved the order in the portfolio of those positions, at the
-- equity given, or else the firewall's, and the bid that the telemetry shows.
abbrev pub IsWeighed :
    Firewall → Option (List Position) → Option Decimal → MarketTelemetry → OrderIntent → Type 0
IsWeighed f none equity t intent = Unit
IsWeighed f (some positions) equity t intent =
    let p : Portfolio = record {
      open_positions = positions;
      account_equity = elim equity [ none ↦ f.account_equity | some e ↦ e ];
      current_prices = some ((t.symbol, t.bid) ∷ []);
    } in
    (d : GovernorDecision) × (evaluate_intent f.exposure_governor p intent ≡ some (ok d))
    × (d.approved ≡ true)
    × Approval f.exposure_governor p intent d

pub sanity_gate-IsSane :
    (f : Firewall) (intent : OrderIntent) → sanity_gate f intent ≡ none → IsSane f intent
unfolding sanity_gate
sanity_gate-IsSane f intent e =
    let stop : stop_misplaced intent.side intent.limit_price intent.stop_loss ≡ false =
      ground arith in
    let take : take_misplaced intent.side intent.limit_price intent.take_profit ≡ false =
      ground arith in
    let price : (needs_limit intent.order_type && not (is_positive_price intent.limit_price))
        ≡ false =
      ground arith in
    record {
      sized = ground arith;
      paper = elim (Bool-cases f.allow_live_capital) [
        | inl live ↦ inl live
        | inr simulated ↦ inr (is_live_tag-IsPaper intent.client_tag (ground arith))
      ];
      priced = needs_limit-IsPriced intent.order_type intent.limit_price price;
      guarded =
          misplaced-IsGuarded intent.side intent.limit_price intent.stop_loss intent.take_profit
            stop take;
    }

pub spread_gate-Tight :
    (f : Firewall) (pair : CurrencyPair) (t : MarketTelemetry) (sizing : Decimal) (d : RiskDecision)
    → spread_gate f pair t sizing ≡ ok d
    → d.approved ≡ true
    → Tight f pair t
unfolding spread_gate
spread_gate-Tight f pair t sizing d e passed = elim (Result-cases (spread_pips t)) [
  | inr (x, raised) ↦ absurd (ground arith)
  | inl (spread, is_spread) ↦ elim (Result-cases (median_spread_pips f t)) [
    | inr (x, raised) ↦ absurd (ground arith)
    | inl (median, is_median) ↦ (spread, median, is_spread, is_median, ground arith, ground arith)
  ]
]
