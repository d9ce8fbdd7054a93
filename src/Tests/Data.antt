-- ===== src/Tests/Data.antt =====
-- Concrete values of the types of forex_platform/.
use forex_platform.Decimal.{Decimal, decimal}
use forex_platform.Domain.Kinds.{buy, OrderType, UrgencyLevel}
use forex_platform.Domain.Lots.{LotSize}
use forex_platform.Domain.Orders.{OrderIntent}
use forex_platform.Orders.Router.{Router}
use forex_platform.Portfolio.Governor.{Governor, Portfolio}
use forex_platform.Portfolio.Rates.{ExposureMatrix}
use forex_platform.Risk.Breaker.{CircuitBreaker}
use forex_platform.Risk.Quotes.{Firewall, Request, MarketTelemetry}
use forex_platform.Prelude.{ℕ, ◌+◌, ◌*◌, true, false, none, some, [], ◌∷◌, pos, codes}
use forex_platform.Time.{DateTime, microseconds_per_day, time}

abbrev pub at : ℕ → ℕ → ℕ → DateTime
at day h m = record { wall = day * microseconds_per_day + time h m; offset = some (pos 0) }

-- A Wednesday at noon.
abbrev pub noon : DateTime
noon = at 737998 12 0

abbrev pub equity : Decimal
equity = decimal (pos 1000000) 2

abbrev pub breaker : CircuitBreaker
breaker = record {
  initial_equity = equity;
  current_equity = equity;
  daily_open_equity = equity;
  high_water_mark = equity;
  current_trading_date = 737998;
  daily_halted = false;
  safe_mode = false;
  halt_reason = none;
}

abbrev pub matrix : ExposureMatrix
matrix = record {
  account_currency = codes "USD";
  rates = (codes "EURUSD", decimal (pos 10800) 4) ∷ [];
  supported_currencies = codes "USD" ∷ codes "EUR" ∷ [];
}

abbrev pub governor : Governor
governor = record {
  max_exposure_pct = decimal (pos 30) 1;
  allow_downsizing = true;
  matrix = matrix;
}

abbrev pub portfolio : Portfolio
portfolio = record { open_positions = []; account_equity = equity; current_prices = none }

abbrev pub firewall : Firewall
firewall = record {
  allow_live_capital = false;
  exposure_governor = governor;
  account_equity = equity;
  rounded_median = λ spreads. decimal (pos 10) 1;
}

abbrev pub intent_of : LotSize → OrderIntent
intent_of lots = record {
  intent_id = codes "I1";
  symbol = codes "EUR/USD";
  side = buy;
  order_type = OrderType.market;
  lot_size = lots;
  limit_price = none;
  stop_loss = none;
  take_profit = none;
  urgency = UrgencyLevel.medium;
  timestamp = noon;
  client_tag = none;
}

abbrev pub small : OrderIntent
small = intent_of (record { units = pos 10000; standard_lots = decimal (pos 1000) 4 })

abbrev pub large : OrderIntent
large = intent_of (record { units = pos 40000; standard_lots = decimal (pos 4000) 4 })

abbrev pub telemetry : MarketTelemetry
telemetry = record {
  symbol = codes "EURUSD";
  bid = decimal (pos 108000) 5;
  ask = decimal (pos 108010) 5;
  quote_timestamp = noon;
  recent_spreads_pips = [];
}

abbrev pub request : Request
request = record {
  current_time = noon;
  telemetry = some telemetry;
  tenant_id = none;
  broker_id = none;
  strategy_id = none;
  is_carry_order = false;
  open_positions = none;
  account_equity = none;
}

abbrev pub router : Router
router = record { allow_live_routing = false; idempotency_cache = []; digest = λ t. t }
