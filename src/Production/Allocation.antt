-- ===== src/Production/Allocation.antt =====
-- `ProductionExecutionService.submit_targets` of forex_platform/production/execution.py: the client of the
-- allocator of forex_platform/portfolio_engine/target_allocator.py. The telemetry of a symbol is a
-- parameter, and each reading of the clock is one of its times.
pub mod Clearance
use forex_platform.Domain.Kinds.{OrderSide, buy, sell}
use forex_platform.Domain.Orders.{OrderIntent}
use forex_platform.Domain.Position.{Position}
use forex_platform.Orders.Oms.Valuation.{get_open_positions}
use forex_platform.Portfolio.Targets.{
  Allocator, AllocationDecision, MarketRegime, TargetPosition, units_of, allocate,
}
use forex_platform.Production.Kernel.{Kernel}
use forex_platform.Production.Service.{
  Event, audited, ExecutionResult, Gateway, World, submit_intent,
}
use forex_platform.Risk.Quotes.{MarketTelemetry, Request}
use forex_platform.Decimal.{Decimal}
use forex_platform.Prelude.{
  ℕ, ◌+◌, Bool, true, false, ◌&&◌, Option, none, some, List, [], ◌∷◌, ◌++◌, ℤ, pos, ◌+ℤ◌, ◌-ℤ◌,
  Text, codes, Dict, insert, Result, ok, err, ◌>>=◌,
}
use forex_platform.Time.{DateTime}

-- `TargetPositionAllocator()`
abbrev pub default_allocator : Allocator
default_allocator = record {
  max_gross_units = 1000000;
  max_symbol_units = 500000;
  max_currency_delta_units = 750000;
  allowed_regimes =
      MarketRegime.trending ∷ MarketRegime.ranging ∷ MarketRegime.high_volatility
      ∷ MarketRegime.low_volatility ∷ [];
}

abbrev pub signed : Position → ℤ
signed p = elim p.side [ sell ↦ pos 0 -ℤ p.units | buy ↦ p.units ]

-- The signed units of the open positions, under the symbols as they are spelled.
unfoldable pub current_units : List Position → Dict ℤ → Dict ℤ
unfolding units_of
current_units [] d = d
current_units (p ∷ ps) d = current_units ps (insert p.symbol (units_of p.symbol d +ℤ signed p) d)

-- What the caller of `submit_targets` chooses for the submissions.
pub record Options : Type 0 where
  pub account_id : Option Text
  pub strategy_id : Option Text
  pub account_equity : Option Decimal
  pub telemetry_for : Text → Option MarketTelemetry

abbrev some_or : Option Text → Option Text → Option Text
some_or none other = other
some_or (some []) other = other
some_or (some (c ∷ s)) other = some (c ∷ s)

-- What the service is asked for an intent of the allocation.
abbrev pub target_request : Options → OrderIntent → DateTime → Request
target_request options intent now = record {
  current_time = now;
  telemetry = options.telemetry_for intent.symbol;
  tenant_id = none;
  broker_id = options.account_id;
  strategy_id = some_or options.strategy_id intent.client_tag;
  is_carry_order = false;
  open_positions = none;
  account_equity = options.account_equity;
}

abbrev all_approved : List ExecutionResult → Bool
all_approved [] = true
all_approved (r ∷ rs) = r.approved && all_approved rs

pub record TargetsResult : Type 0 where
  pub approved : Bool
  pub allocation : AllocationDecision
  pub results : List ExecutionResult

module _ {B : Type 0} (g : Gateway B) (k : Kernel) (options : Options) (clock : ℕ → DateTime) where
  -- The loop over the intents, of which the next is submitted at the given reading of the clock. An
  -- exception ends it.
  unfoldable pub submit_each :
      ℕ → List OrderIntent → World B → Result (List ExecutionResult) × List Event × World B
  submit_each tick [] w = (ok [], [], w)
  submit_each tick (intent ∷ intents) w =
      let now = clock tick in
      let (answer, events, w') =
        submit_intent g k intent (target_request options intent now) now w in
      let (rest, more, w'') = submit_each (tick + 1) intents w' in
      elim answer [
        | err e ↦ (err e, events, w')
        | ok result ↦ (rest >>= λ results. ok (result ∷ results), events ++ more, w'')
      ]

  unfoldable pub submit_targets :
      List TargetPosition → MarketRegime → World B → Result TargetsResult × List Event × World B
  unfolding submit_each current_units
  submit_targets targets regime w =
      elim (allocate default_allocator targets (current_units (get_open_positions w.oms) []) regime
        (clock 0)) [
          | err e ↦ (err e, [], w)
          | ok d ↦
              let (answer, events, w') = submit_each 1 d.intents w in
              elim answer [
                | err e ↦ (err e, events, w')
                | ok results ↦ (
                  ok (record {
                    approved = d.approved && all_approved results;
                    allocation = d;
                    results = results;
                  }),
                  events ++ audited (codes "execution.targets_allocated") ∷ [],
                  w',
                )
              ]
        ]
