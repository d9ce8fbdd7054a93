-- ===== src/Reconciliation.antt =====
-- `PositionReconciler` of forex_platform/reconciliation/reconciler.py: the pass over both ledgers, and
-- the loop of the daemon as a sequence of passes. The clock, the positions of the order management
-- system and the answer of the broker are arguments. The texts that describe a discrepancy and sum up a
-- report are not modelled, and neither is the thread.
pub mod Nets
pub mod Verdict
pub mod Freeze
use forex_platform.Decimal.{Decimal}
use forex_platform.Domain.Kinds.{OrderSide, buy, sell, sign, side_eq}
use forex_platform.Domain.Position.{Position}
use forex_platform.Orders.Router.{show_int}
use forex_platform.Portfolio.Targets.{units_of}
use forex_platform.Risk.Breaker.{CircuitBreaker, HaltReason}
use forex_platform.Risk.KillSwitch.{KillSwitch, arm_global}
use forex_platform.Prelude.{
  ℕ, ◌+◌, ◌==◌, if◌then◌else◌, Bool, true, false, not, ◌&&◌, Option, none, some, List, [], ◌∷◌,
  ◌++◌, map, length, ℤ, pos, ◌+ℤ◌, ◌*ℤ◌, ltb_ℤ, abs_ℕ, Text, codes, clean_symbol, add_sorted, Dict,
  lookup, insert, Result, ok, err,
}
use forex_platform.Time.{DateTime}

-- `BrokerPosition` of forex_platform/broker_adapters/base.py.
pub record BrokerPosition : Type 0 where
  pub ticket_id : Text
  pub symbol : Text
  pub side : OrderSide
  pub units : ℤ
  pub open_price : Decimal
  pub unrealized_pnl : Decimal
  pub timestamp : DateTime

pub data DiscrepancyType : Type 0 where
  phantom_position lost_position side_mismatch size_mismatch : DiscrepancyType

pub record Discrepancy : Type 0 where
  pub discrepancy_type : DiscrepancyType
  pub symbol : Text
  pub oms_units : ℕ
  pub broker_units : ℕ
  pub oms_side : Option OrderSide
  pub broker_side : Option OrderSide
  pub timestamp : DateTime

pub record Report : Type 0 where
  pub timestamp : DateTime
  pub is_clean : Bool
  pub discrepancies : List Discrepancy
  pub matched_positions_count : ℕ

pub record Reconciler : Type 0 where
  pub broker_name : Text
  pub kill_switch : KillSwitch
  pub circuit_breaker : Option CircuitBreaker
  pub latest_report : Option Report
  pub reconciliation_count : ℕ

-- What the pass reads of a position of either ledger.
pub record Leg : Type 0 where
  pub symbol : Text
  pub side : OrderSide
  pub units : ℤ

abbrev pub leg_of_position : Position → Leg
leg_of_position p = record { symbol = p.symbol; side = p.side; units = p.units }

abbrev pub leg_of_broker : BrokerPosition → Leg
leg_of_broker p = record { symbol = p.symbol; side = p.side; units = p.units }

-- The net units and the last side of each symbol.
pub record Ledger : Type 0 where
  pub net : Dict ℤ
  pub sides : Dict OrderSide

unfoldable pub gather : List Leg → Ledger → Ledger
unfolding units_of
gather [] l = l
gather (p ∷ ps) l =
    let sym = clean_symbol p.symbol in
    gather ps (record {
      net = insert sym (units_of sym l.net +ℤ (p.units *ℤ sign p.side)) l.net;
      sides = insert sym p.side l.sides;
    })

abbrev pub empty_ledger : Ledger
empty_ledger = record { net = []; sides = [] }

-- The keys of a dict, sorted, with those of a list that is sorted already.
unfoldable pub sorted_keys : Dict ℤ → List Text → List Text
sorted_keys [] acc = acc
sorted_keys ((k, n) ∷ d) acc = sorted_keys d (add_sorted k acc)

abbrev pub net_side : ℤ → OrderSide
net_side n = if ltb_ℤ (pos 0) n then buy else sell

abbrev is_zero : ℤ → Bool
is_zero n = abs_ℕ n == 0

abbrev discrepancy :
    DateTime → Text → ℤ → ℤ → DiscrepancyType → Option OrderSide → Option OrderSide → Discrepancy
discrepancy now symbol o b kind o_side b_side = record {
  discrepancy_type = kind;
  symbol = symbol;
  oms_units = abs_ℕ o;
  broker_units = abs_ℕ b;
  oms_side = o_side;
  broker_side = b_side;
  timestamp = now;
}

-- The verdict on one symbol: none is a match.
unfoldable pub compare_symbol : DateTime → Ledger → Ledger → Text → Option Discrepancy
unfolding units_of
compare_symbol now oms broker sym =
    let o = units_of sym oms.net in
    let b = units_of sym broker.net in
    let found = discrepancy now sym o b in
    if not (is_zero o) && is_zero b
    then some (found lost_position (lookup sym oms.sides) none)
    else if is_zero o && not (is_zero b)
    then some (found phantom_position none (lookup sym broker.sides))
    else if not (is_zero o) && not (is_zero b)
    then (if not (side_eq (net_side o) (net_side b))
        then some (found side_mismatch (some (net_side o)) (some (net_side b)))
        else if not (abs_ℕ o == abs_ℕ b)
        then some (found size_mismatch (some (net_side o)) (some (net_side b)))
        else none)
    else none

-- The discrepancies of the symbols, and the count of matches.
unfoldable pub compare_symbols : DateTime → Ledger → Ledger → List Text → List Discrepancy × ℕ
unfolding compare_symbol
compare_symbols now oms broker [] = ([], 0)
compare_symbols now oms broker (sym ∷ syms) =
    let (found, matched) = compare_symbols now oms broker syms in
    elim (compare_symbol now oms broker sym) [
      | none ↦ (found, matched + 1)
      | some d ↦ (d ∷ found, matched)
    ]

abbrev is_nil : List Discrepancy → Bool
is_nil [] = true
is_nil (d ∷ ds) = false

unfoldable pub report_of : DateTime → List Leg → List Leg → Report
unfolding gather sorted_keys compare_symbols
report_of now oms_legs broker_legs =
    let oms = gather oms_legs empty_ledger in
    let broker = gather broker_legs empty_ledger in
    let (found, matched) =
      compare_symbols now oms broker (sorted_keys oms.net (sorted_keys broker.net [])) in
    record {
      timestamp = now;
      is_clean = is_nil found;
      discrepancies = found;
      matched_positions_count = matched;
    }

abbrev breach_reason : ℕ → Text → Text
breach_reason count broker_name =
    codes "RECONCILIATION_BREACH: "
    ++ (show_int (pos count)
        ++ (codes " state discrepancies detected between OMS and broker "
            ++ (broker_name ++ codes ". Platform trading frozen.")))

abbrev trip : Text → Option CircuitBreaker → Option CircuitBreaker
trip reason none = none
trip reason (some cb) =
    some (record cb { safe_mode = true; halt_reason = some (HaltReason.external reason) })

-- A report is kept, and one that is not clean freezes the platform.
unfoldable pub enforce : Report → Reconciler → Reconciler
enforce report r =
    let reason = breach_reason (length report.discrepancies) r.broker_name in
    let kept = record r {
      latest_report = some report;
      reconciliation_count = r.reconciliation_count + 1;
    } in
    if report.is_clean then kept else record kept {
      kill_switch = arm_global reason r.kill_switch;
      circuit_breaker = trip reason r.circuit_breaker;
    }

-- What a pass sees.
pub record Observation : Type 0 where
  pub now : DateTime
  pub oms_positions : List Position
  pub broker_positions : Result (List BrokerPosition)

unfoldable pub reconcile_once : Observation → Reconciler → Result Report × Reconciler
unfolding report_of enforce
reconcile_once o r = elim o.broker_positions [
  | err e ↦ (err e, r)
  | ok positions ↦
      let report =
        report_of o.now (map leg_of_position o.oms_positions) (map leg_of_broker positions) in
      (ok report, enforce report r)
]

-- One round of `_run_loop`: an exception arms the global switch too. Its text is not modelled.
unfoldable pub run_round : Observation → Reconciler → Reconciler
unfolding reconcile_once
run_round o r =
    let (outcome, r') = reconcile_once o r in
    elim outcome [
      | ok report ↦ r'
      | err e ↦ record r' {
        kill_switch = arm_global (codes "RECONCILIATION_EXCEPTION: ") r'.kill_switch;
      }
    ]

unfoldable pub run_loop : List Observation → Reconciler → Reconciler
unfolding run_round
run_loop [] r = r
run_loop (o ∷ os) r = run_loop os (run_round o r)
