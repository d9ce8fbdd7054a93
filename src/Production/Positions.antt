-- ===== src/Production/Positions.antt =====
-- `ProductionExecutionService.reconcile` of forex_platform/production/execution.py. What the broker registry
-- reports of the positions is an argument: those of each account, in turn. The accounts of an alert,
-- metrics and logs are not modelled.
pub mod Locks
use forex_platform.Domain.Position.{Position}
use forex_platform.Orders.Oms.State.{Oms}
use forex_platform.Orders.Oms.Valuation.{get_open_positions}
use forex_platform.Portfolio.Targets.{units_of}
use forex_platform.Production.Allocation.{current_units}
use forex_platform.Production.Service.{Event, audited}
use forex_platform.Reconciliation.{sorted_keys}
use forex_platform.Risk.KillSwitch.{KillSwitch, arm_pair}
use forex_platform.Prelude.{
  if◌then◌else◌, Bool, List, [], ◌∷◌, ℤ, pos, ◌+ℤ◌, ◌-ℤ◌, eqb_ℤ, Text, codes, text_eq, upper, Dict,
  insert,
}

-- A position as the registry reports it.
pub record RemotePosition : Type 0 where
  pub symbol : Text
  pub units : ℤ
  pub side : Text

abbrev pub remote_units : RemotePosition → ℤ
remote_units p = if text_eq (upper p.side) (codes "SELL") then pos 0 -ℤ p.units else p.units

-- `remote_by_symbol`, under the symbols as they are spelled.
unfoldable pub gather_remote : List RemotePosition → Dict ℤ → Dict ℤ
unfolding units_of
gather_remote [] d = d
gather_remote (p ∷ ps) d =
    gather_remote ps (insert p.symbol (units_of p.symbol d +ℤ remote_units p) d)

pub record Alert : Type 0 where
  pub symbol : Text
  pub remote_units : ℤ
  pub local_units : ℤ
  pub difference : ℤ

unfoldable pub alerts_of : Dict ℤ → Dict ℤ → List Text → List Alert
unfolding units_of
alerts_of remote own [] = []
alerts_of remote own (k ∷ ks) =
    let r = units_of k remote in
    let l = units_of k own in
    let rest = alerts_of remote own ks in
    if eqb_ℤ r l
    then rest
    else record { symbol = k; remote_units = r; local_units = l; difference = r -ℤ l } ∷ rest

abbrev pub mismatch : Text
mismatch = codes "Reconciliation mismatch between broker and OMS ledger"

-- Each pair of an alert is locked.
unfoldable pub lock_pairs : List Alert → KillSwitch → KillSwitch
lock_pairs [] s = s
lock_pairs (a ∷ rest) s = lock_pairs rest (arm_pair a.symbol mismatch s)

unfoldable pub reconcile : List RemotePosition → Oms → List Alert × List Event × Oms
unfolding gather_remote alerts_of lock_pairs
reconcile remote s =
    let theirs = gather_remote remote [] in
    let ours = current_units (get_open_positions s) [] in
    let alerts = alerts_of theirs ours (sorted_keys theirs (sorted_keys ours [])) in
    (
      alerts,
      audited (codes "reconciliation.run") ∷ [],
      record s { kill_switch = lock_pairs alerts s.kill_switch },
    )
