-- ===== src/Orders/Oms/Calls.antt =====
-- Any sequence of calls of the order management system, of forex_platform/order_management/oms.py.
use forex_platform.Decimal.{Decimal}
use forex_platform.Domain.Orders.{OrderIntent, Fill}
use forex_platform.Domain.Position.{Position}
use forex_platform.Orders.Oms.State.{Oms}
use forex_platform.Orders.Oms.Submission.{submit_intent, acknowledge_order}
use forex_platform.Orders.Oms.Filling.{process_fill, cancel_order, mark_order_unknown}
use forex_platform.Orders.Oms.Valuation.{update_quotes, inject_position}
use forex_platform.Risk.Quotes.{Request}
use forex_platform.Prelude.{List, [], ◌∷◌, Text}
use forex_platform.Time.{DateTime}

pub data Call : Type 0 where
  submit : OrderIntent → Request → DateTime → Call
  acknowledge : Text → DateTime → Call
  fill : Fill → Call
  cancel mark_unknown : Text → DateTime → Text → Call
  quote : Text → Decimal → Decimal → Decimal → Call
  inject : Position → Call

-- The state after a call, also one that raises.
unfoldable pub after_call : Call → Oms → Oms
after_call (submit intent r now) s = (submit_intent intent r now s).1
after_call (acknowledge order_id t) s = (acknowledge_order order_id t s).1
after_call (fill f) s = (process_fill f s).1
after_call (cancel order_id t reason) s = (cancel_order order_id t reason s).1
after_call (mark_unknown order_id t reason) s = (mark_order_unknown order_id t reason s).1
after_call (quote symbol bid ask rate) s = update_quotes symbol bid ask rate s
after_call (inject p) s = inject_position p s

unfoldable pub after_calls : List Call → Oms → Oms
unfolding after_call
after_calls [] s = s
after_calls (c ∷ cs) s = after_calls cs (after_call c s)

pub after_calls-keeps :
    (P : Oms → Type 0)
    → ((c : Call) (s : Oms) → P s → P (after_call c s))
    → (cs : List Call) (s : Oms) → P s
    → P (after_calls cs s)
unfolding after_calls
after_calls-keeps P keep [] s h = h
after_calls-keeps P keep (c ∷ cs) s h = after_calls-keeps P keep cs (after_call c s) (keep c s h)
