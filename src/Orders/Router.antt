-- ===== src/Orders/Router.antt =====
-- `SmartOrderRouter` of forex_platform/order_management/router.py. The orders that it makes are
-- objects, which its cache and the order management system share: they stand in a heap, and are
-- named by their places in it. The first 16 hexadecimal digits of SHA-256 are the parameter
-- `digest` of the router.
pub mod Slices
use forex_platform.Domain.Kinds.{OrderSide, buy, sell, OrderType, OrderStatus}
use forex_platform.Domain.Lots.{LotSize, from_units, standard_lot_units}
use forex_platform.Domain.Orders.{OrderIntent, ExecutionOrder, post_init}
use forex_platform.Orders.Router.Slices.{slice_sizes}
use forex_platform.Prelude.{
  ℕ, zero, suc, ◌+◌, ◌/◌, ◌%◌, ltb, ◌++◌, if◌then◌else◌, Bool, true, false, not, ◌&&◌, ◌||◌, Option,
  none, some, List, [], ◌∷◌, length, ℤ, pos, negsuc, pos_part, leb_ℤ, Text, codes, text_eq, upper,
  Dict, lookup, insert, Result, ok, err, ◌>>=◌, live_capital_locked,
}
use forex_platform.Time.{DateTime}

abbrev pub Ref : Type 0
Ref = ℕ

abbrev pub Heap : Type 0
Heap = List ExecutionOrder

pub record Router : Type 0 where
  pub allow_live_routing : Bool
  pub idempotency_cache : Dict Ref
  pub digest : Text → Text

-- Decimal digits; the fuel is at least the number of digits.
show_digits : ℕ → ℕ → Text
show_digits zero n = []
show_digits (suc fuel) n = elim (ltb n 10) [
  | true ↦ (b'0' + n) ∷ []
  | false ↦ show_digits fuel (n / 10) ++ (b'0' + n % 10) ∷ []
]

-- `str(n)`
unfoldable pub show_int : ℤ → Text
unfolding show_digits
show_int (pos n) = show_digits (suc n) n
show_int (negsuc n) = b'-' ∷ show_digits (suc (suc n)) (suc n)

abbrev side_value : OrderSide → Text
side_value buy = codes "BUY"
side_value sell = codes "SELL"

abbrev type_value : OrderType → Text
type_value OrderType.market = codes "MARKET"
type_value OrderType.limit = codes "LIMIT"
type_value OrderType.stop = codes "STOP"
type_value OrderType.stop_loss = codes "STOP_LOSS"
type_value OrderType.take_profit = codes "TAKE_PROFIT"

unfoldable pub generate_client_order_id : (Text → Text) → OrderIntent → ℕ → Text
unfolding show_int
generate_client_order_id digest intent slice_index =
    let raw =
      intent.intent_id
      ++ (codes "|"
          ++ (intent.symbol
              ++ (codes "|"
                  ++ (side_value intent.side
                      ++ (codes "|"
                          ++ (show_int intent.lot_size.units
                              ++ (codes "|"
                                  ++ (type_value intent.order_type
                                      ++ (codes "|" ++ show_int (pos slice_index)))))))))) in
    codes "ORD-" ++ (intent.symbol ++ (codes "-" ++ digest raw))

-- An order of a slice of the intent.
unfoldable pub new_order : (Text → Text) → DateTime → OrderIntent → ℕ → LotSize → ExecutionOrder
new_order digest now intent slice_index lots = post_init (record {
  order_id = generate_client_order_id digest intent slice_index;
  intent_id = some intent.intent_id;
  symbol = intent.symbol;
  side = intent.side;
  order_type = intent.order_type;
  lot_size = lots;
  limit_price = intent.limit_price;
  stop_loss = intent.stop_loss;
  take_profit = intent.take_profit;
  status = OrderStatus.pending;
  created_at = now;
  updated_at = now;
  filled_units = pos 0;
  remaining_units = lots.units;
  average_fill_price = none;
})

abbrev pub max_clip_units : ℕ
max_clip_units = 500000

-- The orders of the slices, numbered from an index on.
unfoldable pub slice_orders :
    (Text → Text) → DateTime → OrderIntent → ℕ → List ℕ → Result (List ExecutionOrder)
slice_orders digest now intent index [] = ok []
slice_orders digest now intent index (chunk ∷ rest) =
    let more = slice_orders digest now intent (index + 1) rest in
    from_units (pos chunk) standard_lot_units >>= λ lots.
    more >>= λ orders. ok (new_order digest now intent index lots ∷ orders)

unfoldable pub slice_intent : (Text → Text) → DateTime → OrderIntent → Result (List ExecutionOrder)
unfolding slice_orders
slice_intent digest now intent =
    if leb_ℤ intent.lot_size.units (pos max_clip_units)
    then ok (new_order digest now intent 0 intent.lot_size ∷ [])
    else slice_orders digest now intent 0 (slice_sizes (pos_part intent.lot_size.units))

-- Each order is put into the heap, and into the cache under its id.
unfoldable pub register : List ExecutionOrder → Dict Ref → Heap → List Ref × Dict Ref × Heap
register [] cache heap = ([], cache, heap)
register (o ∷ os) cache heap =
    let (refs, cache', heap') =
      register os (insert o.order_id (length heap) cache) (heap ++ o ∷ []) in
    (length heap ∷ refs, cache', heap')

abbrev is_live : Text → Bool
is_live d =
    text_eq d (codes "LIVE") || text_eq d (codes "BROKER_LIVE") || text_eq d (codes "MT5_LIVE")

unfoldable pub route_intent :
    Text → DateTime → OrderIntent → Router → Heap → Result (List Ref) × Router × Heap
unfolding slice_intent register
route_intent destination now intent router heap =
    if is_live (upper destination) && not router.allow_live_routing
    then (err live_capital_locked, router, heap)
    else elim (lookup (generate_client_order_id router.digest intent 0) router.idempotency_cache) [
      | some cached ↦ (ok (cached ∷ []), router, heap)
      | none ↦ elim (slice_intent router.digest now intent) [
        | err e ↦ (err e, router, heap)
        | ok orders ↦
            let (refs, cache, heap') = register orders router.idempotency_cache heap in
            (ok refs, record router { idempotency_cache = cache }, heap')
      ]
    ]
