-- ===== src/Domain/Orders.antt =====
-- `OrderIntent`, `ExecutionOrder` and `Fill` of forex_platform/core/domain.py.
use forex_platform.Decimal.{Decimal}
use forex_platform.Time.{DateTime}
use forex_platform.Domain.Kinds.{OrderSide, OrderType, OrderStatus, UrgencyLevel}
use forex_platform.Domain.Lots.{LotSize}
use forex_platform.Prelude.{ℤ, pos, eqb_ℤ, ◌&&◌, if◌then◌else◌, Option, Text}

pub record OrderIntent : Type 0 where
  pub intent_id : Text
  pub symbol : Text
  pub side : OrderSide
  pub order_type : OrderType
  pub lot_size : LotSize
  pub limit_price : Option Decimal
  pub stop_loss : Option Decimal
  pub take_profit : Option Decimal
  pub urgency : UrgencyLevel
  pub timestamp : DateTime
  pub client_tag : Option Text

pub record ExecutionOrder : Type 0 where
  pub order_id : Text
  pub intent_id : Option Text
  pub symbol : Text
  pub side : OrderSide
  pub order_type : OrderType
  pub lot_size : LotSize
  pub limit_price : Option Decimal
  pub stop_loss : Option Decimal
  pub take_profit : Option Decimal
  pub status : OrderStatus
  pub created_at : DateTime
  pub updated_at : DateTime
  pub filled_units : ℤ
  pub remaining_units : ℤ
  pub average_fill_price : Option Decimal

-- `model_post_init`
unfoldable pub post_init : ExecutionOrder → ExecutionOrder
post_init o =
    if eqb_ℤ o.remaining_units (pos 0) && eqb_ℤ o.filled_units (pos 0)
    then record o { remaining_units = o.lot_size.units }
    else o

pub record Fill : Type 0 where
  pub fill_id : Text
  pub order_id : Text
  pub symbol : Text
  pub side : OrderSide
  pub fill_price : Decimal
  pub units : ℤ
  pub commission : Decimal
  pub timestamp : DateTime
  pub liquidity_flag : Text
