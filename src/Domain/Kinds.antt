-- ===== src/Domain/Kinds.antt =====
-- The enumerations of forex_platform/core/domain.py.
use forex_platform.Prelude.{ℤ, pos, negsuc, Bool, true, false}

pub data OrderSide : Type 0 where
  buy sell : OrderSide

abbrev pub opposite : OrderSide → OrderSide
opposite buy = sell
opposite sell = buy

abbrev pub sign : OrderSide → ℤ
sign buy = pos 1
sign sell = negsuc 0

abbrev pub side_eq : OrderSide → OrderSide → Bool
side_eq buy buy = true
side_eq sell sell = true
side_eq _ _ = false

pub data OrderType : Type 0 where
  market limit stop stop_loss take_profit : OrderType

pub data OrderStatus : Type 0 where
  pending submitted filled partially_filled cancelled rejected expired : OrderStatus

pub data SessionName : Type 0 where
  sydney tokyo london new_york weekend closed : SessionName

pub data UrgencyLevel : Type 0 where
  low medium high critical : UrgencyLevel
