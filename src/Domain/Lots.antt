-- ===== src/Domain/Lots.antt =====
-- `LotSize` of forex_platform/core/domain.py.
use forex_platform.Decimal
use forex_platform.Decimal.{Decimal, decimal, of_int}
use forex_platform.Prelude.{
  ℤ, pos, ◌+ℤ◌, ◌-ℤ◌, leb_ℤ, ltb_ℤ, if◌then◌else◌, Bool, Result, ok, err, value_error, ◌>>=◌,
}

pub record LotSize : Type 0 where
  pub units : ℤ
  pub standard_lots : Decimal

abbrev pub standard_lot_units : ℤ
standard_lot_units = pos 100000

unfoldable pub from_lots : Decimal → ℤ → Result LotSize
from_lots lots lot_units = if Decimal.le lots (decimal (pos 0) 0) then err value_error else do
  rounded ← Decimal.quantize (Decimal.mul lots (of_int lot_units)) 0
  ok (record { units = Decimal.to_int rounded; standard_lots = lots })

unfoldable pub from_units : ℤ → ℤ → Result LotSize
from_units units lot_units = if leb_ℤ units (pos 0) then err value_error else do
  lots ← Decimal.div (of_int units) (of_int lot_units)
  rounded ← Decimal.quantize lots 4
  ok (record { units = units; standard_lots = rounded })

unfoldable pub mini_lots : LotSize → Decimal
mini_lots l = Decimal.mul l.standard_lots (of_int (pos 10))

unfoldable pub micro_lots : LotSize → Decimal
micro_lots l = Decimal.mul l.standard_lots (of_int (pos 100))

unfoldable pub nano_lots : LotSize → Decimal
nano_lots l = Decimal.mul l.standard_lots (of_int (pos 1000))

-- `__add__`
unfoldable pub add_lots : LotSize → LotSize → Result LotSize
unfolding from_units
add_lots a b = from_units (a.units +ℤ b.units) standard_lot_units

-- `__sub__`
unfoldable pub sub_lots : LotSize → LotSize → Result LotSize
unfolding from_units
sub_lots a b =
    let diff = a.units -ℤ b.units in
    if leb_ℤ diff (pos 0) then err value_error else from_units diff standard_lot_units

-- `__mul__`
unfoldable pub mul_lots : LotSize → Decimal → Result LotSize
unfolding from_units
mul_lots a factor = do
  rounded ← Decimal.quantize (Decimal.mul (of_int a.units) factor) 0
  let new_units = Decimal.to_int rounded
  if leb_ℤ new_units (pos 0) then err value_error else from_units new_units standard_lot_units

-- `__lt__`, `__le__`, `__gt__`, `__ge__`
unfoldable pub lt_lots : LotSize → LotSize → Bool
lt_lots a b = ltb_ℤ a.units b.units

unfoldable pub le_lots : LotSize → LotSize → Bool
le_lots a b = leb_ℤ a.units b.units

unfoldable pub gt_lots : LotSize → LotSize → Bool
gt_lots a b = ltb_ℤ b.units a.units

unfoldable pub ge_lots : LotSize → LotSize → Bool
ge_lots a b = leb_ℤ b.units a.units
