-- ===== src/Portfolio/Exposure/Balance.antt =====
-- What a snapshot says of the currencies: the conversion loop of the exposure matrix.
use forex_platform.Decimal
use forex_platform.Decimal.{Decimal}
use forex_platform.Decimal.Order.{lt_irrefl, lt_asymm, le_trans}
use forex_platform.Domain.Orders.{OrderIntent}
use forex_platform.Domain.Position.{Position}
use forex_platform.Portfolio.Rates.{
  ExposureMatrix, rate_symbol, decompose_position, decompose_order_intent,
}
use forex_platform.Portfolio.Exposure.{
  CurrencyDelta, ExposureSnapshot, Converted, Accumulated, nothing_converted, currency_delta,
  record_delta, convert, zero_totals, add_legs, add_positions, add_intents, usable_equity, price_of,
  calculate_portfolio_exposure,
}
use forex_platform.Prelude.{
  if◌then◌else◌, true, false, Option, none, List, [], ◌∷◌, Text, text_eq, upper, Dict, lookup,
  insert, ok, >>=-eq-ok, ◌≡◌, ◌↔◌, refl, subst, arith, All, Distinct, insert-Distinct,
  lookup-insert, All-insert_new, text_eq_iff, Bool-cases, inl, inr,
}

abbrev pub Within : Decimal → Text × CurrencyDelta → Type 0
Within limit e = Decimal.lt limit e.1.abs_exposure_pct ≡ false

abbrev pub Below : Decimal → Text × CurrencyDelta → Type 0
Below top e = Decimal.le e.1.abs_exposure_pct top ≡ true

-- No key of `totals` is converted yet.
abbrev Fresh : Dict CurrencyDelta → Dict Decimal → Type 0
Fresh deltas totals = All (λ e. lookup e.0 deltas ≡ none) totals

Fresh-insert :
    (k : Text) (d : CurrencyDelta) (deltas : Dict CurrencyDelta) (totals : Dict Decimal)
    → lookup k totals ≡ none
    → Fresh deltas totals
    → Fresh (insert k d deltas) totals
unfolding lookup
Fresh-insert k d deltas [] missing h = tt
Fresh-insert k d deltas ((j, v) ∷ totals) missing h = elim (Bool-cases (text_eq k j)) [
  | inl same ↦ absurd (ground arith)
  | inr other ↦ (
    ground (arith, lookup-insert k j d deltas, text_eq_iff j k, text_eq_iff k j),
    Fresh-insert k d deltas totals (rw other at missing) h.1,
  )
]

Below-mono :
    (low top : Decimal) (deltas : Dict CurrencyDelta)
    → Decimal.le low top ≡ true
    → All (Below low) deltas
    → All (Below top) deltas
Below-mono low top [] up h = tt
Below-mono low top (e ∷ deltas) up h =
    (le_trans e.1.abs_exposure_pct low top h.0 up, Below-mono low top deltas up h.1)

-- What the loop keeps of the deltas so far.
record Sound (limit : Decimal) (c : Converted) : Type 0 where
  balanced : (c.is_balanced ≡ true) ↔ All (Within limit) c.deltas
  topped : All (Below c.max_pct) c.deltas

record_delta-Sound :
    (limit : Decimal) (c : Converted) (d : CurrencyDelta)
    → lookup d.currency c.deltas ≡ none
    → Sound limit c
    → Sound limit (record_delta limit c d)
unfolding record_delta
record_delta-Sound limit c d fresh s =
    let pct = d.abs_exposure_pct in
    let top = if Decimal.lt c.max_pct pct then pct else c.max_pct in
    let up : Decimal.le c.max_pct top ≡ true =
      ground (arith, lt_irrefl c.max_pct, lt_asymm c.max_pct pct) in
    let self : Decimal.le pct top ≡ true = ground (arith, lt_irrefl pct) in
    let within = All-insert_new (Within limit) d.currency d c.deltas fresh in
    let below = All-insert_new (Below top) d.currency d c.deltas fresh in
    record {
      balanced = elim (Bool-cases (Decimal.lt limit pct)) [
        | inl above ↦ rw above (λ e. cc, λ h. absurd (ground (arith, (within.0 h).0)))
        | inr inside ↦
            rw inside (λ e. within.1 (inside, s.balanced.0 e), λ h. s.balanced.1 (within.0 h).1)
      ];
      topped = below.1 (self, Below-mono c.max_pct top c.deltas up s.topped);
    }

currency_delta-currency :
    (m : ExposureMatrix) (prices : Option (Dict Decimal)) (equity : Decimal) (curr : Text)
    (raw : Decimal) (d : CurrencyDelta)
    → currency_delta m prices equity curr raw ≡ ok d
    → d.currency ≡ curr
unfolding currency_delta
currency_delta-currency m prices equity curr raw d e = ground arith

convert-Sound :
    (m : ExposureMatrix) (prices : Option (Dict Decimal)) (equity limit : Decimal)
    (totals : Dict Decimal) (c c' : Converted)
    → Distinct totals
    → Fresh c.deltas totals
    → Sound limit c
    → convert m prices equity limit totals c ≡ ok c'
    → Sound limit c'
unfolding convert
convert-Sound m prices equity limit [] c c' distinct fresh s e =
    let same : c ≡ c' = cc in subst (Sound limit) same s
convert-Sound m prices equity limit ((curr, raw) ∷ rest) c c' distinct fresh s e =
    let (d, made, run) = >>=-eq-ok (currency_delta m prices equity curr raw) _ e in
    let named = currency_delta-currency m prices equity curr raw d made in
    let new : lookup d.currency c.deltas ≡ none = rw named fresh.0 in
    convert-Sound m prices equity limit rest (record_delta limit c d) c' distinct.1
      (unfold record_delta in rw named (Fresh-insert curr d c.deltas rest distinct.0 fresh.1))
      (record_delta-Sound limit c d new s) run

add_legs-Distinct : (ls totals : Dict Decimal) → Distinct totals → Distinct (add_legs totals ls)
unfolding add_legs
add_legs-Distinct [] totals h = h
add_legs-Distinct ((curr, amount) ∷ rest) totals h =
    add_legs-Distinct rest _ (insert-Distinct (upper curr) _ totals h)

zero_totals-Distinct :
    (cs : List Text) (d : Dict Decimal) → Distinct d → Distinct (zero_totals cs d)
unfolding zero_totals
zero_totals-Distinct [] d h = h
zero_totals-Distinct (c ∷ cs) d h = zero_totals-Distinct cs _ (insert-Distinct c _ d h)

add_positions-Distinct :
    (m : ExposureMatrix) (prices : Option (Dict Decimal)) (ps : List Position)
    (acc acc' : Accumulated)
    → Distinct acc.raw_totals
    → add_positions m prices ps acc ≡ ok acc'
    → Distinct acc'.raw_totals
unfolding add_positions
add_positions-Distinct m prices [] acc acc' h e =
    let same : acc ≡ acc' = cc in subst (λ a. Distinct a.raw_totals) same h
add_positions-Distinct m prices (p ∷ rest) acc acc' h e = elim (Bool-cases p.is_open) [
  | inl is_open ↦
      let (decomp, made, run) =
        >>=-eq-ok (decompose_position p (price_of prices (rate_symbol p.symbol)) m) _
          (simp is_open at e) in
      add_positions-Distinct m prices rest _ acc' (add_legs-Distinct decomp acc.raw_totals h) run
  | inr closed ↦ add_positions-Distinct m prices rest acc acc' h (simp closed at e)
]

add_intents-Distinct :
    (m : ExposureMatrix) (prices : Option (Dict Decimal)) (is : List OrderIntent)
    (acc acc' : Accumulated)
    → Distinct acc.raw_totals
    → add_intents m prices is acc ≡ ok acc'
    → Distinct acc'.raw_totals
unfolding add_intents
add_intents-Distinct m prices [] acc acc' h e =
    let same : acc ≡ acc' = cc in subst (λ a. Distinct a.raw_totals) same h
add_intents-Distinct m prices (i ∷ rest) acc acc' h e =
    let (decomp, made, run) =
      >>=-eq-ok (decompose_order_intent i (price_of prices (rate_symbol i.symbol)) m) _ e in
    add_intents-Distinct m prices rest _ acc' (add_legs-Distinct decomp acc.raw_totals h) run

All-none : (totals : Dict Decimal) → Fresh [] totals
unfolding lookup
All-none [] = tt
All-none (e ∷ totals) = (refl, All-none totals)

-- The snapshot passes on what the loop found.
abbrev Reports : Converted → ExposureSnapshot → Type 0
Reports c s =
    (c.is_balanced ≡ s.is_balanced)
    × (c.deltas ≡ s.deltas)
    × (c.max_pct ≡ s.max_currency_exposure_pct)

Reports-snapshot :
    (limit : Decimal) (c : Converted) (s : ExposureSnapshot)
    → Reports c s
    → Sound limit c
    → ((s.is_balanced ≡ true) ↔ All (Within limit) s.deltas)
      × All (Below s.max_currency_exposure_pct) s.deltas
Reports-snapshot limit c s (balanced, deltas, top) sound =
    rw (← balanced, ← deltas, ← top) (sound.balanced, sound.topped)

-- In a snapshot that is returned, `is_balanced` holds exactly when the absolute exposure of every currency is
-- within the limit, and no currency's absolute exposure is above `max_currency_exposure_pct`.
pub is_balanced_iff :
    (positions : List Position) (equity : Decimal) (pending : List OrderIntent)
    (prices : Option (Dict Decimal)) (limit : Decimal) (m : ExposureMatrix) {s : ExposureSnapshot}
    → calculate_portfolio_exposure positions equity pending prices limit m ≡ ok s
    → ((s.is_balanced ≡ true) ↔ All (Within limit) s.deltas)
      × All (Below s.max_currency_exposure_pct) s.deltas
unfolding calculate_portfolio_exposure
is_balanced_iff positions equity pending prices limit m {s} e =
    let (held, e₁, r₁) = >>=-eq-ok (add_positions m prices positions _) _ e in
    let (all, e₂, r₂) = >>=-eq-ok (add_intents m prices pending held) _ r₁ in
    let (c, e₃, r₃) =
      >>=-eq-ok (convert m prices (usable_equity equity) limit all.raw_totals nothing_converted) _
        r₂ in
    let start = zero_totals-Distinct m.supported_currencies [] tt in
    let added = add_positions-Distinct m prices positions _ held start e₁ in
    let distinct = add_intents-Distinct m prices pending held all added e₂ in
    let sound =
      convert-Sound m prices (usable_equity equity) limit all.raw_totals nothing_converted c
        distinct (All-none all.raw_totals) (record { balanced = (λ _. tt, λ _. refl); topped = tt })
        e₃ in
    Reports-snapshot limit c s (ground (arith, r₃)) sound
