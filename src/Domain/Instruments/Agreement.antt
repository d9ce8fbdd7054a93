-- ===== src/Domain/Instruments/Agreement.antt =====
-- The registry agrees with the pairs of the domain model.
use forex_platform.Domain.Instruments.{
  InstrumentSpec, symbols, normalize, spec_of_code, is_supported, get, pair_of_spec,
}
use forex_platform.Domain.Pair.{CurrencyPair, from_symbol, pair_of_code}
use forex_platform.Prelude.{
  is_member-All, true, none, ◌++◌, take, drop, length, Text, strip, lstrip, is_space, upper,
  to_upper, remove_char, clean_symbol, is_member, ok, ◌≡◌, All, arith,
}

-- What every symbol of the universe has.
abbrev WellSpelled : Text → Type 0
WellSpelled s = (length s ≡ 6) × (clean_symbol (strip s) ≡ s) × (take 3 s ++ drop 3 s ≡ s)

symbols-WellSpelled : All WellSpelled symbols
unfolding clean_symbol strip lstrip is_space upper to_upper remove_char
symbols-WellSpelled = ground arith

-- The same legs, precision and pips.
abbrev pub Agrees : CurrencyPair → InstrumentSpec → Type 0
Agrees p spec =
    (p.symbol ≡ spec.symbol)
    × (p.base_currency ≡ spec.base_currency)
    × (p.quote_currency ≡ spec.quote_currency)
    × (p.price_precision ≡ spec.price_precision)
    × (p.pip_decimal_places ≡ spec.pip_decimal_places)

-- A supported instrument is a pair of the domain model with the same legs, precision and pips, and the
-- pair of its specification is that same pair.
pub get-from_symbol :
    (symbol : Text) (spec : InstrumentSpec)
    → get symbol ≡ ok spec
    → (p : CurrencyPair) × (from_symbol symbol none ≡ ok p)
      × (pair_of_spec spec ≡ ok p)
      × Agrees p spec
unfolding get is_supported normalize from_symbol pair_of_spec pair_of_code spec_of_code
get-from_symbol symbol spec e =
    let clean = clean_symbol (strip symbol) in
    let known : is_member clean symbols ≡ true = ground arith in
    let well = is_member-All WellSpelled clean symbols known symbols-WellSpelled in
    let made : spec_of_code clean ≡ spec = ground arith in
    (
      pair_of_code clean none,
      ground (arith, well),
      rw (← made) ground (arith, well),
      rw (← made) ground (arith, well),
    )
