-- ===== src/Portfolio/Targets/Steps.antt =====
-- What one target does to an allocation.
use forex_platform.Domain.Instruments.{is_supported, normalize}
use forex_platform.Domain.Lots.{LotSize, from_units, standard_lot_units}
use forex_platform.Domain.Pair.{CurrencyPair, from_symbol}
use forex_platform.Portfolio.Targets.{
  Allocator, Progress, TargetPosition, units_of, gross, reject, target_intent, accept_delta,
  limit_delta, allocate_target,
}
use forex_platform.Prelude.{
  Dict, lookup-insert, ◌+◌, ◌≤◌, true, none, [], ◌∷◌, ◌++◌, pos, ◌+ℤ◌, ◌-ℤ◌, ℤ, abs_ℕ, Text, insert,
  ok, ◌>>=◌, >>=-eq-ok, ◌≡◌, ◌⊎◌, inl, inr, Bool-cases, arith, codes, ltb, ◌==◌, if◌then◌else◌,
  ◌&&◌, ◌||◌, text_eq,
}
use forex_platform.Time.{DateTime}

abbrev pub delta_of : TargetPosition → Progress → ℤ
delta_of target s = target.target_units -ℤ units_of (normalize target.symbol) s.projected

-- The target is refused for a reason.
abbrev pub Refused : Progress → Progress → Type 0
Refused s s' = (why : Text) × (s' ≡ record s { rejected = s.rejected ++ why ∷ [] })

-- The delta of a supported symbol is within the gross limit, and becomes an intent.
abbrev pub Accepted :
    Allocator → TargetPosition → Text → ℤ → DateTime → Progress → Progress → Type 0
Accepted a target symbol delta t s s' =
    (gross s.projected + abs_ℕ delta ≤ a.max_gross_units)
    × ((lots : LotSize) × (from_units (pos (abs_ℕ delta)) standard_lot_units ≡ ok lots)
        × (s' ≡ record s {
          intents = s.intents ++ target_intent target symbol delta t lots ∷ [];
          projected = insert symbol (units_of symbol s.projected +ℤ delta) s.projected;
        }))

accept_delta-cases :
    (target : TargetPosition) (symbol : Text) (delta : ℤ) (t : DateTime) (s s' : Progress)
    → accept_delta target symbol delta t s ≡ ok s'
    → (lots : LotSize) × (from_units (pos (abs_ℕ delta)) standard_lot_units ≡ ok lots)
      × (s' ≡ record s {
        intents = s.intents ++ target_intent target symbol delta t lots ∷ [];
        projected = insert symbol (units_of symbol s.projected +ℤ delta) s.projected;
      })
unfolding accept_delta
accept_delta-cases target symbol delta t s s' e =
    let (lots, made, run) = >>=-eq-ok (from_units (pos (abs_ℕ delta)) standard_lot_units) _ e in
    (lots, made, ground (arith, run))

limit_delta-cases :
    (a : Allocator) (target : TargetPosition) (symbol : Text) (pair : CurrencyPair) (delta : ℤ)
    (t : DateTime) (s s' : Progress)
    → limit_delta a target symbol pair delta t s ≡ ok s'
    → Refused s s' ⊎ Accepted a target symbol delta t s s'
unfolding limit_delta reject
limit_delta-cases a target symbol pair delta t s s' e =
    elim (Bool-cases (ltb a.max_symbol_units (abs_ℕ (units_of symbol s.projected +ℤ delta)))) [
      | inl over ↦ inl (codes "symbol_cap:" ++ symbol, ground arith)
      | inr fits ↦ elim (Bool-cases (ltb a.max_gross_units (gross s.projected + abs_ℕ delta))) [
        | inl over ↦ inl (codes "gross_cap:" ++ symbol, ground arith)
        | inr within ↦
            elim (Bool-cases (
              (text_eq pair.base_currency (codes "USD")
                || text_eq pair.quote_currency (codes "USD"))
              && ltb a.max_currency_delta_units (abs_ℕ delta))) [
                | inl over ↦ inl (codes "currency_cap:" ++ symbol, ground arith)
                | inr free ↦
                    inr (ground arith, accept_delta-cases target symbol delta t s s' (ground arith))
              ]
      ]
    ]

-- A target is refused, is reached already, or is accepted for a symbol of the universe.
pub allocate_target-cases :
    (a : Allocator) (target : TargetPosition) (t : DateTime) (s s' : Progress)
    → allocate_target a target t s ≡ ok s'
    → Refused s s'
      ⊎ ((abs_ℕ (delta_of target s) ≡ 0) × (s' ≡ s))
      ⊎ ((is_supported (normalize target.symbol) ≡ true)
          × Accepted a target (normalize target.symbol) (delta_of target s) t s s')
unfolding allocate_target reject
allocate_target-cases a target t s s' e =
    let symbol = normalize target.symbol in
    let delta = delta_of target s in
    elim (Bool-cases (is_supported symbol)) [
      | inr foreign ↦ inl (codes "unsupported:" ++ target.symbol, ground arith)
      | inl known ↦
          let after : (from_symbol symbol none >>= λ pair.
          if abs_ℕ delta == 0 then ok s else limit_delta a target symbol pair delta t s)
              ≡ ok s' =
            ground arith in
          let (pair, named, run) = >>=-eq-ok (from_symbol symbol none) _ after in
          elim (Bool-cases (abs_ℕ delta == 0)) [
            | inl reached ↦ inr (inl (ground arith, ground (arith, run)))
            | inr apart ↦
                elim (limit_delta-cases a target symbol pair delta t s s' (ground (arith, run))) [
                  | inl refused ↦ inl refused
                  | inr accepted ↦ inr (inr (known, accepted))
                ]
          ]
    ]

pub units_of-insert :
    (k j : Text) (n : ℤ) (d : Dict ℤ)
    → units_of k (insert j n d) ≡ (if text_eq k j then n else units_of k d)
unfolding units_of
units_of-insert k j n d = ground (arith, lookup-insert j k n d)
