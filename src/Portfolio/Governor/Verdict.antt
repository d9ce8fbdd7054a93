-- ===== src/Portfolio/Governor/Verdict.antt =====
-- What the verdicts of the exposure governor promise.
use forex_platform.Decimal
use forex_platform.Decimal.{Decimal, decimal}
use forex_platform.Domain.Lots.{LotSize, from_units, standard_lot_units}
use forex_platform.Domain.Orders.{OrderIntent}
use forex_platform.Portfolio.Downsize.{search_units, minimum_trade_units}
use forex_platform.Portfolio.Downsize.Search.{search_units_total, search_units_sound}
use forex_platform.Portfolio.Exposure.{
  CurrencyDelta, ExposureSnapshot, add_intents, simulate_order_exposure,
  calculate_portfolio_exposure,
}
use forex_platform.Portfolio.Governor.{
  Governor, GovernorDecision, Portfolio, simulate, resized, is_size_balanced, accept_size,
  attempt_downsize, is_breach, breached_currencies, settle, settle_downsize, evaluate_intent,
  abs_pct,
}
use forex_platform.Portfolio.Rates.{decompose_order_intent, intent_price}
use forex_platform.Prelude.{
  ℕ, ◌%◌, ◌≤◌, true, false, Option, none, some, List, [], ◌∷◌, pos, pos_part, leb_ℤ, ltb_ℤ, Text,
  codes, Dict, lookup, Result, ok, value_of, ◌≡◌, ◌≢◌, ◌∙◌, refl, arith, All, inl, inr, ◌⊎◌,
  Bool-cases, Option-cases, Result-cases,
}

attempt_downsize_total :
    (g : Governor) (p : Portfolio) (intent : OrderIntent) → attempt_downsize g p intent ≢ none
unfolding attempt_downsize
attempt_downsize_total g p intent e =
    let original = pos_part intent.lot_size.units in
    ground (
      arith,
      search_units_total (is_size_balanced g p intent) original minimum_trade_units original 0,
    )

-- The search for a smaller size never runs out of fuel, so every intent gets a verdict or the
-- exception that the evaluation raised.
pub evaluate_intent_total :
    (g : Governor) (p : Portfolio) (intent : OrderIntent) → evaluate_intent g p intent ≢ none
unfolding evaluate_intent settle
evaluate_intent_total g p intent e = ground (arith, attempt_downsize_total g p intent)

-- The exposure that an order adds depends on its symbol, side, size and limit price alone.
simulate-resized :
    (g : Governor) (p : Portfolio) (intent : OrderIntent) (a b : Text) (lots : LotSize)
    → simulate g p (resized intent a lots) ≡ simulate g p (resized intent b lots)
unfolding simulate simulate_order_exposure calculate_portfolio_exposure add_intents
    decompose_order_intent intent_price resized
simulate-resized g p intent a b lots = refl

attempt_downsize_cases :
    (g : Governor) (p : Portfolio) (intent : OrderIntent) (found : OrderIntent × LotSize)
    → attempt_downsize g p intent ≡ some (ok (some found))
    → let original = pos_part intent.lot_size.units in
      (best : ℕ) × (search_units
          (is_size_balanced g p intent)
          original
          minimum_trade_units
          original
          0
        ≡ some (ok best))
      × (accept_size intent best ≡ ok (some found))
unfolding attempt_downsize
attempt_downsize_cases g p intent found e =
    let original = pos_part intent.lot_size.units in
    let searched =
      search_units (is_size_balanced g p intent) original minimum_trade_units original 0 in
    elim (Bool-cases (leb_ℤ intent.lot_size.units (pos minimum_trade_units))) [
      | inl small ↦ absurd (ground arith)
      | inr large ↦ elim (Option-cases searched) [
        | inl dry ↦ absurd (ground arith)
        | inr (r, got) ↦ elim (Result-cases r) [
          | inl (best, is_best) ↦ (best, ground arith, ground arith)
          | inr (x, raised) ↦ absurd (ground arith)
        ]
      ]
    ]

accept_size_cases :
    (intent smaller : OrderIntent) (lots : LotSize) (best : ℕ)
    → accept_size intent best ≡ ok (some (smaller, lots))
    → (1000 ≤ best)
      × (ltb_ℤ (pos best) intent.lot_size.units ≡ true)
      × (from_units (pos best) standard_lot_units ≡ ok lots)
      × (smaller ≡ resized intent (codes "_adj") lots)
unfolding accept_size
accept_size_cases intent smaller lots best e =
    elim (Result-cases (from_units (pos best) standard_lot_units)) [
      | inl (made, is_made) ↦ (ground arith, ground arith, ground arith, ground arith)
      | inr (x, raised) ↦ absurd (ground arith)
    ]

is_size_balanced_cases :
    (g : Governor) (p : Portfolio) (intent : OrderIntent) (lots : LotSize) (n : ℕ)
    → from_units (pos n) standard_lot_units ≡ ok lots
    → is_size_balanced g p intent n ≡ ok true
    → (s : ExposureSnapshot) × (simulate g p (resized intent (codes "_downsized") lots) ≡ ok s)
      × (s.is_balanced ≡ true)
unfolding is_size_balanced
is_size_balanced_cases g p intent lots n made e =
    elim (Result-cases (simulate g p (resized intent (codes "_downsized") lots))) [
      | inl (s, found) ↦ (s, found, ground arith)
      | inr (x, raised) ↦ absurd (ground arith)
    ]

from_units-units :
    (n : ℕ) (lots : LotSize) → from_units (pos n) standard_lot_units ≡ ok lots → lots.units ≡ pos n
unfolding from_units
from_units-units n lots e = ground arith

-- A downsized order has the size of its lots, which is smaller than the intent's, at least 1000 units
-- and a multiple of 1000, and the portfolio with it is balanced.
pub attempt_downsize_sound :
    (g : Governor) (p : Portfolio) (intent smaller : OrderIntent) (lots : LotSize)
    → attempt_downsize g p intent ≡ some (ok (some (smaller, lots)))
    → ((smaller.lot_size ≡ lots) × (ltb_ℤ lots.units intent.lot_size.units ≡ true))
      × ((n : ℕ) × (lots.units ≡ pos n) × (1000 ≤ n) × (n % 1000 ≡ 0))
      × ((s : ExposureSnapshot) × (simulate g p smaller ≡ ok s) × (s.is_balanced ≡ true))
unfolding resized
attempt_downsize_sound g p intent smaller lots e =
    let original = pos_part intent.lot_size.units in
    let (best, searched, accepted) = attempt_downsize_cases g p intent (smaller, lots) e in
    let (least, less, made, is_smaller) = accept_size_cases intent smaller lots best accepted in
    let units = from_units-units best lots made in
    let passed : (is_size_balanced g p intent best ≡ ok true) × (best % 1000 ≡ 0) = ground (
      arith,
      search_units_sound (is_size_balanced g p intent) original minimum_trade_units original 0 best,
    ) in
    let (s, found, balanced) = is_size_balanced_cases g p intent lots best made passed.0 in
    (
      (rw is_smaller, rw units less),
      (best, units, least, passed.1),
      (
        s,
        rw is_smaller
            (simulate-resized g p intent (codes "_adj") (codes "_downsized") lots ∙ found),
        balanced,
      ),
    )

-- Every currency of the projection that is above the cap is one whose exposure the order lowers.
abbrev pub Reduced : Decimal → Dict CurrencyDelta → Text × CurrencyDelta → Type 0
Reduced limit base e =
    Decimal.lt limit e.1.abs_exposure_pct ≡ true
    → Decimal.lt e.1.abs_exposure_pct (abs_pct (lookup e.0 base)) ≡ true

breached_currencies-none :
    (limit : Decimal) (base deltas : Dict CurrencyDelta)
    → breached_currencies limit base deltas ≡ []
    → All (Reduced limit base) deltas
unfolding breached_currencies
breached_currencies-none limit base [] e = tt
breached_currencies-none limit base ((curr, delta) ∷ rest) e =
    elim (Bool-cases (is_breach limit base curr delta)) [
      | inl breach ↦ absurd (ground arith)
      | inr fine ↦ (λ above. ground arith, breached_currencies-none limit base rest (rw fine at e))
    ]

-- An approval of the intent as it is.
abbrev pub ApprovedWhole : Governor → Portfolio → OrderIntent → Type 0
ApprovedWhole g p intent =
    (base : ExposureSnapshot) × (projected : ExposureSnapshot) × (calculate_portfolio_exposure
        p.open_positions p.account_equity [] p.current_prices g.max_exposure_pct g.matrix
      ≡ ok base)
    × (simulate_order_exposure p.open_positions intent p.account_equity p.current_prices
          g.max_exposure_pct g.matrix
        ≡ ok projected)
    × All (Reduced g.max_exposure_pct base.deltas) projected.deltas

-- An approval of a smaller order.
abbrev pub ApprovedSmaller : Governor → Portfolio → OrderIntent → GovernorDecision → Type 0
ApprovedSmaller g p intent d =
    (smaller : OrderIntent) × (s : ExposureSnapshot) × (d.suggested_order ≡ some smaller)
    × (d.allowed_lots ≡ some smaller.lot_size)
    × (ltb_ℤ smaller.lot_size.units intent.lot_size.units ≡ true)
    × (simulate_order_exposure p.open_positions smaller p.account_equity p.current_prices
          g.max_exposure_pct g.matrix
        ≡ ok s)
    × (d.snapshot ≡ some s)
    × (s.is_balanced ≡ true)

abbrev pub Approval : Governor → Portfolio → OrderIntent → GovernorDecision → Type 0
Approval g p intent d =
    ((d.downsized ≡ false) × ApprovedWhole g p intent)
    ⊎ ((d.downsized ≡ true) × ApprovedSmaller g p intent d)

settle_downsize_sound :
    (g : Governor) (p : Portfolio) (intent : OrderIntent) (primary : Text)
    (base projected : ExposureSnapshot) (tried : Option (OrderIntent × LotSize))
    (d : GovernorDecision)
    → attempt_downsize g p intent ≡ some (ok tried)
    → settle_downsize g p intent primary base projected tried ≡ ok d
    → d.approved ≡ true
    → (d.downsized ≡ true) × ApprovedSmaller g p intent d
unfolding settle_downsize
settle_downsize_sound g p intent primary base projected none d tries e yes_d = absurd (ground arith)
settle_downsize_sound g p intent primary base projected (some (smaller, lots)) d tries e ok_d =
    let (sized, _, (s, found, balanced)) = attempt_downsize_sound g p intent smaller lots tries in
    (
      ground (arith, found),
      (
        smaller,
        s,
        ground (arith, found),
        ground (arith, found, sized.0),
        ground (arith, sized.0, sized.1),
        (unfold simulate in found),
        ground (arith, found),
        balanced,
      ),
    )

settle_sound :
    (g : Governor) (p : Portfolio) (intent : OrderIntent) (base projected : ExposureSnapshot)
    (breached : List Text) (d : GovernorDecision)
    → simulate g p intent ≡ ok projected
    → calculate_portfolio_exposure p.open_positions p.account_equity [] p.current_prices
        g.max_exposure_pct g.matrix
      ≡ ok base
    → breached_currencies g.max_exposure_pct base.deltas projected.deltas ≡ breached
    → settle g p intent base projected breached ≡ some (ok d)
    → d.approved ≡ true
    → Approval g p intent d
unfolding settle
settle_sound g p intent base projected [] d found is_base none_breached e ok_d = inl (
  ground arith,
  (
    base,
    projected,
    is_base,
    (unfold simulate in found),
    breached_currencies-none g.max_exposure_pct base.deltas projected.deltas none_breached,
  ),
)
settle_sound g p intent base projected (primary ∷ more) d found is_base some_breached e ok_d =
    elim (Bool-cases g.allow_downsizing) [
      | inr never ↦ absurd (ground arith)
      | inl allowed ↦ elim (Option-cases (attempt_downsize g p intent)) [
        | inl dry ↦ absurd (ground arith)
        | inr (r, tries) ↦ elim (Result-cases r) [
          | inr (x, raised) ↦ absurd (ground arith)
          | inl (tried, is_tried) ↦ inr (
              settle_downsize_sound g p intent primary base projected tried d (ground arith)
                (ground arith) ok_d)
        ]
      ]
    ]

-- An approved intent is one of two. Either it is approved whole, and every currency above the cap in the
-- portfolio with the order is one whose exposure in the portfolio without it is larger; or a smaller order
-- is suggested in its place, with the allowed lots, and the reported snapshot is that of the portfolio with
-- it and balanced.
pub evaluate_intent_sound :
    (g : Governor) (p : Portfolio) (intent : OrderIntent) (d : GovernorDecision)
    → evaluate_intent g p intent ≡ some (ok d)
    → d.approved ≡ true
    → Approval g p intent d
unfolding evaluate_intent
evaluate_intent_sound g p intent d e ok_d =
    elim (Bool-cases (Decimal.le p.account_equity (decimal (pos 0) 0))) [
      | inl broke ↦ absurd (ground arith)
      | inr solvent ↦
          elim (Result-cases (
            calculate_portfolio_exposure p.open_positions p.account_equity [] p.current_prices
              g.max_exposure_pct g.matrix)) [
                | inr (x, raised) ↦ absurd (ground arith)
                | inl (base, is_base) ↦ elim (Result-cases (simulate g p intent)) [
                  | inr (x, raised) ↦ absurd (ground arith)
                  | inl (projected, found) ↦
                      settle_sound g p intent base projected
                        (breached_currencies g.max_exposure_pct base.deltas projected.deltas) d
                        found is_base refl (ground arith) ok_d
                ]
              ]
    ]

-- The verdict, the search having enough fuel.
unfoldable pub verdict : Governor → Portfolio → OrderIntent → Result GovernorDecision
verdict g p intent = value_of (evaluate_intent g p intent) (evaluate_intent_total g p intent)
