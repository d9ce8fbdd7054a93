-- ===== src/Reconciliation/Nets.antt =====
-- The net units of a ledger are the signed units of its positions.
use forex_platform.Domain.Kinds.{sign}
use forex_platform.Portfolio.Targets.{units_of}
use forex_platform.Portfolio.Targets.Steps.{units_of-insert}
use forex_platform.Reconciliation.{Leg, Ledger, gather, empty_ledger, sorted_keys}
use forex_platform.Prelude.{
  add_sorted, if◌then◌else◌, false, ◌||◌, List, [], ◌∷◌, ℤ, pos, ◌+ℤ◌, ◌*ℤ◌, Text, text_eq,
  text_eq_sound, clean_symbol, is_member, is_member-add_sorted, Dict, lookup, insert, contains,
  add_assoc, add_zero, zero_add, ◌≡◌, sym, refl, ◌∙◌, ap, arith, inl, inr, Bool-cases,
}

-- The signed units of the positions in a symbol.
abbrev pub total : Text → List Leg → ℤ
total k [] = pos 0
total k (p ∷ ps) =
    if text_eq k (clean_symbol p.symbol) then (p.units *ℤ sign p.side) +ℤ total k ps else total k ps

gather-net :
    (k : Text) (ps : List Leg) (l : Ledger)
    → units_of k (gather ps l).net ≡ units_of k l.net +ℤ total k ps
unfolding gather
gather-net k [] l = sym (add_zero (units_of k l.net))
gather-net k (p ∷ ps) l =
    let symbol = clean_symbol p.symbol in
    let gain = p.units *ℤ sign p.side in
    let next : Ledger = record {
      net = insert symbol (units_of symbol l.net +ℤ gain) l.net;
      sides = insert symbol p.side l.sides;
    } in
    let moves = units_of-insert k symbol (units_of symbol l.net +ℤ gain) l.net in
    gather-net k ps next ∙ (elim (Bool-cases (text_eq k symbol)) [
      | inl same ↦
          let at_symbol = ap (λ x. units_of x l.net) (text_eq_sound k symbol same) in
          rw (moves, same, at_symbol) (sym (add_assoc (units_of symbol l.net) gain (total k ps)))
      | inr other ↦ rw (moves, other) refl
    ])

pub gather-total : (k : Text) (ps : List Leg) → units_of k (gather ps empty_ledger).net ≡ total k ps
gather-total k ps = gather-net k ps empty_ledger ∙ unfold units_of lookup in zero_add (total k ps)

-- The symbols that a pass compares are those of either ledger.
sorted_keys-member :
    (k : Text) (d : Dict ℤ) (acc : List Text)
    → is_member k (sorted_keys d acc) ≡ (contains k d || is_member k acc)
unfolding sorted_keys lookup
sorted_keys-member k [] acc = refl
sorted_keys-member k ((j, n) ∷ d) acc =
    ground (arith, sorted_keys-member k d (add_sorted j acc), is_member-add_sorted k j acc)

-- A symbol that is not compared has no units in either.
pub units_of-absent :
    (k : Text) (d e : Dict ℤ)
    → is_member k (sorted_keys d (sorted_keys e [])) ≡ false
    → (units_of k d ≡ pos 0) × (units_of k e ≡ pos 0)
unfolding units_of is_member
units_of-absent k d e h =
    let outer = sorted_keys-member k d (sorted_keys e []) in
    let inner = sorted_keys-member k e [] in
    (ground (arith, outer, inner), ground (arith, outer, inner))
