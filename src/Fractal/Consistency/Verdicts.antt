-- ===== src/Fractal/Consistency/Verdicts.antt =====
-- When two adjacent sets agree.
use forex_platform.Fractal.Consistency.{
  SetRead, SetStatus, lacks_coverage, conflicted, insufficient_coverage, htf_unresolved,
  mtf_setup_formed, pending_mtf_setup, read_states, verdict,
}
use forex_platform.Fractal.Requirements.{expected_child_shift, required_shift, shift_of_trend}
use forex_platform.Fractal.States.{
  CanonicalTimeframeState, Location, premium, equilibrium, discount, unknown, ambiguous,
  is_direction, opt_eq,
}
use forex_platform.Prelude.{
  ℕ, Bool, true, false, Bool-cases, Option-cases, Option, none, if◌then◌else◌, some, Text, ℤ, pos,
  negsuc, ◌-ℤ◌, eqb_ℤ, ◌≡◌, ◌≢◌, ◌⊎◌, ◌↔◌, refl, subst, ◌∙◌, ap, sym, inl, inr, arith,
}

direction_cases : (t : ℤ) → is_direction t ≡ true → (t ≡ pos 1) ⊎ (t ≡ negsuc 0)
direction_cases (pos n) h = inl (ground arith)
direction_cases (negsuc n) h = inr (ground arith)

negated : (t : ℤ) → (t ≡ pos 1) ⊎ (t ≡ negsuc 0) → (pos 0 -ℤ t ≡ pos 1) ⊎ (pos 0 -ℤ t ≡ negsuc 0)
unfolding ◌-ℤ◌
negated t (inl h) = inr (rw h refl)
negated t (inr h) = inl (rw h refl)

required_shift-direction :
    (location : Location) (t d : ℤ)
    → (t ≡ pos 1) ⊎ (t ≡ negsuc 0)
    → required_shift location t ≡ some d
    → (d ≡ pos 1) ⊎ (d ≡ negsuc 0)
required_shift-direction premium t d h e =
    let x : pos 0 -ℤ t ≡ d = cc in subst (λ y. (y ≡ pos 1) ⊎ (y ≡ negsuc 0)) x (negated t h)
required_shift-direction discount t d h e =
    let x : t ≡ d = cc in subst (λ y. (y ≡ pos 1) ⊎ (y ≡ negsuc 0)) x h
required_shift-direction equilibrium t d h e = absurd cc
required_shift-direction unknown t d h e = absurd cc
required_shift-direction ambiguous t d h e = absurd cc

shift_of_trend-direction :
    (trend : Option ℤ) (location : Location) (d : ℤ)
    → shift_of_trend trend location ≡ some d
    → (d ≡ pos 1) ⊎ (d ≡ negsuc 0)
shift_of_trend-direction none location d e = absurd cc
shift_of_trend-direction (some t) location d e = elim (Bool-cases (is_direction t)) [
  | inl h ↦ required_shift-direction location t d (direction_cases t h) (rw h at e)
  | inr h ↦ absurd (ground arith)
]

-- Two required shifts are equal or opposite.
opposite_shift :
    (d e : ℤ)
    → (d ≡ pos 1) ⊎ (d ≡ negsuc 0)
    → (e ≡ pos 1) ⊎ (e ≡ negsuc 0)
    → eqb_ℤ d e ≡ false
    → e ≡ pos 0 -ℤ d
unfolding ◌-ℤ◌
opposite_shift d e (inl h) (inl k) differ = absurd (ground (arith, h, k, differ))
opposite_shift d e (inl h) (inr k) differ = rw (h, k) refl
opposite_shift d e (inr h) (inl k) differ = rw (h, k) refl
opposite_shift d e (inr h) (inr k) differ = absurd (ground (arith, h, k, differ))

read_shift :
    (key : Text) (t : ℕ) (htf mtf : Option CanonicalTimeframeState) (d : ℤ)
    → (read_states key t htf mtf).required_mtf_shift ≡ some d
    → (h m : CanonicalTimeframeState) × (htf ≡ some h)
      × (mtf ≡ some m)
      × (expected_child_shift h ≡ some d)
unfolding read_states
read_shift key t none mtf d e = absurd cc
read_shift key t (some h) none d e = absurd cc
read_shift key t (some h) (some m) d e = elim (Option-cases (expected_child_shift h)) [
  | inl idle ↦ absurd (ground arith)
  | inr (d', due) ↦ (h, m, refl, refl, ground arith)
]

read_direction :
    (key : Text) (t : ℕ) (htf mtf : Option CanonicalTimeframeState) (d : ℤ)
    → (read_states key t htf mtf).required_mtf_shift ≡ some d
    → (d ≡ pos 1) ⊎ (d ≡ negsuc 0)
read_direction key t htf mtf d e =
    let (h, m, a, b, shift) = read_shift key t htf mtf d e in
    unfold expected_child_shift in shift_of_trend-direction h.structural_trend h.location d shift

-- The status of a read with a shift.
read_status :
    (key : Text) (t : ℕ) (htf mtf : Option CanonicalTimeframeState) (d : ℤ)
    → let r = read_states key t htf mtf in
      r.required_mtf_shift ≡ some d
      → r.status ≡ (if opt_eq r.mtf_trend (some d) then mtf_setup_formed else pending_mtf_setup)
unfolding read_states
read_status key t none mtf d e = absurd cc
read_status key t (some h) none d e = absurd cc
read_status key t (some h) (some m) d e = elim (Option-cases (expected_child_shift h)) [
  | inl idle ↦ absurd (ground arith)
  | inr (d', due) ↦ ground arith
]

-- A read without a shift has no setup.
read_unresolved :
    (key : Text) (t : ℕ) (htf mtf : Option CanonicalTimeframeState)
    → let r = read_states key t htf mtf in
      r.required_mtf_shift ≡ none → (r.status ≡ insufficient_coverage) ⊎ (r.status ≡ htf_unresolved)
unfolding read_states
read_unresolved key t none mtf e = inl refl
read_unresolved key t (some h) none e = inl refl
read_unresolved key t (some h) (some m) e = elim (Option-cases (expected_child_shift h)) [
  | inl idle ↦ inr (ground arith)
  | inr (d', due) ↦ absurd (ground arith)
]

opt_eq-some : (o : Option ℤ) (d : ℤ) → (opt_eq o (some d) ≡ true) ↔ (o ≡ some d)
unfolding opt_eq
opt_eq-some none d = (λ h. absurd (ground arith), λ h. absurd cc)
opt_eq-some (some (pos a)) (pos b) = (λ h. ground arith, λ h. ground arith)
opt_eq-some (some (pos a)) (negsuc b) = (λ h. absurd (ground arith), λ h. absurd cc)
opt_eq-some (some (negsuc a)) (pos b) = (λ h. absurd (ground arith), λ h. absurd cc)
opt_eq-some (some (negsuc a)) (negsuc b) = (λ h. ground arith, λ h. ground arith)

-- The verdict is a conflict when the setup of the parent is pending, and the shifts differ.
conflict_iff :
    (p c : SetRead) (formed : Bool) (d e : ℤ)
    → p.status ≡ (if formed then mtf_setup_formed else pending_mtf_setup)
    → p.required_mtf_shift ≡ some d
    → c.required_mtf_shift ≡ some e
    → lacks_coverage c.status ≡ false
    → ((verdict p c).0 ≡ conflicted) ↔ ((formed ≡ false) × (eqb_ℤ d e ≡ false))
unfolding verdict
conflict_iff p c true d e s due owed covered =
    rw (s, covered, owed) (λ h. absurd cc, λ h. absurd cc)
conflict_iff p c false d e s due owed covered = elim (Bool-cases (eqb_ℤ d e)) [
  | inl same ↦ rw (s, covered, due, owed, same) (λ h. absurd cc, λ h. absurd cc)
  | inr other ↦ rw (s, covered, due, owed, other) (λ h. (refl, refl), λ h. refl)
]

no_conflict :
    (p c : SetRead) (formed : Bool)
    → p.status ≡ (if formed then mtf_setup_formed else pending_mtf_setup)
    → c.required_mtf_shift ≡ none
    → (verdict p c).0 ≢ conflicted
unfolding verdict
no_conflict p c formed s owed h = absurd (ground arith)

covers :
    (o : Option ℤ) (d : ℤ) (s : SetStatus)
    → s ≡ (if opt_eq o (some d) then mtf_setup_formed else pending_mtf_setup)
    → lacks_coverage s ≡ false
covers o d s h = elim (Bool-cases (opt_eq o (some d))) [
  | inl formed ↦ rw (h, formed) refl
  | inr pending ↦ rw (h, pending) refl
]

negated_differs : (d : ℤ) → (d ≡ pos 1) ⊎ (d ≡ negsuc 0) → eqb_ℤ d (pos 0 -ℤ d) ≡ false
unfolding ◌-ℤ◌
negated_differs d (inl h) = rw h refl
negated_differs d (inr h) = rw h refl

-- Of two set reads, the verdict is a conflict exactly when the parent set requires a shift that its middle
-- state does not have as its trend, and the child set requires the opposite shift, one of the two being 1
-- and the other -1.
pub verdict_conflicted :
    (key key' : Text) (t t' : ℕ) (htf mtf htf' mtf' : Option CanonicalTimeframeState)
    → let parent = read_states key t htf mtf in
      let child = read_states key' t' htf' mtf' in
      ((verdict parent child).0 ≡ conflicted) ↔ (
        (d : ℤ) × ((d ≡ pos 1) ⊎ (d ≡ negsuc 0))
        × (parent.required_mtf_shift ≡ some d)
        × (parent.mtf_trend ≢ some d)
        × (child.required_mtf_shift ≡ some (pos 0 -ℤ d)))
unfolding verdict
verdict_conflicted key key' t t' htf mtf htf' mtf' =
    let parent = read_states key t htf mtf in
    let child = read_states key' t' htf' mtf' in
    elim (Option-cases parent.required_mtf_shift) [
      | inl idle ↦ elim (read_unresolved key t htf mtf idle) [
        | inl s ↦ rw s (λ h. absurd cc, λ (d, one, e, differs, o). absurd cc)
        | inr s ↦ rw s (λ h. absurd cc, λ (d, one, e, differs, o). absurd cc)
      ]
      | inr (d, due) ↦
          let s = read_status key t htf mtf d due in
          let trend = opt_eq-some parent.mtf_trend d in
          let one = read_direction key t htf mtf d due in
          elim (Option-cases child.required_mtf_shift) [
            | inl idle ↦ (
              λ h. absurd (no_conflict parent child (opt_eq parent.mtf_trend (some d)) s idle h),
              λ (x, one, a, differs, owed). absurd cc,
            )
            | inr (e, owed) ↦
                let s' = read_status key' t' htf' mtf' e owed in
                let other = read_direction key' t' htf' mtf' e owed in
                let formed = opt_eq parent.mtf_trend (some d) in
                let iff =
                  conflict_iff parent child formed d e s due owed
                    (covers child.mtf_trend e child.status s') in
                (
                  λ h.
                      let (pending, differs) = iff.0 h in
                      (
                        d,
                        one,
                        due,
                        λ k. absurd (ground (arith, trend.1 k)),
                        owed ∙ ap (λ (x : ℤ). some x) (opposite_shift d e one other differs),
                      ),
                  λ (x, x_one, a, differs, b).
                      let xd : x ≡ d = cc in
                      let xe : e ≡ pos 0 -ℤ d = cc in
                      iff.1 (
                        elim (Bool-cases formed) [
                          | inl f ↦ absurd (differs (trend.0 f ∙ ap (λ (x : ℤ). some x) (sym xd)))
                          | inr f ↦ f
                        ],
                        ap (eqb_ℤ d) xe ∙ negated_differs d one,
                      ),
                )
          ]
    ]
