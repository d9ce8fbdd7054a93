-- ===== src/Fractal/Requirements/Liveness.antt =====
-- What becomes of a requirement.
use forex_platform.Fractal.Requirements.{
  Arrival, ChildRequirement, EventKind, MergeState, RequirementLifecycle, ResolvedRequirement,
  arrive, arrive_all, carry_or_create, child_state, parent_state, push_child, push_parent, resolve,
  signature_eq, signature_of, superseded, supersede, verdict_of, expected_child_shift,
}
use forex_platform.Fractal.Requirements.Growth.{
  Grown, arrive-Grown, arrive_all-Grown, arrive_all-append,
}
use forex_platform.Fractal.States.{CanonicalTimeframeState, opt_eq}
use forex_platform.Prelude.{
  ℕ, ◌+◌, ◌≤◌, ltb, Any, Option, none, some, List, [], ◌∷◌, ◌++◌, ℤ, Text, ◌≡◌, ◌⊎◌, refl, sym,
  subst, inl, inr, arith, Bool-cases, Option-cases,
}

-- The same requirement, but for its refreshed invalidation price.
abbrev Same : ChildRequirement → ChildRequirement → Type 0
Same r x =
    (x.requirement_id ≡ r.requirement_id)
    × (x.created_at ≡ r.created_at)
    × (x.expected_child_shift ≡ r.expected_child_shift)

-- A resolution of this requirement is recorded.
abbrev pub IsResolved : ChildRequirement → RequirementLifecycle → Type 0
IsResolved r l = Any (λ x. x.requirement.requirement_id ≡ r.requirement_id) l.resolved

abbrev IsOpen : ChildRequirement → RequirementLifecycle → Type 0
IsOpen r l = (x : ChildRequirement) × (l.pending ≡ some x) × Same r x

Any-left :
    (P : ResolvedRequirement → Type 0) (xs ys : List ResolvedRequirement)
    → Any P xs
    → Any P (xs ++ ys)
Any-left P [] ys h = absurd h
Any-left P (x ∷ xs) ys (inl h) = inl h
Any-left P (x ∷ xs) ys (inr h) = inr (Any-left P xs ys h)

Any-right :
    (P : ResolvedRequirement → Type 0) (xs ys : List ResolvedRequirement)
    → Any P ys
    → Any P (xs ++ ys)
Any-right P [] ys h = h
Any-right P (x ∷ xs) ys h = inr (Any-right P xs ys h)

Grown-IsResolved :
    (r : ChildRequirement) (l l' : RequirementLifecycle)
    → Grown l l'
    → IsResolved r l
    → IsResolved r l'
Grown-IsResolved r l l' g h =
    let (rs, e) = g.settled in
    let P = λ (x : ResolvedRequirement). x.requirement.requirement_id ≡ r.requirement_id in
    subst (Any P) (sym e) (Any-left P l.resolved rs h)

resolve-IsResolved :
    (r x : ChildRequirement) (event : EventKind) (t : ℕ) (child : Option Text)
    (l : RequirementLifecycle)
    → Same r x
    → IsResolved r (resolve x event t child l).1
unfolding resolve
resolve-IsResolved r x event t child l same =
    Any-right (λ (y : ResolvedRequirement). y.requirement.requirement_id ≡ r.requirement_id)
      l.resolved _ (inl same.0)

-- An open requirement stays open or is resolved.
abbrev Goes : ChildRequirement → RequirementLifecycle → Type 0
Goes r l = IsOpen r l ⊎ IsResolved r l

supersede-Goes :
    (r : ChildRequirement) (parent : CanonicalTimeframeState) (l : RequirementLifecycle)
    → IsOpen r l
    → IsOpen r (supersede parent l).1
      ⊎ (((supersede parent l).1.pending ≡ none) × IsResolved r (supersede parent l).1)
unfolding supersede
supersede-Goes r parent l (x, waits, same) =
    elim (Bool-cases (signature_eq x.expectation_signature (signature_of parent))) [
      | inl kept ↦ inl (x, ground arith, same)
      | inr changed ↦
          let gone : (supersede parent l).1 ≡ (resolve x superseded parent.timestamp none l).1 =
            ground arith in
          inr (
            unfold resolve in ground arith,
            subst (IsResolved r) (sym gone)
                (resolve-IsResolved r x superseded parent.timestamp none l same),
          )
    ]

carry-IsOpen :
    (r : ChildRequirement) (parent : CanonicalTimeframeState)
    (child : Option CanonicalTimeframeState) (shift : ℤ) (l : RequirementLifecycle)
    → IsOpen r l
    → IsOpen r (carry_or_create parent child shift l).1
unfolding carry_or_create
carry-IsOpen r parent child shift l (x, waits, same) = rw waits (_, refl, ground arith)

carry-IsResolved :
    (r : ChildRequirement) (parent : CanonicalTimeframeState)
    (child : Option CanonicalTimeframeState) (shift : ℤ) (l : RequirementLifecycle)
    → IsResolved r l
    → IsResolved r (carry_or_create parent child shift l).1
unfolding carry_or_create
carry-IsResolved r parent child shift l h = elim (Option-cases l.pending) [
  | inl idle ↦ rw idle h
  | inr (x, waits) ↦ rw waits h
]

push_parent-Goes :
    (r : ChildRequirement) (parent : CanonicalTimeframeState)
    (child : Option CanonicalTimeframeState) (l : RequirementLifecycle)
    → IsOpen r l
    → Goes r (push_parent parent child l).1
unfolding push_parent
push_parent-Goes r parent child l waits =
    let l' = (supersede parent l).1 in
    elim (Option-cases (expected_child_shift parent)) [
      | inl idle ↦
          let same : (push_parent parent child l).1 ≡ l' = ground arith in
          subst (Goes r) (sym same) (elim (supersede-Goes r parent l waits) [
            | inl still ↦ inl still
            | inr (gone, settled) ↦ inr settled
          ])
      | inr (shift, due) ↦
          let l'' = (carry_or_create parent child shift l').1 in
          let same : (push_parent parent child l).1 ≡ l'' = ground arith in
          subst (Goes r) (sym same) (elim (supersede-Goes r parent l waits) [
            | inl still ↦ inl (carry-IsOpen r parent child shift l' still)
            | inr (gone, settled) ↦ inr (carry-IsResolved r parent child shift l' settled)
          ])
    ]

push_child-Goes :
    (r : ChildRequirement) (child : CanonicalTimeframeState) (l : RequirementLifecycle)
    → IsOpen r l
    → Goes r (push_child child l).1
      × (r.created_at ≤ child.timestamp
          → child.structural_trend ≡ some r.expected_child_shift
          → IsResolved r (push_child child l).1)
unfolding push_child verdict_of opt_eq
push_child-Goes r child l (x, waits, same) =
    let l' = record l { pending_children = l.pending_children + 1 } in
    elim (Bool-cases (ltb child.timestamp x.created_at)) [
      | inl early ↦ (inl (x, ground arith, same), λ due shift. absurd (ground (arith, same)))
      | inr late ↦ elim (Option-cases (verdict_of x child)) [
        | inl open_still ↦
            (inl (x, ground arith, same), λ due shift. absurd (ground (arith, same, shift)))
        | inr (event, decided) ↦
            let gone : (push_child child l).1
                ≡ (resolve x event child.timestamp (some child.state_id) l').1 =
              ground arith in
            let settled : IsResolved r (push_child child l).1 =
              subst (IsResolved r) (sym gone)
                (resolve-IsResolved r x event child.timestamp (some child.state_id) l' same) in
            (inr settled, λ due shift. settled)
      ]
    ]

arrive-Goes :
    (r : ChildRequirement) (a : Arrival) (p : MergeState) → Goes r p.0 → Goes r (arrive a p).0
unfolding arrive
arrive-Goes r a (l, last_child) (inr h) =
    inr (Grown-IsResolved r l _ (arrive-Grown a (l, last_child)) h)
arrive-Goes r (parent_state s) (l, last_child) (inl h) = push_parent-Goes r s last_child l h
arrive-Goes r (child_state s) (l, last_child) (inl h) = (push_child-Goes r s l h).0

arrive_all-Goes :
    (r : ChildRequirement) (xs : List Arrival) (p : MergeState)
    → Goes r p.0
    → Goes r (arrive_all xs p).0
unfolding arrive_all
arrive_all-Goes r [] p h = h
arrive_all-Goes r (x ∷ xs) p h = arrive_all-Goes r xs (arrive x p) (arrive-Goes r x p h)

arrive-IsResolved :
    (r : ChildRequirement) (s : CanonicalTimeframeState) (p : MergeState)
    → r.created_at ≤ s.timestamp
    → s.structural_trend ≡ some r.expected_child_shift
    → Goes r p.0
    → IsResolved r (arrive (child_state s) p).0
unfolding arrive
arrive-IsResolved r s (l, last_child) due shift (inl h) = (push_child-Goes r s l h).1 due shift
arrive-IsResolved r s (l, last_child) due shift (inr h) =
    Grown-IsResolved r l _ (arrive-Grown (child_state s) (l, last_child)) h

-- A pending requirement does not outlive the shift that it asks for: when, after any arrivals, a child
-- state of its creation or later has the expected trend, a resolution of the requirement is recorded from
-- then on, whatever arrives before and after.
pub pending_requirement_resolves :
    (r : ChildRequirement) (s : CanonicalTimeframeState) (before after : List Arrival)
    (p : MergeState)
    → p.0.pending ≡ some r
    → r.created_at ≤ s.timestamp
    → s.structural_trend ≡ some r.expected_child_shift
    → IsResolved r (arrive_all (before ++ child_state s ∷ after) p).0
unfolding arrive_all
pending_requirement_resolves r s before after p waits due shift =
    let q = arrive_all before p in
    let h =
      arrive-IsResolved r s q due shift
        (arrive_all-Goes r before p (inl (r, waits, (refl, refl, refl)))) in
    rw arrive_all-append
      (Grown-IsResolved r _ _ (arrive_all-Grown after (arrive (child_state s) q)) h)
