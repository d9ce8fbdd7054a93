-- ===== src/Fractal/Requirements/Growth.antt =====
-- What an arrival adds to a lifecycle.
use mathlib.Core.List.{append_assoc, append-nil}
use forex_platform.Fractal.Requirements.{
  Arrival, ChildRequirement, EventKind, superseded, MergeState, RequirementEvent,
  RequirementLifecycle, ResolvedRequirement, arrive, arrive_all, child_state, parent_state,
  push_child, push_parent, supersede, carry_or_create, resolve, verdict_of, signature_eq,
  signature_of,
}
use forex_platform.Fractal.States.{CanonicalTimeframeState}
use forex_platform.Prelude.{
  ℕ, ◌+◌, Text, ltb, Option, none, some, List, [], ◌∷◌, ◌++◌, ◌≡◌, ◌∙◌, ap, refl, sym, subst, inl,
  inr, arith, Option-cases, Bool-cases,
}

-- Events and resolutions are only added.
pub record Grown (l l' : RequirementLifecycle) : Type 0 where
  pub emitted : (es : List RequirementEvent) × (l'.events ≡ l.events ++ es)
  pub settled : (rs : List ResolvedRequirement) × (l'.resolved ≡ l.resolved ++ rs)

Grown-refl : (l : RequirementLifecycle) → Grown l l
Grown-refl l = record {
  emitted = ([], sym (append-nil l.events));
  settled = ([], sym (append-nil l.resolved));
}

Grown-trans : {l m n : RequirementLifecycle} → Grown l m → Grown m n → Grown l n
Grown-trans {l} {m} {n} g h =
    let (es, e) = g.emitted in
    let (fs, f) = h.emitted in
    let (rs, r) = g.settled in
    let (ss, s) = h.settled in
    record {
      emitted = (es ++ fs, f ∙ ap (λ x. x ++ fs) e ∙ append_assoc l.events es fs);
      settled = (rs ++ ss, s ∙ ap (λ x. x ++ ss) r ∙ append_assoc l.resolved rs ss);
    }

-- A push changes no event that is recorded, and only adds resolutions.
record Pushed (l l' : RequirementLifecycle) : Type 0 where
  kept : l'.events ≡ l.events
  settled : (rs : List ResolvedRequirement) × (l'.resolved ≡ l.resolved ++ rs)

Pushed-same :
    (l l' : RequirementLifecycle) → l'.events ≡ l.events → l'.resolved ≡ l.resolved → Pushed l l'
Pushed-same l l' e r = record { kept = e; settled = ([], r ∙ sym (append-nil l.resolved)) }

resolve-Pushed :
    (r : ChildRequirement) (event : EventKind) (t : ℕ) (child : Option Text)
    (l : RequirementLifecycle)
    → Pushed l (resolve r event t child l).1
unfolding resolve
resolve-Pushed r event t child l = record { kept = refl; settled = (_, refl) }

supersede-Pushed :
    (parent : CanonicalTimeframeState) (l : RequirementLifecycle) → Pushed l (supersede parent l).1
unfolding supersede
supersede-Pushed parent l = elim (Option-cases l.pending) [
  | inl idle ↦ Pushed-same l (supersede parent l).1 (ground arith) (ground arith)
  | inr (r, waits) ↦
      elim (Bool-cases (signature_eq r.expectation_signature (signature_of parent))) [
        | inl same ↦ Pushed-same l (supersede parent l).1 (ground arith) (ground arith)
        | inr changed ↦
            let gone : (supersede parent l).1 ≡ (resolve r superseded parent.timestamp none l).1 =
              ground arith in
            subst (Pushed l) (sym gone) (resolve-Pushed r superseded parent.timestamp none l)
      ]
]

push_parent-Pushed :
    (parent : CanonicalTimeframeState) (child : Option CanonicalTimeframeState)
    (l : RequirementLifecycle)
    → Pushed l (push_parent parent child l).1
unfolding push_parent carry_or_create
push_parent-Pushed parent child l =
    let p = supersede-Pushed parent l in
    let (rs, e) = p.settled in
    record { kept = ground (arith, p.kept); settled = (rs, ground arith) }

push_child-Pushed :
    (child : CanonicalTimeframeState) (l : RequirementLifecycle) → Pushed l (push_child child l).1
unfolding push_child
push_child-Pushed child l = elim (Option-cases l.pending) [
  | inl idle ↦ Pushed-same l (push_child child l).1 (ground arith) (ground arith)
  | inr (r, waits) ↦
      let l' = record l { pending_children = l.pending_children + 1 } in
      elim (Bool-cases (ltb child.timestamp r.created_at)) [
        | inl early ↦ Pushed-same l (push_child child l).1 (ground arith) (ground arith)
        | inr due ↦ elim (Option-cases (verdict_of r child)) [
          | inl open_still ↦ Pushed-same l (push_child child l).1 (ground arith) (ground arith)
          | inr (event, decided) ↦
              let p = resolve-Pushed r event child.timestamp (some child.state_id) l' in
              let gone : (push_child child l).1
                  ≡ (resolve r event child.timestamp (some child.state_id) l').1 =
                ground arith in
              subst (Pushed l) (sym gone) (record { kept = p.kept; settled = p.settled })
        ]
      ]
]

pub arrive-Grown : (a : Arrival) (p : MergeState) → Grown p.0 (arrive a p).0
unfolding arrive
arrive-Grown (parent_state s) (l, last_child) =
    let p = push_parent-Pushed s last_child l in
    let (es, l') = push_parent s last_child l in
    record { emitted = (es, ap (λ x. x ++ es) p.kept); settled = p.settled }
arrive-Grown (child_state s) (l, last_child) =
    let p = push_child-Pushed s l in
    let (es, l') = push_child s l in
    record { emitted = (es, ap (λ x. x ++ es) p.kept); settled = p.settled }

pub arrive_all-Grown : (xs : List Arrival) (p : MergeState) → Grown p.0 (arrive_all xs p).0
unfolding arrive_all
arrive_all-Grown [] p = Grown-refl p.0
arrive_all-Grown (x ∷ xs) p = Grown-trans (arrive-Grown x p) (arrive_all-Grown xs (arrive x p))

pub arrive_all-append :
    (xs ys : List Arrival) (p : MergeState)
    → arrive_all (xs ++ ys) p ≡ arrive_all ys (arrive_all xs p)
unfolding arrive_all
arrive_all-append [] ys p = refl
arrive_all-append (x ∷ xs) ys p = arrive_all-append xs ys (arrive x p)
