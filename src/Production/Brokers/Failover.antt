-- ===== src/Production/Brokers/Failover.antt =====
-- Where an order goes.
use forex_platform.Domain.Orders.{OrderIntent}
use forex_platform.Production.Brokers.{
  mode_value, AccountSpec, Adapters, Registry, candidates, eligible, insert_spec, is_eligible,
  precedes, send_order, try_routes, or_default,
}
use forex_platform.Production.Service.{Ack}
use forex_platform.Prelude.{
  Any, ◌↔◌, text_eq, true, false, Bool-cases, Option, none, List, [], ◌∷◌, ◌++◌, All, Text, upper,
  values, Result, ok, err, Error, no_route_available, ◌≡◌, ◌⊎◌, refl, ap, arith, inl, inr, subst,
  sym, ◌≤ℤ◌,
}

-- The priorities rise.
abbrev pub IsRanked : List AccountSpec → Type 0
IsRanked [] = Unit
IsRanked (a ∷ as_) = All (λ (b : AccountSpec). a.priority ≤ℤ b.priority) as_ × IsRanked as_

-- An enabled account of the mode.
abbrev pub IsEligible : Text → AccountSpec → Type 0
IsEligible mode s = (s.enabled ≡ true) × (text_eq (mode_value s.mode) mode ≡ true)

abbrev pub IsIn : AccountSpec → List AccountSpec → Type 0
IsIn s specs = Any (λ (x : AccountSpec). x ≡ s) specs

All-insert_spec :
    (P : AccountSpec → Type 0) (a : AccountSpec) (bs : List AccountSpec)
    → P a
    → All P bs
    → All P (insert_spec a bs)
unfolding insert_spec
All-insert_spec P a [] h all = (h, tt)
All-insert_spec P a (b ∷ bs) h all = elim (Bool-cases (precedes a b)) [
  | inl first ↦ rw first (h, all)
  | inr later ↦ rw later (all.0, All-insert_spec P a bs h all.1)
]

All-higher :
    (a b : AccountSpec) (cs : List AccountSpec)
    → a.priority ≤ℤ b.priority
    → All (λ (c : AccountSpec). b.priority ≤ℤ c.priority) cs
    → All (λ (c : AccountSpec). a.priority ≤ℤ c.priority) cs
All-higher a b [] h all = tt
All-higher a b (c ∷ cs) h all = (omega (arith, all.0), All-higher a b cs h all.1)

insert_spec-IsRanked :
    (a : AccountSpec) (bs : List AccountSpec) → IsRanked bs → IsRanked (insert_spec a bs)
unfolding insert_spec
insert_spec-IsRanked a [] h = (tt, tt)
insert_spec-IsRanked a (b ∷ bs) h = elim (Bool-cases (precedes a b)) [
  | inl first ↦
      let le : a.priority ≤ℤ b.priority = ground arith in
      rw first ((le, All-higher a b bs le h.0), h)
  | inr later ↦
      let le : b.priority ≤ℤ a.priority = ground arith in
      rw later
        (All-insert_spec (λ c. b.priority ≤ℤ c.priority) a bs le h.0, insert_spec-IsRanked a bs h.1)
]

insert_spec-IsIn :
    (s a : AccountSpec) (bs : List AccountSpec) → IsIn s (insert_spec a bs) ↔ IsIn s (a ∷ bs)
unfolding insert_spec
insert_spec-IsIn s a [] = (λ h. h, λ h. h)
insert_spec-IsIn s a (b ∷ bs) = elim (Bool-cases (precedes a b)) [
  | inl first ↦ rw first (λ h. h, λ h. h)
  | inr later ↦
      let (to, from) = insert_spec-IsIn s a bs in
      rw later (
        λ h. elim h [
          | inl here ↦ inr (inl here)
          | inr rest ↦ elim (to rest) [ inl new ↦ inl new | inr old ↦ inr (inr old) ]
        ],
        λ h. elim h [
          | inl new ↦ inr (from (inl new))
          | inr (inl here) ↦ inl here
          | inr (inr old) ↦ inr (from (inr old))
        ],
      )
]

is_eligible-IsEligible :
    (mode : Text) (s : AccountSpec) → (is_eligible mode s ≡ true) ↔ IsEligible mode s
is_eligible-IsEligible mode s = (λ e. (ground arith, ground arith), λ h. ground arith)

-- The eligible accounts are exactly those of the list.
eligible-IsIn :
    (mode : Text) (s : AccountSpec) (specs : List AccountSpec)
    → IsIn s (eligible mode specs) ↔ (IsIn s specs × IsEligible mode s)
unfolding eligible
eligible-IsIn mode s [] = (λ h. absurd h, λ h. absurd h.0)
eligible-IsIn mode s (x ∷ xs) =
    let (to, from) = eligible-IsIn mode s xs in
    elim (Bool-cases (is_eligible mode x)) [
      | inl fits ↦
          let (out, into) = insert_spec-IsIn s x (eligible mode xs) in
          rw fits (
            λ h. elim (out h) [
              | inl here ↦
                  (inl here, subst (IsEligible mode) here ((is_eligible-IsEligible mode x).0 fits))
              | inr later ↦ (inr (to later).0, (to later).1)
            ],
            λ h. elim h.0 [
              | inl here ↦ into (inl here)
              | inr later ↦ into (inr (from (later, h.1)))
            ],
          )
      | inr barred ↦ rw barred (
        λ h. (inr (to h).0, (to h).1),
        λ h. elim h.0 [
          | inl here ↦
              let fits =
                (is_eligible-IsEligible mode x).1 (subst (IsEligible mode) (sym here) h.1) in
              absurd (ground (arith, fits, barred))
          | inr later ↦ from (later, h.1)
        ],
      )
    ]

eligible-IsRanked :
    (mode : Text) (specs : List AccountSpec)
    → All (IsEligible mode) (eligible mode specs) × IsRanked (eligible mode specs)
unfolding eligible
eligible-IsRanked mode [] = (tt, tt)
eligible-IsRanked mode (s ∷ ss) =
    let (all, ranked) = eligible-IsRanked mode ss in
    elim (Bool-cases (is_eligible mode s)) [
      | inl fits ↦ rw fits (
        All-insert_spec (IsEligible mode) s (eligible mode ss)
            ((is_eligible-IsEligible mode s).0 fits) all,
        insert_spec-IsRanked s (eligible mode ss) ranked,
      )
      | inr out ↦ rw out (all, ranked)
    ]

module _ {W : Type 0} (adapters : Adapters W) (intent : OrderIntent) where
  -- Each of these accounts was not connected or refused the order, from one state of the adapters to another.
  abbrev pub Skipped : List AccountSpec → W → W → Type 0
  Skipped [] w v = w ≡ v
  Skipped (s ∷ ss) w v =
      ((adapters.is_connected s.account_id w ≡ false) × Skipped ss w v)
      ⊎ ((adapters.is_connected s.account_id w ≡ true)
          × ((e : Error) × (u : W) × (adapters.send s.account_id intent w ≡ (err e, u))
              × Skipped ss u v))

  -- The first account that takes the order, after those that are skipped.
  abbrev pub Taken : List AccountSpec → W → Result (Text × Ack) × W → Type 0
  Taken specs w r =
      (before after : List AccountSpec) × (s : AccountSpec) × (ack : Ack) × (u : W) × (specs
        ≡ before ++ s ∷ after)
      × Skipped before w u
      × (adapters.is_connected s.account_id u ≡ true)
      × (adapters.send s.account_id intent u ≡ (ok ack, r.1))
      × (r.0 ≡ ok (s.account_id, ack))

  abbrev pub Outcome : List AccountSpec → W → Result (Text × Ack) × W → Type 0
  Outcome specs w r = Taken specs w r ⊎ (Skipped specs w r.1 × (r.0 ≡ err no_route_available))

  Outcome-disconnected :
      (s : AccountSpec) (ss : List AccountSpec) (w : W) (r : Result (Text × Ack) × W)
      → adapters.is_connected s.account_id w ≡ false
      → Outcome ss w r
      → Outcome (s ∷ ss) w r
  Outcome-disconnected s ss w r off (inl (before, after, t, ack, u, split, skipped, on, sent, e)) =
      inl (
        s ∷ before,
        after,
        t,
        ack,
        u,
        ap (λ (xs : List AccountSpec). s ∷ xs) split,
        inl (off, skipped),
        on,
        sent,
        e,
      )
  Outcome-disconnected s ss w r off (inr (skipped, e)) = inr (inl (off, skipped), e)

  Outcome-refused :
      (s : AccountSpec) (ss : List AccountSpec) (w u : W) (e : Error) (r : Result (Text × Ack) × W)
      → adapters.is_connected s.account_id w ≡ true
      → adapters.send s.account_id intent w ≡ (err e, u)
      → Outcome ss u r
      → Outcome (s ∷ ss) w r
  Outcome-refused s ss w u e r on refused
        (inl (before, after, t, ack, v, split, skipped, on', sent, f)) =
      inl (
        s ∷ before,
        after,
        t,
        ack,
        v,
        ap (λ (xs : List AccountSpec). s ∷ xs) split,
        inr (on, (e, u, refused, skipped)),
        on',
        sent,
        f,
      )
  Outcome-refused s ss w u e r on refused (inr (skipped, f)) =
      inr (inr (on, (e, u, refused, skipped)), f)

  -- One account, with what its adapter answers.
  try_one :
      (s : AccountSpec) (ss : List AccountSpec) (w : W)
      → ((u : W) → Outcome ss u (try_routes adapters intent ss u))
      → adapters.is_connected s.account_id w ≡ true
      → (answer : Result Ack × W) → adapters.send s.account_id intent w ≡ answer
      → Outcome (s ∷ ss) w (try_routes adapters intent (s ∷ ss) w)
  unfolding try_routes
  try_one s ss w rest on (ok ack, u) sent =
      let answer = adapters.send s.account_id intent w in
      let taken : answer.0 ≡ ok ack = ap (λ (a : Result Ack × W). a.0) sent in
      let after : answer.1 ≡ u = ap (λ (a : Result Ack × W). a.1) sent in
      let e : try_routes adapters intent (s ∷ ss) w ≡ (ok (s.account_id, ack), answer.1) =
        rw (on, taken) refl in
      let kept : answer ≡ (ok ack, answer.1) = subst (λ v. answer ≡ (ok ack, v)) (sym after) sent in
      subst (Outcome (s ∷ ss) w) (sym e) (inl ([], ss, s, ack, w, refl, refl, on, kept, refl))
  try_one s ss w rest on (err x, u) sent =
      let answer = adapters.send s.account_id intent w in
      let refused : answer.0 ≡ err x = ap (λ (a : Result Ack × W). a.0) sent in
      let after : answer.1 ≡ u = ap (λ (a : Result Ack × W). a.1) sent in
      let e : try_routes adapters intent (s ∷ ss) w ≡ try_routes adapters intent ss answer.1 =
        rw (on, refused) refl in
      let kept : answer ≡ (err x, answer.1) = subst (λ v. answer ≡ (err x, v)) (sym after) sent in
      subst (Outcome (s ∷ ss) w) (sym e)
        (Outcome-refused s ss w answer.1 x _ on kept (rest answer.1))

  try_routes-Outcome :
      (specs : List AccountSpec) (w : W) → Outcome specs w (try_routes adapters intent specs w)
  unfolding try_routes
  try_routes-Outcome [] w = inr (refl, refl)
  try_routes-Outcome (s ∷ ss) w = elim (Bool-cases (adapters.is_connected s.account_id w)) [
    | inl on ↦
        try_one s ss w (λ u. try_routes-Outcome ss u) on (adapters.send s.account_id intent w) refl
    | inr off ↦
        let e : try_routes adapters intent (s ∷ ss) w ≡ try_routes adapters intent ss w =
          rw off refl in
        subst (Outcome (s ∷ ss) w) (sym e)
          (Outcome-disconnected s ss w _ off (try_routes-Outcome ss w))
  ]

-- An order that names no account goes through all the registered accounts that are enabled and of the asked mode,
-- and no others, in the order of their priorities: it is the answer of the first one that is connected and accepts it, after
-- exactly the accounts before it were disconnected or refused it, or there is no route, after every account was
-- disconnected or refused it.
pub send_order_failover :
    {W : Type 0} (adapters : Adapters W) (intent : OrderIntent) (mode : Option Text) (r : Registry)
    (w : W)
    → (specs : List AccountSpec) × (candidates mode none r ≡ ok specs)
      × ((s : AccountSpec)
          → IsIn s specs ↔ (
              IsIn s (values r.specs)
              × IsEligible (upper (or_default mode r.default_execution_mode)) s))
      × IsRanked specs
      × Outcome adapters intent specs w (send_order adapters mode none r intent w)
unfolding candidates send_order
send_order_failover adapters intent mode r w =
    let asked = upper (or_default mode r.default_execution_mode) in
    let specs = eligible asked (values r.specs) in
    let (all, ranked) = eligible-IsRanked asked (values r.specs) in
    (
      specs,
      refl,
      λ s. eligible-IsIn asked s (values r.specs),
      ranked,
      try_routes-Outcome adapters intent specs w,
    )
