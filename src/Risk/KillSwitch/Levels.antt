-- ===== src/Risk/KillSwitch/Levels.antt =====
-- What `is_killed` answers after arming and disarming.
use forex_platform.Prelude.{
  Bool, Option-cases, ap, sym, subst, if◌then◌else◌, text_eq, Bool-cases, inl, inr, ℕ, lookup-erase,
  true, false, Option, none, some, List, [], ◌∷◌, Text, clean_symbol, Dict, lookup, insert, erase,
  ◌≡◌, ◌≢◌, ◌↔◌, ◌⊎◌, refl, arith, is_some, lookup-insert, text_eq_iff,
}
use forex_platform.Risk.KillSwitch.{
  KillReason, global_kill, tenant_kill, broker_kill, pair_kill, strategy_kill, KillSwitch,
  KillQuery, arm_global, arm_tenant, arm_broker, arm_pair, arm_strategy, disarm_all, disarm_pair,
  is_killed, armed, armed_pair,
}

-- A switch of a level is armed for the name that the query gives.
abbrev pub IsArmed : Option Text → Dict Text → Type 0
IsArmed q d = (key reason : Text) × (q ≡ some key) × (key ≢ []) × (lookup key d ≡ some reason)

-- The switch of the pair, under the clean form of the symbol that the query gives.
abbrev pub IsPairArmed : Option Text → Dict Text → Type 0
IsPairArmed q d =
    (symbol reason : Text) × (q ≡ some symbol)
    × (symbol ≢ [])
    × (lookup (clean_symbol symbol) d ≡ some reason)

-- The reason of an answer is that of an armed switch, with the key and the text that are stored for it.
abbrev pub IsReported : KillQuery → KillSwitch → Option KillReason → Type 0
IsReported q s none = ⊥
IsReported q s (some (global_kill why)) = (s.global_killed ≡ true) × (why ≡ s.global_reason)
IsReported q s (some (tenant_kill key why)) =
    (q.tenant_id ≡ some key) × (lookup key s.tenant_switches ≡ some why)
IsReported q s (some (broker_kill key why)) =
    (q.broker_id ≡ some key) × (lookup key s.broker_switches ≡ some why)
IsReported q s (some (pair_kill key why)) =
    (symbol : Text) × (q.symbol ≡ some symbol)
    × (key ≡ clean_symbol symbol)
    × (lookup key s.pair_switches ≡ some why)
IsReported q s (some (strategy_kill key why)) =
    (q.strategy_id ≡ some key) × (lookup key s.strategy_switches ≡ some why)

armed-found :
    (q : Option Text) (d : Dict Text) (key why : Text)
    → armed q d ≡ some (key, why)
    → (q ≡ some key) × (key ≢ []) × (lookup key d ≡ some why)
armed-found none d key why e = absurd (ground arith)
armed-found (some []) d key why e = absurd (ground arith)
armed-found (some (c ∷ k)) d key why e = elim (Option-cases (lookup (c ∷ k) d)) [
  | inl missing ↦ absurd (ground arith)
  | inr (reason, there) ↦
      let same : c ∷ k ≡ key = ground arith in
      let stored : reason ≡ why = ground arith in
      (
        ap (λ (t : Text). some t) same,
        λ empty. cc,
        subst (λ t. lookup t d ≡ some why) same (rw stored at there),
      )
]

armed_pair-found :
    (q : Option Text) (d : Dict Text) (key why : Text)
    → armed_pair q d ≡ some (key, why)
    → (symbol : Text) × (q ≡ some symbol)
      × (symbol ≢ [])
      × (key ≡ clean_symbol symbol)
      × (lookup key d ≡ some why)
armed_pair-found none d key why e = absurd (ground arith)
armed_pair-found (some []) d key why e = absurd (ground arith)
armed_pair-found (some (c ∷ k)) d key why e =
    elim (Option-cases (lookup (clean_symbol (c ∷ k)) d)) [
      | inl missing ↦ absurd (ground arith)
      | inr (reason, there) ↦
          let same : clean_symbol (c ∷ k) ≡ key = ground arith in
          let stored : reason ≡ why = ground arith in
          (
            c ∷ k,
            refl,
            λ empty. cc,
            sym same,
            subst (λ t. lookup t d ≡ some why) same (rw stored at there),
          )
    ]

armed-IsArmed : (q : Option Text) (d : Dict Text) → (is_some (armed q d) ≡ true) ↔ IsArmed q d
armed-IsArmed q d = (
  λ e. elim (Option-cases (armed q d)) [
    | inl missing ↦ absurd (ground arith)
    | inr ((key, why), there) ↦ let h = armed-found q d key why there in (key, why, h.0, h.1, h.2)
  ],
  λ h. known q d h.0 h.1 h.2 h.3 h.4,
)
  where
    known :
        (q : Option Text) (d : Dict Text) (key why : Text)
        → q ≡ some key
        → key ≢ []
        → lookup key d ≡ some why
        → is_some (armed q d) ≡ true
    known q d [] why e ne there = absurd (ne refl)
    known q d (c ∷ k) why e ne there =
        subst (λ o. is_some (armed o d) ≡ true) (sym e) (ground arith)

armed_pair-IsPairArmed :
    (q : Option Text) (d : Dict Text) → (is_some (armed_pair q d) ≡ true) ↔ IsPairArmed q d
armed_pair-IsPairArmed q d = (
  λ e. elim (Option-cases (armed_pair q d)) [
    | inl missing ↦ absurd (ground arith)
    | inr ((key, why), there) ↦
        let (symbol, named, ne, clean, stored) = armed_pair-found q d key why there in
        (symbol, why, named, ne, subst (λ t. lookup t d ≡ some why) clean stored)
  ],
  λ h. known q d h.0 h.1 h.2 h.3 h.4,
)
  where
    known :
        (q : Option Text) (d : Dict Text) (symbol why : Text)
        → q ≡ some symbol
        → symbol ≢ []
        → lookup (clean_symbol symbol) d ≡ some why
        → is_some (armed_pair q d) ≡ true
    known q d [] why e ne there = absurd (ne refl)
    known q d (c ∷ k) why e ne there =
        subst (λ o. is_some (armed_pair o d) ≡ true) (sym e) (ground arith)

is_killed-armed :
    (q : KillQuery) (s : KillSwitch)
    → ((is_killed q s).0 ≡ true) ↔ (
        (s.global_killed ≡ true)
        ⊎ (is_some (armed q.tenant_id s.tenant_switches) ≡ true)
        ⊎ (is_some (armed q.broker_id s.broker_switches) ≡ true)
        ⊎ (is_some (armed_pair q.symbol s.pair_switches) ≡ true)
        ⊎ (is_some (armed q.strategy_id s.strategy_switches) ≡ true))
unfolding is_killed
is_killed-armed q s = ground arith

-- What an answer is: killed with its reason, or not killed and without one.
abbrev pub IsAnswer : KillQuery → KillSwitch → Bool × Option KillReason → Type 0
IsAnswer q s a = ((a.0 ≡ true) × IsReported q s a.1) ⊎ (a ≡ (false, none))

reported :
    (q : KillQuery) (s : KillSwitch) (why : KillReason)
    → is_killed q s ≡ (true, some why)
    → IsReported q s (some why)
    → IsAnswer q s (is_killed q s)
reported q s why e h = subst (IsAnswer q s) (sym e) (inl (refl, h))

is_killed-IsAnswer : (q : KillQuery) (s : KillSwitch) → IsAnswer q s (is_killed q s)
unfolding is_killed
is_killed-IsAnswer q s = elim (Bool-cases s.global_killed) [
  | inl all ↦ reported q s (global_kill s.global_reason) (ground arith) (all, refl)
  | inr off ↦ elim (Option-cases (armed q.tenant_id s.tenant_switches)) [
    | inr ((key, why), e) ↦
        let h = armed-found q.tenant_id s.tenant_switches key why e in
        reported q s (tenant_kill key why) (ground arith) (h.0, h.2)
    | inl no_tenant ↦ elim (Option-cases (armed q.broker_id s.broker_switches)) [
      | inr ((key, why), e) ↦
          let h = armed-found q.broker_id s.broker_switches key why e in
          reported q s (broker_kill key why) (ground arith) (h.0, h.2)
      | inl no_broker ↦ elim (Option-cases (armed_pair q.symbol s.pair_switches)) [
        | inr ((key, why), e) ↦
            let (symbol, named, ne, clean, stored) =
              armed_pair-found q.symbol s.pair_switches key why e in
            reported q s (pair_kill key why) (ground arith) (symbol, named, clean, stored)
        | inl no_pair ↦ elim (Option-cases (armed q.strategy_id s.strategy_switches)) [
          | inr ((key, why), e) ↦
              let h = armed-found q.strategy_id s.strategy_switches key why e in
              reported q s (strategy_kill key why) (ground arith) (h.0, h.2)
          | inl no_strategy ↦ inr (ground arith)
        ]
      ]
    ]
  ]
]

-- A query is killed exactly when the global switch is armed, or a tenant, a broker or a strategy that it names, or
-- the pair of its symbol in the clean spelling. A killed query is answered with the reason of an armed
-- switch, as it is stored, and any other query with none.
pub is_killed_iff :
    (q : KillQuery) (s : KillSwitch)
    → (((is_killed q s).0 ≡ true) ↔ (
        (s.global_killed ≡ true)
        ⊎ IsArmed q.tenant_id s.tenant_switches
        ⊎ IsArmed q.broker_id s.broker_switches
        ⊎ IsPairArmed q.symbol s.pair_switches
        ⊎ IsArmed q.strategy_id s.strategy_switches))
      × IsAnswer q s (is_killed q s)
is_killed_iff q s =
    let (to, from) = is_killed-armed q s in
    let tenant = armed-IsArmed q.tenant_id s.tenant_switches in
    let broker = armed-IsArmed q.broker_id s.broker_switches in
    let pair = armed_pair-IsPairArmed q.symbol s.pair_switches in
    let strategy = armed-IsArmed q.strategy_id s.strategy_switches in
    (
      (
        λ e. elim (to e) [
          | inl h ↦ inl h
          | inr (inl h) ↦ inr (inl (tenant.0 h))
          | inr (inr (inl h)) ↦ inr (inr (inl (broker.0 h)))
          | inr (inr (inr (inl h))) ↦ inr (inr (inr (inl (pair.0 h))))
          | inr (inr (inr (inr h))) ↦ inr (inr (inr (inr (strategy.0 h))))
        ],
        λ e. elim e [
          | inl h ↦ from (inl h)
          | inr (inl h) ↦ from (inr (inl (tenant.1 h)))
          | inr (inr (inl h)) ↦ from (inr (inr (inl (broker.1 h))))
          | inr (inr (inr (inl h))) ↦ from (inr (inr (inr (inl (pair.1 h)))))
          | inr (inr (inr (inr h))) ↦ from (inr (inr (inr (inr (strategy.1 h)))))
        ],
      ),
      is_killed-IsAnswer q s,
    )

armed-insert :
    (q : Option Text) (k r : Text) (d : Dict Text)
    → is_some (armed q d) ≡ true
    → is_some (armed q (insert k r d)) ≡ true
armed-insert none k r d h = h
armed-insert (some []) k r d h = h
armed-insert (some (c ∷ t)) k r d h = ground (arith, lookup-insert k (c ∷ t) r d)

armed_pair-insert :
    (q : Option Text) (k r : Text) (d : Dict Text)
    → is_some (armed_pair q d) ≡ true
    → is_some (armed_pair q (insert k r d)) ≡ true
armed_pair-insert none k r d h = h
armed_pair-insert (some []) k r d h = h
armed_pair-insert (some (c ∷ t)) k r d h =
    ground (arith, lookup-insert k (clean_symbol (c ∷ t)) r d)

-- The calls that arm a switch.
pub data Arming : Type 0 where
  globally : Text → Arming
  tenant broker pair strategy : Text → Text → Arming

unfoldable pub arm : Arming → KillSwitch → KillSwitch
arm (globally reason) s = arm_global reason s
arm (tenant key reason) s = arm_tenant key reason s
arm (broker key reason) s = arm_broker key reason s
arm (pair key reason) s = arm_pair key reason s
arm (strategy key reason) s = arm_strategy key reason s

unfoldable pub arm_all : List Arming → KillSwitch → KillSwitch
arm_all [] s = s
arm_all (a ∷ rest) s = arm_all rest (arm a s)

pub arm-is_killed :
    (a : Arming) (q : KillQuery) (s : KillSwitch)
    → (is_killed q s).0 ≡ true
    → (is_killed q (arm a s)).0 ≡ true
unfolding is_killed arm arm_global arm_tenant arm_broker arm_pair arm_strategy
arm-is_killed (globally reason) q s h = refl
arm-is_killed (tenant key reason) q s h =
    ground (arith, armed-insert q.tenant_id key reason s.tenant_switches)
arm-is_killed (broker key reason) q s h =
    ground (arith, armed-insert q.broker_id key reason s.broker_switches)
arm-is_killed (pair key reason) q s h =
    ground (arith, armed_pair-insert q.symbol (clean_symbol key) reason s.pair_switches)
arm-is_killed (strategy key reason) q s h =
    ground (arith, armed-insert q.strategy_id key reason s.strategy_switches)

-- No sequence of arming calls, at any level, revives a query that is killed.
pub arm_all-is_killed :
    (calls : List Arming) (q : KillQuery) (s : KillSwitch)
    → (is_killed q s).0 ≡ true
    → (is_killed q (arm_all calls s)).0 ≡ true
unfolding arm_all
arm_all-is_killed [] q s h = h
arm_all-is_killed (a ∷ rest) q s h = arm_all-is_killed rest q (arm a s) (arm-is_killed a q s h)

armed_pair-insert_self :
    (c : ℕ) (t k r : Text) (d : Dict Text)
    → clean_symbol (c ∷ t) ≡ k
    → is_some (armed_pair (some (c ∷ t)) (insert k r d)) ≡ true
armed_pair-insert_self c t k r d e =
    ground (arith, lookup-insert k (clean_symbol (c ∷ t)) r d, text_eq_iff (clean_symbol (c ∷ t)) k)

-- Once a pair is armed, every query for a non-empty spelling of it is killed, whatever is armed
-- later.
pub arm_pair_kills :
    (symbol reason spelling : Text) (calls : List Arming) (q : KillQuery) (s : KillSwitch)
    → q.symbol ≡ some spelling
    → spelling ≢ []
    → clean_symbol spelling ≡ clean_symbol symbol
    → (is_killed q (arm_all calls (arm_pair symbol reason s))).0 ≡ true
unfolding is_killed arm_pair
arm_pair_kills symbol reason [] calls q s e ne same = absurd (ne refl)
arm_pair_kills symbol reason (c ∷ t) calls q s e ne same =
    arm_all-is_killed calls q (arm_pair symbol reason s)
      (ground (arith, armed_pair-insert_self c t (clean_symbol symbol) reason s.pair_switches same))

-- After `disarm_all` no query is killed.
pub is_killed-disarm_all :
    (q : KillQuery) (s : KillSwitch) → is_killed q (disarm_all s) ≡ (false, none)
unfolding is_killed disarm_all lookup
is_killed-disarm_all q s = ground arith

armed_pair-erase_ne :
    (q : Option Text) (k : Text) (d : Dict Text)
    → ((spelling : Text) → q ≡ some spelling → clean_symbol spelling ≢ k)
    → armed_pair q (erase k d) ≡ armed_pair q d
armed_pair-erase_ne none k d h = refl
armed_pair-erase_ne (some []) k d h = refl
armed_pair-erase_ne (some (c ∷ t)) k d h = ground (
  arith,
  lookup-erase k (clean_symbol (c ∷ t)) d,
  h (c ∷ t) refl,
  text_eq_iff (clean_symbol (c ∷ t)) k,
)

armed_pair-erase_self :
    (spelling k : Text) (d : Dict Text)
    → clean_symbol spelling ≡ k
    → armed_pair (some spelling) (erase k d) ≡ none
armed_pair-erase_self [] k d h = refl
armed_pair-erase_self (c ∷ t) k d h =
    ground (arith, lookup-erase k (clean_symbol (c ∷ t)) d, text_eq_iff (clean_symbol (c ∷ t)) k)

-- After `disarm_pair` a query for that pair, in any spelling, gets the answer of the same query without a
-- symbol, and a query for another pair gets the answer it got before.
pub disarm_pair_exact :
    (symbol spelling : Text) (q : KillQuery) (s : KillSwitch)
    → q.symbol ≡ some spelling
    → is_killed q (disarm_pair symbol s) ≡ (
        if text_eq (clean_symbol spelling) (clean_symbol symbol)
        then is_killed (record q { symbol = none }) s
        else is_killed q s)
unfolding is_killed disarm_pair
disarm_pair_exact symbol spelling q s asks =
    elim (Bool-cases (text_eq (clean_symbol spelling) (clean_symbol symbol))) [
      | inl same ↦ rw (
        asks,
        same,
        armed_pair-erase_self spelling (clean_symbol symbol) s.pair_switches
            ((text_eq_iff (clean_symbol spelling) (clean_symbol symbol)).0 same),
      )
      | inr other ↦ rw (
        asks,
        other,
        armed_pair-erase_ne (some spelling) (clean_symbol symbol) s.pair_switches
            (λ t e. ground (arith, text_eq_iff (clean_symbol spelling) (clean_symbol symbol))),
      )
    ]
