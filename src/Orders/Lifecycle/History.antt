-- ===== src/Orders/Lifecycle/History.antt =====
-- The life of an order over any sequence of transition requests.
use mathlib.Core.List.{append-nil, append_assoc}
use forex_platform.Prelude.{
  not, ◌&&◌, some, map, if◌then◌else◌, Result, Bool, true, false, Option, List, [], ◌∷◌, ◌++◌, Text,
  ok, ◌≡◌, ◌⊎◌, inl, inr, refl, sym, ap, subst, ◌∙◌, arith, Bool-cases, ◌||◌,
}
use forex_platform.Time.{DateTime, assume_utc}
use forex_platform.Orders.Lifecycle.{
  reason_or_default, OrderLifecycleState, OrderStateMachine, Entry, ReconciliationAlert, created,
  risk_checked, submitted, filled, rejected, cancelled, failed, unknown, is_legal, is_terminal,
  state_eq, alert_for, transition_to, new,
}

-- One request to the machine.
pub record Request : Type 0 where
  pub target : OrderLifecycleState
  pub timestamp : DateTime
  pub reason : Text

abbrev pub serve : Request → OrderStateMachine → OrderStateMachine
serve r m = (transition_to r.target r.timestamp r.reason m).1

unfoldable pub serve_all : List Request → OrderStateMachine → OrderStateMachine
serve_all [] m = m
serve_all (r ∷ rs) m = serve_all rs (serve r m)

abbrev pub entry_of : OrderLifecycleState → DateTime → Text → Entry
entry_of target t reason = record { state = target; timestamp = assume_utc t; reason = reason }

-- A request is granted for another state that the table allows.
unfoldable pub is_granted : OrderLifecycleState → OrderLifecycleState → Bool
is_granted state target = not (state_eq state target) && is_legal state target

-- The requests that are granted, each from the state that the granted ones before it have led to.
abbrev pub granted : OrderLifecycleState → List Request → List Request
granted state [] = []
granted state (r ∷ rs) =
    let after = granted r.target rs in
    let without = granted state rs in if is_granted state r.target then r ∷ after else without

-- The alerts of the granted requests for UNKNOWN.
abbrev pub alerted : Text → Text → OrderLifecycleState → List Request → List ReconciliationAlert
alerted order_id symbol state [] = []
alerted order_id symbol state (r ∷ rs) =
    let after = alerted order_id symbol r.target rs in
    let without = alerted order_id symbol state rs in
    if is_granted state r.target
    then (if state_eq r.target unknown
        then record {
          order_id = order_id;
          symbol = symbol;
          previous_state = state;
          timestamp = assume_utc r.timestamp;
          reason = reason_or_default r.reason;
        }
          ∷ after
        else after)
    else without

abbrev alert_of : Result (Option ReconciliationAlert) → List ReconciliationAlert
alert_of (ok (some alert)) = alert ∷ []
alert_of _ = []

-- The alerts that a machine answers with.
unfoldable pub alerts : List Request → OrderStateMachine → List ReconciliationAlert
alerts [] m = []
alerts (r ∷ rs) m =
    alert_of (transition_to r.target r.timestamp r.reason m).0 ++ alerts rs (serve r m)

abbrev pub record_of : Request → Entry
record_of r = entry_of r.target r.timestamp r.reason

serve-kept :
    (r : Request) (m : OrderStateMachine)
    → is_granted m.current_state r.target ≡ false
    → (serve r m ≡ m) × (alert_of (transition_to r.target r.timestamp r.reason m).0 ≡ [])
unfolding transition_to is_granted
serve-kept r m refused = (ground arith, ground arith)

serve-granted :
    (r : Request) (m : OrderStateMachine)
    → is_granted m.current_state r.target ≡ true
    → transition_to r.target r.timestamp r.reason m ≡ (
      ok (alert_for m r.target (assume_utc r.timestamp) r.reason),
      record m { current_state = r.target; state_history = m.state_history ++ record_of r ∷ [] },
    )
unfolding transition_to is_granted
serve-granted r m grants = ground arith

alert_of-alert_for :
    (m : OrderStateMachine) (target : OrderLifecycleState) (t : DateTime) (reason : Text)
    (rest : List ReconciliationAlert)
    → alert_of (ok (alert_for m target t reason)) ++ rest ≡ (
        if state_eq target unknown
        then record {
          order_id = m.order_id;
          symbol = m.symbol;
          previous_state = m.current_state;
          timestamp = t;
          reason = reason_or_default reason;
        }
          ∷ rest
        else rest)
unfolding alert_for state_eq
alert_of-alert_for m target t reason rest = ground arith

-- What is served of any requests is exactly what the table of legal transitions grants, one after the other, with a
-- request for the present state left out: the history grows by the state, the time and the reason of each
-- granted request, in their order, and an alert goes out for each of them that asks for UNKNOWN, with the
-- order, the state before, the time and the reason, and for no other.
pub serve_all_records :
    (rs : List Request) (m : OrderStateMachine)
    → ((serve_all rs m).state_history
        ≡ m.state_history ++ map record_of (granted m.current_state rs))
      × (alerts rs m ≡ alerted m.order_id m.symbol m.current_state rs)
unfolding serve_all alerts
serve_all_records [] m = (sym (append-nil m.state_history), refl)
serve_all_records (r ∷ rs) m = elim (Bool-cases (is_granted m.current_state r.target)) [
  | inr refused ↦
      let (same, silent) = serve-kept r m refused in
      let (recorded, told) = serve_all_records rs m in
      (
        rw refused (ap (λ (n : OrderStateMachine). (serve_all rs n).state_history) same ∙ recorded),
        rw refused (
            ap (λ (as_ : List ReconciliationAlert). as_ ++ alerts rs (serve r m)) silent
            ∙ ap (λ (n : OrderStateMachine). alerts rs n) same
            ∙ told),
      )
  | inl grants ↦
      let next : OrderStateMachine = record m {
        current_state = r.target;
        state_history = m.state_history ++ record_of r ∷ [];
      } in
      let served = serve-granted r m grants in
      let (recorded, told) = serve_all_records rs next in
      let later = map record_of (granted r.target rs) in
      (
        rw grants (
            ap
              (λ (a : Result (Option ReconciliationAlert) × OrderStateMachine).
                (serve_all rs a.1).state_history)
              served
            ∙ recorded
            ∙ append_assoc m.state_history (record_of r ∷ []) later),
        rw grants (
            ap
              (λ (a : Result (Option ReconciliationAlert) × OrderStateMachine).
                alert_of a.0 ++ alerts rs a.1)
              served
            ∙ ap
                (λ (as_ : List ReconciliationAlert).
                  alert_of (ok (alert_for m r.target (assume_utc r.timestamp) r.reason)) ++ as_)
                told
            ∙ alert_of-alert_for m r.target (assume_utc r.timestamp) r.reason
                (alerted m.order_id m.symbol r.target rs)),
      )
]

serve-terminal : (r : Request) (m : OrderStateMachine) → is_terminal m ≡ true → serve r m ≡ m
unfolding transition_to is_terminal state_eq
serve-terminal r m h = ground arith

-- A terminal state is final: no sequence of requests changes the order's state or history.
pub terminal_absorbs :
    (rs : List Request) (m : OrderStateMachine) → is_terminal m ≡ true → serve_all rs m ≡ m
unfolding serve_all
terminal_absorbs [] m h = refl
terminal_absorbs (r ∷ rs) m h = rw (serve-terminal r m h) (terminal_absorbs rs m h)

serve_all-keeps :
    (P : OrderStateMachine → Type 0)
    → ((r : Request) (m : OrderStateMachine) → P m → P (serve r m))
    → (rs : List Request) (m : OrderStateMachine) → P m
    → P (serve_all rs m)
unfolding serve_all
serve_all-keeps P keep [] m h = h
serve_all-keeps P keep (r ∷ rs) m h = serve_all-keeps P keep rs (serve r m) (keep r m h)

-- An order in doubt is settled by a fill, a cancellation or a failure, or stays in doubt.
abbrev pub InDoubt : OrderLifecycleState → Type 0
InDoubt s = (s ≡ unknown) ⊎ (s ≡ filled) ⊎ (s ≡ cancelled) ⊎ (s ≡ failed)

serve-InDoubt :
    (r : Request) (m : OrderStateMachine)
    → InDoubt m.current_state
    → InDoubt (serve r m).current_state
unfolding transition_to state_eq
serve-InDoubt r m h = ground arith

-- From UNKNOWN an order can only stay there or become FILLED, CANCELLED or FAILED, whatever is requested.
pub unknown_settles :
    (rs : List Request) (m : OrderStateMachine)
    → m.current_state ≡ unknown
    → InDoubt (serve_all rs m).current_state
unknown_settles rs m h = serve_all-keeps (λ m. InDoubt m.current_state) serve-InDoubt rs m (inl h)

-- The history is a walk along legal transitions that ends in the present state.
pub data Walk : List Entry → OrderLifecycleState → Type 0 where
  start : (e : Entry) → Walk (e ∷ []) e.state
  advance :
      (es : List Entry) (s : OrderLifecycleState) (e : Entry)
      → Walk es s
      → is_legal s e.state ≡ true
      → Walk (es ++ e ∷ []) e.state

abbrev pub IsWalk : OrderStateMachine → Type 0
IsWalk m = Walk m.state_history m.current_state

serve-cases :
    (r : Request) (m : OrderStateMachine)
    → (serve r m ≡ m)
      ⊎ ((is_legal m.current_state r.target ≡ true)
          × (serve r m ≡ record m {
            current_state = r.target;
            state_history = m.state_history ++ entry_of r.target r.timestamp r.reason ∷ [];
          }))
unfolding transition_to
serve-cases r m = elim (Bool-cases (state_eq m.current_state r.target)) [
  | inl same ↦ inl (ground arith)
  | inr other ↦ elim (Bool-cases (is_legal m.current_state r.target)) [
    | inr illegal ↦ inl (ground arith)
    | inl legal ↦ inr (legal, ground arith)
  ]
]

serve-IsWalk : (r : Request) (m : OrderStateMachine) → IsWalk m → IsWalk (serve r m)
serve-IsWalk r m h = elim (serve-cases r m) [
  | inl same ↦ subst IsWalk (sym same) h
  | inr (legal, moved) ↦
      subst IsWalk (sym moved)
        (advance m.state_history m.current_state (entry_of r.target r.timestamp r.reason) h legal)
]

-- Every history that requests produce, from any initial state, is a walk along legal transitions that ends
-- in the current state.
pub serve_all-IsWalk :
    (rs : List Request) (order_id symbol : Text) (initial : OrderLifecycleState) (now : DateTime)
    → IsWalk (serve_all rs (new order_id symbol initial now))
serve_all-IsWalk rs order_id symbol initial now =
    serve_all-keeps IsWalk serve-IsWalk rs (new order_id symbol initial now) (unfold new in start _)

abbrev pub visited : OrderLifecycleState → List Entry → Bool
visited s [] = false
visited s (e ∷ es) = state_eq s e.state || visited s es

-- What must have been before a state: a risk check, and then a submission.
abbrev pub after_submission : OrderLifecycleState → Bool
after_submission created = false
after_submission risk_checked = false
after_submission rejected = false
after_submission cancelled = false
after_submission failed = false
after_submission _ = true

abbrev Ordered : OrderStateMachine → Type 0
Ordered m =
    (visited m.current_state m.state_history ≡ true)
    × (after_submission m.current_state ≡ true
        → (visited risk_checked m.state_history ≡ true)
          × (visited submitted m.state_history ≡ true))
    × (m.current_state ≡ risk_checked → visited risk_checked m.state_history ≡ true)

or_snoc : (a b c : Bool) → (a || (b || c)) ≡ ((a || b) || c)
or_snoc a b c = ground arith

or-false : (a : Bool) → (a || false) ≡ (false || a)
or-false a = ground arith

visited-append :
    (s : OrderLifecycleState) (es : List Entry) (e : Entry)
    → visited s (es ++ e ∷ []) ≡ (visited s es || state_eq s e.state)
visited-append s [] e = or-false (state_eq s e.state)
visited-append s (x ∷ es) e =
    ap (λ b. state_eq s x.state || b) (visited-append s es e)
    ∙ or_snoc (state_eq s x.state) (visited s es) (state_eq s e.state)

state_eq_refl : (s : OrderLifecycleState) → state_eq s s ≡ true
unfolding state_eq
state_eq_refl s = ground arith

-- A legal step into a state that comes after the submission leaves such a state or SUBMITTED's
-- predecessor.
legal_order :
    (s t : OrderLifecycleState)
    → is_legal s t ≡ true
    → (after_submission t ≡ true
        → (after_submission s ≡ true) ⊎ ((s ≡ risk_checked) × (t ≡ submitted)))
unfolding is_legal
legal_order created t legal after = ground arith
legal_order risk_checked t legal after = ground arith
legal_order rejected t legal after = ground arith
legal_order cancelled t legal after = ground arith
legal_order failed t legal after = ground arith
legal_order _ t legal after = inl refl

enter-Ordered :
    (m : OrderStateMachine) (e : Entry)
    → is_legal m.current_state e.state ≡ true
    → Ordered m
    → Ordered (record m { current_state = e.state; state_history = m.state_history ++ e ∷ [] })
enter-Ordered m e legal h =
    let seen = visited-append risk_checked m.state_history e in
    let sent = visited-append submitted m.state_history e in
    (
      ground (arith, visited-append e.state m.state_history e, state_eq_refl e.state),
      λ late. elim (legal_order m.current_state e.state legal late) [
        | inl before ↦ ground (arith, h.1 before, seen, sent)
        | inr (checked, sends) ↦
            ground (arith, h.2 checked, seen, sent, sends, state_eq_refl submitted)
      ],
      λ checks. ground (arith, seen, checks, state_eq_refl risk_checked),
    )

serve-Ordered : (r : Request) (m : OrderStateMachine) → Ordered m → Ordered (serve r m)
serve-Ordered r m h = elim (serve-cases r m) [
  | inl same ↦ subst Ordered (sym same) h
  | inr (legal, moved) ↦
      subst Ordered (sym moved) (enter-Ordered m (entry_of r.target r.timestamp r.reason) legal h)
]

-- An order that starts at CREATED is submitted, acknowledged, partly or wholly filled, expired or in
-- doubt only after it was risk-checked and submitted, by its own history.
pub submission_precedes :
    (rs : List Request) (order_id symbol : Text) (now : DateTime)
    → let m = serve_all rs (new order_id symbol created now) in
      after_submission m.current_state ≡ true
      → (visited risk_checked m.state_history ≡ true) × (visited submitted m.state_history ≡ true)
submission_precedes rs order_id symbol now h =
    (serve_all-keeps Ordered serve-Ordered rs (new order_id symbol created now)
        (unfold new state_eq in (refl, (λ e. cc), λ e. cc))).1
      h
