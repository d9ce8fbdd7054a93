-- ===== src/Production/LiveGate/Guard.antt =====
-- What the guard of live capital certifies.
use forex_platform.Decimal
use forex_platform.Decimal.{Decimal, of_int}
use forex_platform.Production.LiveGate
use forex_platform.Production.LiveGate.{
  Adapter, Gate, GateSettings, LiveAuthorization, all_hold, authorize, authorize_live,
  conditions_of, live_ack_phrase, record_demo_soak, verify_live_capital_guard,
}
use forex_platform.Prelude.{
  Bool, true, Option, none, some, List, [], ◌∷◌, pos, Text, codes, text_eq, is_member, ok, ◌≡◌, ◌⊎◌,
  refl, subst, sym, inl, inr, arith, Bool-cases, Result-cases,
}
use forex_platform.Time.{DateTime}

-- What happens to a gate and its adapter.
pub data Call : Type 0 where
  soak : Text → Decimal → Call
  authorizing : Decimal → Bool → DateTime → Call

abbrev soaked : Text → Decimal → Option Gate → Option Gate
soaked account_id hours none = none
soaked account_id hours (some g) = some (record_demo_soak account_id hours g)

unfoldable pub serve : Call → Adapter → Adapter
serve (soak account_id hours) a = record a { live_gate = soaked account_id hours a.live_gate }
serve (authorizing capital tls now) a = (authorize_live capital tls now a).1

unfoldable pub serve_all : List Call → Adapter → Adapter
unfolding serve
serve_all [] a = a
serve_all (c ∷ cs) a = serve_all cs (serve c a)

-- The settings are those of a live environment with the recorded acknowledgement, they list the account, and
-- the capital that the adapter carries is positive and within their limit.
pub record Licensed (st : GateSettings) (account_id : Text) (capital : Decimal) : Type 0 where
  pub environment : text_eq st.environment (codes "live") ≡ true
  pub enabled : st.live_trading_enabled ≡ true
  pub acknowledged : text_eq st.live_trading_ack live_ack_phrase ≡ true
  pub listed : is_member account_id st.live_account_whitelist ≡ true
  pub positive : Decimal.lt (of_int (pos 0)) capital ≡ true
  pub limited : Decimal.le capital st.live_max_capital ≡ true

authorize-Licensed :
    (account_id broker : Text) (capital : Decimal) (supports tls : Bool) (now : DateTime) (g : Gate)
    (auth : LiveAuthorization)
    → authorize account_id broker capital supports tls now g ≡ ok auth
    → Licensed g.settings account_id capital
unfolding authorize conditions_of
authorize-Licensed account_id broker capital supports tls now g auth e = record {
  environment = ground arith;
  enabled = ground arith;
  acknowledged = ground arith;
  listed = ground arith;
  positive = ground arith;
  limited = ground arith;
}

-- The gate of the adapter has these settings, and an authorization comes with a license.
record Kept (st : GateSettings) (account_id : Text) (a : Adapter) : Type 0 where
  same : a.account_id ≡ account_id
  gated : (g : Gate) × (a.live_gate ≡ some g) × (g.settings ≡ st)
  licensed : (a.live_authorization ≡ none) ⊎ Licensed st account_id a.live_capital

-- A request leaves the adapter as it was, or is granted.
authorize_live-cases :
    (capital : Decimal) (tls : Bool) (now : DateTime) (a : Adapter) (g : Gate)
    → a.live_gate ≡ some g
    → ((authorize_live capital tls now a).1 ≡ a)
      ⊎ ((auth : LiveAuthorization) × (authorize a.account_id a.broker_name capital
              a.broker_supports_live tls now g
            ≡ ok auth)
          × ((authorize_live capital tls now a).1
              ≡ record a { live_authorization = some auth; live_capital = capital }))
unfolding authorize_live
authorize_live-cases capital tls now a g gate = elim (Bool-cases a.is_live) [
  | inr paper ↦ inl (ground arith)
  | inl live ↦
      elim (Result-cases
        (authorize a.account_id a.broker_name capital a.broker_supports_live tls now g)) [
          | inr (x, denied) ↦ inl (ground arith)
          | inl (auth, granted) ↦ inr (auth, granted, ground arith)
        ]
]

serve-Kept :
    (st : GateSettings) (account_id : Text) (c : Call) (a : Adapter)
    → Kept st account_id a
    → Kept st account_id (serve c a)
unfolding serve record_demo_soak
serve-Kept st account_id (soak soaked_id hours) a k =
    let (g, gate, settings) = k.gated in
    record {
      same = k.same;
      gated = (record_demo_soak soaked_id hours g, ground arith, settings);
      licensed = k.licensed;
    }
serve-Kept st account_id (authorizing capital tls now) a k =
    let (g, gate, settings) = k.gated in
    elim (authorize_live-cases capital tls now a g gate) [
      | inl kept ↦ subst (Kept st account_id) (sym kept) k
      | inr (auth, granted, made) ↦
          let license =
            authorize-Licensed a.account_id a.broker_name capital a.broker_supports_live tls now g
              auth granted in
          subst (Kept st account_id) (sym made) (record {
            same = k.same;
            gated = (g, gate, settings);
            licensed = inr (
                subst (λ n. Licensed st n capital) k.same
                  (subst (λ s. Licensed s a.account_id capital) settings license));
          })
    ]

serve_all-Kept :
    (st : GateSettings) (account_id : Text) (cs : List Call) (a : Adapter)
    → Kept st account_id a
    → Kept st account_id (serve_all cs a)
unfolding serve_all
serve_all-Kept st account_id [] a k = k
serve_all-Kept st account_id (c ∷ cs) a k =
    serve_all-Kept st account_id cs (serve c a) (serve-Kept st account_id c a k)

serve_all-is_live : (cs : List Call) (a : Adapter) → (serve_all cs a).is_live ≡ a.is_live
unfolding serve_all serve authorize_live
serve_all-is_live [] a = refl
serve_all-is_live (soak account_id hours ∷ cs) a =
    serve_all-is_live cs (serve (soak account_id hours) a)
serve_all-is_live (authorizing capital tls now ∷ cs) a =
    ground (arith, serve_all-is_live cs (serve (authorizing capital tls now) a))

-- A live adapter with a gate passes the guard of live capital, after any requests and soaks, only if the
-- settings of the gate are those of a live environment with live trading enabled and acknowledged, and list
-- its account, and the capital that it carries is positive and within their limit.
pub live_guard_sound :
    (account_id broker_name : Text) (g : Gate) (supports : Bool) (cs : List Call)
    → let a = serve_all cs (LiveGate.new account_id broker_name true (some g) supports) in
      verify_live_capital_guard a ≡ ok tt → Licensed g.settings account_id a.live_capital
unfolding verify_live_capital_guard LiveGate.new
live_guard_sound account_id broker_name g supports cs passed =
    let a0 = LiveGate.new account_id broker_name true (some g) supports in
    let k =
      serve_all-Kept g.settings account_id cs a0
        (record { same = refl; gated = (g, refl, refl); licensed = inl refl }) in
    let live = serve_all-is_live cs a0 in
    elim k.licensed [ inr license ↦ license | inl unauthorized ↦ absurd (ground arith) ]
