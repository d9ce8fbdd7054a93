-- ===== src/Production/LiveGate.antt =====
-- `LiveTradingGate` of forex_platform/production/security.py, and what IBrokerAdapter of
-- forex_platform/broker_adapters/base.py does with it. The settings do not change while an adapter lives.
-- Hours of soaking, which are float there, are exact decimals, as every finite float is. Who verified a soak,
-- and when, is not modelled.
pub mod Guard
use forex_platform.Decimal
use forex_platform.Decimal.{Decimal, decimal, of_int}
use forex_platform.Prelude.{
  ℕ, ◌==◌, if◌then◌else◌, Bool, true, false, not, ◌&&◌, ◌||◌, Option, none, some, List, [], ◌∷◌, ℤ,
  pos, Text, codes, text_eq, strip, upper, is_member, Dict, lookup, insert, Result, ok, err,
  live_trading_denied, permission_error,
}
use forex_platform.Time.{DateTime}

-- The settings that the gate reads.
pub record GateSettings : Type 0 where
  pub environment : Text
  pub live_trading_enabled : Bool
  pub live_trading_ack : Text
  pub live_account_whitelist : List Text
  pub live_max_capital : Decimal
  pub live_require_tls : Bool
  pub live_require_demo_soak_hours : ℤ

pub record Gate : Type 0 where
  pub settings : GateSettings
  pub soaks : Dict Decimal

abbrev pub live_ack_phrase : Text
live_ack_phrase = codes "I_ACCEPT_FULL_LOSS_RESPONSIBILITY"

pub record Conditions : Type 0 where
  pub environment_is_live : Bool
  pub live_trading_enabled : Bool
  pub acknowledgement_recorded : Bool
  pub account_whitelisted : Bool
  pub capital_positive_within_limit : Bool
  pub tls_active : Bool
  pub demo_soak_verified : Bool
  pub broker_supports_live : Bool

pub record LiveAuthorization : Type 0 where
  pub account_id : Text
  pub broker : Text
  pub max_capital : Decimal
  pub authorized_at : DateTime
  pub conditions : Conditions

unfoldable pub record_demo_soak : Text → Decimal → Gate → Gate
record_demo_soak account_id hours g = record g { soaks = insert account_id hours g.soaks }

abbrev hours_or_zero : Option Decimal → Decimal
hours_or_zero none = decimal (pos 0) 1
hours_or_zero (some hours) = hours

unfoldable pub demo_soak_hours : Text → Gate → Decimal
demo_soak_hours account_id g = hours_or_zero (lookup account_id g.soaks)

unfoldable pub conditions_of : Text → Decimal → Bool → Bool → Gate → Conditions
unfolding demo_soak_hours
conditions_of account_id capital supports_live tls g =
    let st = g.settings in
    let required = of_int st.live_require_demo_soak_hours in
    record {
      environment_is_live = text_eq st.environment (codes "live");
      live_trading_enabled = st.live_trading_enabled;
      acknowledgement_recorded = text_eq st.live_trading_ack live_ack_phrase;
      account_whitelisted = is_member account_id st.live_account_whitelist;
      capital_positive_within_limit =
          Decimal.lt (of_int (pos 0)) capital && Decimal.le capital st.live_max_capital;
      tls_active = tls || not st.live_require_tls;
      demo_soak_verified =
          Decimal.le required (of_int (pos 0))
          || Decimal.le required (demo_soak_hours account_id g);
      broker_supports_live = supports_live;
    }

-- No condition has failed.
abbrev pub all_hold : Conditions → Bool
all_hold c =
    c.environment_is_live && c.live_trading_enabled && c.acknowledgement_recorded
    && c.account_whitelisted && c.capital_positive_within_limit && c.tls_active
    && c.demo_soak_verified && c.broker_supports_live

unfoldable pub authorize :
    Text → Text → Decimal → Bool → Bool → DateTime → Gate → Result LiveAuthorization
unfolding conditions_of
authorize account_id broker capital supports_live tls now g =
    let conditions = conditions_of account_id capital supports_live tls g in
    if all_hold conditions
    then ok (record {
      account_id = account_id;
      broker = broker;
      max_capital = capital;
      authorized_at = now;
      conditions = conditions;
    })
    else err live_trading_denied

-- What an adapter keeps for the guard of live capital.
pub record Adapter : Type 0 where
  pub account_id : Text
  pub broker_name : Text
  pub is_live : Bool
  pub broker_supports_live : Bool
  pub live_gate : Option Gate
  pub live_authorization : Option LiveAuthorization
  pub live_capital : Decimal

-- `__init__`
unfoldable pub new : Text → Text → Bool → Option Gate → Bool → Adapter
new account_id broker_name is_live live_gate supports_live = record {
  account_id = account_id;
  broker_name = broker_name;
  is_live = is_live;
  broker_supports_live = supports_live;
  live_gate = live_gate;
  live_authorization = none;
  live_capital = decimal (pos 0) 2;
}

unfoldable pub authorize_live :
    Decimal → Bool → DateTime → Adapter → Result LiveAuthorization × Adapter
unfolding authorize
authorize_live capital tls now a = elim a.live_gate [
  | none ↦ (err permission_error, a)
  | some g ↦
      if not a.is_live
      then (err permission_error, a)
      else elim (authorize a.account_id a.broker_name capital a.broker_supports_live tls now g) [
        | err e ↦ (err e, a)
        | ok auth ↦ (ok auth, record a { live_authorization = some auth; live_capital = capital })
      ]
]

abbrev is_authorized : Option LiveAuthorization → Bool
is_authorized none = false
is_authorized (some auth) = true

unfoldable pub verify_live_capital_guard : Adapter → Result (Unit {0})
verify_live_capital_guard a =
    if not a.is_live
    then (if Decimal.lt (decimal (pos 0) 2) a.live_capital then err permission_error else ok tt)
    else if is_authorized a.live_authorization
    then ok tt
    else err permission_error

abbrev pub forbidden_permissions : List Text
forbidden_permissions =
    codes "WITHDRAWAL"
    ∷ codes "WITHDRAW"
    ∷ codes "TRANSFER"
    ∷ codes "FUNDS_TRANSFER"
    ∷ codes "EXTERNAL_TRANSFER"
    ∷ codes "MANAGE_FUNDS"
    ∷ codes "FULL_ACCESS"
    ∷ codes "ADMIN"
    ∷ codes "DEPOSIT"
    ∷ []

-- `replace(" ", "_")`
unfoldable pub join_words : Text → Text
join_words [] = []
join_words (c ∷ s) = (if c == 32 then 95 else c) ∷ join_words s

unfoldable pub audit_permissions : List Text → Result (Unit {0})
unfolding join_words
audit_permissions [] = ok tt
audit_permissions (perm ∷ perms) =
    if is_member (join_words (upper (strip perm))) forbidden_permissions
    then err permission_error
    else audit_permissions perms
