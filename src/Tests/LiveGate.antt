-- ===== src/Tests/LiveGate.antt =====
-- Examples for forex_platform/production/security.py and forex_platform/broker_adapters/base.py.
use forex_platform.Decimal
use forex_platform.Decimal.{Decimal, decimal}
use forex_platform.Production.LiveGate
use forex_platform.Production.LiveGate.{
  Gate, GateSettings, authorize, authorize_live, conditions_of, demo_soak_hours, live_ack_phrase,
  record_demo_soak, verify_live_capital_guard,
}
use forex_platform.Production.LiveGate.Guard.{
  Call, soak, authorizing, serve, serve_all, Licensed, live_guard_sound,
}
use forex_platform.Prelude.{
  true, some, List, [], ◌∷◌, pos, Text, codes, text_eq, is_member, lookup, insert, ok, ◌≡◌, refl,
}
use forex_platform.Tests.Data.{noon}

abbrev account : Text
account = codes "A1"

abbrev live_settings : GateSettings
live_settings = record {
  environment = codes "live";
  live_trading_enabled = true;
  live_trading_ack = live_ack_phrase;
  live_account_whitelist = codes "A0" ∷ account ∷ [];
  live_max_capital = decimal (pos 500000) 2;
  live_require_tls = true;
  live_require_demo_soak_hours = pos 720;
}

abbrev gate : Gate
gate = record { settings = live_settings; soaks = [] }

abbrev capital : Decimal
capital = decimal (pos 100000) 2

-- The first request comes before the soak, and is denied.
abbrev calls : List Call
calls =
    authorizing capital true noon
    ∷ soak account (decimal (pos 7205) 1)
    ∷ authorizing capital true noon
    ∷ []

guarded :
    verify_live_capital_guard
      (serve_all calls (LiveGate.new account (codes "MT5") true (some gate) true))
    ≡ ok tt
unfolding verify_live_capital_guard serve_all serve authorize_live authorize conditions_of
    demo_soak_hours record_demo_soak LiveGate.new text_eq is_member lookup insert Decimal.lt
guarded = refl

live_guard_sound_example :
    Licensed live_settings account
      (serve_all calls (LiveGate.new account (codes "MT5") true (some gate) true)).live_capital
live_guard_sound_example = live_guard_sound account (codes "MT5") gate true calls guarded
