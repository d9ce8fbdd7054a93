-- ===== src/Tests/Sessions.antt =====
-- Examples for forex_platform/core/sessions.py.
