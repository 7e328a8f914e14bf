-- ===== src/Session.antt =====
-- session/session.go: the sealed browser session, its renewal, and the access gate. url.Parse, the
-- JSON encoding of a session, AES-256-GCM and HMAC are parameters; the clock reading is an argument.
-- Times are nanoseconds since year 1, and 0 is the zero Time.
pub mod Config
pub mod Manager
pub mod Gate
