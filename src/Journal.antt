-- ===== src/Journal.antt =====
-- The journal packages: journal/tracker.go, journal/encoded.go and journal/sse/limits.go.
pub mod Tracker
pub mod Encoded
pub mod Limits
