-- ===== src/Oidc.antt =====
-- Package oidc: the demands on tokens, the browser login, and back-channel logout. What package
-- go-oidc checks is a parameter.
pub mod Verifier
pub mod Lazy
pub mod Login
pub mod Logout
