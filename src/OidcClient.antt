-- ===== src/OidcClient.antt =====
-- Package auth/oidcclient: the OpenID Connect client of command-line tools. HTTP, JSON, the URL parser
-- and file locks are parameters.
pub mod Duration
pub mod Endpoints
pub mod Cache
pub mod Device
pub mod Loopback
pub mod Login
