-- ===== src/Api.antt =====
-- Package api: the cache of a bearer token.
pub mod BearerToken
