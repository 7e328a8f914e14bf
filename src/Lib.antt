-- ===== src/Lib.antt =====
-- tokyo3-base: a Go library of the parts that web services share. This development models its security
-- core: sealing and envelope encryption, sealed cookies, browser sessions and their access gate, anti-CSRF
-- tokens, the HTTP Basic gate, the client address behind proxies, the rate limiter, the journal's trackers
-- and stream limits, OpenID Connect login and back-channel logout, the hot reload of TLS material, the bearer
-- token cache, and the OpenID Connect client of command-line tools.
--
-- How the parts interact. session.Manager keeps a Session in a sealedcookie.Cookie, which seals it with
-- crypto.SealAAD and asks clientip whether a proxy may vouch for TLS; it mints form tokens with csrf.
-- ratelimit keys its buckets by clientip. crypto.KeyProviderCache stands in front of a root KeyProvider
-- for envelope encryption. The journal packages feed trackers and event streams. The Authenticator of oidc
-- keeps the pending logins in a sealed cookie, and hands a finished one to an issuer of sessions, which
-- session.Manager is. The Reloader of tls/reloader refreshes certificate and pool loaders, which share one
-- state machine per file. The helpers that use auth/oidcclient share its token cache, and refresh it one at a
-- time under a file lock. The verifier of oidc reads the tokens that auth/jwt mints.
--
-- Files, with the code that they model:
--   Base, Std       shared helpers: numbers, lists, results, maps, texts; hexadecimal, base64, XOR,
--                   splitting and path cleaning as Go's standard library does them
--   Crypto          crypto/crypto.go and crypto/keyprovider.go (Entropy, Seal, Envelope), with RoundTrip;
--                   crypto/cache.go (Cache): lookup, store, invalidate and for_key are the methods of
--                   KeyProviderCache, and Cache/Revocation runs them as steps of concurrent goroutines
--   Csrf            csrf/csrf.go: token, validate, mask, unmask
--   ClientIp        clientip/clientip.go: from_request, canonical, network
--   RateLimit       ratelimit/ratelimit.go: middleware, allow, warn_due, sweep_locked
--   Http            requests and cookies, as far as package net/http is used
--   SealedCookie    sealedcookie/sealedcookie.go: set, read, clear, seal, open_cookie
--   Session         session/session.go: Config (New), Manager (NewSession, IssueSession, UpdateSession,
--                   CSRFToken, SafeReturnTo, maybeExtendIdle and the rest), Gate
--   Journal         journal/tracker.go (Tracker), journal/encoded.go (Encoded), journal/sse/limits.go
--                   (Limits)
--   Oidc            oidc/oidc.go (Verifier): what ID tokens and logout tokens must have, and (Lazy) the
--                   verifier that discovers its provider at the first call;
--                   oidc/backchannel_logout.go (Logout): accept and finish of the cache of token ids, and
--                   serve_http; oidc/login.go (Login): NewAuthenticator and the pending flows, Login/Begin
--                   (Begin and LoginHandler) and Login/Callback (CallbackHandler)
--   OidcClient      auth/oidcclient: discovery.go and the token exchange of client.go (Endpoints), the token
--                   cache of client.go (Cache: ensure_fresh_tokens, safe_filename), deviceflow.go (Device),
--                   loopback.go and codeflow.go (Loopback), login.go (Login), and time.Duration (Duration)
--   Tls             tls/tls.go (Files), tls/reloader/reload.go (Reload: the states of fileValue),
--                   tls/reloader/loader.go and server.go (Loader), tls/reloader/reloader.go (Reloader)
--   UrlQuery        internal/urlquery/urlquery.go: merge
--   AuthJwt         auth/jwt/signer.go and logout_token.go: mint_id_token, mint_logout_token
--   HttpAuth        httpauth/httpauth.go: basic_auth
--   Api             api/bearer_token.go (BearerToken): get_token, run_refresh
--   Tests           concrete instances of the parameters, and the theorems at concrete inputs
--
-- Conventions. A Go string or byte slice is a list of numbers. A time is a number of nanoseconds since
-- year 1, 0 being the zero Time, and is an argument of what reads the clock; a.Sub(b) < d is written
-- a < b + d. A configured duration is an integer where its sign is tested. A map is an association list,
-- used through the laws of Base/Dict. A method takes and gives back the state that it changes; what a
-- mutex guards is one step. Random bytes come from a source that is passed along and can run dry.
-- Sequence numbers and generations are 64 bits wide, and wrap around where they are counted up.
--
-- Parameters, for code that is not in the repository: AES-256-GCM (Cipher), HMAC-SHA256, SHA-256, the JSON
-- encoding (Codec), url.Parse, the texts of addresses (AddrText), the token bucket (TokenBucket), the root
-- key provider, what package go-oidc checks of a token, the revoker of logout tokens, the parsers and the
-- verifier of x509, the parser and the printer of URLs and queries, HTTP exchanges (Web, and the token POST of
-- a login), and the disk and the clock as each call sees them. What a theorem
-- assumes of them is a record of laws among its hypotheses, for instance IsCorrect and Authenticates of a
-- Cipher.
--
-- Bounds. Every function is structurally recursive. The polling loop of Device has fuel, one unit for each
-- round; Device/Ends shows how many are enough. Durations of auth/oidcclient are 64-bit words in two's
-- complement and wrap around. Revocation takes the generation not to run through all 2^64 values. Spaces and letter case are read as ASCII text. The float64 rate of
-- the limiter enters by its sign and its rounded-up reciprocal. An IPv6 network is taken not to be an
-- IPv4-mapped one, as net.ParseCIDR makes it.
--
-- Not modelled: log output and what is printed, the deadlines of contexts, the callers that wait for a flight
-- of the key cache or of the bearer token manager, SelfSignedCert and the fingerprints of tls, federation tokens and the JWKS of auth/jwt, of
-- auth/oidcclient the file writes, Logout and IDTokenClaims, and the packages around foreign services
-- (the rest of api and of auth, applog, cli, db, debug, envutil, guard, journal/jetstream, the handler
-- of journal/sse, nats, run, version).
pub mod Base
pub mod Std
pub mod Crypto
pub mod Csrf
pub mod ClientIp
pub mod RateLimit
pub mod Http
pub mod UrlQuery
pub mod SealedCookie
pub mod Session
pub mod Journal
pub mod Oidc
pub mod Tls
pub mod OidcClient
pub mod AuthJwt
pub mod HttpAuth
pub mod Api
pub mod Tests
