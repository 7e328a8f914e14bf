-- ===== src/Session/Gate.antt =====
-- session/session.go: `Gate`, with the cross-origin check of package net/http in front of it.
pub mod Access
use tokyo3_base.Base.{
  ℕ, ◌≡◌, Bool, true, false, not, ◌&&◌, ◌||◌, Option, none, some, List, [], ◌∷◌, ◌++◌, Bytes,
  bytes_eq, text, contains_bytes, if◌then◌else◌,
}
use tokyo3_base.Std.Path
use tokyo3_base.ClientIp.{AddrText}
use tokyo3_base.Crypto.Cipher.{Cipher}
use tokyo3_base.Crypto.Entropy.{Entropy}
use tokyo3_base.Http.{Request, SetCookie, header}
use tokyo3_base.SealedCookie
use tokyo3_base.SealedCookie.{Codec, is_empty}
use tokyo3_base.Session.Config.{
  Session, Config, Manager, Revocation, live, revoked, check_failed, is_exempt,
}
use tokyo3_base.Session.Manager.{
  Url, Verdict, served, redirect, failed, Reply, reply, read_session, maybe_extend_idle,
}

-- `http.CrossOriginProtection.Check`: safe methods pass; Sec-Fetch-Site decides where it is sent;
-- otherwise an Origin of another host is refused, and no Origin passes.
is_safe : Bytes → Bool
is_safe method =
    bytes_eq method (text "GET")
    || bytes_eq method (text "HEAD")
    || bytes_eq method (text "OPTIONS")

module _ (parse_url : Bytes → Option Url) where
  same_host : Request → Bool
  same_host r = elim (parse_url (header (text "Origin") r)) [
    | none ↦ false
    | some u ↦ bytes_eq u.host r.host
  ]

  unfoldable pub passes_origin_check : List Bytes → Request → Bool
  unfolding is_safe same_host
  passes_origin_check trusted r =
      is_safe r.method
      || (if not (is_empty (header (text "Sec-Fetch-Site") r))
          then bytes_eq (header (text "Sec-Fetch-Site") r) (text "same-origin")
            || bytes_eq (header (text "Sec-Fetch-Site") r) (text "none")
            || contains_bytes trusted (header (text "Origin") r)
          else is_empty (header (text "Origin") r)
            || same_host r
            || contains_bytes trusted (header (text "Origin") r))

is_get : Request → Bool
is_get r = bytes_eq r.method (text "GET")

with_query : Bytes → Bytes → Bytes
with_query path query = if is_empty query then path else path ++ (b'?' ∷ query)

-- Without a session: a GET is sent to the login page with the way back.
unfoldable pub unauthenticated : Manager → Request → Reply
unfolding is_get with_query
unauthenticated m r =
    if is_get r
    then reply (
        redirect (
          m.cfg.base_path
          ++ m.cfg.login_path
          ++ text "?return_to="
          ++ Path.query_escape (with_query (m.cfg.base_path ++ r.path) r.raw_query)))
    else reply (failed 401)

module _ (cipher : Cipher) (j : Codec Session) (t : AddrText) (parse_url : Bytes → Option Url) where
  revoked_reply : Manager → Request → Reply
  unfolding is_get
  revoked_reply m r = record {
    cookies = SealedCookie.clear t m.cookie r ∷ [];
    verdict = if is_get r then redirect (m.cfg.base_path ++ m.cfg.login_path) else failed 401;
  }

  admitted : Session × List SetCookie × Entropy → Reply × Entropy
  admitted (sess, cookies, e) = (record { cookies = cookies; verdict = served (some sess) }, e)

  -- The group check and the renewal, once the session is known not to be revoked.
  authorised : Manager → Request → Session → ℕ → Entropy → Reply × Entropy
  unfolding admitted
  authorised m r sess now e =
      if not (is_empty m.cfg.required_group)
        && not (contains_bytes sess.groups m.cfg.required_group)
      then (reply (failed 403), e)
      else admitted (maybe_extend_idle cipher j t m r sess now e)

  abbrev pub answer : Manager → Session → Revocation
  answer m sess = elim m.cfg.is_revoked [ none ↦ live | some check ↦ check sess ]

  checked : Manager → Request → Session → ℕ → Entropy → Revocation → Reply × Entropy
  unfolding authorised revoked_reply
  checked m r sess now e live = authorised m r sess now e
  checked m r sess now e revoked = (revoked_reply m r, e)
  checked m r sess now e check_failed = (reply (failed 503), e)

  with_session : Manager → Request → ℕ → Entropy → Option Session → Reply × Entropy
  unfolding checked
  with_session m r now e none = (unauthenticated m r, e)
  with_session m r now e (some sess) = checked m r sess now e (answer m sess)

  unfoldable pub gated : Manager → Request → ℕ → Entropy → Reply × Entropy
  unfolding with_session
  gated m r now e =
      if is_exempt m r.path
      then (reply (served none), e)
      else with_session m r now e (read_session cipher j t m r now)

  unfoldable pub gate : Manager → Request → ℕ → Entropy → Reply × Entropy
  unfolding gated
  gate m r now e = elim m.origin_check [
    | none ↦ gated m r now e
    | some trusted ↦
        if passes_origin_check parse_url trusted r then gated m r now e else (reply (failed 403), e)
  ]
