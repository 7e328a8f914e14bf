-- ===== src/Session/Manager.antt =====
-- session/session.go: the methods of a Manager, but for the Gate.
pub mod Expiry
pub mod Redirect
pub mod FormTokens
use tokyo3_base.Base.{
  ℕ, ◌+◌, ◌-◌, ◌/◌, ◌≡◌, Bool, true, false, not, ◌&&◌, ◌||◌, Option, none, some, List, [], ◌∷◌,
  ◌++◌, map, Bytes, bytes_eq, text, has_prefix, contains_byte, Result, ok, err, and_then, or_err,
  map_err, ltb, leb, ◌==◌, if◌then◌else◌,
}
use tokyo3_base.Base.Int.{ℤ, pos_part, is_nonpositive}
use tokyo3_base.Std.Path
use tokyo3_base.ClientIp.{AddrText}
use tokyo3_base.Crypto.Cipher.{Cipher}
use tokyo3_base.Crypto.Entropy.{Entropy}
use tokyo3_base.Csrf
use tokyo3_base.Http.{Request, SetCookie, header}
use tokyo3_base.SealedCookie
use tokyo3_base.SealedCookie.{Codec, is_empty}
use tokyo3_base.Session.Config.{Session, Config, Manager}

pub data Error : Type 0 where
  no_session : Error
  no_secret no_token : Csrf.Error → Error
  cookie : SealedCookie.Error → Error
  mutation : ℕ → Error

-- What is read of a parsed URL.
pub record Url : Type 0 where
  pub is_absolute : Bool
  pub host : Bytes
  pub path : Bytes

-- What a handler does: the cookies that it sets, and how it answers.
pub data Verdict : Type 0 where
  served : Option Session → Verdict
  redirect : Bytes → Verdict
  failed : ℕ → Verdict

pub record Reply : Type 0 where
  pub cookies : List SetCookie
  pub verdict : Verdict

abbrev pub reply : Verdict → Reply
reply v = record { cookies = []; verdict = v }

fresh_session : Manager → ℕ → Bytes → Session
fresh_session m now secret = record {
  subject = [];
  email = [];
  name = [];
  groups = [];
  sid = [];
  expiry =
      if not (is_nonpositive m.cfg.idle_timeout) && ltb (pos_part m.cfg.idle_timeout) m.ttl
      then now + pos_part m.cfg.idle_timeout
      else now + m.ttl;
  absolute_expiry = now + m.ttl;
  csrf_secret = secret;
  extra = [];
}

unfoldable pub new_session : Manager → ℕ → Entropy → Result Error Session × Entropy
unfolding fresh_session
new_session m now e =
    let (secret, e') = Csrf.new_secret e in
    (and_then (map_err no_secret secret) (λ s. ok (fresh_session m now s)), e')

-- The session that idle renewal aims at: now plus the idle time, but not past the ceiling.
unfoldable pub extended : Manager → ℕ → Session → Session
extended m now sess = record sess {
  expiry =
      if not (sess.absolute_expiry == 0)
        && ltb sess.absolute_expiry (now + pos_part m.cfg.idle_timeout)
      then sess.absolute_expiry
      else now + pos_part m.cfg.idle_timeout;
}

to_lower : ℕ → ℕ
to_lower c = if leb b'A' c && leb c b'Z' then c + 32 else c

-- strings.EqualFold on ASCII text.
equal_fold : Bytes → Bytes → Bool
unfolding to_lower
equal_fold a b = bytes_eq (map to_lower a) (map to_lower b)

module _ (parse_url : Bytes → Option Url) where
  is_foreign : Bytes → Bytes → Bool
  unfolding equal_fold
  is_foreign host raw = elim (parse_url raw) [
    | none ↦ true
    | some u ↦ is_empty u.host || not (equal_fold u.host host)
  ]

  -- Sec-Fetch-Site decides where it is sent; otherwise a foreign Origin or Referer does.
  unfoldable pub cross_site_request : Request → Bool
  unfolding is_foreign
  cross_site_request r =
      if not (is_empty (header (text "Sec-Fetch-Site") r))
      then bytes_eq (header (text "Sec-Fetch-Site") r) (text "cross-site")
      else (not (is_empty (header (text "Origin") r))
          && is_foreign r.host (header (text "Origin") r))
        || (not (is_empty (header (text "Referer") r))
            && is_foreign r.host (header (text "Referer") r))

  -- Whether a cleaned path lies under a cleaned base path.
  unfoldable pub is_under : Bytes → Bytes → Bool
  is_under base p =
      bytes_eq base (text ".")
      || bytes_eq base (text "/")
      || bytes_eq p base
      || has_prefix p (base ++ text "/")

  confined : Manager → Bytes → Option Url → Bytes
  unfolding is_under
  confined m p none = m.cfg.base_path ++ text "/"
  confined m p (some u) =
      if u.is_absolute || not (is_empty u.host) || contains_byte u.path 92
      then m.cfg.base_path ++ text "/"
      else if not (is_under (Path.clean m.cfg.base_path) (Path.clean u.path))
      then m.cfg.base_path ++ text "/"
      else p

  unfoldable pub safe_return_to : Manager → Bytes → Bytes
  unfolding confined
  safe_return_to m p =
      if not (has_prefix p (text "/")) || has_prefix p (text "//")
      then m.cfg.base_path ++ text "/"
      else confined m p (parse_url p)

  unfoldable pub logout_handler : AddrText → Manager → Request → Reply
  logout_handler t m r = if cross_site_request r then reply (failed 403) else record {
    cookies = SealedCookie.clear t m.cookie r ∷ [];
    verdict = redirect (m.cfg.base_path ++ m.cfg.login_path);
  }

module _ (cipher : Cipher) (j : Codec Session) (t : AddrText) where
  -- A session that has expired is no session.
  unexpired : ℕ → Result SealedCookie.Error Session → Option Session
  unexpired now (err e) = none
  unexpired now (ok sess) = if ltb sess.expiry now then none else some sess

  unfoldable pub read_session : Manager → Request → ℕ → Option Session
  unfolding unexpired
  read_session m r now = unexpired now (SealedCookie.read cipher j m.cookie r)

  in_cookie : Result SealedCookie.Error SetCookie × Entropy → Result Error SetCookie × Entropy
  in_cookie (r, e) = (map_err cookie r, e)

  unfoldable pub issue_session :
      Manager → Request → Session → ℕ → Entropy → Result Error SetCookie × Entropy
  unfolding in_cookie
  issue_session m r sess now e =
      in_cookie (SealedCookie.set cipher j t m.cookie r sess (sess.expiry - now) now e)

  mutated : Manager → Request → ℕ → Entropy → Result ℕ Session → Result Error SetCookie × Entropy
  unfolding issue_session
  mutated m r now e (err x) = (err (mutation x), e)
  mutated m r now e (ok sess) = issue_session m r sess now e

  update_live :
      Manager
      → Request
      → (Session → Result ℕ Session)
      → ℕ
      → Entropy
      → Option Session
      → Result Error SetCookie × Entropy
  unfolding mutated
  update_live m r mutate now e none = (err no_session, e)
  update_live m r mutate now e (some sess) = mutated m r now e (mutate sess)

  unfoldable pub update_session :
      Manager
      → Request
      → (Session → Result ℕ Session)
      → ℕ
      → Entropy
      → Result Error SetCookie × Entropy
  unfolding update_live
  update_session m r mutate now e = update_live m r mutate now e (read_session m r now)

  -- A failed seal leaves the session as it was.
  resealed :
      Session
      → Session
      → Result SealedCookie.Error SetCookie × Entropy
      → Session × List SetCookie × Entropy
  resealed sess renewed (err x, e) = (sess, [], e)
  resealed sess renewed (ok ck, e) = (renewed, ck ∷ [], e)

  unfoldable pub maybe_extend_idle :
      Manager → Request → Session → ℕ → Entropy → Session × List SetCookie × Entropy
  unfolding resealed
  maybe_extend_idle m r sess now e =
      let renewed = extended m now sess in
      if is_nonpositive m.cfg.idle_timeout
      then (sess, [], e)
      else if ltb (now + pos_part m.cfg.idle_timeout / 2) sess.expiry
      then (sess, [], e)
      else if not (ltb sess.expiry renewed.expiry)
      then (sess, [], e)
      else resealed sess renewed
          (SealedCookie.set cipher j t m.cookie r renewed (renewed.expiry - now) now e)

module _ (cipher : Cipher) (j : Codec Session) (t : AddrText) (hmac : Bytes → Bytes → Bytes) where
  token_for : Bytes → Entropy → Option Session → Result Error Bytes × Entropy
  token_for scope e none = (err no_session, e)
  token_for scope e (some sess) =
      let (wire, e') = Csrf.token hmac sess.csrf_secret scope e in
      if is_empty sess.csrf_secret then (err no_session, e) else (map_err no_token wire, e')

  unfoldable pub csrf_token : Manager → Request → Bytes → ℕ → Entropy → Result Error Bytes × Entropy
  unfolding token_for
  csrf_token m r scope now e = token_for scope e (read_session cipher j t m r now)

  valid_for : Bytes → Bytes → Option Session → Bool
  valid_for wire scope none = false
  valid_for wire scope (some sess) = Csrf.validate hmac sess.csrf_secret wire scope

  unfoldable pub validate_csrf : Manager → Request → Bytes → Bytes → ℕ → Bool
  unfolding valid_for
  validate_csrf m r wire scope now = valid_for wire scope (read_session cipher j t m r now)
