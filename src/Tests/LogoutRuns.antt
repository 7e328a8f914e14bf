-- ===== src/Tests/LogoutRuns.antt =====
-- The theorems of package oidc at concrete inputs.
use tokyo3_base.Base.{
  ◌&&◌, err, ℕ, ◌+◌, ◌≤◌, ◌≡◌, refl, false, Option, none, some, List, [], ◌∷◌, arith, Bytes,
  bytes_eq, text,
}
use tokyo3_base.Base.Int.{pos}
use tokyo3_base.Base.Dict
use tokyo3_base.Oidc.Verifier.{
  Token, LogoutClaims, no_date, loose_other, events, object_event, verify_logout_token,
  verify_logout_claims, verify_claims, is_logout_token, logout_token_skew, logout_token_max_age,
}
use tokyo3_base.Oidc.Verifier.Demands.{verify_logout_claims_inv}
use tokyo3_base.Oidc.Logout.Once.{verifier, new_cache-window, serve_http_never_twice}
use tokyo3_base.SealedCookie.{is_empty}
use tokyo3_base.Oidc.Logout.{
  JtiCache, new_cache, accept, finish, LogoutRequest, Revoker, serve_http,
}
use tokyo3_base.Oidc.Logout.Replay.{Event, starts, ends, run}
use tokyo3_base.Oidc.Logout.Delivery.{serve_http_once}

-- Logout: the text of a token is its id, and what is revoked are sessions that are counted.
abbrev verify : ℕ → Bytes → Option LogoutClaims
verify checked token = some (record {
  jti = token;
  session_id = text "s1";
  issuer = [];
  subject = [];
  issued_at = 5;
  expires_at = 0;
})

abbrev counter : Revoker ℕ
counter = record {
  revoke_session = λ sid n. (some 1, n + 1);
  revoke_user = λ issuer subject n. (some none, n);
  on_revoked = none;
}

abbrev failing : Revoker ℕ
failing = record counter { revoke_session = λ sid n. (none, n) }

abbrev notice : LogoutRequest
notice = record { method = text "POST"; form = some (text "t1") }

abbrev notice_claims : LogoutClaims
notice_claims = record {
  jti = text "t1";
  session_id = text "s1";
  issuer = [];
  subject = [];
  issued_at = 5;
  expires_at = 0;
}

abbrev between : List Event
between = starts (text "t2") 20 ∷ ends (text "t2") false 21 ∷ starts (text "t1") 22 ∷ []

abbrev first : ℕ × JtiCache × ℕ
first = serve_http verify counter notice 9 10 12 (new_cache (pos 0)) 0

serve_http_once_example :
    ((serve_http verify counter notice 29 30 31 (run between first.1) 1).0 ≡ 400)
    × ((serve_http verify counter notice 29 30 31 (run between first.1) 1).2 ≡ 1)
unfolding serve_http new_cache accept finish bytes_eq Dict.get Dict.keep
serve_http_once_example =
    serve_http_once verify counter notice notice notice_claims notice_claims 9 10 12 29 30 31
      (new_cache (pos 0)) 0 1 between (text "t1", refl, refl, refl, refl)
      (text "t1", refl, refl, refl, refl) refl refl (refl, (refl, (refl, tt))) (omega arith)

-- A logout token that was issued at 5.
abbrev logout_token : Token
logout_token = record {
  issuer = text "op";
  subject = [];
  sid = text "s1";
  email = [];
  email_verified = loose_other;
  name = [];
  groups = [];
  nonce = none;
  auth_time = 0;
  jti = text "t1";
  iat = some 5;
  exp = no_date;
  nbf = no_date;
  events = events (object_event 0);
}

abbrev logout_claims : LogoutClaims
logout_claims = record {
  issuer = text "op";
  subject = [];
  session_id = text "s1";
  jti = text "t1";
  issued_at = 5;
  expires_at = 0;
}

abbrev check : Bytes → Option Token
check token = some logout_token

verify_logout_claims_inv_example :
    (logout_token.iat ≡ some 5)
    × (5 ≤ 9 + logout_token_skew)
    × (9 ≤ 5 + logout_token_max_age)
    × (logout_claims.jti ≡ logout_token.jti)
    × (is_empty logout_token.jti ≡ false)
    × ((is_empty logout_token.subject && is_empty logout_token.sid) ≡ false)
    × (logout_token.nonce ≡ none)
    × (verify_claims logout_token ≡ err is_logout_token)
unfolding verify_logout_claims
verify_logout_claims_inv_example = verify_logout_claims_inv 9 logout_token logout_claims refl

abbrev served_once : ℕ × JtiCache × ℕ
served_once = serve_http (verifier check) counter notice 9 10 12 (new_cache (pos 0)) 0

serve_http_never_twice_example :
    ((serve_http (verifier check) counter notice 30 30 31 (run between served_once.1) 1).0 ≡ 400)
    × ((serve_http (verifier check) counter notice 30 30 31 (run between served_once.1) 1).2 ≡ 1)
unfolding serve_http new_cache accept finish bytes_eq Dict.get Dict.keep verify_logout_token
serve_http_never_twice_example =
    serve_http_never_twice check counter notice logout_claims 9 10 12 30 30 31 (new_cache (pos 0)) 0
      1 between 0 (text "t1", refl, refl, refl, refl) (omega arith) (omega arith)
      (omega (arith, new_cache-window (pos 0))) (omega arith) refl
      (omega arith, (refl, (omega arith, tt)))
