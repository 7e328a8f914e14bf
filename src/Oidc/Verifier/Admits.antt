-- ===== src/Oidc/Verifier/Admits.antt =====
-- Tokens that oidc/oidc.go accepts.
use tokyo3_base.Base.{
  ℕ, ◌+◌, ◌≤◌, ◌<◌, ◌≡◌, refl, false, ◌&&◌, none, some, [], Bytes, arith, ok, inl, inr, ◌⊎◌,
}
use tokyo3_base.SealedCookie.{is_empty}
use tokyo3_base.Oidc.Verifier.{
  Token, no_events, loose_other, verify_claims, has_logout_event, parse_loose_bool, or_empty,
  no_date, date, events, object_event, logout_token_max_age, logout_token_skew, is_recent,
  is_unexpired, has_begun, expiry_of, dated, named, checked_event, issued, bodied, event_of,
  verify_logout_claims,
}

-- The parts of a token that do not matter to a logout are any.
pub verify_logout_claims_ok :
    (now t expires : ℕ) (tok : Token)
    → tok.events ≡ events (object_event 0)
    → tok.nonce ≡ none
    → tok.iat ≡ some t
    → tok.exp ≡ date expires
    → tok.nbf ≡ no_date
    → t ≤ now + logout_token_skew
    → now ≤ t + logout_token_max_age
    → now < expires + logout_token_skew
    → (is_empty tok.subject && is_empty tok.sid) ≡ false
    → is_empty tok.jti ≡ false
    → verify_logout_claims now tok
      ≡ ok (record {
        issuer = tok.issuer;
        subject = tok.subject;
        session_id = tok.sid;
        jti = tok.jti;
        issued_at = t;
        expires_at = expires;
      })
unfolding verify_logout_claims event_of bodied issued dated is_recent is_unexpired has_begun
    checked_event named expiry_of
verify_logout_claims_ok now t expires tok marked no_nonce iat exp nbf early late open_ who id =
    simp (marked, no_nonce, iat, exp, nbf, who, id) (ground (arith, early, late, open_))

-- ID tokens without a statement on the email address; an absent nonce is empty.
pub verify_claims_ok :
    (tok : Token) (n : Bytes)
    → tok.events ≡ no_events
    → tok.email_verified ≡ loose_other
    → ((tok.nonce ≡ none) × (n ≡ [])) ⊎ (tok.nonce ≡ some n)
    → verify_claims tok
      ≡ ok (record {
        subject = tok.subject;
        email = tok.email;
        email_verified = false;
        name = tok.name;
        groups = tok.groups;
        nonce = n;
        issuer = tok.issuer;
        auth_time = tok.auth_time;
        session_id = tok.sid;
      })
unfolding verify_claims has_logout_event parse_loose_bool or_empty
verify_claims_ok tok n marked email (inl (absent, e)) = simp (marked, email, absent, e) refl
verify_claims_ok tok n marked email (inr there) = simp (marked, email, there) refl
