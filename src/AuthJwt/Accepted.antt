-- ===== src/AuthJwt/Accepted.antt =====
-- What the verifier of oidc/oidc.go makes of the tokens that auth/jwt mints.
use tokyo3_base.Base.{
  ℕ, ◌+◌, ◌*◌, ◌/◌, ◌≤◌, ◌<◌, ◌≡◌, ◌≢◌, zero, suc, ◌-◌, ◌∷◌, ◌⊎◌, ◌∙◌, refl, false, ◌&&◌, Option,
  none, some, [], Bytes, ok, err, arith, Bool-cases, inl, inr, ltb, ◌==◌, if◌then◌else◌,
}
use tokyo3_base.Base.Int.{pos}
use tokyo3_base.SealedCookie.{is_empty}
use tokyo3_base.Oidc.Verifier
use tokyo3_base.Oidc.Verifier.{
  Token, Claims, Error, is_logout_token, logout_token_skew, logout_token_max_age, has_logout_event,
  verify_claims, verify_logout_claims, verify, verify_logout_token,
}
use tokyo3_base.Oidc.Verifier.Admits.{verify_claims_ok, verify_logout_claims_ok}
use tokyo3_base.Oidc.Verifier.Demands.{verify_logout_claims_inv}
use tokyo3_base.AuthJwt.{
  Signer, epoch, unix, Identity, IdClaims, LogoutClaims, Signing, second, logout_token_ttl,
  numeric_date, id_claims, logout_claims, or_absent, time_of, unix_or_zero, id_token, logout_token,
  mint_id_token, mint_logout_token,
}

-- The signature over some claims: a verifier with the signer's key, for the issuer and the audience of these
-- claims, reads them in the text that is signed for them.
pub record ReadsLogout (signing : Signing) (check : Bytes → Option Token) (c : LogoutClaims)
    : Type 0 where
  pub reads :
      (kid raw : Bytes) → signing.sign_logout kid c ≡ some raw → check raw ≡ some (logout_token c)

-- The same for the claims of an ID token, whose text is not empty.
pub record ReadsId (signing : Signing) (check : Bytes → Option Token) (c : IdClaims) : Type 0 where
  pub present : (kid raw : Bytes) → signing.sign_id kid c ≡ some raw → is_empty raw ≡ false
  pub reads : (kid raw : Bytes) → signing.sign_id kid c ≡ some raw → check raw ≡ some (id_token c)

numeric_date_near : (t : ℕ) → (numeric_date t ≤ t) × (t < numeric_date t + second)
unfolding numeric_date
numeric_date_near t = (omega arith, omega arith)

module _ (s : Signer) (audience sub sid jti : Bytes) (now : ℕ) (uuid : Bytes) where
  -- The claims of a minted logout token are accepted for its two minutes, and 30 seconds early.
  logout_claims_accepted :
      (later : ℕ)
      → is_empty uuid ≡ false
      → (is_empty sub && is_empty sid) ≡ false
      → now ≤ later + logout_token_skew
      → later ≤ now + logout_token_ttl
      → verify_logout_claims later (logout_token (logout_claims s audience sub sid jti now uuid))
        ≡ ok (record {
          issuer = s.issuer;
          subject = sub;
          session_id = sid;
          jti = if is_empty jti then uuid else jti;
          issued_at = numeric_date now;
          expires_at = numeric_date (now + logout_token_ttl);
        })
  unfolding logout_token logout_claims
  logout_claims_accepted later id who early late =
      let issued = numeric_date_near now in
      let expires = numeric_date_near (now + logout_token_ttl) in
      verify_logout_claims_ok later (numeric_date now) (numeric_date (now + logout_token_ttl))
        (logout_token (logout_claims s audience sub sid jti now uuid)) refl refl refl refl refl
        (omega (arith, issued.0, early)) (omega (arith, issued.1, late))
        (omega (arith, expires.1, late)) who (ground (arith, id))

  -- A logout token that MintLogoutToken signs is accepted by a verifier with the signer's key, issuer and
  -- audience from 30 seconds before to two minutes after, where it names a subject or a session: with these,
  -- with its id (a new UUID if none was given), and with its dates in whole seconds. Its claims are never
  -- accepted as an ID token's.
  pub verify_logout_token-mint :
      (signing : Signing) (check : Bytes → Option Token) (later : ℕ) (raw : Bytes)
      → ReadsLogout signing check (logout_claims s audience sub sid jti now uuid)
      → is_empty uuid ≡ false
      → (is_empty sub && is_empty sid) ≡ false
      → now ≤ later + logout_token_skew
      → later ≤ now + logout_token_ttl
      → mint_logout_token signing s audience sub sid jti now uuid ≡ some raw
      → (verify_logout_token check later raw
          ≡ ok (record {
            issuer = s.issuer;
            subject = sub;
            session_id = sid;
            jti = if is_empty jti then uuid else jti;
            issued_at = numeric_date now;
            expires_at = numeric_date (now + logout_token_ttl);
          }))
        × (verify_claims (logout_token (logout_claims s audience sub sid jti now uuid))
            ≡ err is_logout_token)
  unfolding verify_logout_token mint_logout_token verify_claims has_logout_event logout_token
      logout_claims
  verify_logout_token-mint signing check later raw h id who early late minted =
      let read : check raw ≡ some (logout_token (logout_claims s audience sub sid jti now uuid)) =
        h.reads s.kid raw minted in
      (rw read (logout_claims_accepted later id who early late), refl)

time_of_pos : (k : ℕ) → 1 ≤ k → time_of (pos k) ≡ (epoch + k) * second
unfolding time_of
time_of_pos zero h = absurd (omega (arith, h))
time_of_pos (suc k) h = refl

time_of_zero : (k : ℕ) → k ≤ 0 → time_of (pos k) ≡ 0
unfolding time_of
time_of_zero zero h = refl
time_of_zero (suc k) h = absurd (omega (arith, h))

early_time : (t : ℕ) → t < (epoch + 1) * second → time_of (unix_or_zero t) ≡ 0
unfolding unix_or_zero unix time_of
early_time t h = elim (Bool-cases (t == 0)) [
  | inl never ↦ rw never refl
  | inr some_time ↦ rw some_time (elim (Bool-cases (ltb (t / second) epoch)) [
    | inl before ↦ rw before refl
    | inr same ↦ rw same (time_of_zero (t / second - epoch) (omega (arith, h)))
  ])
]

late_time : (t : ℕ) → (epoch + 1) * second ≤ t → unix_or_zero t ≡ pos (t / second - epoch)
unfolding unix_or_zero unix
late_time t h =
    let there : (t == 0) ≡ false = ground (arith, h) in
    let after : ltb (t / second) epoch ≡ false = ground (arith, h) in rw (there, after) refl

-- Times up to 1970 are lost, and the others keep their whole seconds.
time_of-unix_or_zero :
    (t : ℕ)
    → time_of (unix_or_zero t) ≡ (if ltb t ((epoch + 1) * second) then 0 else numeric_date t)
unfolding numeric_date
time_of-unix_or_zero t = elim (Bool-cases (ltb t ((epoch + 1) * second))) [
  | inl early ↦ rw early (early_time t (ground (arith, early)))
  | inr late ↦
      let after : (epoch + 1) * second ≤ t = ground (arith, late) in
      let same : (epoch + (t / second - epoch)) * second ≡ t / second * second =
        omega (arith, after) in
      rw (late, late_time t after) (time_of_pos (t / second - epoch) (omega (arith, after)) ∙ same)
]

or_absent_cases : (s : Bytes) → ((or_absent s ≡ none) × (s ≡ [])) ⊎ (or_absent s ≡ some s)
unfolding or_absent
or_absent_cases [] = inl (refl, refl)
or_absent_cases (c ∷ s) = inr refl

id_claims_accepted :
    (s : Signer) (a : Identity) (now : ℕ) (uuid : Bytes)
    → verify_claims (id_token (id_claims s a now uuid))
      ≡ ok (record {
        subject = a.user_id;
        email = a.email;
        email_verified = false;
        name = a.name;
        groups = a.groups;
        nonce = a.nonce;
        issuer = s.issuer;
        auth_time = if ltb a.auth_time ((epoch + 1) * second) then 0 else numeric_date a.auth_time;
        session_id = a.sid;
      })
unfolding id_token id_claims
id_claims_accepted s a now uuid = rw (← time_of-unix_or_zero a.auth_time) (
    verify_claims_ok (id_token (id_claims s a now uuid)) a.nonce refl refl
      (or_absent_cases a.nonce))

id_claims_refused :
    (s : Signer) (a : Identity) (now : ℕ) (uuid : Bytes) (later : ℕ) (c : Verifier.LogoutClaims)
    → verify_logout_claims later (id_token (id_claims s a now uuid)) ≢ ok c
id_claims_refused s a now uuid later c h =
    let (iat, ahead, old, id, full, who, nonce, logout) =
      verify_logout_claims_inv later (id_token (id_claims s a now uuid)) c h in
    absurd (ground (arith, logout, id_claims_accepted s a now uuid))

module _ (s : Signer) (a : Identity) (now : ℕ) (uuid : Bytes) where
  -- An ID token that MintIDToken signs is accepted, while package go-oidc lets it pass, by a verifier with the
  -- signer's key, issuer and audience, with the identity it was minted for; the time of the login is kept in
  -- whole seconds, if it is after 1970. Its claims are never accepted as a logout token's.
  pub verify-mint :
      (signing : Signing) (check : Bytes → Option Token) (raw : Bytes)
      → ReadsId signing check (id_claims s a now uuid)
      → mint_id_token signing s a now uuid ≡ some raw
      → (verify check raw
          ≡ ok (record {
            subject = a.user_id;
            email = a.email;
            email_verified = false;
            name = a.name;
            groups = a.groups;
            nonce = a.nonce;
            issuer = s.issuer;
            auth_time =
                if ltb a.auth_time ((epoch + 1) * second) then 0 else numeric_date a.auth_time;
            session_id = a.sid;
          }))
        × ((later : ℕ) (c : Verifier.LogoutClaims)
            → verify_logout_claims later (id_token (id_claims s a now uuid)) ≢ ok c)
  unfolding verify mint_id_token id_claims
  verify-mint signing check raw h minted =
      let claims = id_claims s a now uuid in
      let read : check raw ≡ some (id_token claims) = h.reads s.kid raw minted in
      let present = h.present s.kid raw minted in
      (
        rw (present, read) (id_claims_accepted s a now uuid),
        λ later c logout. id_claims_refused s a now uuid later c logout,
      )
