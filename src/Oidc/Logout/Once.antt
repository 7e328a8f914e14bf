-- ===== src/Oidc/Logout/Once.antt =====
-- The age to which oidc/oidc.go accepts a logout token, against the replay window of
-- oidc/backchannel_logout.go.
use tokyo3_base.Base.{
  ℕ, ◌+◌, ◌≤◌, ◌≡◌, refl, ap, true, false, Option, none, some, List, arith, Bytes, bytes_eq,
  All-mono, text, All, Result, ok, err, Option-cases, inl, inr,
}
use tokyo3_base.Base.Int.{ℤ}
use tokyo3_base.SealedCookie.{is_empty}
use tokyo3_base.Oidc.Verifier
use tokyo3_base.Oidc.Verifier.{
  Token, LogoutClaims, logout_token_max_age, logout_token_skew, verify_logout_claims,
  verify_logout_token,
}
use tokyo3_base.Oidc.Verifier.Demands.{verify_logout_claims_inv}
use tokyo3_base.Oidc.Logout.{
  JtiCache, new_cache, min_window, LogoutRequest, Revoker, parsed, verified, serve_http,
}
use tokyo3_base.Oidc.Logout.Replay.{Event, starts, ends, run, Undisturbed}
use tokyo3_base.Oidc.Logout.Delivery.{Carries, serve_http_once}

-- The handler's verifier: the error is logged only.
abbrev pub accepted_claims : Result Verifier.Error LogoutClaims → Option LogoutClaims
accepted_claims (ok claims) = some claims
accepted_claims (err e) = none

abbrev pub verifier : (Bytes → Option Token) → ℕ → Bytes → Option LogoutClaims
verifier check_logout checked raw = accepted_claims (verify_logout_token check_logout checked raw)

-- The window covers a token: its age, and the skew of its date.
pub new_cache-window : (replay_window : ℤ) → min_window ≤ (new_cache replay_window).window
unfolding new_cache
new_cache-window replay_window = ground arith

-- An event up to some time that does not end a request for the id `k`.
abbrev pub Elsewhere : ℕ → Bytes → Event → Type 0
Elsewhere limit k (starts jti now) = now ≤ limit
Elsewhere limit k (ends jti success now) = bytes_eq jti k ≡ false

Elsewhere-Undisturbed :
    (window limit done : ℕ) (k : Bytes) (ev : Event)
    → limit ≤ done + window
    → Elsewhere limit k ev
    → Undisturbed window k (record { at = done; pending = false }) ev
Elsewhere-Undisturbed window limit done k (starts jti now) soon early = ground arith
Elsewhere-Undisturbed window limit done k (ends jti success now) soon other = other

module _ (check_logout : Bytes → Option Token) {W : Type 0} (rv : Revoker W) where
  verifier_inv :
      (checked : ℕ) (raw : Bytes) (claims : LogoutClaims)
      → verifier check_logout checked raw ≡ some claims
      → (tok : Token) × (check_logout raw ≡ some tok)
        × (verify_logout_claims checked tok ≡ ok claims)
  unfolding verify_logout_token
  verifier_inv checked raw claims h = elim (Option-cases (check_logout raw)) [
    | inl n ↦ absurd (ground (arith, n))
    | inr (tok, e) ↦ (tok, e, of_accepted (verify_logout_claims checked tok) (rw e at h))
  ]
    where
      of_accepted :
          (p : Result Verifier.Error LogoutClaims) → accepted_claims p ≡ some claims → p ≡ ok claims
      of_accepted (ok c) q = ground arith
      of_accepted (err x) q = absurd (ground arith)

  -- One token verifies to one id, and is verified within its age only.
  verifier_same :
      (checked checked' : ℕ) (raw : Bytes) (claims claims' : LogoutClaims)
      → verifier check_logout checked raw ≡ some claims
      → verifier check_logout checked' raw ≡ some claims'
      → (claims'.jti ≡ claims.jti) × (checked' ≤ checked + min_window)
  verifier_same checked checked' raw claims claims' h h' =
      let (tok, e, v) = verifier_inv checked raw claims h in
      let (tok', e', v') = verifier_inv checked' raw claims' h' in
      let same : tok ≡ tok' = ground (arith, e, e') in
      let (date, ahead, old, id, _, _, _, _) = verify_logout_claims_inv checked tok claims v in
      let (date', ahead', old', id', _, _, _, _) =
        verify_logout_claims_inv checked' tok' claims' v' in
      (ground (arith, id, id', same), ground (arith, date, date', same, ahead, old'))

  serve_unverified :
      (r : LogoutRequest) (raw : Bytes) (checked now done : ℕ) (c : JtiCache) (w : W)
      → r.form ≡ some raw
      → bytes_eq r.method (text "POST") ≡ true
      → is_empty raw ≡ false
      → verifier check_logout checked raw ≡ none
      → serve_http (verifier check_logout) rv r checked now done c w ≡ (400, c, w)
  unfolding serve_http
  serve_unverified r raw checked now done c w form post full invalid =
      rw (post, form, parsed, full, invalid, verified) refl

  -- A logout token that was answered with 200 is never answered with 200 again: at any later time
  -- its delivery is answered with 400 and revokes nothing, whatever requests start and end in between,
  -- where only requests for other ids end. A handler takes no longer from its verification to the look
  -- at the cache than the window exceeds the least window by.
  pub serve_http_never_twice :
      (r : LogoutRequest) (claims : LogoutClaims) (checked now done checked' now' done' : ℕ)
      (c : JtiCache) (w w' : W) (es : List Event) (delay : ℕ)
      → Carries (verifier check_logout) rv r checked claims
      → checked ≤ now
      → now ≤ done
      → min_window + delay ≤ c.window
      → now' ≤ checked' + delay
      → (serve_http (verifier check_logout) rv r checked now done c w).0 ≡ 200
      → All (Elsewhere now' claims.jti) es
      → ((serve_http
            (verifier check_logout)
            rv
            r
            checked'
            now'
            done'
            (run es (serve_http (verifier check_logout) rv r checked now done c w).1)
            w').0
          ≡ 400)
        × ((serve_http
              (verifier check_logout)
              rv
              r
              checked'
              now'
              done'
              (run es (serve_http (verifier check_logout) rv r checked now done c w).1)
              w').2
            ≡ w')
  serve_http_never_twice r claims checked now done checked' now' done' c w w' es delay carries
        before after covers prompt ok200 elsewhere =
      let (raw, post, form, full, valid) = carries in
      let c' = run es (serve_http (verifier check_logout) rv r checked now done c w).1 in
      elim (Option-cases (verifier check_logout checked' raw)) [
        | inl invalid ↦
            let refused = serve_unverified r raw checked' now' done' c' w' form post full invalid in
            (ap (λ p. p.0) refused, ap (λ p. p.2) refused)
        | inr (claims', valid') ↦
            let (id, late) = verifier_same checked checked' raw claims claims' valid valid' in
            let soon : now' ≤ done + c.window = omega (arith, late) in
            serve_http_once (verifier check_logout) rv r r claims claims' checked now done checked'
              now' done' c w w' es carries (raw, post, form, full, valid') id ok200
              (All-mono (Elsewhere now' claims.jti)
                (Undisturbed c.window claims.jti (record { at = done; pending = false })) es
                (λ ev. Elsewhere-Undisturbed c.window now' done claims.jti ev soon) elsewhere)
              soon
      ]
