-- ===== src/Oidc/Logout/Delivery.antt =====
-- How oidc/backchannel_logout.go answers a notification that is delivered more than once.
use tokyo3_base.Base.{
  ℕ, ◌+◌, ◌≤◌, ◌≡◌, refl, ap, ◌∙◌, Bool, true, false, Option, none, some, List, arith, Bytes,
  bytes_eq, text, All, if◌then◌else◌,
}
use tokyo3_base.Base.Dict
use tokyo3_base.Base.Dict.{keep_value}
use tokyo3_base.Oidc.Verifier.{LogoutClaims}
use tokyo3_base.SealedCookie.{is_empty}
use tokyo3_base.Oidc.Logout.{
  JtiCache, accept, finish, LogoutRequest, Revoker, revoke, completed, accepted, verified, parsed,
  serve_http,
}
use tokyo3_base.Oidc.Logout.Replay.{
  Event, run, Undisturbed, accept-window, accept_new, replay_refused,
}

module _ {W : Type 0} (verify : ℕ → Bytes → Option LogoutClaims) (rv : Revoker W) where
  -- A request whose token verifies at a time, with the claims that it has.
  abbrev pub Carries : LogoutRequest → ℕ → LogoutClaims → Type 0
  Carries r checked claims =
      (raw : Bytes) × (bytes_eq r.method (text "POST") ≡ true)
      × (r.form ≡ some raw)
      × (is_empty raw ≡ false)
      × (verify checked raw ≡ some claims)

  serve-Carries :
      (r : LogoutRequest) (claims : LogoutClaims) (checked now done : ℕ) (c : JtiCache) (w : W)
      → Carries r checked claims
      → serve_http verify rv r checked now done c w
        ≡ accepted verify rv claims done w (accept claims.jti now c)
  unfolding serve_http
  serve-Carries r claims checked now done c w (raw, post, form, full, valid) =
      rw (post, form, parsed, full, valid, verified) refl

  completed_cases :
      (claims : LogoutClaims) (done : ℕ) (c : JtiCache) (p : Bool × W)
      → completed verify rv claims done c p
        ≡ (if p.0 then 200 else 500, finish claims.jti p.0 done c, p.1)
  unfolding completed
  completed_cases claims done c (b, w) = refl

  accepted_cases :
      (claims : LogoutClaims) (done : ℕ) (w : W) (p : Bool × JtiCache)
      → accepted verify rv claims done w p ≡ (
          if p.0
          then (
            if (revoke verify rv claims w).0 then 200 else 500,
            finish claims.jti (revoke verify rv claims w).0 done p.1,
            (revoke verify rv claims w).1,
          )
          else (400, p.1, w))
  unfolding accepted
  accepted_cases claims done w (true, c) = completed_cases claims done c (revoke verify rv claims w)
  accepted_cases claims done w (false, c) = refl

  -- What the cache holds after an answer of 200 or of 500.
  accepted_ok :
      (claims : LogoutClaims) (done : ℕ) (w : W) (p : Bool × JtiCache)
      → (accepted verify rv claims done w p).0 ≡ 200
      → (Dict.get claims.jti (accepted verify rv claims done w p).1.seen
          ≡ some (record { at = done; pending = false }))
        × ((accepted verify rv claims done w p).1.window ≡ p.1.window)
  unfolding finish
  accepted_ok claims done w (b, c) h = ground (
    arith,
    h,
    accepted_cases claims done w (b, c),
    Dict.get-put_self claims.jti (record { at = done; pending = false }) c.seen,
  )

  accepted_failed :
      (claims : LogoutClaims) (done : ℕ) (w : W) (p : Bool × JtiCache)
      → (accepted verify rv claims done w p).0 ≡ 500
      → Dict.get claims.jti (accepted verify rv claims done w p).1.seen ≡ none
  unfolding finish
  accepted_failed claims done w (b, c) h =
      ground (arith, h, accepted_cases claims done w (b, c), Dict.get-remove_self claims.jti c.seen)

  -- Once a notification was answered with 200, every delivery within the window that verifies to its
  -- token id is answered with 400 and revokes nothing, whatever requests start in the window and
  -- whatever requests for other ids end in between.
  pub serve_http_once :
      (r r' : LogoutRequest) (claims claims' : LogoutClaims)
      (checked now done checked' now' done' : ℕ) (c : JtiCache) (w w' : W) (es : List Event)
      → Carries r checked claims
      → Carries r' checked' claims'
      → claims'.jti ≡ claims.jti
      → (serve_http verify rv r checked now done c w).0 ≡ 200
      → All (Undisturbed c.window claims.jti (record { at = done; pending = false })) es
      → now' ≤ done + c.window
      → ((serve_http verify rv r' checked' now' done'
            (run es (serve_http verify rv r checked now done c w).1)
            w').0
          ≡ 400)
        × ((serve_http verify rv r' checked' now' done'
              (run es (serve_http verify rv r checked now done c w).1)
              w').2
            ≡ w')
  serve_http_once r r' claims claims' checked now done checked' now' done' c w w' es carries
        carries' jti ok200 calm soon =
      let first = serve-Carries r claims checked now done c w carries in
      let c' = (serve_http verify rv r checked now done c w).1 in
      let (kept, kept_window) =
        accepted_ok claims done w (accept claims.jti now c) (rw first at ok200) in
      let same_window : c'.window ≡ c.window =
        ap (λ p. p.1.window) first ∙ kept_window ∙ accept-window claims.jti now c in
      let held : Dict.get claims.jti c'.seen ≡ some (record { at = done; pending = false }) =
        ap (λ p. Dict.get claims.jti p.1.seen) first ∙ kept in
      let refused : (accept claims'.jti now' (run es c')).0 ≡ false =
        ap (λ k. (accept k now' (run es c')).0) jti
        ∙ replay_refused claims.jti es c' (record { at = done; pending = false }) now' held
            (rw same_window calm) (ground (arith, same_window)) in
      let second =
        serve-Carries r' claims' checked' now' done' (run es c') w' carries'
        ∙ accepted_cases claims' done' w' (accept claims'.jti now' (run es c')) in
      (
        ap (λ p. p.0) second ∙ ground (arith, refused),
        ap (λ p. p.2) second ∙ ground (arith, refused),
      )

  -- A notification that was answered with 500 is accepted again, at any time.
  pub serve_http_retry :
      (r : LogoutRequest) (claims : LogoutClaims) (checked now done now' : ℕ) (c : JtiCache) (w : W)
      → Carries r checked claims
      → (serve_http verify rv r checked now done c w).0 ≡ 500
      → (accept claims.jti now' (serve_http verify rv r checked now done c w).1).0 ≡ true
  serve_http_retry r claims checked now done now' c w carries h =
      let same = serve-Carries r claims checked now done c w carries in
      rw same (
        accept_new claims.jti now' _
          (accepted_failed claims done w (accept claims.jti now c) (rw same at h)))
