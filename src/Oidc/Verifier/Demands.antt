-- ===== src/Oidc/Verifier/Demands.antt =====
-- What the tokens have that oidc/oidc.go accepts.
use tokyo3_base.Base.{
  ℕ, ◌+◌, ◌≤◌, ◌≡◌, refl, true, false, ◌&&◌, none, some, arith, Result, ok, err, and_then,
  Option-cases, Result-cases, inl, inr,
}
use tokyo3_base.SealedCookie.{is_empty}
use tokyo3_base.Oidc.Verifier.{
  Token, Event, Events, no_events, other_events, events, no_event, null_event, other_event,
  object_event, LogoutClaims, Error, is_logout_token, logout_token_max_age, logout_token_skew,
  is_recent, dated, named, checked_event, issued, bodied, event_of, verify_logout_claims,
  verify_claims, has_logout_event,
}

named_inv :
    (tok : Token) (t : ℕ) (claims : LogoutClaims)
    → named tok t ≡ ok claims
    → (claims.jti ≡ tok.jti)
      × (claims.issued_at ≡ t)
      × (is_empty tok.jti ≡ false)
      × ((is_empty tok.subject && is_empty tok.sid) ≡ false)
unfolding named
named_inv tok t claims h = (ground arith, ground arith, ground arith, ground arith)

checked_event_inv : (event : Event) → checked_event event ≡ ok tt → event ≡ object_event 0
unfolding checked_event
checked_event_inv no_event h = absurd (ground arith)
checked_event_inv null_event h = absurd (ground arith)
checked_event_inv other_event h = absurd (ground arith)
checked_event_inv (object_event n) h = ground arith

event_then :
    (tok : Token) (t : ℕ) (claims : LogoutClaims) (p : Result Error (Unit {0}))
    → and_then p (λ u. named tok t) ≡ ok claims
    → (p ≡ ok tt) × (named tok t ≡ ok claims)
event_then tok t claims (ok u) h = (refl, h)
event_then tok t claims (err e) h = absurd (ground arith)

dated_inv :
    (now : ℕ) (tok : Token) (event : Event) (t : ℕ) (claims : LogoutClaims)
    → dated now tok event t ≡ ok claims
    → (t ≤ now + logout_token_skew)
      × (now ≤ t + logout_token_max_age)
      × (event ≡ object_event 0)
      × (named tok t ≡ ok claims)
unfolding dated is_recent
dated_inv now tok event t claims h =
    let (marked, rest) = event_then tok t claims (checked_event event) (ground (arith, h)) in
    (ground (arith, h), ground (arith, h), checked_event_inv event marked, rest)

verify_logout_claims_parts :
    (now : ℕ) (tok : Token) (claims : LogoutClaims)
    → verify_logout_claims now tok ≡ ok claims
    → (event : Event) × (t : ℕ) × (event_of tok.events ≡ ok event)
      × (tok.nonce ≡ none)
      × (tok.iat ≡ some t)
      × (dated now tok event t ≡ ok claims)
unfolding verify_logout_claims
verify_logout_claims_parts now tok claims h = elim (Result-cases (event_of tok.events)) [
  | inr (x, e) ↦ absurd (ground (arith, e))
  | inl (event, e) ↦ elim (Option-cases tok.nonce) [
    | inr (n, f) ↦ absurd (cc (rw (e, f, bodied) at h))
    | inl f ↦ elim (Option-cases tok.iat) [
      | inl g ↦ absurd (cc (rw (e, f, bodied, g, issued) at h))
      | inr (t, g) ↦ (event, t, e, f, g, rw (e, f, bodied, g, issued) at h)
    ]
  ]
]

event_of-marked : (es : Events) → event_of es ≡ ok (object_event 0) → has_logout_event es ≡ true
unfolding event_of has_logout_event
event_of-marked no_events h = absurd (ground arith)
event_of-marked other_events h = absurd (ground arith)
event_of-marked (events no_event) h = absurd (ground arith)
event_of-marked (events null_event) h = absurd (ground arith)
event_of-marked (events other_event) h = absurd (ground arith)
event_of-marked (events (object_event n)) h = refl

-- A logout token that is accepted has an id, a subject or a session, no nonce, and a date at most five
-- minutes old and at most 30 seconds ahead; and its claims are never accepted as an ID token's.
pub verify_logout_claims_inv :
    (now : ℕ) (tok : Token) (claims : LogoutClaims)
    → verify_logout_claims now tok ≡ ok claims
    → (tok.iat ≡ some claims.issued_at)
      × (claims.issued_at ≤ now + logout_token_skew)
      × (now ≤ claims.issued_at + logout_token_max_age)
      × (claims.jti ≡ tok.jti)
      × (is_empty tok.jti ≡ false)
      × ((is_empty tok.subject && is_empty tok.sid) ≡ false)
      × (tok.nonce ≡ none)
      × (verify_claims tok ≡ err is_logout_token)
unfolding verify_claims
verify_logout_claims_inv now tok claims h =
    let (event, t, e, nonce, iat, rest) = verify_logout_claims_parts now tok claims h in
    let (ahead, old, marked, made) = dated_inv now tok event t claims rest in
    let (id, at, full, who) = named_inv tok t claims made in
    let logout : has_logout_event tok.events ≡ true =
      event_of-marked tok.events (ground (arith, e, marked)) in
    (rw at iat, rw at ahead, rw at old, id, full, who, nonce, rw logout refl)
