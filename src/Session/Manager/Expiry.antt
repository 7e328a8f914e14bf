-- ===== src/Session/Manager/Expiry.antt =====
-- How long a session of session/session.go lives, whatever the requests that renew it.
use tokyo3_base.Base.{
  ℕ, ◌+◌, ◌-◌, ◌/◌, ◌≤◌, ◌<◌, ◌≡◌, refl, ap, ◌∙◌, none, some, arith, Bytes, Result, ok, err,
  Bool-cases, Result-cases, inl, inr, ltb, ◌⊎◌, All, if◌then◌else◌,
}
use tokyo3_base.Base.Int.{pos_part, is_nonpositive}
use tokyo3_base.ClientIp.{AddrText}
use tokyo3_base.Crypto.Cipher.{Cipher, IsCorrect, EmitsBytes}
use tokyo3_base.Crypto.Entropy.{Entropy}
use tokyo3_base.Csrf
use tokyo3_base.Base.Dict
use tokyo3_base.Http.{Request, SetCookie}
use tokyo3_base.SealedCookie
use tokyo3_base.SealedCookie.{Codec, IsLossless}
use tokyo3_base.SealedCookie.RoundTrip.{read-set}
use tokyo3_base.Session.Config.{Session, Manager}
use tokyo3_base.Session.Manager.{
  fresh_session, new_session, extended, resealed, maybe_extend_idle, unexpired, read_session,
  in_cookie, issue_session,
}

-- Two sessions that differ in their expiry at most.
abbrev pub with_expiry : Session → ℕ → Session
with_expiry s n = record s { expiry = n }

extended_bounds :
    (m : Manager) (now : ℕ) (s : Session)
    → 0 < s.absolute_expiry
    → ((extended m now s).expiry ≤ s.absolute_expiry)
      × ((extended m now s).expiry ≤ now + pos_part m.cfg.idle_timeout)
unfolding extended
extended_bounds m now s h = ground arith

extended_far :
    (m : Manager) (now : ℕ) (s : Session)
    → (s.absolute_expiry ≤ (extended m now s).expiry)
      ⊎ (now + pos_part m.cfg.idle_timeout ≤ (extended m now s).expiry)
unfolding extended
extended_far m now s = ground arith

pub extended_same :
    (m : Manager) (now : ℕ) (s : Session)
    → extended m now s ≡ with_expiry s (extended m now s).expiry
unfolding extended
extended_same m now s = refl

fresh_bounds :
    (m : Manager) (login : ℕ) (secret : Bytes)
    → ((fresh_session m login secret).expiry ≤ login + m.ttl)
      × ((fresh_session m login secret).absolute_expiry ≡ login + m.ttl)
unfolding fresh_session
fresh_bounds m login secret = ground arith

new_session_bounds :
    (m : Manager) (login : ℕ) (e : Entropy) (s : Session) (e' : Entropy)
    → new_session m login e ≡ (ok s, e')
    → (s.expiry ≤ login + m.ttl) × (s.absolute_expiry ≡ login + m.ttl)
unfolding new_session
new_session_bounds m login e s e' h = elim (Result-cases (Csrf.new_secret e).0) [
  | inl (x, q) ↦
      let made : fresh_session m login x ≡ s = ground (arith, q) in
      rw (← made) (fresh_bounds m login x)
  | inr (x, q) ↦ absurd (ground (arith, q))
]

module _ (cipher : Cipher) (j : Codec Session) (t : AddrText) where
  resealed_cases :
      (s s' : Session) (p : Result SealedCookie.Error SetCookie × Entropy)
      → s.expiry < s'.expiry
      → ((resealed cipher j t s s' p).0 ≡ s)
        ⊎ (((resealed cipher j t s s' p).0 ≡ s') × (s.expiry < s'.expiry))
  unfolding resealed
  resealed_cases s s' (ok ck, e) h = inr (refl, h)
  resealed_cases s s' (err x, e) h = inl refl

  -- What a request does to its session.
  pub renewed_cases :
      (m : Manager) (r : Request) (s : Session) (now : ℕ) (e : Entropy)
      → ((maybe_extend_idle cipher j t m r s now e).0 ≡ s)
        ⊎ (((maybe_extend_idle cipher j t m r s now e).0 ≡ extended m now s)
            × (s.expiry < (extended m now s).expiry))
  unfolding maybe_extend_idle
  renewed_cases m r s now e = elim (Bool-cases (is_nonpositive m.cfg.idle_timeout)) [
    | inl off ↦ inl (rw off refl)
    | inr on ↦ elim (Bool-cases (ltb (now + pos_part m.cfg.idle_timeout / 2) s.expiry)) [
      | inl early ↦ inl (rw (on, early) refl)
      | inr late ↦ elim (Bool-cases (ltb s.expiry (extended m now s).expiry)) [
        | inl more ↦ rw (on, late, more) (resealed_cases s (extended m now s) _ (ground arith))
        | inr no_more ↦ inl (rw (on, late, no_more) refl)
      ]
    ]
  ]

  -- The sessions that a login at the time `login` can lead to: handlers fill in the user, and
  -- requests at any time renew the session.
  pub data Held (m : Manager) (login : ℕ) : Session → Type 0 where
    issued : (e e' : Entropy) {s : Session} → new_session m login e ≡ (ok s, e') → Held m login s
    filled :
        (s : Session) {s' : Session}
        → Held m login s
        → s'.expiry ≡ s.expiry
        → s'.absolute_expiry ≡ s.absolute_expiry
        → Held m login s'
    visited :
        (s : Session) (r : Request) (now : ℕ) (e : Entropy)
        → Held m login s
        → Held m login (maybe_extend_idle cipher j t m r s now e).0

  -- A request only ever prolongs a session, and not past its ceiling.
  pub renewed_bounds :
      (m : Manager) (r : Request) (s : Session) (now : ℕ) (e : Entropy)
      → 0 < s.absolute_expiry
      → s.expiry ≤ s.absolute_expiry
      → ((maybe_extend_idle cipher j t m r s now e).0.expiry ≤ s.absolute_expiry)
        × ((maybe_extend_idle cipher j t m r s now e).0.absolute_expiry ≡ s.absolute_expiry)
  renewed_bounds m r s now e pos low = elim (renewed_cases m r s now e) [
    | inl same ↦ rw same (low, refl)
    | inr (moved, more) ↦
        rw moved
          ((extended_bounds m now s pos).0, ap (λ x. x.absolute_expiry) (extended_same m now s))
  ]

  Held-bounds :
      (m : Manager) (login : ℕ) {s : Session}
      → 0 < m.ttl
      → Held m login s
      → (s.expiry ≤ login + m.ttl) × (s.absolute_expiry ≡ login + m.ttl)
  Held-bounds m login pos (issued e e' h) = new_session_bounds m login e _ e' h
  Held-bounds m login pos (filled s held expiry ceiling) =
      let (low, top) = Held-bounds m login pos held in (rw expiry low, ceiling ∙ top)
  Held-bounds m login pos (visited s r now e held) =
      let (low, top) = Held-bounds m login pos held in
      let (low', top') =
        renewed_bounds m r s now e (omega (arith, top)) (omega (arith, low, top)) in
      (omega (arith, low', top), top' ∙ top)

  pub read_session_inv :
      (m : Manager) (r : Request) (now : ℕ) (s : Session)
      → read_session cipher j t m r now ≡ some s
      → (SealedCookie.read cipher j m.cookie r ≡ ok s) × (now ≤ s.expiry)
  unfolding read_session
  read_session_inv m r now s h = ground (arith, h)

  -- However often a session is renewed, and whatever a handler fills in of the user but its two times,
  -- it is read no more once the time to live since the login has passed, where that is positive.
  pub session_lifetime :
      (m : Manager) (login : ℕ) (s : Session) (r : Request) (now : ℕ)
      → 0 < m.ttl
      → Held m login s
      → SealedCookie.read cipher j m.cookie r ≡ ok s
      → login + m.ttl < now
      → read_session cipher j t m r now ≡ none
  unfolding read_session
  session_lifetime m login s r now pos held carried late =
      ground (arith, carried, Held-bounds m login pos held)

  in_cookie_inv :
      (p : Result SealedCookie.Error SetCookie × Entropy) (ck : SetCookie) (e' : Entropy)
      → in_cookie cipher j t p ≡ (ok ck, e')
      → p ≡ (ok ck, e')
  unfolding in_cookie
  in_cookie_inv (ok c, e) ck e' h = ground arith
  in_cookie_inv (err x, e) ck e' h = absurd (ground arith)

  -- With a correct cipher that gives bytes, a lossless encoding and random bytes: a session that
  -- was issued is read back from a request that carries its cookie, up to its expiry and not after
  -- it.
  pub read_session-issue_session :
      (m : Manager) (r r' : Request) (s : Session) (now now' : ℕ) (e : Entropy) (ck : SetCookie)
      (e' : Entropy)
      → IsCorrect cipher
      → EmitsBytes cipher
      → IsLossless j
      → All (λ b. b < 256) e
      → issue_session cipher j t m r s now e ≡ (ok ck, e')
      → Dict.get m.cookie.name r'.cookies ≡ some ck.value
      → read_session cipher j t m r' now' ≡ (if ltb s.expiry now' then none else some s)
  unfolding read_session issue_session
  read_session-issue_session m r r' s now now' e ck e' correct emits lossless he h carried =
      let sent =
        in_cookie_inv (SealedCookie.set cipher j t m.cookie r s (s.expiry - now) now e) ck e' h in
      let (back, _, _, _, _) =
        read-set cipher j t m.cookie r r' s (s.expiry - now) now e ck e' correct emits lossless he
          sent carried in
      rw (back, unexpired) refl
