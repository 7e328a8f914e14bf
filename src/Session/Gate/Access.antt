-- ===== src/Session/Gate/Access.antt =====
-- Whom the gate of session/session.go lets through, and with what session.
use tokyo3_base.Base.{
  ℕ, ◌≤◌, ◌≡◌, ◌≢◌, refl, sym, ap, ◌∙◌, Bool, true, false, ◌||◌, Option, none, some, [], ◌∷◌, arith,
  Bytes, ok, contains_bytes, Bool-cases, inl, inr, ◌⊎◌, if◌then◌else◌,
}
use tokyo3_base.ClientIp.{AddrText}
use tokyo3_base.Crypto.Cipher.{Cipher}
use tokyo3_base.Crypto.Entropy.{Entropy}
use tokyo3_base.Http.{Request}
use tokyo3_base.SealedCookie
use tokyo3_base.SealedCookie.{Codec, is_empty}
use tokyo3_base.Session.Config.{
  Session, Manager, Revocation, live, revoked, check_failed, is_exempt,
}
use tokyo3_base.Session.Manager.{
  Url, Verdict, served, failed, Reply, reply, read_session, maybe_extend_idle,
}
use tokyo3_base.Session.Manager.Expiry.{read_session_inv, renewed_cases, extended_same, with_expiry}
use tokyo3_base.Session.Gate.{
  passes_origin_check, unauthenticated, revoked_reply, admitted, authorised, answer, checked,
  with_session, gated, gate,
}

-- Whether a session is in the group that the configuration asks for.
abbrev pub in_group : Manager → Session → Bool
in_group m s = is_empty m.cfg.required_group || contains_bytes s.groups m.cfg.required_group

abbrev pub IsServed : Verdict → Type 0
IsServed v = (o : Option Session) × (v ≡ served o)

-- The cookies that a refusal may set: none, or the one that deletes the session cookie.
abbrev pub IsRefusal : AddrText → Manager → Request → Reply × Entropy → Type 0
IsRefusal t m r p = (p.0.cookies ≡ []) ⊎ (p.0.cookies ≡ SealedCookie.clear t m.cookie r ∷ [])

module _ (cipher : Cipher) (j : Codec Session) (t : AddrText) (parse_url : Bytes → Option Url) where
  -- Whether the cross-origin check, where one is configured, lets the request pass.
  abbrev pub same_origin : Manager → Request → Bool
  same_origin m r = elim m.origin_check [
    | none ↦ true
    | some trusted ↦ passes_origin_check parse_url trusted r
  ]

  gate_cases :
      (m : Manager) (r : Request) (now : ℕ) (e : Entropy)
      → gate cipher j t parse_url m r now e ≡ (
          if same_origin m r then gated cipher j t parse_url m r now e else (reply (failed 403), e))
  unfolding gate
  gate_cases m r now e = ground arith

  renewed_same :
      (m : Manager) (r : Request) (s : Session) (now : ℕ) (e : Entropy)
      → (maybe_extend_idle cipher j t m r s now e).0
        ≡ with_expiry s (maybe_extend_idle cipher j t m r s now e).0.expiry
  renewed_same m r s now e = elim (renewed_cases cipher j t m r s now e) [
    | inl same ↦ rw same refl
    | inr (moved, more) ↦ rw moved (extended_same m now s)
  ]

  unauthenticated-answer :
      (m : Manager) (r : Request) (o : Option Session) → (unauthenticated m r).verdict ≢ served o
  unfolding unauthenticated
  unauthenticated-answer m r o h = ground (arith, h)

  authorised_inv :
      (m : Manager) (r : Request) (s s' : Session) (now : ℕ) (e : Entropy)
      → (authorised cipher j t parse_url m r s now e).0.verdict ≡ served (some s')
      → (in_group m s ≡ true) × (s' ≡ (maybe_extend_idle cipher j t m r s now e).0)
  unfolding authorised admitted
  authorised_inv m r s s' now e h = elim (Bool-cases (in_group m s)) [
    | inl member ↦ (member, ground (arith, member))
    | inr outsider ↦ absurd (ground (arith, outsider))
  ]

  checked_inv :
      (m : Manager) (r : Request) (s s' : Session) (now : ℕ) (e : Entropy) (a : Revocation)
      → (checked cipher j t parse_url m r s now e a).0.verdict ≡ served (some s')
      → (a ≡ live) × (in_group m s ≡ true) × (s' ≡ (maybe_extend_idle cipher j t m r s now e).0)
  unfolding checked revoked_reply
  checked_inv m r s s' now e live h =
      let (member, same) = authorised_inv m r s s' now e h in (refl, member, same)
  checked_inv m r s s' now e revoked h = absurd (ground arith)
  checked_inv m r s s' now e check_failed h = absurd (ground arith)

  with_session_inv :
      (m : Manager) (r : Request) (o : Option Session) (s' : Session) (now : ℕ) (e : Entropy)
      → (with_session cipher j t parse_url m r now e o).0.verdict ≡ served (some s')
      → (s : Session) × (o ≡ some s)
        × (answer cipher j t parse_url m s ≡ live)
        × (in_group m s ≡ true)
        × (s' ≡ (maybe_extend_idle cipher j t m r s now e).0)
  unfolding with_session
  with_session_inv m r none s' now e h = absurd (unauthenticated-answer m r (some s') h)
  with_session_inv m r (some s) s' now e h =
      let (alive, member, renewed) =
        checked_inv m r s s' now e (answer cipher j t parse_url m s) h in
      (s, refl, alive, member, renewed)

  -- The gate serves a session on a path that is not exempt only where the request passes the
  -- cross-origin check, and carries a sealed session that has not expired, that is not revoked and
  -- that is in the required group; what it serves differs from that session in its expiry at most.
  pub gate_sound :
      (m : Manager) (r : Request) (now : ℕ) (e : Entropy) (s' : Session)
      → (gate cipher j t parse_url m r now e).0.verdict ≡ served (some s')
      → (s : Session) × (SealedCookie.read cipher j m.cookie r ≡ ok s)
        × (now ≤ s.expiry)
        × (answer cipher j t parse_url m s ≡ live)
        × (in_group m s ≡ true)
        × (same_origin m r ≡ true)
        × (is_exempt m r.path ≡ false)
        × (s' ≡ with_expiry s s'.expiry)
  unfolding gated
  gate_sound m r now e s' h = elim (Bool-cases (same_origin m r)) [
    | inr cross ↦ absurd (ground (arith, cross, gate_cases m r now e))
    | inl same ↦ elim (Bool-cases (is_exempt m r.path)) [
      | inl free ↦ absurd (ground (arith, same, free, gate_cases m r now e))
      | inr guarded ↦
          let (s, found, alive, member, renewed) =
            with_session_inv m r (read_session cipher j t m r now) s' now e
              (ground (arith, same, guarded, gate_cases m r now e)) in
          let (carried, fresh) = read_session_inv cipher j t m r now s found in
          (
            s,
            carried,
            fresh,
            alive,
            member,
            same,
            guarded,
            renewed ∙ renewed_same m r s now e ∙ ap (λ x. with_expiry s x.expiry) (sym renewed),
          )
    ]
  ]

  -- A request that passes the cross-origin check, on a path that is not exempt, with a session that
  -- is not revoked and is in the required group, is served that session, at most prolonged.
  pub gate_complete :
      (m : Manager) (r : Request) (now : ℕ) (e : Entropy) (s : Session)
      → same_origin m r ≡ true
      → is_exempt m r.path ≡ false
      → read_session cipher j t m r now ≡ some s
      → answer cipher j t parse_url m s ≡ live
      → in_group m s ≡ true
      → (s' : Session) × ((gate cipher j t parse_url m r now e).0.verdict ≡ served (some s'))
        × (s' ≡ with_expiry s s'.expiry)
        × (s.expiry ≤ s'.expiry)
  unfolding gated with_session checked authorised admitted
  gate_complete m r now e s same guarded found alive member = (
    (maybe_extend_idle cipher j t m r s now e).0,
    rw (gate_cases m r now e, same, guarded, found, with_session, alive, checked)
        (ground (arith, member)),
    renewed_same m r s now e,
    elim (renewed_cases cipher j t m r s now e) [
      | inl kept ↦ rw kept (omega arith)
      | inr (moved, more) ↦ rw moved (omega (arith, more))
    ],
  )

  authorised_refused :
      (m : Manager) (r : Request) (s : Session) (now : ℕ) (e : Entropy)
      → IsServed (authorised cipher j t parse_url m r s now e).0.verdict
        ⊎ (((authorised cipher j t parse_url m r s now e).0.cookies ≡ [])
            × ((authorised cipher j t parse_url m r s now e).1 ≡ e))
  unfolding authorised admitted
  authorised_refused m r s now e = elim (Bool-cases (in_group m s)) [
    | inl member ↦ inl (some (maybe_extend_idle cipher j t m r s now e).0, ground (arith, member))
    | inr outsider ↦ inr (ground (arith, outsider), ground (arith, outsider))
  ]

  checked_refused :
      (m : Manager) (r : Request) (s : Session) (now : ℕ) (e : Entropy) (a : Revocation)
      → IsServed (checked cipher j t parse_url m r s now e a).0.verdict
        ⊎ (IsRefusal t m r (checked cipher j t parse_url m r s now e a)
            × ((checked cipher j t parse_url m r s now e a).1 ≡ e))
  unfolding checked revoked_reply
  checked_refused m r s now e live = elim (authorised_refused m r s now e) [
    | inl is_served ↦ inl is_served
    | inr (none_set, kept) ↦ inr (inl none_set, kept)
  ]
  checked_refused m r s now e revoked = inr (inr refl, refl)
  checked_refused m r s now e check_failed = inr (inl refl, refl)

  with_session_refused :
      (m : Manager) (r : Request) (o : Option Session) (now : ℕ) (e : Entropy)
      → IsServed (with_session cipher j t parse_url m r now e o).0.verdict
        ⊎ (IsRefusal t m r (with_session cipher j t parse_url m r now e o)
            × ((with_session cipher j t parse_url m r now e o).1 ≡ e))
  unfolding with_session unauthenticated
  with_session_refused m r none now e = inr (inl (ground arith), refl)
  with_session_refused m r (some s) now e =
      checked_refused m r s now e (answer cipher j t parse_url m s)

  -- A request that the gate refuses gets no session cookie: at most the cookie is deleted; and no
  -- randomness is spent on it.
  pub gate_refused :
      (m : Manager) (r : Request) (now : ℕ) (e : Entropy)
      → IsServed (gate cipher j t parse_url m r now e).0.verdict
        ⊎ (IsRefusal t m r (gate cipher j t parse_url m r now e)
            × ((gate cipher j t parse_url m r now e).1 ≡ e))
  unfolding gated
  gate_refused m r now e = elim (Bool-cases (same_origin m r)) [
    | inr cross ↦ rw (gate_cases m r now e, cross) (inr (inl refl, refl))
    | inl same ↦ elim (Bool-cases (is_exempt m r.path)) [
      | inl free ↦ rw (gate_cases m r now e, same, free) (inl (none, refl))
      | inr guarded ↦
          rw (gate_cases m r now e, same, guarded)
            (with_session_refused m r (read_session cipher j t m r now) now e)
    ]
  ]
