-- ===== src/Session/Config/Defaults.antt =====
-- The Managers that `New` of session/session.go returns.
use tokyo3_base.Base.{
  zero, suc, ◌<◌, ◌≡◌, refl, sym, subst, ap, Bool, true, false, not, ◌&&◌, ◌||◌, Option, none, some,
  List, arith, Bytes, bytes_eq_refl, text, has_prefix, contains_bytes, Result, ok, err, length,
  Bool-cases, Option-cases, inl, inr, ◌==◌,
}
use tokyo3_base.Base.Int.{ℤ, pos, negsuc, pos_part, is_nonpositive}
use tokyo3_base.SealedCookie
use tokyo3_base.SealedCookie.{is_empty}
use tokyo3_base.Session.Config.{
  Config, Manager, session_key_size, normalise, is_exempt, check_origins, assemble, validated,
  new_normalised, new, bad_of,
}

is_nonpositive-pos_part : (i : ℤ) → is_nonpositive i ≡ false → 0 < pos_part i
is_nonpositive-pos_part (pos zero) h = absurd (ground arith)
is_nonpositive-pos_part (pos (suc n)) h = omega arith
is_nonpositive-pos_part (negsuc n) h = absurd (ground arith)

module _ (valid_origin : Bytes → Bool) where
  check_origins_inv :
      (cfg : Config) (m : Manager) (o : Option (List Bytes)) (m' : Manager)
      → check_origins valid_origin cfg m o ≡ ok m'
      → m' ≡ record m { origin_check = m'.origin_check }
  unfolding check_origins
  check_origins_inv cfg m none m' h = let same : m ≡ m' = ground arith in rw (← same) refl
  check_origins_inv cfg m (some os) m' h = elim (Option-cases (bad_of valid_origin os)) [
    | inr (o, e) ↦ absurd (ground (arith, e))
    | inl e ↦
        let same : record m { origin_check = some os } ≡ m' = ground (arith, e) in rw (← same) refl
  ]

  -- What is true of an assembled Manager whose cookie is valid.
  abbrev pub IsUsable : Manager → Type 0
  IsUsable m =
      (0 < m.ttl)
      × (SealedCookie.validate m.cookie ≡ ok tt)
      × (is_exempt m m.cfg.login_path ≡ true)
      × (is_exempt m m.cfg.logout_path ≡ true)

  assemble-IsUsable :
      (cfg : Config)
      → SealedCookie.validate (assemble valid_origin cfg).cookie ≡ ok tt
      → IsUsable (assemble valid_origin cfg)
  unfolding assemble is_exempt contains_bytes
  assemble-IsUsable cfg h = (
    lifetime,
    h,
    ground (arith, bytes_eq_refl cfg.login_path),
    ground (arith, bytes_eq_refl cfg.logout_path),
  )
    where
      lifetime : 0 < (assemble valid_origin cfg).ttl
      lifetime = elim (Bool-cases (is_nonpositive cfg.session_ttl)) [
        | inl off ↦ rw off (omega arith)
        | inr on ↦ rw on (is_nonpositive-pos_part cfg.session_ttl on)
      ]

  validated_inv :
      (cfg : Config) (r : Result SealedCookie.Error (Unit {0})) (m : Manager)
      → validated valid_origin cfg r ≡ ok m
      → (r ≡ ok tt) × (m ≡ record (assemble valid_origin cfg) { origin_check = m.origin_check })
  unfolding validated
  validated_inv cfg (err e) m h = absurd (ground arith)
  validated_inv cfg (ok u) m h =
      (refl, check_origins_inv cfg (assemble valid_origin cfg) cfg.trusted_origins m h)

  new_normalised_inv :
      (cfg : Config) (m : Manager)
      → new_normalised valid_origin cfg ≡ ok m
      → ((is_empty cfg.base_path || has_prefix cfg.base_path (text "/")) ≡ true)
        × (m.cfg ≡ cfg)
        × IsUsable m
  unfolding new_normalised assemble is_exempt
  new_normalised_inv cfg m h =
      elim (Bool-cases
        (not (is_empty cfg.base_path) && not (has_prefix cfg.base_path (text "/")))) [
          | inl relative ↦ absurd (ground (arith, relative))
          | inr rooted ↦
              let (valid, same) =
                validated_inv cfg (SealedCookie.validate (assemble valid_origin cfg).cookie) m
                  (rw rooted at h) in
              let usable = assemble-IsUsable cfg valid in
              (ground (arith, rooted), ap (λ x. x.cfg) same, subst IsUsable (sym same) usable)
        ]

  -- A Manager that `New` returns has a key of 32 bytes, a cookie that browsers take, a lifetime that is
  -- positive, and a base path that is empty or starts at the root; and its gate lets the login and
  -- logout paths through.
  pub new_inv :
      (cfg : Config) (m : Manager)
      → new valid_origin cfg ≡ ok m
      → (length cfg.session_key ≡ session_key_size)
        × ((is_empty m.cfg.base_path || has_prefix m.cfg.base_path (text "/")) ≡ true)
        × IsUsable m
  unfolding new
  new_inv cfg m h = elim (Bool-cases (length cfg.session_key == 0)) [
    | inl none_given ↦ absurd (ground (arith, none_given))
    | inr given ↦ elim (Bool-cases (length cfg.session_key == session_key_size)) [
      | inr other_size ↦ absurd (ground (arith, given, other_size))
      | inl sized ↦ elim (Bool-cases (is_empty cfg.cookie_prefix)) [
        | inl no_prefix ↦ absurd (ground (arith, given, sized, no_prefix))
        | inr prefixed ↦
            let (rooted, same, usable) =
              new_normalised_inv (normalise cfg) m (rw (given, sized, prefixed) at h) in
            (ground (arith, sized), rw same rooted, usable)
      ]
    ]
  ]
