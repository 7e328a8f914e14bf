-- ===== src/HttpAuth/Admission.antt =====
-- Which requests the gate of httpauth/httpauth.go lets through.
use tokyo3_base.Base.{
  ◌≡◌, refl, Bool, true, false, not, ◌&&◌, ◌||◌, Option, none, some, List, arith, Bytes, bytes_eq,
  bytes_eq_iff, bytes_eq_refl, contains_bytes, Bool-cases, inl, inr,
}
use tokyo3_base.SealedCookie.{is_empty}
use tokyo3_base.HttpAuth.{
  BasicAuthConfig, Outcome, next, misconfigured, challenged, is_enabled, validates, matches,
  basic_auth,
}

abbrev pub is_next : Outcome → Bool
is_next next = true
is_next misconfigured = false
is_next (challenged realm) = false

-- The credentials are the configured ones.
abbrev pub presents : BasicAuthConfig → Option (Bytes × Bytes) → Bool
presents c none = false
presents c (some (user, pass)) = bytes_eq user c.username && bytes_eq pass c.password

-- No other text that was presented has the digest of the configured one.
abbrev pub Distinct : (Bytes → Bytes) → BasicAuthConfig → Option (Bytes × Bytes) → Type 0
Distinct sha256 c none = Unit
Distinct sha256 c (some (user, pass)) =
    (sha256 user ≡ sha256 c.username → user ≡ c.username)
    × (sha256 pass ≡ sha256 c.password → pass ≡ c.password)

same_digest :
    (sha256 : Bytes → Bytes) (a b : Bytes)
    → (sha256 a ≡ sha256 b → a ≡ b)
    → bytes_eq (sha256 a) (sha256 b) ≡ bytes_eq a b
same_digest sha256 a b distinct = elim (Bool-cases (bytes_eq a b)) [
  | inl e ↦ rw ((bytes_eq_iff a b).0 e, bytes_eq_refl b, bytes_eq_refl (sha256 b)) refl
  | inr ne ↦ elim (Bool-cases (bytes_eq (sha256 a) (sha256 b))) [
    | inr other ↦ rw (ne, other) refl
    | inl same ↦
        absurd
          (cc (ne, (bytes_eq_iff a b).1 (distinct ((bytes_eq_iff (sha256 a) (sha256 b)).0 same))))
  ]
]

matches-presents :
    (sha256 : Bytes → Bytes) (c : BasicAuthConfig) (credentials : Option (Bytes × Bytes))
    → Distinct sha256 c credentials
    → matches sha256 c credentials ≡ presents c credentials
unfolding matches
matches-presents sha256 c none distinct = refl
matches-presents sha256 c (some (user, pass)) distinct =
    rw
      (same_digest sha256 user c.username distinct.0, same_digest sha256 pass c.password distinct.1)
      refl

-- The handler is reached exactly on exempt paths, without credentials in the configuration, or with
-- both of them there and presented; a configuration with one of them lets nothing else through.
pub basic_auth-is_next :
    (sha256 : Bytes → Bytes) (c : BasicAuthConfig) (exempt : List Bytes) (path : Bytes)
    (credentials : Option (Bytes × Bytes))
    → Distinct sha256 c credentials
    → is_next (basic_auth sha256 c exempt path credentials) ≡ (
        contains_bytes exempt path
        || (is_empty c.username && is_empty c.password)
        || (not (is_empty c.username) && not (is_empty c.password) && presents c credentials))
unfolding basic_auth validates is_enabled
basic_auth-is_next sha256 c exempt path credentials distinct =
    ground (arith, matches-presents sha256 c credentials distinct)
