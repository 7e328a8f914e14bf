-- ===== src/Crypto/Entropy.antt =====
-- `RandomBytes` of crypto/crypto.go: random bytes are read from a source that can run dry. An
-- action takes the source and gives back what is left of it, beside its error too.
use tokyo3_base.Base.{
  ℕ, ◌≤◌, ◌≡◌, refl, ◌∙◌, [], arith, Bytes, Result, ok, err, length, take, drop, leb, if◌then◌else◌,
  map_err,
}

abbrev pub Entropy : Type 0
Entropy = Bytes

-- What went wrong, with the steps of `fmt.Errorf("...: %w", err)` around it.
pub data Stage : Type 0 where
  generate_nonce decrypt generate_dek seal_value wrap_dek unwrap_dek decrypt_value rewrap_dek :
      Stage
  unwrap_key : Stage

pub data Error : Type 0 where
  invalid_encoding no_entropy too_short unauthentic : Error
  key_length : ℕ → Error
  provider : ℕ → Error
  within : Stage → Error → Error

abbrev pub Rand {ℓ} : Type ℓ → Type ℓ
Rand A = Entropy → Result Error A × Entropy

module _ {ℓ} {A : Type ℓ} where
  abbrev pub pure : A → Rand A
  pure a e = (ok a, e)

  abbrev pub lift : Result Error A → Rand A
  lift r e = (r, e)

  abbrev pub in_stage : Stage → Rand A → Rand A
  in_stage stage m e = let (r, e') = m e in (map_err (within stage) r, e')

module _ {ℓ κ} {A : Type ℓ} {B : Type κ} where
  abbrev pub continue : Result Error A → (A → Rand B) → Rand B
  continue (ok a) f e = f a e
  continue (err x) f e = (err x, e)

  infixl 5 ◌>>=◌
  abbrev pub ◌>>=◌ : Rand A → (A → Rand B) → Rand B
  ◌>>=◌ m f e = let (r, e') = m e in continue r f e'

  -- The steps of a chain that succeeded.
  pub bind_inv :
      (m : Rand A) (f : A → Rand B) (e : Entropy) {b : B} {e' : Entropy}
      → (m >>= f) e ≡ (ok b, e')
      → (a : A) × (e₁ : Entropy) × (m e ≡ (ok a, e₁)) × (f a e₁ ≡ (ok b, e'))
  bind_inv m f e {b} {e'} h = step (m e).0 (m e).1 refl h
    where
      step :
          (r : Result Error A) (e₁ : Entropy)
          → m e ≡ (r, e₁)
          → continue r f e₁ ≡ (ok b, e')
          → (a : A) × (e₁ : Entropy) × (m e ≡ (ok a, e₁)) × (f a e₁ ≡ (ok b, e'))
      step (ok a) e₁ p q = (a, e₁, p, q)
      step (err x) e₁ p q = absurd (ground arith)

module _ {ℓ} {A : Type ℓ} where
  pub in_stage_inv :
      (stage : Stage) (m : Rand A) (e : Entropy) {a : A} {e' : Entropy}
      → in_stage stage m e ≡ (ok a, e')
      → m e ≡ (ok a, e')
  in_stage_inv stage m e {a} {e'} h = step (m e).0 (m e).1 refl h
    where
      step :
          (r : Result Error A) (e₁ : Entropy)
          → m e ≡ (r, e₁)
          → ◌≡◌ {A = Result Error A × Entropy} (map_err (within stage) r, e₁) (ok a, e')
          → m e ≡ (ok a, e')
      step (ok a) e₁ p q = p ∙ q
      step (err x) e₁ p q = absurd (ground arith)

-- `io.ReadFull` reads all n bytes or fails.
unfoldable pub random_bytes : ℕ → Rand Bytes
random_bytes n e = if leb n (length e) then (ok (take n e), drop n e) else (err no_entropy, [])

pub random_bytes_enough :
    (n : ℕ) (e : Entropy) → n ≤ length e → random_bytes n e ≡ (ok (take n e), drop n e)
unfolding random_bytes
random_bytes_enough n e h = ground arith
