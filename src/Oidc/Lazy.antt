-- ===== src/Oidc/Lazy.antt =====
-- The verifier of oidc/oidc.go that discovers its provider at the first call. The provider is a parameter;
-- what singleflight promises, one flight at a time whose outcome all its callers get, is in the steps.
pub mod Once
use tokyo3_base.Base.{
  ℕ, Bool, true, false, not, Option, none, some, List, [], ◌∷◌, ◌++◌, Bytes, Result, ok, err, ◌==◌,
  if◌then◌else◌,
}
use tokyo3_base.SealedCookie.{is_empty}

pub data Error : Type 0 where
  no_issuer no_audience context_done no_provider : Error

-- What is discovered, for an issuer and an audience.
pub record HttpVerifier (V : Type 0) : Type 0 where
  pub provider : V
  pub issuer : Bytes
  pub audience : Bytes

-- `waiting` are the callers of the flight, if there is one.
pub record LazyVerifier (V : Type 0) : Type 0 where
  pub issuer : Bytes
  pub audience : Bytes
  pub verifier : Option (HttpVerifier V)
  pub waiting : Option (List ℕ)

-- The steps of callers, which have numbers, and of the discovery: a call begins, with its context done or
-- not, and reads the cache; one that found nothing joins the flight; the provider answers; the context of a
-- waiting caller ends.
pub data Event (V : Type 0) : Type 0 where
  begin : ℕ → Bool → Event V
  join : ℕ → Event V
  discovered : Option V → Event V
  leave : ℕ → Event V

-- What `ensure` gives to a caller.
abbrev pub Answer : Type 0 → Type 0
Answer V = ℕ × Result Error (HttpVerifier V)

unfoldable pub is_waiting : ℕ → List ℕ → Bool
is_waiting i [] = false
is_waiting i (j ∷ js) = if i == j then true else is_waiting i js

unfoldable pub without : ℕ → List ℕ → List ℕ
without i [] = []
without i (j ∷ js) = let rest = without i js in if i == j then rest else j ∷ rest

module _ {V : Type 0} where
  unfoldable pub new_http_verifier : Bytes → Bytes → Option V → Result Error (HttpVerifier V)
  new_http_verifier issuer audience p =
      if is_empty issuer
      then err no_issuer
      else if is_empty audience
      then err no_audience
      else elim p [
        | none ↦ err no_provider
        | some v ↦ ok (record { provider = v; issuer = issuer; audience = audience })
      ]

  unfoldable pub new_lazy_http_verifier : Bytes → Bytes → Result Error (LazyVerifier V)
  new_lazy_http_verifier issuer audience =
      if is_empty issuer
      then err no_issuer
      else if is_empty audience
      then err no_audience
      else ok (record { issuer = issuer; audience = audience; verifier = none; waiting = none })

  unfoldable pub to_all : Result Error (HttpVerifier V) → List ℕ → List (Answer V)
  to_all r [] = []
  to_all r (i ∷ is) = (i, r) ∷ to_all r is

  begun : LazyVerifier V → ℕ → Option (HttpVerifier V) → List (Answer V)
  begun l i none = []
  begun l i (some hv) = (i, ok hv) ∷ []

  -- A flight that begins reads the cache again.
  unfoldable pub joined :
      LazyVerifier V
      → ℕ
      → Option (List ℕ)
      → Option (HttpVerifier V)
      → LazyVerifier V × List (Answer V)
  joined l i (some ids) cached = (record l { waiting = some (ids ++ (i ∷ [])) }, [])
  joined l i none (some hv) = (l, (i, ok hv) ∷ [])
  joined l i none none = (record l { waiting = some (i ∷ []) }, [])

  unfoldable pub landed :
      LazyVerifier V → List ℕ → Result Error (HttpVerifier V) → LazyVerifier V × List (Answer V)
  landed l ids (err e) = (record l { waiting = none }, to_all (err e) ids)
  landed l ids (ok hv) = (record l { verifier = some hv; waiting = none }, to_all (ok hv) ids)

  found : LazyVerifier V → Option V → Option (List ℕ) → LazyVerifier V × List (Answer V)
  unfolding landed
  found l p none = (l, [])
  found l p (some ids) = landed l ids (new_http_verifier l.issuer l.audience p)

  -- The flight goes on without the caller.
  left : LazyVerifier V → ℕ → Option (List ℕ) → LazyVerifier V × List (Answer V)
  left l i none = (l, [])
  left l i (some ids) =
      if is_waiting i ids
      then (record l { waiting = some (without i ids) }, (i, err context_done) ∷ [])
      else (l, [])

  unfoldable pub step : LazyVerifier V → Event V → LazyVerifier V × List (Answer V)
  unfolding begun joined found left
  step l (begin i true) = (l, (i, err context_done) ∷ [])
  step l (begin i false) = (l, begun l i l.verifier)
  step l (join i) = joined l i l.waiting l.verifier
  step l (discovered p) = found l p l.waiting
  step l (leave i) = left l i l.waiting

  unfoldable pub run : LazyVerifier V → List (Event V) → LazyVerifier V × List (Answer V)
  run l [] = (l, [])
  run l (e ∷ es) = let rest = run (step l e).0 es in (rest.0, (step l e).1 ++ rest.1)
