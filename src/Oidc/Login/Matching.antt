-- ===== src/Oidc/Login/Matching.antt =====
-- Which pending login of oidc/login.go a state finds.
use tokyo3_base.Base.{
  ℕ, zero, suc, ◌+◌, ◌/◌, ◌≤◌, ◌<◌, ◌≡◌, refl, ap, length, Bool, true, false, not, ◌&&◌, Option,
  none, some, List, [], ◌∷◌, ◌++◌, arith, Bytes, bytes_eq, bytes_eq_iff, bytes_eq_refl, All, ltb,
  Result, ok, err, Bool-cases, inl, inr, ◌⊎◌, if◌then◌else◌,
}
use tokyo3_base.Base.Int.{is_negative}
use tokyo3_base.Base.Dict
use tokyo3_base.Crypto.Cipher.{Cipher}
use tokyo3_base.Http.{Request, SetCookie}
use tokyo3_base.SealedCookie
use tokyo3_base.SealedCookie.{Codec, is_empty}
use tokyo3_base.Oidc.Login.{
  Authenticator, Flow, FlowSet, second, live_at, live_flows, pending_flows, match_from, match_flow,
}
use tokyo3_base.Oidc.Login.Callback.{nth}

-- The flow at an index has the state, which is not empty.
abbrev pub IsFound : Bytes → List Flow → ℕ → Type 0
IsFound state flows i =
    (f : Flow) × (nth i flows ≡ some f) × (f.state ≡ state) × (is_empty state ≡ false)

abbrev pub hits : Bytes → Flow → Bool
hits state f = not (is_empty f.state) && bytes_eq state f.state

abbrev pub Misses : Bytes → List Flow → Type 0
Misses state flows = All (λ (f : Flow). hits state f ≡ false) flows

hits_inv :
    (state : Bytes) (f : Flow) → hits state f ≡ true → (f.state ≡ state) × (is_empty state ≡ false)
hits_inv state f h = ground (arith, bytes_eq_iff state f.state)

match_from_cases :
    (state : Bytes) (i : ℕ) (found : Option ℕ) (flows : List Flow)
    → ((match_from state i found flows ≡ found) × Misses state flows)
      ⊎ ((k : ℕ) × (match_from state i found flows ≡ some (i + k)) × IsFound state flows k)
unfolding match_from nth
match_from_cases state i found [] = inl (refl, tt)
match_from_cases state i found (f ∷ fs) =
    elim (match_from_cases state (i + 1) (if hits state f then some i else found) fs) [
      | inr (k, e, (g, at, same, full)) ↦ inr (suc k, ground (arith, e), (g, at, same, full))
      | inl (e, rest) ↦ elim (Bool-cases (hits state f)) [
        | inl hit ↦
            let (same, full) = hits_inv state f hit in
            inr (zero, ground (arith, e, hit), (f, refl, same, full))
        | inr miss ↦ inl (ground (arith, e, miss), (miss, rest))
      ]
    ]

-- A state finds no flow where it hits none, and otherwise one that has it.
pub match_flow_cases :
    (state : Bytes) (flows : List Flow)
    → ((match_flow flows state ≡ none) × Misses state flows)
      ⊎ ((i : ℕ) × (match_flow flows state ≡ some i) × IsFound state flows i)
unfolding match_flow
match_flow_cases state flows = elim (match_from_cases state 0 none flows) [
  | inl miss ↦ inl miss
  | inr (k, e, found) ↦ inr (k, ground (arith, e), found)
]

Misses-nth :
    (state : Bytes) (flows : List Flow) (i : ℕ) (f : Flow)
    → Misses state flows
    → nth i flows ≡ some f
    → hits state f ≡ false
unfolding nth
Misses-nth state [] i f m h = absurd (ground arith)
Misses-nth state (g ∷ gs) zero f m h = ground (arith, m.0)
Misses-nth state (g ∷ gs) (suc i) f m h = Misses-nth state gs i f m.1 h

-- A flow that is there is found by its state, if only as the last of those that share it.
pub match_flow_complete :
    (flows : List Flow) (i : ℕ) (f : Flow)
    → nth i flows ≡ some f
    → is_empty f.state ≡ false
    → (k : ℕ) × (match_flow flows f.state ≡ some k) × IsFound f.state flows k
match_flow_complete flows i f h full = elim (match_flow_cases f.state flows) [
  | inr found ↦ found
  | inl (e, m) ↦ absurd (ground (arith, Misses-nth f.state flows i f m h, bytes_eq_refl f.state))
]

pub match_flow-none :
    (state : Bytes) (flows : List Flow) → Misses state flows → match_flow flows state ≡ none
match_flow-none state flows m = elim (match_flow_cases state flows) [
  | inl (e, _) ↦ e
  | inr (i, e, (f, at, same, full)) ↦
      absurd (ground (arith, Misses-nth state flows i f m at, bytes_eq_iff state f.state))
]

live_at-nth :
    (now : ℕ) (flows : List Flow) (i : ℕ) (f : Flow)
    → nth i (live_at now flows) ≡ some f
    → (ltb (now / second) f.exp ≡ true) × (k : ℕ) × (nth k flows ≡ some f)
unfolding live_at nth
live_at-nth now [] i f h = absurd (ground arith)
live_at-nth now (g ∷ gs) i f h = elim (Bool-cases (ltb (now / second) g.exp)) [
  | inr dead ↦ let (live, k, at) = live_at-nth now gs i f (rw dead at h) in (live, suc k, at)
  | inl live ↦ split i live (rw live at h) (λ m. live_at-nth now gs m f)
]
  where
    split :
        (i : ℕ)
        → ltb (now / second) g.exp ≡ true
        → nth i (g ∷ live_at now gs) ≡ some f
        → ((m : ℕ)
            → nth m (live_at now gs) ≡ some f
            → (ltb (now / second) f.exp ≡ true) × (k : ℕ) × (nth k gs ≡ some f))
        → (ltb (now / second) f.exp ≡ true) × (k : ℕ) × (nth k (g ∷ gs) ≡ some f)
    split zero live q ih = (let e : g ≡ f = ground (arith, q) in rw (← e) live, zero, q)
    split (suc m) live q ih = let (l, k, at) = ih m q in (l, suc k, at)

module _ (cipher : Cipher) (j : Codec FlowSet) where
  -- A flow that the cookie of a request carries, before its deadline.
  abbrev pub IsPending : Authenticator → Request → ℕ → Flow → Type 0
  IsPending a r now f =
      (set : FlowSet) × (k : ℕ) × (SealedCookie.read cipher j a.cfg.flow_cookie r ≡ ok set)
      × (nth k set.flows ≡ some f)
      × (now / second < f.exp)

  live_flows-nth :
      (now : ℕ) (res : Result SealedCookie.Error FlowSet) (i : ℕ) (f : Flow)
      → nth i (live_flows cipher j now res) ≡ some f
      → (set : FlowSet) × (k : ℕ) × (res ≡ ok set)
        × (nth k set.flows ≡ some f)
        × (now / second < f.exp)
  unfolding live_flows nth
  live_flows-nth now (err x) i f h = absurd (ground arith)
  live_flows-nth now (ok set) i f h =
      let (live, k, at) = live_at-nth now set.flows i f h in
      (set, k, refl, at, ground (arith, live))

  pub pending_flows-nth :
      (a : Authenticator) (r : Request) (now i : ℕ) (f : Flow)
      → nth i (pending_flows cipher j a r now) ≡ some f
      → IsPending a r now f
  unfolding pending_flows
  pending_flows-nth a r now i f h =
      live_flows-nth now (SealedCookie.read cipher j a.cfg.flow_cookie r) i f h

-- What a browser sends of a cookie that it was last given: nothing where the cookie was to be deleted.
abbrev pub kept_value : SetCookie → Option Bytes
kept_value ck = if is_negative ck.max_age then none else some ck.value

-- What a later request carries, of the cookies that were set.
abbrev pub Carries : Authenticator → List SetCookie → Request → Type 0
Carries a [] r = Unit
Carries a (ck ∷ cks) r = Dict.get a.cfg.flow_cookie.name r.cookies ≡ kept_value ck

match_from-last :
    (f : Flow) (i : ℕ) (found : Option ℕ) (flows : List Flow)
    → hits f.state f ≡ true
    → match_from f.state i found (flows ++ (f ∷ [])) ≡ some (i + length flows)
unfolding match_from
match_from-last f i found [] h = ground (arith, h)
match_from-last f i found (g ∷ gs) h =
    ground (arith, match_from-last f (i + 1) (if hits f.state g then some i else found) gs h)

-- The last flow is found by its state, even where another one shares it.
pub match_flow-last :
    (f : Flow) (flows : List Flow)
    → is_empty f.state ≡ false
    → match_flow (flows ++ (f ∷ [])) f.state ≡ some (length flows)
unfolding match_flow
match_flow-last f flows full =
    ground (arith, match_from-last f 0 none flows (ground (arith, full, bytes_eq_refl f.state)))

pub nth-last : (f : Flow) (flows : List Flow) → nth (length flows) (flows ++ (f ∷ [])) ≡ some f
unfolding nth
nth-last f [] = refl
nth-last f (g ∷ gs) = nth-last f gs

pub live_at-last :
    (now : ℕ) (f : Flow) (flows : List Flow)
    → now / second < f.exp
    → live_at now (flows ++ (f ∷ [])) ≡ live_at now flows ++ (f ∷ [])
unfolding live_at
live_at-last now f [] h = ground arith
live_at-last now f (g ∷ gs) h = elim (Bool-cases (ltb (now / second) g.exp)) [
  | inl live ↦ rw live (ap (◌∷◌ g) (live_at-last now f gs h))
  | inr dead ↦ rw dead (live_at-last now f gs h)
]

pub length-live_at-le : (now : ℕ) (flows : List Flow) → length (live_at now flows) ≤ length flows
unfolding live_at
length-live_at-le now [] = omega arith
length-live_at-le now (g ∷ gs) = ground (arith, length-live_at-le now gs)
