-- ===== src/Crypto/Cache/Revocation.antt =====
-- Concurrent flights and invalidations of crypto/cache.go as steps of one system, and what
-- `Invalidate` achieves against flights that are still under way.
use tokyo3_base.Base.{
  ℕ, ◌+◌, ◌^◌, ◌<◌, ◌≤◌, ◌≡◌, ap, ◌⊎◌, inl, inr, some, List, [], ◌∷◌, ◌++◌, arith, Bytes, ok, sym,
  All, All-middle, All-mono, subst,
}
use tokyo3_base.Base.Int.{ℤ}
use tokyo3_base.Base.Dict
use tokyo3_base.Crypto.Cache.{Cache, Entry, store, invalidate, Call, unwrap, new_key_provider_cache}
use tokyo3_base.Crypto.Cache.Entries.{
  generation-store, generation-invalidate, store_inv, invalidate_inv, get-invalidate_self,
}

-- An unwrap under way: what it was asked for, and the generation that it recorded.
pub record Flight : Type 0 where
  pub key_id : Bytes
  pub wrapped : Bytes
  pub gen : ℕ

pub record System : Type 0 where
  pub cache : Cache
  pub flights : List Flight

module _ (sha256 : Bytes → Bytes) (root_unwrap : Bytes → Call) where
  -- One step of any goroutine. `Allowed` says for which material callers may start a flight. The
  -- 64-bit generation is taken not to run through all its values.
  pub data Step (Allowed : Bytes → Bytes → Type 0) : System → System → Type 0 where
    begin :
        (s : System) (key_id wrapped : Bytes)
        → Allowed key_id wrapped
        → Step Allowed s (record s {
          flights =
              record { key_id = key_id; wrapped = wrapped; gen = s.cache.generation } ∷ s.flights;
        })
    land :
        (s : System) (before after : List Flight) (f : Flight) (key : Bytes) (now : ℕ)
        → s.flights ≡ before ++ (f ∷ after)
        → unwrap (root_unwrap f.wrapped) ≡ ok key
        → Step Allowed s (record {
          cache = store f.key_id (sha256 f.wrapped) f.gen key now s.cache;
          flights = before ++ after;
        })
    fail :
        (s : System) (before after : List Flight) (f : Flight)
        → s.flights ≡ before ++ (f ∷ after)
        → Step Allowed s (record s { flights = before ++ after })
    revoke :
        (s : System) (key_id : Bytes)
        → s.cache.generation + 1 < 2 ^ 64
        → Step Allowed s (record s { cache = invalidate key_id s.cache })

  pub data Reach (Allowed : Bytes → Bytes → Type 0) (s : System) : System → Type 0 where
    here : Reach Allowed s s
    next : {t u : System} → Reach Allowed s t → Step Allowed t u → Reach Allowed s u

  -- No flight recorded a generation that is still to come.
  pub record IsCurrent (s : System) : Type 0 where
    pub bounded : All (λ f. f.gen ≤ s.cache.generation) s.flights

  Step-IsCurrent :
      {Allowed : Bytes → Bytes → Type 0} {s t : System}
      → Step Allowed s t
      → IsCurrent s
      → IsCurrent t
  Step-IsCurrent (begin s key_id wrapped _) h = record { bounded = (omega arith, h.bounded) }
  Step-IsCurrent (land s before after f key now e _) h = record {
    bounded =
        rw (generation-store f.key_id (sha256 f.wrapped) f.gen key now s.cache)
          (All-middle (λ g. g.gen ≤ s.cache.generation) before f after
            (subst (All (λ g. g.gen ≤ s.cache.generation)) e h.bounded)).1;
  }
  Step-IsCurrent (fail s before after f e) h = record {
    bounded =
        (All-middle (λ g. g.gen ≤ s.cache.generation) before f after
          (subst (All (λ g. g.gen ≤ s.cache.generation)) e h.bounded)).1;
  }
  Step-IsCurrent (revoke s key_id room) h = record {
    bounded = rw (generation-invalidate key_id s.cache room) (
        All-mono (λ g. g.gen ≤ s.cache.generation) (λ g. g.gen ≤ s.cache.generation + 1) s.flights
          (λ g p. omega arith) h.bounded);
  }

  Reach-IsCurrent :
      {Allowed : Bytes → Bytes → Type 0} {s t : System}
      → IsCurrent s
      → Reach Allowed s t
      → IsCurrent t
  Reach-IsCurrent h here = h
  Reach-IsCurrent h (next r st) = Step-IsCurrent st (Reach-IsCurrent h r)

  module _ (k : Bytes) (Fresh : Bytes → Type 0) where
    -- Callers ask for `k` with fresh material only.
    abbrev pub OnlyFresh : Bytes → Bytes → Type 0
    OnlyFresh key_id wrapped = key_id ≡ k → Fresh wrapped

    -- The flight cannot store anything for `k` but a key of fresh material.
    abbrev IsHarmless : ℕ → Flight → Type 0
    IsHarmless now f = (f.gen < now) ⊎ ((f.gen ≤ now) × (f.key_id ≡ k → Fresh f.wrapped))

    -- An entry that holds the key of fresh material.
    pub record IsFresh (e : Entry) : Type 0 where
      pub material : Bytes
      pub fresh : Fresh material
      pub same_digest : e.digest ≡ sha256 material
      pub unwrapped : unwrap (root_unwrap material) ≡ ok e.key

    record IsClean (s : System) : Type 0 where
      harmless : All (IsHarmless s.cache.generation) s.flights
      clean : (e : Entry) → Dict.get k s.cache.entries ≡ some e → IsFresh e

    land-clean :
        (c : Cache) (f : Flight) (key : Bytes) (now : ℕ) (e : Entry)
        → IsHarmless c.generation f
        → unwrap (root_unwrap f.wrapped) ≡ ok key
        → ((e : Entry) → Dict.get k c.entries ≡ some e → IsFresh e)
        → Dict.get k (store f.key_id (sha256 f.wrapped) f.gen key now c).entries ≡ some e
        → IsFresh e
    land-clean c f key now e harmless u clean h =
        elim (store_inv f.key_id (sha256 f.wrapped) f.gen key now c k e h) [
          | inl old ↦ clean e old
          | inr (id, gen, new) ↦ elim harmless [
            | inl late ↦ absurd (omega arith)
            | inr (_, fresh) ↦ record {
              material = f.wrapped;
              fresh = fresh (sym id);
              same_digest = ap (λ x. x.digest) new;
              unwrapped = rw new u;
            }
          ]
        ]

    Step-IsClean : {s t : System} → Step OnlyFresh s t → IsClean s → IsClean t
    Step-IsClean (begin s key_id wrapped allowed) h = record {
      harmless = (inr (omega arith, allowed), h.harmless);
      clean = h.clean;
    }
    Step-IsClean (land s before after f key now e u) h =
        let (one, rest) =
          All-middle (IsHarmless s.cache.generation) before f after
            (subst (All (IsHarmless s.cache.generation)) e h.harmless) in
        record {
          harmless = rw (generation-store f.key_id (sha256 f.wrapped) f.gen key now s.cache) rest;
          clean = λ x. land-clean s.cache f key now x one u h.clean;
        }
    Step-IsClean (fail s before after f e) h = record {
      harmless =
          (All-middle (IsHarmless s.cache.generation) before f after
            (subst (All (IsHarmless s.cache.generation)) e h.harmless)).1;
      clean = h.clean;
    }
    Step-IsClean (revoke s key_id room) h = record {
      harmless = rw (generation-invalidate key_id s.cache room) (
          All-mono (IsHarmless s.cache.generation) (IsHarmless (s.cache.generation + 1)) s.flights
            (λ g p. inl (omega arith)) h.harmless);
      clean = λ e get. h.clean e (invalidate_inv key_id s.cache k e get);
    }

    Reach-IsClean : {s t : System} → IsClean s → Reach OnlyFresh s t → IsClean t
    Reach-IsClean h here = h
    Reach-IsClean h (next r st) = Step-IsClean st (Reach-IsClean h r)

    IsClean-invalidate :
        (s : System)
        → s.cache.generation + 1 < 2 ^ 64
        → IsCurrent s
        → IsClean (record s { cache = invalidate k s.cache })
    IsClean-invalidate s room h = record {
      harmless = rw (generation-invalidate k s.cache room) (
          All-mono (λ g. g.gen ≤ s.cache.generation) (IsHarmless (s.cache.generation + 1)) s.flights
            (λ g p. inl (omega arith)) h.bounded);
      clean = λ e get. cc (get-invalidate_self k s.cache);
    }

    -- Take any state of a new cache and its flights, invalidate `k` in it, and let everything go on
    -- in any order: flights from before and after land or fail, other ids are invalidated, and `k`
    -- again, as long as the generation does not run through its 64 bits. If from then on callers
    -- ask for `k` with fresh material only, what is cached for `k` is always the key of fresh
    -- material.
    pub invalidate_lasts :
        {Before : Bytes → Bytes → Type 0} (ttl : ℤ) (s t : System) (e : Entry)
        → Reach Before (record { cache = new_key_provider_cache ttl; flights = [] }) s
        → s.cache.generation + 1 < 2 ^ 64
        → Reach OnlyFresh (record s { cache = invalidate k s.cache }) t
        → Dict.get k t.cache.entries ≡ some e
        → IsFresh e
    invalidate_lasts ttl s t e before room after =
        (Reach-IsClean
            (IsClean-invalidate s room (Reach-IsCurrent (record { bounded = tt }) before))
            after).clean
          e
