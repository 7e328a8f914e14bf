-- ===== src/Tls/Reload/Loaded.antt =====
-- That a value of tls/reloader/reload.go, once loaded, stays loaded and is served.
use tokyo3_base.Base.{
  ℕ, ◌≡◌, refl, Bool, true, false, not, ◌&&◌, inl, inr, Option, none, some, Bytes, Result, ok, err,
  arith, Bool-cases,
}
use tokyo3_base.Tls.Reload.{
  Stamp, FileValue, Hook, Got, no_hook, failed, settled, settled_val, is_past, kept, after_failure,
  after_load, report, failing, reading, reload, peek, get,
}
use tokyo3_base.Tls.Reload.Direct.{direct, is_unlimited, not_past}

module _ {V E : Type 0} where
  -- What holds of an answer, given the state before it.
  pub record IsSteady (forced : Bool) (f : FileValue V E) (p : Got V E × FileValue V E)
      : Type 0 where
    pub stays : (v : V) → f.val ≡ some v → (w : V) × (p.1.val ≡ some w)
    pub limit : p.1.max_stale ≡ f.max_stale
    pub serves :
        (v : V)
        → f.val ≡ some v
        → forced ≡ false
        → is_unlimited f.max_stale ≡ true
        → (w : V) × (p.0.value ≡ some w) × (p.0.error ≡ none)
    pub gives : p.0.error ≡ none → (w : V) × (p.0.value ≡ some w) × (p.1.val ≡ some w)

  kept_serves :
      (f : FileValue V E) (now : ℕ) (h : Hook V E) (v : V)
      → f.val ≡ some v
      → is_unlimited f.max_stale ≡ true
      → ((kept f now h).value ≡ some v) × ((kept f now h).error ≡ none)
  unfolding kept
  kept_serves f now h v is free = rw (not_past f.max_stale f.fail_since now free) (is, refl)

  kept_gives :
      (f : FileValue V E) (now : ℕ) (h : Hook V E) (v : V)
      → f.val ≡ some v
      → (kept f now h).error ≡ none
      → (kept f now h).value ≡ some v
  unfolding kept
  kept_gives f now h v is fine = elim (Bool-cases (is_past f.max_stale f.fail_since now)) [
    | inl past ↦ absurd (ground (arith, rw past at fine))
    | inr here ↦ rw here is
  ]

  failing-IsSteady :
      (forced : Bool) (f : FileValue V E) (s : Option Stamp) (now later : ℕ) (e : E) (o : Option V)
      → f.val ≡ o
      → IsSteady forced f (failing forced f s now later e o)
  unfolding failing report after_failure
  failing-IsSteady forced f s now later e none is = record {
    stays = λ v has. (v, has);
    limit = refl;
    serves = λ v has quiet free. absurd (ground (arith, is, has));
    gives = λ fine. absurd (ground (arith, fine));
  }
  failing-IsSteady true f s now later e (some u) is = record {
    stays = λ v has. (v, has);
    limit = refl;
    serves = λ v has quiet free. absurd (ground (arith, quiet));
    gives = λ fine. absurd (ground (arith, fine));
  }
  failing-IsSteady false f s now later e (some u) is = record {
    stays = λ v has. (v, has);
    limit = refl;
    serves = λ v has quiet free.
        let (value, fine) = kept_serves (after_failure f s now e) later (failed e) v has free in
        (v, value, fine);
    gives = λ fine. (u, kept_gives (after_failure f s now e) later (failed e) u is fine, is);
  }

  reading-IsSteady :
      (forced : Bool) (f : FileValue V E) (s : Option Stamp) (now later : ℕ)
      (content : Result E (V × Bytes))
      → IsSteady forced f (reading forced f s now later content)
  unfolding reading after_load
  reading-IsSteady forced f s now later (err e) = failing-IsSteady forced f s now later e f.val refl
  reading-IsSteady forced f s now later (ok (u, raw)) = record {
    stays = λ v has. (u, refl);
    limit = refl;
    serves = λ v has quiet free. (u, refl, refl);
    gives = λ fine. (u, refl, refl);
  }

  settled_loaded :
      (f : FileValue V E) (s : Option Stamp) (o : Option V)
      → settled_val f s o ≡ true
      → (v : V) × (o ≡ some v)
  unfolding settled_val
  settled_loaded f s none h = absurd (ground (arith, h))
  settled_loaded f s (some v) h = (v, refl)

  kept-IsSteady :
      (forced : Bool) (f : FileValue V E) (s : Option Stamp) (now : ℕ)
      → settled f s ≡ true
      → IsSteady forced f (kept f now no_hook, f)
  unfolding settled
  kept-IsSteady forced f s now h = record {
    stays = λ v has. (v, has);
    limit = refl;
    serves = λ v has quiet free.
        let (value, fine) = kept_serves f now no_hook v has free in (v, value, fine);
    gives = λ fine.
        let (v, has) = settled_loaded f s f.val h in (v, kept_gives f now no_hook v has fine, has);
  }

  reload-IsSteady :
      (forced : Bool) (f : FileValue V E) (s : Option Stamp) (now later : ℕ)
      (content : Result E (V × Bytes))
      → IsSteady forced f (reload forced f s now later content)
  unfolding reload
  reload-IsSteady forced f s now later content = elim (Bool-cases (not forced && settled f s)) [
    | inl quiet ↦ rw quiet (kept-IsSteady forced f s now (ground (arith, quiet)))
    | inr busy ↦ rw busy (reading-IsSteady forced f s now later content)
  ]

  get-reload :
      (forced : Bool) (f : FileValue V E) (s : Option Stamp) (now later : ℕ)
      (content : Result E (V × Bytes))
      → get forced f s now later content ≡ reload forced f s now later content
  unfolding get reload peek
  get-reload forced f s now later content = elim (Bool-cases (not forced && settled f s)) [
    | inl quiet ↦ ground (arith, quiet)
    | inr busy ↦ ground (arith, busy)
  ]

  pub get-IsSteady :
      (forced : Bool) (f : FileValue V E) (s : Option Stamp) (now later : ℕ)
      (content : Result E (V × Bytes))
      → IsSteady forced f (get forced f s now later content)
  get-IsSteady forced f s now later content =
      rw get-reload (reload-IsSteady forced f s now later content)

  -- A forced call keeps what it reads, or what was kept before.
  pub forced_direct :
      (f : FileValue V E) (s : Option Stamp) (now later : ℕ) (content : Result E (V × Bytes))
      → (get true f s now later content).1.val ≡ direct f.val content
  unfolding get peek reload reading after_load failing after_failure
  forced_direct f s now later (ok (v, raw)) = refl
  forced_direct f s now later (err e) = failing_val f.val refl
    where
      failing_val : (o : Option V) → f.val ≡ o → (failing true f s now later e o).1.val ≡ f.val
      failing_val none is = refl
      failing_val (some v) is = refl

  -- A forced call fails exactly where reading fails.
  pub forced_fails :
      (f : FileValue V E) (s : Option Stamp) (now later : ℕ) (content : Result E (V × Bytes))
      → (get true f s now later content).0.error ≡ none
      → (v : V) × (raw : Bytes) × (content ≡ ok (v, raw))
  unfolding get peek reload reading failing report after_failure
  forced_fails f s now later (ok (v, raw)) h = (v, raw, refl)
  forced_fails f s now later (err e) h = absurd (failing_error f.val h)
    where
      failing_error : (o : Option V) → (failing true f s now later e o).0.error ≡ none → ⊥
      failing_error none q = absurd (ground (arith, q))
      failing_error (some v) q = absurd (ground (arith, q))
