-- ===== src/Tls/Reload/Kept.antt =====
-- Which value tls/reloader/reload.go keeps, and for how long.
use tokyo3_base.Base.{
  ℕ, ◌+◌, ◌≡◌, refl, ap, subst, ◌∙◌, Bool, true, false, not, ◌&&◌, ◌⊎◌, inl, inr, Option, none,
  some, List, [], ◌∷◌, Bytes, Result, ok, err, All, arith, Option-cases, Bool-cases, ltb,
  if◌then◌else◌,
}
use tokyo3_base.Base.Int.{ℤ, pos_part, is_nonpositive}
use tokyo3_base.Tls.Reload.{
  Stamp, FileValue, Hook, Got, no_hook, failed, unloaded, settled, is_past, kept, after_failure,
  after_load, report, failing, reading, reload, peek, get, since_or,
}

-- A call under the write lock: whether it is forced, the stamp and the content that it sees, and its two
-- readings of the clock.
pub record Call (V E : Type 0) : Type 0 where
  pub forced : Bool
  pub stat : Option Stamp
  pub now : ℕ
  pub later : ℕ
  pub content : Result E (V × Bytes)

module _ {V E : Type 0} where
  unfoldable pub step : FileValue V E → Call V E → Got V E × FileValue V E
  step f c = reload c.forced f c.stat c.now c.later c.content

  -- Any calls, in the order in which they took the lock.
  unfoldable pub run : FileValue V E → List (Call V E) → FileValue V E
  unfolding step
  run f [] = f
  run f (c ∷ cs) = run (step f c).1 cs

  -- The calls that read a value.
  abbrev pub Reads : V → List (Call V E) → Type 0
  Reads v [] = ⊥
  Reads v (c ∷ cs) = ((raw : Bytes) × (c.content ≡ ok (v, raw))) ⊎ Reads v cs

  reading_val :
      (forced : Bool) (f : FileValue V E) (s : Option Stamp) (now later : ℕ)
      (content : Result E (V × Bytes)) (v : V)
      → (reading forced f s now later content).1.val ≡ some v
      → (f.val ≡ some v) ⊎ ((raw : Bytes) × (content ≡ ok (v, raw)))
  unfolding reading failing after_failure after_load
  reading_val forced f s now later (ok (w, raw)) v h =
      let e : w ≡ v = ground (arith, h) in inr (raw, rw e refl)
  reading_val forced f s now later (err e) v h = elim (Option-cases f.val) [
    | inl n ↦ absurd (ground (arith, rw n at h))
    | inr (w, is) ↦ inl (is ∙ (rw is at h))
  ]

  step_val :
      (f : FileValue V E) (c : Call V E) (v : V)
      → (step f c).1.val ≡ some v
      → (f.val ≡ some v) ⊎ ((raw : Bytes) × (c.content ≡ ok (v, raw)))
  unfolding step reload
  step_val f c v h = elim (Bool-cases (not c.forced && settled f c.stat)) [
    | inl quiet ↦ inl (rw quiet at h)
    | inr busy ↦ reading_val c.forced f c.stat c.now c.later c.content v (rw busy at h)
  ]

  run_val :
      (f : FileValue V E) (cs : List (Call V E)) (v : V)
      → (run f cs).val ≡ some v
      → (f.val ≡ some v) ⊎ Reads v cs
  unfolding run
  run_val f [] v h = inl h
  run_val f (c ∷ cs) v h = elim (run_val (step f c).1 cs v h) [
    | inr later ↦ inr (inr later)
    | inl here ↦ elim (step_val f c v here) [ inl before ↦ inl before | inr read ↦ inr (inl read) ]
  ]

  kept_value :
      (f : FileValue V E) (now : ℕ) (h : Hook V E) (v : V)
      → (kept f now h).value ≡ some v
      → f.val ≡ some v
  unfolding kept
  kept_value f now h v is = ground (arith, is)

  failing_value :
      (forced : Bool) (f : FileValue V E) (s : Option Stamp) (now later : ℕ) (e : E) (o : Option V)
      (v : V)
      → f.val ≡ o
      → (failing forced f s now later e o).0.value ≡ some v
      → f.val ≡ some v
  unfolding failing report after_failure
  failing_value forced f s now later e none v is h = absurd (ground (arith, h))
  failing_value true f s now later e (some w) v is h =
      kept_value (after_failure f s now e) later no_hook v h
  failing_value false f s now later e (some w) v is h =
      kept_value (after_failure f s now e) later (failed e) v h

  reading_value :
      (forced : Bool) (f : FileValue V E) (s : Option Stamp) (now later : ℕ)
      (content : Result E (V × Bytes)) (v : V)
      → (reading forced f s now later content).0.value ≡ some v
      → (f.val ≡ some v) ⊎ ((raw : Bytes) × (content ≡ ok (v, raw)))
  unfolding reading
  reading_value forced f s now later (ok (w, raw)) v h =
      let e : w ≡ v = ground (arith, h) in inr (raw, rw e refl)
  reading_value forced f s now later (err e) v h =
      inl (failing_value forced f s now later e f.val v refl h)

  -- Where nothing is in between, the answer under the read lock is the one under the write lock.
  pub get-step :
      (f : FileValue V E) (c : Call V E) → get c.forced f c.stat c.now c.later c.content ≡ step f c
  unfolding get step reload peek
  get-step f c = elim (Bool-cases (not c.forced && settled f c.stat)) [
    | inl quiet ↦ ground (arith, quiet)
    | inr busy ↦ ground (arith, busy)
  ]

  step_value :
      (f : FileValue V E) (c : Call V E) (v : V)
      → (step f c).0.value ≡ some v
      → (f.val ≡ some v) ⊎ ((raw : Bytes) × (c.content ≡ ok (v, raw)))
  unfolding step reload
  step_value f c v h = elim (Bool-cases (not c.forced && settled f c.stat)) [
    | inl quiet ↦ inl (kept_value f c.now no_hook v (rw quiet at h))
    | inr busy ↦ reading_value c.forced f c.stat c.now c.later c.content v (rw busy at h)
  ]

  -- Whatever calls came before, in whatever order they took the lock: a value that a call gives was read
  -- from the files without an error, by this call or by one of those before it.
  pub get_served :
      (limit : Option ℤ) (cs : List (Call V E)) (c : Call V E) (v : V)
      → (get c.forced (run (unloaded limit) cs) c.stat c.now c.later c.content).0.value ≡ some v
      → Reads v (c ∷ cs)
  unfolding unloaded
  get_served limit cs c v h = elim (step_value (run (unloaded limit) cs) c v (rw get-step at h)) [
    | inr read ↦ inl read
    | inl held ↦ elim (run_val (unloaded limit) cs v held) [
      | inr read ↦ inr read
      | inl never ↦ absurd (ground (arith, never))
    ]
  ]

  -- A value is kept while reloads fail, since a time.
  abbrev pub IsFailing : Option ℤ → V → ℕ → FileValue V E → Type 0
  IsFailing limit v t f = (f.max_stale ≡ limit) × (f.val ≡ some v) × (f.fail_since ≡ some t)

  abbrev pub Fails : Call V E → Type 0
  Fails c = (e : E) × (c.content ≡ err e)

  failing_state :
      (forced : Bool) (f : FileValue V E) (s : Option Stamp) (now later : ℕ) (e : E) (o : Option V)
      (v : V)
      → o ≡ some v
      → (failing forced f s now later e o).1 ≡ after_failure f s now e
  unfolding failing
  failing_state forced f s now later e none v h = absurd (ground (arith, h))
  failing_state forced f s now later e (some w) v h = refl

  -- The state of a reading that failed, with a value kept.
  reading_failed :
      (forced : Bool) (f : FileValue V E) (s : Option Stamp) (now later : ℕ)
      (content : Result E (V × Bytes)) (e : E) (v : V)
      → f.val ≡ some v
      → content ≡ err e
      → (reading forced f s now later content).1 ≡ after_failure f s now e
  unfolding reading
  reading_failed forced f s now later (ok p) e v is bad = absurd (ground (arith, bad))
  reading_failed forced f s now later (err x) e v is bad =
      let same : x ≡ e = ground (arith, bad) in
      rw same (failing_state forced f s now later e f.val v is)

  step-IsFailing :
      (limit : Option ℤ) (v : V) (t : ℕ) (f : FileValue V E) (c : Call V E)
      → IsFailing limit v t f
      → Fails c
      → IsFailing limit v t (step f c).1
  unfolding step reload after_failure
  step-IsFailing limit v t f c (l, is, since) (e, bad) =
      elim (Bool-cases (not c.forced && settled f c.stat)) [
        | inl quiet ↦ rw quiet (l, is, since)
        | inr busy ↦
            let moved = reading_failed c.forced f c.stat c.now c.later c.content e v is bad in
            rw busy (rw moved (l, is, kept_since))
      ]
    where
      kept_since : since_or f.fail_since c.now ≡ some t
      kept_since = ground (arith, since)

  run-IsFailing :
      (limit : Option ℤ) (v : V) (t : ℕ) (f : FileValue V E) (cs : List (Call V E))
      → IsFailing limit v t f
      → All Fails cs
      → IsFailing limit v t (run f cs)
  unfolding run
  run-IsFailing limit v t f [] h bad = h
  run-IsFailing limit v t f (c ∷ cs) h bad =
      run-IsFailing limit v t (step f c).1 cs (step-IsFailing limit v t f c h bad.0) bad.1

  kept_within :
      (f : FileValue V E) (now : ℕ) (h : Hook V E) (limit : ℤ) (v : V) (t : ℕ)
      → IsFailing (some limit) v t f
      → (kept f now h).value
        ≡ (if not (is_nonpositive limit) && ltb (t + pos_part limit) now then none else some v)
  unfolding kept is_past
  kept_within f now h limit v t (l, is, since) = ground (arith, l, is, since)

  failing_within :
      (forced : Bool) (f : FileValue V E) (s : Option Stamp) (now later : ℕ) (e : E) (o : Option V)
      (limit : ℤ) (v : V) (t : ℕ)
      → IsFailing (some limit) v t f
      → o ≡ some v
      → (failing forced f s now later e o).0.value
        ≡ (if not (is_nonpositive limit) && ltb (t + pos_part limit) later then none else some v)
  unfolding failing report after_failure
  failing_within forced f s now later e none limit v t h is = absurd (ground (arith, is))
  failing_within true f s now later e (some w) limit v t (l, is, since) h =
      kept_within (after_failure f s now e) later no_hook limit v t (l, is, ground (arith, since))
  failing_within false f s now later e (some w) limit v t (l, is, since) h =
      kept_within (after_failure f s now e) later (failed e) limit v t
        (l, is, ground (arith, since))

  reading_within :
      (forced : Bool) (f : FileValue V E) (s : Option Stamp) (now later : ℕ)
      (content : Result E (V × Bytes)) (e : E) (limit : ℤ) (v : V) (t : ℕ)
      → IsFailing (some limit) v t f
      → content ≡ err e
      → (reading forced f s now later content).0.value
        ≡ (if not (is_nonpositive limit) && ltb (t + pos_part limit) later then none else some v)
  unfolding reading
  reading_within forced f s now later (ok p) e limit v t h bad = absurd (ground (arith, bad))
  reading_within forced f s now later (err x) e limit v t h bad =
      failing_within forced f s now later x f.val limit v t h h.1

  step_within :
      (f : FileValue V E) (c : Call V E) (limit : ℤ) (v : V) (t : ℕ)
      → IsFailing (some limit) v t f
      → Fails c
      → c.later ≡ c.now
      → (step f c).0.value
        ≡ (if not (is_nonpositive limit) && ltb (t + pos_part limit) c.now then none else some v)
  unfolding step reload
  step_within f c limit v t h (e, bad) same = elim (Bool-cases (not c.forced && settled f c.stat)) [
    | inl quiet ↦ rw quiet (kept_within f c.now no_hook limit v t h)
    | inr busy ↦ rw busy (
        subst
          (λ (x : ℕ).
            (reading c.forced f c.stat c.now c.later c.content).0.value
            ≡ (if not (is_nonpositive limit) && ltb (t + pos_part limit) x then none else some v))
          same (reading_within c.forced f c.stat c.now c.later c.content e limit v t h bad))
  ]

  -- While the files stay unloadable, from a reload on that failed at a time t, with any calls in between:
  -- a call, forced or not, whose two readings of the clock agree gives the last good value up to t plus
  -- MaxStale, and no value after that; without a positive MaxStale it gives that value always.
  pub outage_bounded :
      (limit : ℤ) (v : V) (t : ℕ) (f : FileValue V E) (cs : List (Call V E)) (c : Call V E)
      → IsFailing (some limit) v t f
      → All Fails cs
      → Fails c
      → c.later ≡ c.now
      → (get c.forced (run f cs) c.stat c.now c.later c.content).0.value
        ≡ (if not (is_nonpositive limit) && ltb (t + pos_part limit) c.now then none else some v)
  outage_bounded limit v t f cs c h bad now_bad same =
      ap (λ x. x.0.value) (get-step (run f cs) c)
      ∙ step_within (run f cs) c limit v t (run-IsFailing (some limit) v t f cs h bad) now_bad same
