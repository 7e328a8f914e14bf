-- ===== src/Tls/Reload/Direct.antt =====
-- tls/reloader/reload.go against a reader that reads the files on every call.
use tokyo3_base.Base.{
  ℕ, zero, suc, ◌+◌, ltb, if◌then◌else◌, ◌<◌, ◌≡◌, refl, ap, sym, ◌∙◌, Bool, true, false, not, ◌&&◌,
  ◌⊎◌, inl, inr, Option, none, some, List, [], ◌∷◌, Bytes, Result, ok, err, All, arith, Bool-cases,
  length, ==_iff,
}
use tokyo3_base.Base.Int.{ℤ, pos, negsuc, pos_part, is_nonpositive}
use tokyo3_base.Tls.Reload.{
  Stamp, FileValue, Hook, Got, no_hook, failed, unloaded, equal, settled, settled_val, settled_stat,
  settled_at, is_past, kept, after_failure, after_load, report, failing, reading, reload, get,
  since_or, or_nil, loaded_or,
}
use tokyo3_base.Tls.Reload.Kept.{Call, step, run, get-step}

equal_eq : (xs ys : Stamp) → equal xs ys ≡ true → xs ≡ ys
unfolding equal
equal_eq [] [] h = refl
equal_eq [] (y ∷ ys) h = absurd (ground (arith, h))
equal_eq (x ∷ xs) [] h = absurd (ground (arith, h))
equal_eq (x ∷ xs) (y ∷ ys) h = ground (arith, h, ==_iff x y, equal_eq xs ys)

-- What a reading leaves to fall back on.
module _ {V E : Type 0} where
  abbrev pub direct : Option V → Result E (V × Bytes) → Option V
  direct last (ok (v, raw)) = some v
  direct last (err e) = last

-- A reader without a memory of stamps: what it read last, and since when it cannot read.
pub record Reader (V : Type 0) : Type 0 where
  pub last : Option V
  pub since : Option ℕ

module _ {V : Type 0} where
  unfoldable pub fail_next : Reader V → ℕ → Option V → Reader V
  fail_next d now none = d
  fail_next d now (some v) = record d { since = elim d.since [ none ↦ some now | some t ↦ some t ] }

module _ {V E : Type 0} where
  -- It reads on every call.
  unfoldable pub read_next : Reader V → ℕ → Result E (V × Bytes) → Reader V
  unfolding fail_next
  read_next d now (ok (v, raw)) = record { last = some v; since = none }
  read_next d now (err e) = fail_next d now d.last

  unfoldable pub read_all : Reader V → List (Call V E) → Reader V
  read_all d [] = d
  read_all d (c ∷ cs) = read_all (read_next d c.now c.content) cs

-- Whether failures that began at a time have lasted longer than a limit that is positive.
unfoldable pub too_old : Option ℤ → Option ℕ → ℕ → Bool
too_old none since now = false
too_old (some limit) none now = false
too_old (some limit) (some t) now = ltb 0 (pos_part limit) && ltb (t + pos_part limit) now

module _ {V : Type 0} where
  unfoldable pub serves : Option ℤ → Reader V → ℕ → Option V
  serves limit d now = if too_old limit d.since now then none else d.last

nonpositive_part : (limit : ℤ) → not (is_nonpositive limit) ≡ ltb 0 (pos_part limit)
nonpositive_part (pos zero) = refl
nonpositive_part (pos (suc n)) = ground arith
nonpositive_part (negsuc n) = refl

is_past-too_old :
    (limit : Option ℤ) (since : Option ℕ) (now : ℕ)
    → is_past limit since now ≡ too_old limit since now
unfolding is_past too_old
is_past-too_old none since now = refl
is_past-too_old (some limit) none now = refl
is_past-too_old (some limit) (some t) now = rw (nonpositive_part limit) refl

not_nil : (s : Stamp) → 0 < length s → equal s [] ≡ true → ⊥
unfolding equal
not_nil [] long h = absurd (omega arith)
not_nil (x ∷ xs) long h = absurd (ground (arith, h))

-- No limit on how long a value is kept.
abbrev pub is_unlimited : Option ℤ → Bool
is_unlimited none = true
is_unlimited (some limit) = is_nonpositive limit

pub not_past :
    (limit : Option ℤ) (since : Option ℕ) (now : ℕ)
    → is_unlimited limit ≡ true
    → is_past limit since now ≡ false
unfolding is_past
not_past none since now h = refl
not_past (some limit) none now h = refl
not_past (some limit) (some t) now h = ground (arith, h)

module _ {V E : Type 0} (content_of : Stamp → Result E (V × Bytes)) where
  -- The files are there, and their times tell their content; or they are not, and reading fails.
  abbrev pub IsCoherent : Option Stamp → Result E (V × Bytes) → Type 0
  IsCoherent stat content =
      ((s : Stamp) × (stat ≡ some s) × (0 < length s) × (content ≡ content_of s))
      ⊎ ((e : E) × (stat ≡ none) × (content ≡ err e))

  -- What the stamps remember: what the files at them gave; and since when there is none.
  record Remembers (f : FileValue V E) : Type 0 where
    at_load :
        (s : Stamp)
        → f.fail_since ≡ none
        → 0 < length s
        → equal s f.loaded_at ≡ true
        → (v : V) × (raw : Bytes) × (f.val ≡ some v) × (content_of s ≡ ok (v, raw))
    at_failure :
        (t : ℕ) (s : Stamp)
        → f.fail_since ≡ some t
        → 0 < length s
        → equal s f.failed_at ≡ true
        → (e : E) × (content_of s ≡ err e)
    gone : f.stat_failed ≡ true → (t : ℕ) × (f.fail_since ≡ some t)

  -- The reader that has read what the state has.
  abbrev pub reader_of : FileValue V E → Reader V
  reader_of f = record { last = f.val; since = f.fail_since }

  fail_next_since :
      (last : Option V) (since : Option ℕ) (now t : ℕ) (o : Option V)
      → since ≡ some t
      → fail_next (record { last = last; since = since }) now o
        ≡ record { last = last; since = since }
  unfolding fail_next
  fail_next_since last since now t none h = refl
  fail_next_since last since now t (some v) h = rw h refl

  settled_there :
      (f : FileValue V E) (s : Stamp) (now : ℕ) (since : Option ℕ)
      → Remembers f
      → 0 < length s
      → f.fail_since ≡ since
      → settled_at f since s ≡ true
      → read_next (reader_of f) now (content_of s) ≡ reader_of f
  unfolding settled_at read_next
  settled_there f s now none m long fine h =
      let (v, raw, is, at) = m.at_load s fine long h in rw (at, is, fine) refl
  settled_there f s now (some t) m long since h =
      let (e, at) = m.at_failure t s since long h in
      rw at (fail_next_since f.val f.fail_since now t f.val since)

  settled_gone :
      (f : FileValue V E) (now : ℕ) (e : E)
      → Remembers f
      → f.stat_failed ≡ true
      → read_next (reader_of f) now (err e) ≡ reader_of f
  unfolding read_next
  settled_gone f now e m h =
      let (t, since) = m.gone h in fail_next_since f.val f.fail_since now t f.val since

  settled_inv :
      (f : FileValue V E) (stat : Option Stamp) (o : Option V)
      → settled_val f stat o ≡ true
      → settled_stat f stat ≡ true
  unfolding settled_val
  settled_inv f stat none h = absurd (ground (arith, h))
  settled_inv f stat (some v) h = h

  -- Where a call does not read, reading would have changed nothing.
  read_next-settled :
      (f : FileValue V E) (stat : Option Stamp) (now : ℕ) (content : Result E (V × Bytes))
      → Remembers f
      → IsCoherent stat content
      → settled f stat ≡ true
      → read_next (reader_of f) now content ≡ reader_of f
  unfolding settled settled_stat
  read_next-settled f stat now content m (inr (e, gone, bad)) h =
      rw bad (settled_gone f now e m (ap (settled_stat f) (sym gone) ∙ settled_inv f stat f.val h))
  read_next-settled f stat now content m (inl (s, at, long, is)) h = rw is (
      settled_there f s now f.fail_since m long refl
        (ap (settled_stat f) (sym at) ∙ settled_inv f stat f.val h))

  kept_serves :
      (f : FileValue V E) (now : ℕ) (h : Hook V E)
      → (kept f now h).value ≡ serves f.max_stale (reader_of f) now
  unfolding kept serves
  kept_serves f now h = elim (Bool-cases (is_past f.max_stale f.fail_since now)) [
    | inl old ↦ rw (old, sym (is_past-too_old f.max_stale f.fail_since now) ∙ old) refl
    | inr young ↦ rw (young, sym (is_past-too_old f.max_stale f.fail_since now) ∙ young) refl
  ]

  Remembers-load :
      (f : FileValue V E) (stat : Option Stamp) (v : V) (raw : Bytes)
      → IsCoherent stat (ok (v, raw))
      → Remembers (after_load f stat v)
  unfolding after_load loaded_or
  Remembers-load f stat v raw (inr (e, gone, bad)) = absurd (ground (arith, bad))
  Remembers-load f stat v raw (inl (s, at, long, is)) = record {
    at_load = λ s' fine long' h.
        let same : s' ≡ s =
          equal_eq s' s
            (ap (λ (x : Option Stamp). equal s' (loaded_or x f.loaded_at)) (sym at) ∙ h) in
        (v, raw, refl, ap content_of same ∙ sym is);
    at_failure = λ t s' since long' h. absurd (ground (arith, since));
    gone = λ h. absurd (ground (arith, h));
  }

  since_or-some : (o : Option ℕ) (now : ℕ) → (t : ℕ) × (since_or o now ≡ some t)
  unfolding since_or
  since_or-some none now = (now, refl)
  since_or-some (some t) now = (t, refl)

  Remembers-failure :
      (f : FileValue V E) (stat : Option Stamp) (now : ℕ) (e : E)
      → IsCoherent stat (err e)
      → Remembers (after_failure f stat now e)
  unfolding after_failure or_nil since_or
  Remembers-failure f stat now e coherent = record {
    at_load = λ s' fine long' h. absurd (began f.fail_since fine);
    at_failure = λ t s' since long' h. failed_there s' long' h coherent;
    gone = λ h. since_or-some f.fail_since now;
  }
    where
      began : (o : Option ℕ) → since_or o now ≡ none → ⊥
      began none q = absurd (ground (arith, q))
      began (some t) q = absurd (ground (arith, q))

      failed_there :
          (s' : Stamp)
          → 0 < length s'
          → equal s' (or_nil stat) ≡ true
          → IsCoherent stat (err e)
          → (x : E) × (content_of s' ≡ err x)
      failed_there s' long' h (inl (s, at, long, is)) =
          let same : s' ≡ s =
            equal_eq s' s (ap (λ (x : Option Stamp). equal s' (or_nil x)) (sym at) ∙ h) in
          (e, ap content_of same ∙ sym is)
      failed_there s' long' h (inr (x, gone, bad)) =
          absurd (not_nil s' long' (ap (λ (y : Option Stamp). equal s' (or_nil y)) (sym gone) ∙ h))

  -- A call gives what the reader serves at one of the two times that it looks at the clock, and leaves
  -- what the reader is left with.
  abbrev pub IsServed : Option ℤ → Reader V → ℕ → ℕ → Option V → Type 0
  IsServed limit d now later value = (value ≡ serves limit d now) ⊎ (value ≡ serves limit d later)

  abbrev IsDirect : FileValue V E → ℕ → ℕ → Result E (V × Bytes) → Got V E × FileValue V E → Type 0
  IsDirect f now later content p =
      IsServed f.max_stale (read_next (reader_of f) now content) now later p.0.value
      × (reader_of p.1 ≡ read_next (reader_of f) now content)
      × Remembers p.1
      × (p.1.max_stale ≡ f.max_stale)

  fail_next-after_failure :
      (f : FileValue V E) (stat : Option Stamp) (now : ℕ) (e : E) (o : Option ℕ) (v : V)
      → f.fail_since ≡ o
      → reader_of (after_failure f stat now e) ≡ fail_next (reader_of f) now (some v)
  unfolding after_failure fail_next since_or
  fail_next-after_failure f stat now e none v h = rw h refl
  fail_next-after_failure f stat now e (some t) v h = rw h refl

  no_value :
      (limit : Option ℤ) (since : Option ℕ) (now : ℕ)
      → serves {V = V} limit (record { last = none; since = since }) now ≡ none
  unfolding serves
  no_value limit since now = elim (Bool-cases (too_old limit since now)) [
    | inl old ↦ rw old refl
    | inr young ↦ rw young refl
  ]

  reported :
      (forced : Bool) (f : FileValue V E) (later : ℕ) (e : E)
      → (report forced f later e).value ≡ serves f.max_stale (reader_of f) later
  unfolding report
  reported true f later e = kept_serves f later no_hook
  reported false f later e = kept_serves f later (failed e)

  loaded_serves :
      (limit : Option ℤ) (v : V) (now : ℕ)
      → some v ≡ serves limit (record { last = some v; since = none }) now
  unfolding serves too_old
  loaded_serves none v now = refl
  loaded_serves (some limit) v now = refl

  fail_next-none : (d : Reader V) (now : ℕ) (o : Option V) → o ≡ none → fail_next d now o ≡ d
  unfolding fail_next
  fail_next-none d now none h = refl
  fail_next-none d now (some v) h = absurd (ground (arith, h))

  failing-IsDirect :
      (forced : Bool) (f : FileValue V E) (stat : Option Stamp) (now later : ℕ) (e : E)
      (o : Option V)
      → Remembers f
      → IsCoherent stat (err e)
      → f.val ≡ o
      → IsDirect f now later (err e) (failing forced f stat now later e o)
  unfolding failing report after_failure read_next
  failing-IsDirect forced f stat now later e none m coherent is =
      let stays : fail_next (reader_of f) now f.val ≡ reader_of f =
        fail_next-none (reader_of f) now f.val is in
      (
        inl (
            sym (
              ap (λ d. serves f.max_stale d now) stays
              ∙ ap
                  (λ (x : Option V).
                    serves f.max_stale (record { last = x; since = f.fail_since }) now)
                  is
              ∙ no_value f.max_stale f.fail_since now)),
        sym stays,
        m,
        refl,
      )
  failing-IsDirect forced f stat now later e (some v) m coherent is =
      let next : reader_of (after_failure f stat now e) ≡ fail_next (reader_of f) now f.val =
        fail_next-after_failure f stat now e f.fail_since v refl
        ∙ ap (fail_next (reader_of f) now) (sym is) in
      (
        inr (
            reported forced (after_failure f stat now e) later e
            ∙ ap (λ d. serves f.max_stale d later) next),
        next,
        Remembers-failure f stat now e coherent,
        refl,
      )

  reading-IsDirect :
      (forced : Bool) (f : FileValue V E) (stat : Option Stamp) (now later : ℕ)
      (content : Result E (V × Bytes))
      → Remembers f
      → IsCoherent stat content
      → IsDirect f now later content (reading forced f stat now later content)
  unfolding reading after_load read_next serves too_old
  reading-IsDirect forced f stat now later (ok (v, raw)) m coherent =
      (inl (loaded_serves f.max_stale v now), refl, Remembers-load f stat v raw coherent, refl)
  reading-IsDirect forced f stat now later (err e) m coherent =
      failing-IsDirect forced f stat now later e f.val m coherent refl

  step-IsDirect :
      (f : FileValue V E) (c : Call V E)
      → Remembers f
      → IsCoherent c.stat c.content
      → IsDirect f c.now c.later c.content (step f c)
  unfolding step reload
  step-IsDirect f c m coherent = elim (Bool-cases (not c.forced && settled f c.stat)) [
    | inr busy ↦ rw busy (reading-IsDirect c.forced f c.stat c.now c.later c.content m coherent)
    | inl quiet ↦
        let same = read_next-settled f c.stat c.now c.content m coherent (ground (arith, quiet)) in
        rw (quiet, same) (inl (kept_serves f c.now no_hook), refl, m, refl)
  ]

  abbrev pub AreCoherent : List (Call V E) → Type 0
  AreCoherent cs = All (λ (c : Call V E). IsCoherent c.stat c.content) cs

  run_direct :
      (f : FileValue V E) (cs : List (Call V E))
      → Remembers f
      → AreCoherent cs
      → (reader_of (run f cs) ≡ read_all (reader_of f) cs)
        × Remembers (run f cs)
        × ((run f cs).max_stale ≡ f.max_stale)
  unfolding run read_all
  run_direct f [] m coherent = (refl, m, refl)
  run_direct f (c ∷ cs) m coherent =
      let (_, next, m', same) = step-IsDirect f c m coherent.0 in
      let (end, m'', same') = run_direct (step f c).1 cs m' coherent.1 in
      (end ∙ ap (λ d. read_all d cs) next, m'', same' ∙ same)

  Remembers-unloaded : (limit : Option ℤ) → Remembers (unloaded limit)
  unfolding unloaded
  Remembers-unloaded limit = record {
    at_load = λ s fine long h. absurd (not_nil s long h);
    at_failure = λ t s since long h. absurd (ground (arith, since));
    gone = λ h. absurd (ground (arith, h));
  }

  serves_equal :
      (limit limit' : Option ℤ) (d d' : Reader V) (now later : ℕ) (content : Result E (V × Bytes))
      (value value' : Option V)
      → limit ≡ limit'
      → d ≡ d'
      → value' ≡ value
      → IsServed limit (read_next d now content) now later value
      → IsServed limit' (read_next d' now content) now later value'
  serves_equal limit limit' d d' now later content value value' same end is (inl h) =
      inl (cc (same, end, is, h))
  serves_equal limit limit' d d' now later content value value' same end is (inr h) =
      inr (cc (same, end, is, h))

  -- Where the times of the files tell their content, and files without a time cannot be read: after any
  -- calls, whatever the limit on stale values, a call serves what a reader would that reads the files on
  -- every call, falls back on what it read last, and gives this up once it has failed to read for longer
  -- than the limit, as this stands at one of the call's two looks at the clock. So the gate on modification
  -- times hides no change: neither a new value, nor the return of a file that was bad to the time and
  -- content of the value that is kept, which ends the failures.
  pub get-direct :
      (limit : Option ℤ) (cs : List (Call V E)) (c : Call V E)
      → AreCoherent cs
      → IsCoherent c.stat c.content
      → IsServed limit
          (read_next (read_all (record { last = none; since = none }) cs) c.now c.content)
          c.now
          c.later
          (get c.forced (run (unloaded limit) cs) c.stat c.now c.later c.content).0.value
  unfolding unloaded
  get-direct limit cs c coherent now_coherent =
      let f = run (unloaded limit) cs in
      let (end, m, same) = run_direct (unloaded limit) cs (Remembers-unloaded limit) coherent in
      let (value, _, _, _) = step-IsDirect f c m now_coherent in
      serves_equal f.max_stale limit (reader_of f)
        (read_all (record { last = none; since = none }) cs) c.now c.later c.content
        (step f c).0.value _ same end (ap (λ x. x.0.value) (get-step f c)) value
