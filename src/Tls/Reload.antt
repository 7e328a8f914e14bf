-- ===== src/Tls/Reload.antt =====
-- tls/reloader/reload.go: the state machine that keeps the last good value of some files. A call is
-- given what it sees of the files: their modification times, or none where one cannot be stat'ed, and
-- what reading them gives. Its two readings of the clock are arguments. An empty stamp is nil.
pub mod Kept
pub mod Direct
pub mod Loaded
use tokyo3_base.Base.{
  ℕ, ◌+◌, ◌≡◌, Bool, true, false, not, ◌&&◌, ◌||◌, Option, none, some, List, [], ◌∷◌, Bytes, Result,
  ok, err, ltb, ◌==◌, if◌then◌else◌,
}
use tokyo3_base.Base.Int.{ℤ, pos_part, is_nonpositive}

abbrev pub Stamp : Type 0
Stamp = List ℕ

unfoldable pub equal : Stamp → Stamp → Bool
equal [] [] = true
equal [] (y ∷ ys) = false
equal (x ∷ xs) [] = false
equal (x ∷ xs) (y ∷ ys) = (x == y) && equal xs ys

-- `val` and `loaded` are one optional value.
pub record FileValue (V E : Type 0) : Type 0 where
  pub max_stale : Option ℤ
  pub val : Option V
  pub loaded_at : Stamp
  pub failed_at : Stamp
  pub stat_failed : Bool
  pub fail_since : Option ℕ
  pub fail_err : Option E

pub data Failure (E : Type 0) : Type 0 where
  unloadable : E → Failure E
  too_stale : Option E → Failure E

-- The hook that runs after the lock is released.
pub data Hook (V E : Type 0) : Type 0 where
  no_hook : Hook V E
  swapped : V → Bytes → Option ℕ → Hook V E
  failed : E → Hook V E

-- Go returns a value, which may be the zero value, and an error, which may be nil.
pub record Got (V E : Type 0) : Type 0 where
  pub value : Option V
  pub error : Option (Failure E)
  pub hook : Hook V E

-- Whether failures that began at a time have lasted longer than the limit.
unfoldable pub is_past : Option ℤ → Option ℕ → ℕ → Bool
is_past none since now = false
is_past (some limit) none now = false
is_past (some limit) (some t) now = not (is_nonpositive limit) && ltb (t + pos_part limit) now

since_or : Option ℕ → ℕ → Option ℕ
since_or none now = some now
since_or (some t) now = some t

or_nil : Option Stamp → Stamp
or_nil none = []
or_nil (some s) = s

is_none : Option Stamp → Bool
is_none none = true
is_none (some s) = false

loaded_or : Option Stamp → Stamp → Stamp
loaded_or none old = old
loaded_or (some s) old = s

first_of : Stamp → Option ℕ
first_of [] = none
first_of (t ∷ ts) = some t

mtime_of : Option Stamp → Option ℕ
unfolding first_of
mtime_of none = none
mtime_of (some s) = first_of s

module _ {V E : Type 0} where
  -- A value that has not loaded yet.
  unfoldable pub unloaded : Option ℤ → FileValue V E
  unloaded limit = record {
    max_stale = limit;
    val = none;
    loaded_at = [];
    failed_at = [];
    stat_failed = false;
    fail_since = none;
    fail_err = none;
  }

  settled_at : FileValue V E → Option ℕ → Stamp → Bool
  settled_at f none s = equal s f.loaded_at
  settled_at f (some t) s = equal s f.failed_at

  settled_stat : FileValue V E → Option Stamp → Bool
  unfolding settled_at
  settled_stat f none = f.stat_failed
  settled_stat f (some s) = settled_at f f.fail_since s

  settled_val : FileValue V E → Option Stamp → Option V → Bool
  unfolding settled_stat
  settled_val f s none = false
  settled_val f s (some v) = settled_stat f s

  unfoldable pub settled : FileValue V E → Option Stamp → Bool
  unfolding settled_val
  settled f s = settled_val f s f.val

  -- `keptLocked`, with the hook that follows.
  unfoldable pub kept : FileValue V E → ℕ → Hook V E → Got V E
  unfolding is_past
  kept f now h =
      if is_past f.max_stale f.fail_since now
      then record { value = none; error = some (too_stale f.fail_err); hook = h }
      else record { value = f.val; error = none; hook = h }

  -- The state after a reading that failed, where a value was loaded before.
  unfoldable pub after_failure : FileValue V E → Option Stamp → ℕ → E → FileValue V E
  unfolding since_or or_nil is_none
  after_failure f s now e = record f {
    failed_at = or_nil s;
    stat_failed = is_none s;
    fail_since = since_or f.fail_since now;
    fail_err = some e;
  }

  -- The state after a reading that succeeded.
  unfoldable pub after_load : FileValue V E → Option Stamp → V → FileValue V E
  unfolding loaded_or
  after_load f s v = record f {
    val = some v;
    loaded_at = loaded_or s f.loaded_at;
    failed_at = [];
    stat_failed = false;
    fail_since = none;
    fail_err = none;
  }

  -- A forced call gives the failure beside the kept value, and runs no hook.
  report : Bool → FileValue V E → ℕ → E → Got V E
  unfolding kept
  report true f later e = record (kept f later no_hook) { error = some (unloadable e) }
  report false f later e = kept f later (failed e)

  failing : Bool → FileValue V E → Option Stamp → ℕ → ℕ → E → Option V → Got V E × FileValue V E
  unfolding report after_failure
  failing forced f s now later e none =
      (record { value = none; error = some (unloadable e); hook = no_hook }, f)
  failing forced f s now later e (some v) =
      let f' = after_failure f s now e in (report forced f' later e, f')

  reading :
      Bool → FileValue V E → Option Stamp → ℕ → ℕ → Result E (V × Bytes) → Got V E × FileValue V E
  unfolding failing after_load mtime_of
  reading forced f s now later (err e) = failing forced f s now later e f.val
  reading forced f s now later (ok (v, raw)) =
      (record { value = some v; error = none; hook = swapped v raw (mtime_of s) }, after_load f s v)

  -- What a call does under the write lock: all that changes the state. The stamp is read before the lock
  -- is taken, so it may be older than the state.
  unfoldable pub reload :
      Bool → FileValue V E → Option Stamp → ℕ → ℕ → Result E (V × Bytes) → Got V E × FileValue V E
  unfolding reading
  reload forced f s now later content =
      if not forced && settled f s
      then (kept f now no_hook, f)
      else reading forced f s now later content

  -- The answer under the read lock, where there is one; the call goes on to `reload` otherwise.
  unfoldable pub peek : Bool → FileValue V E → Option Stamp → ℕ → Option (Got V E)
  peek forced f s now = if not forced && settled f s then some (kept f now no_hook) else none

  -- `get`, where no other call comes in between the two locks.
  unfoldable pub get :
      Bool → FileValue V E → Option Stamp → ℕ → ℕ → Result E (V × Bytes) → Got V E × FileValue V E
  unfolding peek
  get forced f s now later content = elim (peek forced f s now) [
    | some g ↦ (g, f)
    | none ↦ reload forced f s now later content
  ]
