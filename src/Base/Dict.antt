-- ===== src/Base/Dict.antt =====
-- Go's `map[string]V`, as an association list. The program never depends on the order in which a
-- map is ranged over, and each operation has its law in terms of `get`.
use Prim.Native.Nat.{ℕ, ◌+◌, ◌≤◌}
use mathlib.Core.Path.{◌≡◌, refl}
use mathlib.Core.Bool.{Bool, false}
use mathlib.Core.List.{List, [], ◌∷◌}
use mathlib.Core.Option.{Option, none, some}
use native.Mathlib.Omega.{arith}
use tokyo3_base.Base.Tests.{if◌then◌else◌}
use tokyo3_base.Base.Lists.{length}
use tokyo3_base.Base.Strings.{Bytes, bytes_eq, bytes_eq_iff, bytes_eq_refl}

abbrev pub Dict {ℓ} : Type ℓ → Type ℓ
Dict V = List (Bytes × V)

abbrev pub keep_value {ℓ} : {V : Type ℓ} → (V → Bool) → Option V → Option V
keep_value p none = none
keep_value p (some v) = if p v then some v else none

module _ {ℓ} {V : Type ℓ} where
  abbrev pub empty : Dict V
  empty = []

  -- `v, ok := m[k]`.
  unfoldable pub get : Bytes → Dict V → Option V
  get k [] = none
  get k ((j, v) ∷ m) = if bytes_eq j k then some v else get k m

  -- `m[k] = v`.
  unfoldable pub put : Bytes → V → Dict V → Dict V
  put k v [] = (k, v) ∷ []
  put k v ((j, w) ∷ m) = if bytes_eq j k then (k, v) ∷ m else (j, w) ∷ put k v m

  -- `delete(m, k)`.
  unfoldable pub remove : Bytes → Dict V → Dict V
  remove k [] = []
  remove k ((j, v) ∷ m) = let rest = remove k m in if bytes_eq j k then rest else (j, v) ∷ rest

  -- `for k, v := range m { if !p(v) { delete(m, k) } }`.
  unfoldable pub keep : (V → Bool) → Dict V → Dict V
  unfolding remove
  keep p [] = []
  keep p ((j, v) ∷ m) = let rest = keep p m in if p v then (j, v) ∷ rest else remove j rest

  -- `len(m)`.
  abbrev pub size : Dict V → ℕ
  size m = length m

  pub get-put :
      (j k : Bytes) (v : V) (m : Dict V)
      → get j (put k v m) ≡ (if bytes_eq k j then some v else get j m)
  unfolding get put
  get-put j k v [] = refl
  get-put j k v ((i, w) ∷ m) =
      ground (arith, get-put j k v m, bytes_eq_iff k j, bytes_eq_iff i k, bytes_eq_iff i j)

  pub get-remove :
      (j k : Bytes) (m : Dict V) → get j (remove k m) ≡ (if bytes_eq k j then none else get j m)
  unfolding get remove
  get-remove j k [] = ground arith
  get-remove j k ((i, w) ∷ m) =
      ground (arith, get-remove j k m, bytes_eq_iff k j, bytes_eq_iff i k, bytes_eq_iff i j)

  pub get-keep : (j : Bytes) (p : V → Bool) (m : Dict V) → get j (keep p m) ≡ keep_value p (get j m)
  unfolding get keep
  get-keep j p [] = refl
  get-keep j p ((i, w) ∷ m) =
      ground (arith, get-keep j p m, get-remove j i (keep p m), bytes_eq_iff i j)

  pub get-put_self : (k : Bytes) (v : V) (m : Dict V) → get k (put k v m) ≡ some v
  get-put_self k v m = ground (arith, get-put k k v m, bytes_eq_refl k)

  pub get-remove_self : (k : Bytes) (m : Dict V) → get k (remove k m) ≡ none
  get-remove_self k m = ground (arith, get-remove k k m, bytes_eq_refl k)

  pub size-remove-le : (k : Bytes) (m : Dict V) → size (remove k m) ≤ size m
  unfolding remove
  size-remove-le k [] = omega arith
  size-remove-le k ((i, w) ∷ m) = ground (arith, size-remove-le k m)

  pub size-keep-le : (p : V → Bool) (m : Dict V) → size (keep p m) ≤ size m
  unfolding keep
  size-keep-le p [] = omega arith
  size-keep-le p ((i, w) ∷ m) = ground (arith, size-keep-le p m, size-remove-le i (keep p m))

  pub size-put-le : (k : Bytes) (v : V) (m : Dict V) → size (put k v m) ≤ size m + 1
  unfolding put
  size-put-le k v [] = omega arith
  size-put-le k v ((i, w) ∷ m) = ground (arith, size-put-le k v m)

  -- A write to a key that is there adds no entry.
  pub size-put_of_get :
      (k : Bytes) (v w : V) (m : Dict V) → get k m ≡ some w → size (put k v m) ≡ size m
  unfolding get put
  size-put_of_get k v w [] h = ground arith
  size-put_of_get k v w ((i, u) ∷ m) h = ground (arith, size-put_of_get k v w m)

  -- A pass that drops the entry of a key makes the map smaller.
  pub size-keep_lt :
      (k : Bytes) (v : V) (p : V → Bool) (m : Dict V)
      → get k m ≡ some v
      → p v ≡ false
      → size (keep p m) + 1 ≤ size m
  unfolding get keep
  size-keep_lt k v p [] h drop = absurd (ground arith)
  size-keep_lt k v p ((i, w) ∷ m) h drop =
      ground (arith, size-keep_lt k v p m, size-remove-le i (keep p m), size-keep-le p m)
