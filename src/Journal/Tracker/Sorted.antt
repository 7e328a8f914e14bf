-- ===== src/Journal/Tracker/Sorted.antt =====
-- The ring of journal/tracker.go where `Less` orders it.
use mathlib.Core.List.{Perm, perm_middle, append-nil}
use mathlib.Core.List.Perm
use tokyo3_base.Base.{
  ℕ, zero, suc, ◌≤◌, ◌≡◌, Bool, true, false, Option, none, some, List, [], ◌∷◌, ◌++◌, length, take,
  All, All-take, All-mono, ltb, Bool-cases, inl, inr,
}
use tokyo3_base.Journal.Tracker.{
  Msg, Tracker, State, insert, ordered, keep_decoded, ingest_one, ingest, insert_sorted, sort_from,
}
use tokyo3_base.Journal.Tracker.Ring.{truncate-take, length-ingest}

-- What a caller's `Less` has to be.
pub record IsStrict {T : Type 0} (less : T → T → Bool) : Type 0 where
  pub asymmetric : (a b : T) → less a b ≡ true → less b a ≡ false
  pub transitive : (a b c : T) → less a b ≡ true → less b c ≡ true → less a c ≡ true

module _ {T : Type 0} (less : T → T → Bool) where
  -- No element is less than one in front of it.
  abbrev pub IsOrdered : List T → Type 0
  IsOrdered [] = Unit
  IsOrdered (x ∷ xs) = All (λ y. less y x ≡ false) xs × IsOrdered xs

  insert_sorted-perm : (v : T) (xs : List T) → Perm (insert_sorted less v xs) (v ∷ xs)
  unfolding insert_sorted
  insert_sorted-perm v [] = Perm.refl _
  insert_sorted-perm v (x ∷ xs) = elim (Bool-cases (less v x)) [
    | inl before ↦ rw before (Perm.refl _)
    | inr behind ↦ rw behind (Perm.trans (Perm.cons x (insert_sorted-perm v xs)) (Perm.swap v x xs))
  ]

  sort_from-perm : (sorted xs : List T) → Perm (sort_from less sorted xs) (xs ++ sorted)
  unfolding sort_from
  sort_from-perm sorted [] = Perm.refl _
  sort_from-perm sorted (x ∷ xs) = Perm.trans (sort_from-perm (insert_sorted less x sorted) xs) (
      Perm.trans (Perm.append (Perm.refl xs) (insert_sorted-perm x sorted)) (perm_middle xs sorted))

  All-insert_sorted :
      (P : T → Type 0) (v : T) (xs : List T) → P v → All P xs → All P (insert_sorted less v xs)
  unfolding insert_sorted
  All-insert_sorted P v [] h hs = (h, tt)
  All-insert_sorted P v (x ∷ xs) h hs = elim (Bool-cases (less v x)) [
    | inl before ↦ rw before (h, hs)
    | inr behind ↦ rw behind (hs.0, All-insert_sorted P v xs h hs.1)
  ]

  module _ (strict : IsStrict less) where
    behind_too :
        (v x : T) (xs : List T)
        → less v x ≡ true
        → All (λ y. less y x ≡ false) xs
        → All (λ y. less y v ≡ false) xs
    behind_too v x xs before =
        All-mono (λ y. less y x ≡ false) (λ y. less y v ≡ false) xs
          λ y h. elim (Bool-cases (less y v)) [
            | inl e ↦ absurd (cc (strict.transitive y v x e before))
            | inr e ↦ e
          ]

    insert_sorted-IsOrdered :
        (v : T) (xs : List T) → IsOrdered xs → IsOrdered (insert_sorted less v xs)
    unfolding insert_sorted
    insert_sorted-IsOrdered v [] h = (tt, tt)
    insert_sorted-IsOrdered v (x ∷ xs) h = elim (Bool-cases (less v x)) [
      | inl before ↦ rw before ((strict.asymmetric v x before, behind_too v x xs before h.0), h)
      | inr behind ↦ rw behind (
        All-insert_sorted (λ y. less y x ≡ false) v xs behind h.0,
        insert_sorted-IsOrdered v xs h.1,
      )
    ]

    sort_from-IsOrdered :
        (sorted xs : List T) → IsOrdered sorted → IsOrdered (sort_from less sorted xs)
    unfolding sort_from
    sort_from-IsOrdered sorted [] h = h
    sort_from-IsOrdered sorted (x ∷ xs) h =
        sort_from-IsOrdered (insert_sorted less x sorted) xs (insert_sorted-IsOrdered x sorted h)

    take-IsOrdered : (n : ℕ) (xs : List T) → IsOrdered xs → IsOrdered (take n xs)
    take-IsOrdered zero xs h = tt
    take-IsOrdered (suc n) [] h = tt
    take-IsOrdered (suc n) (x ∷ xs) h = (All-take _ n xs h.0, take-IsOrdered n xs h.1)

    -- With a strict `Less` an insertion puts all values, the new one included, in order and keeps
    -- the first `max_size` of them: what is dropped is never newer than what stays.
    pub insert-newest :
        (t : Tracker T) (v : T) (ring : List T)
        → t.less ≡ some less
        → (all : List T) × Perm all (v ∷ ring)
          × IsOrdered all
          × (insert t v ring ≡ take t.max_size all)
    unfolding insert
    insert-newest t v ring h = (
      sort_from less [] (ring ++ (v ∷ [])),
      Perm.trans (sort_from-perm [] (ring ++ (v ∷ []))) (
          rw (append-nil (ring ++ (v ∷ [])))
            (Perm.trans (perm_middle ring []) (rw (append-nil ring) (Perm.refl _)))),
      sort_from-IsOrdered [] (ring ++ (v ∷ [])) tt,
      rw (h, ordered) (truncate-take t.max_size _),
    )

    keep_decoded-IsOrdered :
        (t : Tracker T) (o : Option T) (ring : List T)
        → t.less ≡ some less
        → IsOrdered ring
        → IsOrdered (keep_decoded t o ring)
    unfolding keep_decoded
    keep_decoded-IsOrdered t none ring h s = s
    keep_decoded-IsOrdered t (some v) ring h s =
        let (all, _, in_order, e) = insert-newest t v ring h in
        rw e (take-IsOrdered t.max_size all in_order)

    ingest_one-IsOrdered :
        (t : Tracker T) (m : Msg) (s : State T)
        → t.less ≡ some less
        → IsOrdered s.ring
        → IsOrdered (ingest_one t m s).ring
    unfolding ingest_one
    ingest_one-IsOrdered t m s h o = elim (Bool-cases (ltb m.seq s.last_seq)) [
      | inl reset ↦ rw reset (keep_decoded-IsOrdered t (t.decode m) [] h tt)
      | inr same ↦ rw same (keep_decoded-IsOrdered t (t.decode m) s.ring h o)
    ]

    in_order :
        (t : Tracker T) (ms : List Msg) (s : State T)
        → t.less ≡ some less
        → IsOrdered s.ring
        → IsOrdered (ingest t ms s).ring
    unfolding ingest
    in_order t [] s h o = o
    in_order t (m ∷ ms) s h o = in_order t ms (ingest_one t m s) h (ingest_one-IsOrdered t m s h o)

    -- With a strict `Less`, any messages leave a ring that is in order and no longer than
    -- `max_size` in order, newest first, and no longer than `max_size`.
    pub ingest-IsOrdered :
        (t : Tracker T) (ms : List Msg) (s : State T)
        → t.less ≡ some less
        → IsOrdered s.ring
        → length s.ring ≤ t.max_size
        → IsOrdered (ingest t ms s).ring × (length (ingest t ms s).ring ≤ t.max_size)
    ingest-IsOrdered t ms s h o b = (in_order t ms s h o, length-ingest t ms s b)
