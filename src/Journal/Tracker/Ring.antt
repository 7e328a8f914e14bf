-- ===== src/Journal/Tracker/Ring.antt =====
-- What the ring of journal/tracker.go holds.
use tokyo3_base.Base.{
  ℕ, zero, suc, ◌≤◌, ◌≡◌, refl, sym, subst, ap, ◌∙◌, Option, none, some, List, [], ◌∷◌, ◌++◌, arith,
  length, length-take, take, take_all, take-take-suc, ltb, if◌then◌else◌, Bool-cases, inl, inr,
}
use mathlib.Core.List.{reverse, reverse-append}
use tokyo3_base.Journal.Tracker.{
  Msg, Tracker, State, truncate, insert, ordered, keep_decoded, ingest_one, ingest,
}

abbrev push : {T : Type 0} → Option T → List T → List T
push none vs = vs
push (some v) vs = v ∷ vs

-- The decoded values of some messages, in order.
abbrev pub decoded : {T : Type 0} → (Msg → Option T) → List Msg → List T
decoded decode [] = []
decoded decode (m ∷ ms) = push (decode m) (decoded decode ms)

-- The messages since the sequence numbers last went backwards: `kept` and `last` are those messages
-- and the number before.
abbrev pub current_stream : ℕ → List Msg → List Msg → List Msg
current_stream last kept [] = kept
current_stream last kept (m ∷ ms) =
    current_stream m.seq ((if ltb m.seq last then [] else kept) ++ (m ∷ [])) ms

module _ {T : Type 0} where
  pub truncate-take : (n : ℕ) (xs : List T) → truncate n xs ≡ take n xs
  unfolding truncate
  truncate-take n xs = elim (Bool-cases (ltb n (length xs))) [
    | inl long ↦ rw long refl
    | inr short ↦ rw short (sym (take_all n xs (ground arith)))
  ]

  take-push : (n : ℕ) (v : T) (xs : List T) → take n (v ∷ take n xs) ≡ take n (v ∷ xs)
  take-push zero v xs = refl
  take-push (suc n) v xs = ap (◌∷◌ v) (take-take-suc n xs)

  take-nil : (n : ℕ) → take {A = T} n [] ≡ []
  take-nil zero = refl
  take-nil (suc n) = refl

  keep_decoded-arrival :
      (t : Tracker T) (o : Option T) (xs : List T)
      → t.less ≡ none
      → keep_decoded t o (take t.max_size xs) ≡ take t.max_size (push o xs)
  unfolding keep_decoded insert ordered
  keep_decoded-arrival t none xs h = refl
  keep_decoded-arrival t (some v) xs h =
      rw (h, ordered)
        (truncate-take t.max_size (v ∷ take t.max_size xs) ∙ take-push t.max_size v xs)

  -- The ring after one message.
  ring_after :
      (t : Tracker T) (m : Msg) (s : State T) (kept : List Msg)
      → t.less ≡ none
      → s.ring ≡ take t.max_size (decoded t.decode (reverse kept))
      → (ingest_one t m s).ring
        ≡ take t.max_size
            (decoded t.decode (reverse ((if ltb m.seq s.last_seq then [] else kept) ++ (m ∷ []))))
  unfolding ingest_one
  ring_after t m s kept arrival h = elim (Bool-cases (ltb m.seq s.last_seq)) [
    | inl reset ↦ rw reset (
        subst
          (λ (r : List T). keep_decoded t (t.decode m) r ≡ take t.max_size (push (t.decode m) []))
          (take-nil t.max_size) (keep_decoded-arrival t (t.decode m) [] arrival))
    | inr same ↦
        rw (same, h, reverse-append kept (m ∷ []))
          (keep_decoded-arrival t (t.decode m) (decoded t.decode (reverse kept)) arrival)
  ]

  ring-ingest :
      (t : Tracker T) (ms : List Msg) (s : State T) (kept : List Msg)
      → t.less ≡ none
      → s.ring ≡ take t.max_size (decoded t.decode (reverse kept))
      → (ingest t ms s).ring
        ≡ take t.max_size (decoded t.decode (reverse (current_stream s.last_seq kept ms)))
  unfolding ingest
  ring-ingest t [] s kept arrival h = h
  ring-ingest t (m ∷ ms) s kept arrival h =
      ring-ingest t ms (ingest_one t m s) _ arrival (ring_after t m s kept arrival h)

  -- In arrival order the ring of a new tracker holds the newest values that were decoded, newest
  -- first and at most `max_size` of them, out of the messages that came since the stream was last
  -- recreated.
  pub ingest-newest :
      (t : Tracker T) (ms : List Msg)
      → t.less ≡ none
      → (ingest t ms (record { ring = []; last_seq = 0 })).ring
        ≡ take t.max_size (decoded t.decode (reverse (current_stream 0 [] ms)))
  ingest-newest t ms arrival = ring-ingest t ms _ [] arrival (sym (take-nil t.max_size))

  length-insert : (t : Tracker T) (v : T) (ring : List T) → length (insert t v ring) ≤ t.max_size
  unfolding insert
  length-insert t v ring =
      rw (truncate-take t.max_size (ordered t.less v ring))
        (omega (arith, length-take t.max_size (ordered t.less v ring)))

  length-keep_decoded :
      (t : Tracker T) (o : Option T) (ring : List T)
      → length ring ≤ t.max_size
      → length (keep_decoded t o ring) ≤ t.max_size
  unfolding keep_decoded
  length-keep_decoded t none ring h = h
  length-keep_decoded t (some v) ring h = length-insert t v ring

  length-ingest_one :
      (t : Tracker T) (m : Msg) (s : State T)
      → length s.ring ≤ t.max_size
      → length (ingest_one t m s).ring ≤ t.max_size
  unfolding ingest_one
  length-ingest_one t m s h = length-keep_decoded t (t.decode m) _ (ground arith)

  pub length-ingest :
      (t : Tracker T) (ms : List Msg) (s : State T)
      → length s.ring ≤ t.max_size
      → length (ingest t ms s).ring ≤ t.max_size
  unfolding ingest
  length-ingest t [] s h = h
  length-ingest t (m ∷ ms) s h = length-ingest t ms (ingest_one t m s) (length-ingest_one t m s h)
