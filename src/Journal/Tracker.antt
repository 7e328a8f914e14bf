-- ===== src/Journal/Tracker.antt =====
-- journal/tracker.go: the bounded, newest-first ring of recent events and the loop that feeds it.
pub mod Ring
pub mod Sorted
pub mod Resume
pub mod Contiguous
use tokyo3_base.Base.{
  ℕ, ◌+◌, ◌%◌, ◌^◌, ◌≡◌, Bool, true, false, ◌||◌, ◌&&◌, not, Option, none, some, List, [], ◌∷◌,
  ◌++◌, Bytes, Result, ok, err, length, take, ltb, ◌==◌, if◌then◌else◌,
}
use tokyo3_base.Base.Int.{ℤ, pos_part, is_nonpositive}

-- journal.Msg.
pub record Msg : Type 0 where
  pub seq : ℕ
  pub time : ℕ
  pub payload : Bytes

pub data ConfigError : Type 0 where
  no_source no_decode : ConfigError

pub record TrackerConfig (T : Type 0) : Type 0 where
  pub has_source : Bool
  pub decode : Option (Msg → Option T)
  pub less : Option (T → T → Bool)
  pub max_size : ℤ
  pub resubscribe_wait : ℤ

pub record Tracker (T : Type 0) : Type 0 where
  pub decode : Msg → Option T
  pub less : Option (T → T → Bool)
  pub max_size : ℕ
  pub retry : ℤ

abbrev pub default_tracker_size : ℕ
default_tracker_size = 500

-- The ring, and the sequence number of the last message seen.
pub record State (T : Type 0) : Type 0 where
  pub ring : List T
  pub last_seq : ℕ

module _ {T : Type 0} where
  unfoldable pub new_tracker : TrackerConfig T → Result ConfigError (Tracker T)
  new_tracker cfg = if not cfg.has_source then err no_source else elim cfg.decode [
    | none ↦ err no_decode
    | some decode ↦ ok (record {
      decode = decode;
      less = cfg.less;
      max_size =
          if is_nonpositive cfg.max_size then default_tracker_size else pos_part cfg.max_size;
      retry = cfg.resubscribe_wait;
    })
  ]

  -- `sort.SliceStable`, as insertion of one element after the other: an element goes in front of
  -- the first one that it is less than.
  unfoldable pub insert_sorted : (T → T → Bool) → T → List T → List T
  insert_sorted less v [] = v ∷ []
  insert_sorted less v (x ∷ xs) = if less v x then v ∷ x ∷ xs else x ∷ insert_sorted less v xs

  unfoldable pub sort_from : (T → T → Bool) → List T → List T → List T
  unfolding insert_sorted
  sort_from less sorted [] = sorted
  sort_from less sorted (x ∷ xs) = sort_from less (insert_sorted less x sorted) xs

  ordered : Option (T → T → Bool) → T → List T → List T
  unfolding sort_from
  ordered none v ring = v ∷ ring
  ordered (some less) v ring = sort_from less [] (ring ++ v ∷ [])

  pub truncate : ℕ → List T → List T
  truncate n ring = if ltb n (length ring) then take n ring else ring

  unfoldable pub insert : Tracker T → T → List T → List T
  unfolding ordered truncate
  insert t v ring = truncate t.max_size (ordered t.less v ring)

  keep_decoded : Tracker T → Option T → List T → List T
  unfolding insert
  keep_decoded t none ring = ring
  keep_decoded t (some v) ring = insert t v ring

  -- One message of `ingest`. A sequence number that goes backwards belongs to a recreated stream.
  unfoldable pub ingest_one : Tracker T → Msg → State T → State T
  unfolding keep_decoded
  ingest_one t msg s = record {
    ring = keep_decoded t (t.decode msg) (if ltb msg.seq s.last_seq then [] else s.ring);
    last_seq = msg.seq;
  }

  unfoldable pub ingest : Tracker T → List Msg → State T → State T
  unfolding ingest_one
  ingest t [] s = s
  ingest t (msg ∷ msgs) s = ingest t msgs (ingest_one t msg s)

  -- `Snapshot` copies the ring.
  unfoldable pub snapshot : State T → List T
  snapshot s = s.ring

-- How one round of `Run` goes: the subscription fails, with the context live or done; or it gives
-- messages, and then the context is cancelled or the channel closed. `stopped` says whether the
-- context ends the wait before the next round.
pub data Round : Type 0 where
  refused : (context_done : Bool) → (stopped : Bool) → Round
  cancelled : List Msg → Round
  closed : List Msg → (stopped : Bool) → Round

-- What `Run` returns: nil, the error of the context, or that of the subscription; `running` where
-- the rounds given are used up.
pub data Exit : Type 0 where
  clean context_error subscribe_error running : Exit

-- The arguments of a call of `Subscribe`.
pub record Subscription : Type 0 where
  pub replay : ℕ
  pub from : ℕ

pub record Outcome (T : Type 0) : Type 0 where
  pub exit : Exit
  pub state : State T
  pub subscriptions : List Subscription

module _ {T : Type 0} where
  unfoldable pub subscription : Tracker T → State T → Subscription
  subscription t s = record {
    replay = t.max_size;
    from = if ltb 0 s.last_seq then (s.last_seq + 1) % 2 ^ 64 else 0;
  }

  abbrev pub stop : Exit → State T → Outcome T
  stop e s = record { exit = e; state = s; subscriptions = [] }

  abbrev pub after : Subscription → Outcome T → Outcome T
  after c o = record o { subscriptions = c ∷ o.subscriptions }

  -- The wait of one round, and the rounds after it.
  unfoldable pub wait_then : Bool → State T → Outcome T → Outcome T
  wait_then true s next = stop context_error s
  wait_then false s next = next

  unfoldable pub run : Tracker T → List Round → State T → Outcome T
  unfolding ingest subscription wait_then
  run t [] s = stop running s
  run t (refused context_done stopped ∷ rounds) s =
      let next = run t rounds s in
      after (subscription t s) (
        if is_nonpositive t.retry || context_done
        then stop subscribe_error s
        else wait_then stopped s next)
  run t (cancelled msgs ∷ rounds) s =
      after (subscription t s) (stop context_error (ingest t msgs s))
  run t (closed msgs stopped ∷ rounds) s =
      let s' = ingest t msgs s in
      let next = run t rounds s' in
      after (subscription t s)
        (if is_nonpositive t.retry then stop clean s' else wait_then stopped s' next)
