-- ===== src/Journal/Tracker/Resume.antt =====
-- `Run` of journal/tracker.go over a source that drops.
use tokyo3_base.Base.{◌+◌, ◌^◌, ◌<◌, ◌≡◌, refl, false, List, [], ◌∷◌, ◌++◌, arith, All}
use tokyo3_base.Base.Int.{is_nonpositive}
use tokyo3_base.Journal.Tracker.{
  Msg, Tracker, State, ingest_one, ingest, Round, refused, cancelled, closed, running, Subscription,
  subscription, wait_then, run,
}

-- The context stays live through the round and the wait after it.
abbrev pub IsLive : Round → Type 0
IsLive (refused context_done stopped) = (context_done ≡ false) × (stopped ≡ false)
IsLive (cancelled msgs) = ⊥
IsLive (closed msgs stopped) = stopped ≡ false

abbrev pub messages : Round → List Msg
messages (refused context_done stopped) = []
messages (cancelled msgs) = msgs
messages (closed msgs stopped) = msgs

abbrev pub all_messages : List Round → List Msg
all_messages [] = []
all_messages (r ∷ rs) = messages r ++ all_messages rs

module _ {T : Type 0} (t : Tracker T) where
  -- One subscription a round, each from the state that the rounds before it left.
  abbrev pub resumed : State T → List Round → List Subscription
  resumed s [] = []
  resumed s (r ∷ rs) = subscription t s ∷ resumed (ingest t (messages r) s) rs

  pub ingest-append :
      (xs ys : List Msg) (s : State T) → ingest t (xs ++ ys) s ≡ ingest t ys (ingest t xs s)
  unfolding ingest
  ingest-append [] ys s = refl
  ingest-append (x ∷ xs) ys s = ingest-append xs ys (ingest_one t x s)

  -- While the context is live and a wait is configured, `Run` never gives up, however often the
  -- source refuses or drops: the ring is what one uninterrupted channel would have made of the same
  -- messages, and each round subscribes from the state that the earlier ones left.
  pub run-live :
      (rounds : List Round) (s : State T)
      → is_nonpositive t.retry ≡ false
      → All IsLive rounds
      → run t rounds s ≡ record {
        exit = running;
        state = ingest t (all_messages rounds) s;
        subscriptions = resumed s rounds;
      }
  unfolding run
  run-live [] s waits live = refl
  run-live (refused context_done stopped ∷ rounds) s waits live =
      rw (waits, live.0.0, live.0.1, wait_then, run-live rounds s waits live.1) refl
  run-live (cancelled msgs ∷ rounds) s waits live = absurd live.0
  run-live (closed msgs stopped ∷ rounds) s waits live =
      rw
        (
          waits,
          live.0,
          wait_then,
          run-live rounds (ingest t msgs s) waits live.1,
          ingest-append msgs (all_messages rounds) s,
        )
        refl

  pub last_seq-ingest :
      (msgs : List Msg) (m : Msg) (s : State T) → (ingest t (msgs ++ (m ∷ [])) s).last_seq ≡ m.seq
  unfolding ingest ingest_one
  last_seq-ingest [] m s = refl
  last_seq-ingest (x ∷ msgs) m s = last_seq-ingest msgs m (ingest_one t x s)

  -- After a message with a 64-bit sequence number the next subscription starts behind it.
  pub subscription-ingest :
      (msgs : List Msg) (m : Msg) (s : State T)
      → 0 < m.seq
      → m.seq + 1 < 2 ^ 64
      → (subscription t (ingest t (msgs ++ (m ∷ [])) s)).from ≡ m.seq + 1
  unfolding subscription
  subscription-ingest msgs m s positive fits =
      let last = last_seq-ingest msgs m s in ground (arith, last)
