-- ===== src/Journal/Encoded.antt =====
-- journal/encoded.go: typed appends and the decoding goroutine of `Subscribe`.
pub mod Delivery
use tokyo3_base.Base.{ℕ, ◌≡◌, Bool, true, false, List, [], ◌∷◌, Bytes, Result, ok, err}
use tokyo3_base.Journal.Tracker.{Msg}

pub record Event (T : Type 0) : Type 0 where
  pub seq : ℕ
  pub time : ℕ
  pub value : T

-- An append fails in the encoder or in the inner sink.
pub data AppendError : Type 0 where
  encode_failed sink_failed : ℕ → AppendError

module _ {S : Type 0} where
  sent_to : Result ℕ (Unit {0}) × S → Result AppendError (Unit {0}) × S
  sent_to (ok u, s) = (ok u, s)
  sent_to (err e, s) = (err (sink_failed e), s)

  append_encoded :
      (Bytes → S → Result ℕ (Unit {0}) × S) → Result ℕ Bytes → S → Result AppendError (Unit {0}) × S
  unfolding sent_to
  append_encoded inner (err e) s = (err (encode_failed e), s)
  append_encoded inner (ok payload) s = sent_to (inner payload s)

module _ {T S : Type 0} where
  -- The inner sink is an action on its own state.
  unfoldable pub append :
      (T → Result ℕ Bytes)
      → (Bytes → S → Result ℕ (Unit {0}) × S)
      → T
      → S
      → Result AppendError (Unit {0}) × S
  unfolding append_encoded
  append encode inner v s = append_encoded inner (encode v) s

-- What the goroutine meets: the context or `done` ends it, the inner channel closes, or a message
-- comes; where a decoded event is offered, it is taken or the goroutine is stopped instead.
pub data Signal : Type 0 where
  stopped : Signal
  closed : Signal
  message : Msg → (taken : Bool) → Signal

-- `over` says that the output channel is closed and the inner subscription cancelled.
pub record Delivered (T : Type 0) : Type 0 where
  pub events : List (Event T)
  pub over : Bool

module _ {T : Type 0} (decode : Bytes → Result ℕ T) where
  abbrev pub event : Msg → T → Event T
  event m v = record { seq = m.seq; time = m.time; value = v }

  offer : Result ℕ T → Msg → Bool → Delivered T → Delivered T
  offer (err e) m taken later = later
  offer (ok v) m false later = record { events = []; over = true }
  offer (ok v) m true later = record { events = event m v ∷ later.events; over = later.over }

  unfoldable pub forward : List Signal → Delivered T
  unfolding offer
  forward [] = record { events = []; over = false }
  forward (stopped ∷ signals) = record { events = []; over = true }
  forward (closed ∷ signals) = record { events = []; over = true }
  forward (message m taken ∷ signals) = offer (decode m.payload) m taken (forward signals)
