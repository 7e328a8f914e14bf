-- ===== src/Journal/Encoded/Delivery.antt =====
-- What a subscriber of journal/encoded.go receives.
use tokyo3_base.Base.{
  ℕ, ◌≡◌, refl, ap, Bool, true, false, List, [], ◌∷◌, ◌++◌, Bytes, Result, ok, err,
}
use tokyo3_base.Journal.Tracker.{Msg}
use tokyo3_base.Journal.Encoded.{
  Event, Signal, stopped, closed, message, Delivered, offer, forward, event,
}

module _ {T : Type 0} (decode : Bytes → Result ℕ T) where
  -- The events of the messages that can be decoded, in order.
  abbrev decoded_one : Msg → Result ℕ T → List (Event T) → List (Event T)
  decoded_one m (ok v) es = event decode m v ∷ es
  decoded_one m (err e) es = es

  abbrev pub all_events : List Msg → List (Event T)
  all_events [] = []
  all_events (m ∷ ms) = decoded_one m (decode m.payload) (all_events ms)

  abbrev pub sent : List Signal → List Msg
  sent [] = []
  sent (message m taken ∷ signals) = m ∷ sent signals
  sent (stopped ∷ signals) = sent signals
  sent (closed ∷ signals) = sent signals

  forward-offer :
      (r : Result ℕ T) (m : Msg) (taken : Bool) (later : Delivered T) (ms : List Msg)
      → ((rest : List (Event T)) × (all_events ms ≡ later.events ++ rest))
      → (rest : List (Event T)) × (decoded_one m r (all_events ms)
          ≡ (offer decode r m taken later).events ++ rest)
  unfolding offer
  forward-offer (err e) m taken later ms h = h
  forward-offer (ok v) m false later ms h = (event decode m v ∷ all_events ms, refl)
  forward-offer (ok v) m true later ms (rest, e) = (rest, ap (◌∷◌ (event decode m v)) e)

  -- Whatever stops the goroutine and whenever, what was delivered is a beginning of the events of
  -- the decodable messages, in their order: nothing is made up, reordered or skipped.
  pub forward_prefix :
      (signals : List Signal)
      → (rest : List (Event T)) × (all_events (sent signals)
          ≡ (forward decode signals).events ++ rest)
  unfolding forward
  forward_prefix [] = ([], refl)
  forward_prefix (stopped ∷ signals) = (all_events (sent signals), refl)
  forward_prefix (closed ∷ signals) = (all_events (sent signals), refl)
  forward_prefix (message m taken ∷ signals) =
      forward-offer (decode m.payload) m taken (forward decode signals) (sent signals)
        (forward_prefix signals)

  abbrev pub taken_all : List Msg → List Signal
  taken_all [] = closed ∷ []
  taken_all (m ∷ ms) = message m true ∷ taken_all ms

  forward-taken_one :
      (r : Result ℕ T) (m : Msg) (later : Delivered T) (es : List (Event T))
      → later ≡ record { events = es; over = true }
      → offer decode r m true later ≡ record { events = decoded_one m r es; over = true }
  unfolding offer
  forward-taken_one (ok v) m later es e = rw e refl
  forward-taken_one (err x) m later es e = e

  -- A reader that takes everything until the inner channel closes receives every decodable message,
  -- and then its channel closes.
  pub forward_complete :
      (ms : List Msg)
      → forward decode (taken_all ms) ≡ record { events = all_events ms; over = true }
  unfolding forward
  forward_complete [] = refl
  forward_complete (m ∷ ms) =
      forward-taken_one (decode m.payload) m (forward decode (taken_all ms)) (all_events ms)
        (forward_complete ms)
