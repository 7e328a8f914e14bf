-- ===== src/Journal/Limits/Accounting.antt =====
-- The counts of journal/sse/limits.go, the live streams and the caps.
use tokyo3_base.Base.{
  ℕ, zero, suc, ◌+◌, ◌-◌, ◌≤◌, ◌<◌, ◌≡◌, refl, ap, ◌&&◌, ◌⊎◌, inl, inr, List, [], ◌∷◌, arith, Bytes,
  bytes_eq, bytes_eq_iff, ok, if◌then◌else◌, Bool-cases, Result-cases,
}
use tokyo3_base.Base.Dict
use tokyo3_base.Base.Dict.{get-put, get-remove}
use tokyo3_base.Journal.Limits.{
  Limits, LimitsConfig, new_limits, Slot, System, Request, open_stream, release, streams_of,
  acquire, give_back, enter, release_at, step, run,
}

-- The live streams, and those of one client.
abbrev pub live_count : List Slot → ℕ
live_count [] = 0
live_count (s ∷ slots) = (if s.live then 1 else 0) + live_count slots

abbrev pub live_of : Bytes → List Slot → ℕ
live_of k [] = 0
live_of k (s ∷ slots) = (if s.live && bytes_eq s.key k then 1 else 0) + live_of k slots

pub record IsCounted (s : System) : Type 0 where
  pub total : s.limits.total ≡ live_count s.slots
  pub per_client :
      (k : Bytes) → 0 < s.limits.max_per_client → streams_of k s.limits ≡ live_of k s.slots
  pub capped : 0 < s.limits.max_streams → s.limits.total ≤ s.limits.max_streams
  pub client_capped :
      (k : Bytes) → 0 < s.limits.max_per_client → streams_of k s.limits ≤ s.limits.max_per_client

streams_of-acquire :
    (key k : Bytes) (l l' : Limits)
    → acquire key l ≡ ok l'
    → 0 < l.max_per_client
    → (streams_of k l' ≡ (if bytes_eq key k then 1 else 0) + streams_of k l)
      × (streams_of key l < l.max_per_client)
unfolding acquire
streams_of-acquire key k l l' h capped =
    ground (arith, get-put k key (streams_of key l + 1) l.per_client, bytes_eq_iff key k)

acquire-totals :
    (key : Bytes) (l l' : Limits)
    → acquire key l ≡ ok l'
    → (l'.total ≡ l.total + 1)
      × (l'.max_streams ≡ l.max_streams)
      × (l'.max_per_client ≡ l.max_per_client)
      × (0 < l.max_streams → l.total < l.max_streams)
unfolding acquire
acquire-totals key l l' h = (ground arith, ground arith, ground arith, ground arith)

streams_of-give_back :
    (key k : Bytes) (l : Limits)
    → 0 < l.max_per_client
    → streams_of k (give_back key l)
      ≡ (if bytes_eq key k then streams_of k l - 1 else streams_of k l)
unfolding give_back
streams_of-give_back key k l capped = ground (
  arith,
  get-put k key (streams_of key l - 1) l.per_client,
  get-remove k key l.per_client,
  bytes_eq_iff key k,
)

open_stream-IsCounted :
    (s : System) (key : Bytes) → IsCounted s → IsCounted (step s (open_stream key))
unfolding step
open_stream-IsCounted s key c = elim (Result-cases (acquire key s.limits)) [
  | inr (scope, e) ↦ rw (e, enter) c
  | inl (l, e) ↦
      let (t, ms, mc, room) = acquire-totals key s.limits l e in
      rw (e, enter)
        (record {
          total = omega (arith, c.total);
          per_client = λ k capped. omega (
            arith,
            (streams_of-acquire key k s.limits l e (omega arith)).0,
            c.per_client k (omega arith),
          );
          capped = λ capped. omega (arith, room (omega arith));
          client_capped = λ k capped. ground (
            arith,
            streams_of-acquire key k s.limits l e (omega arith),
            c.client_capped k (omega arith),
            bytes_eq_iff key k,
          );
        })
]

-- A release function has run already, or there is none: nothing changes. Or it runs now, for a
-- stream of some client.
abbrev Released : List Slot → Limits → List Slot × Limits → Type 0
Released slots l r =
    (r ≡ (slots, l))
    ⊎ ((key : Bytes) × (r.1 ≡ give_back key l)
        × (live_count slots ≡ live_count r.0 + 1)
        × ((k : Bytes) → live_of k slots ≡ (if bytes_eq key k then 1 else 0) + live_of k r.0))

release_at-Released :
    (i : ℕ) (slots : List Slot) (l : Limits) → Released slots l (release_at i slots l)
unfolding release_at
release_at-Released i [] l = inl refl
release_at-Released zero (s ∷ slots) l = elim (Bool-cases s.live) [
  | inl live ↦
      rw (live, release_at) (inr (s.key, refl, ground (arith, live), λ k. ground (arith, live)))
  | inr over ↦ rw (over, release_at) (inl refl)
]
release_at-Released (suc i) (s ∷ slots) l = elim (release_at-Released i slots l) [
  | inl e ↦ inl (ap (λ (r : List Slot × Limits). (s ∷ r.0, r.1)) e)
  | inr (key, e, n, each) ↦ inr (key, e, ground (arith, n), λ k. ground (arith, each k))
]

give_back-totals :
    (key : Bytes) (l : Limits)
    → ((give_back key l).total ≡ l.total - 1)
      × ((give_back key l).max_streams ≡ l.max_streams)
      × ((give_back key l).max_per_client ≡ l.max_per_client)
unfolding give_back
give_back-totals key l = (refl, refl, refl)

give_back-IsCounted :
    (s : System) (key : Bytes) (slots : List Slot)
    → live_count s.slots ≡ live_count slots + 1
    → ((k : Bytes) → live_of k s.slots ≡ (if bytes_eq key k then 1 else 0) + live_of k slots)
    → IsCounted s
    → IsCounted (record { limits = give_back key s.limits; slots = slots })
give_back-IsCounted s key slots n each c =
    let (t, ms, mc) = give_back-totals key s.limits in
    record {
      total = omega (arith, c.total);
      per_client = λ k capped. ground (
        arith,
        streams_of-give_back key k s.limits (omega arith),
        c.per_client k (omega arith),
        each k,
      );
      capped = λ capped. omega (arith, c.capped (omega arith));
      client_capped = λ k capped. ground (
        arith,
        streams_of-give_back key k s.limits (omega arith),
        c.client_capped k (omega arith),
      );
    }

release-IsCounted : (s : System) (i : ℕ) → IsCounted s → IsCounted (step s (release i))
unfolding step
release-IsCounted s i c = elim (release_at-Released i s.slots s.limits) [
  | inl e ↦ rw e c
  | inr (key, e, n, each) ↦ rw e (give_back-IsCounted s key _ n each c)
]

run-IsCounted : (s : System) (rs : List Request) → IsCounted s → IsCounted (run s rs)
unfolding run
run-IsCounted s [] c = c
run-IsCounted s (open_stream key ∷ rs) c =
    run-IsCounted (step s (open_stream key)) rs (open_stream-IsCounted s key c)
run-IsCounted s (release i ∷ rs) c = run-IsCounted (step s (release i)) rs (release-IsCounted s i c)

new_limits-empty :
    (cfg : LimitsConfig) (l : Limits)
    → new_limits cfg ≡ ok l
    → (l.total ≡ 0) × (l.per_client ≡ Dict.empty)
unfolding new_limits
new_limits-empty cfg l h = (ground arith, ground arith)

-- Through any requests and releases, repeated ones included, the total is the number of live
-- streams, each client's count is the number of its own, and neither passes its cap.
pub run_counts :
    (cfg : LimitsConfig) (l : Limits) (rs : List Request)
    → new_limits cfg ≡ ok l
    → IsCounted (run (record { limits = l; slots = [] }) rs)
run_counts cfg l rs h =
    let (none_live, no_client) = new_limits-empty cfg l h in
    run-IsCounted _ rs (record {
      total = none_live;
      per_client = λ k capped. rw no_client (unfold Dict.get in refl);
      capped = λ capped. omega arith;
      client_capped = λ k capped. rw no_client (unfold Dict.get in omega arith);
    })
