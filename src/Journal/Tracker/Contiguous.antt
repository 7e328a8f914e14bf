-- ===== src/Journal/Tracker/Contiguous.antt =====
-- `Run` of journal/tracker.go over a source that drops and keeps the promise of journal/journal.go.
use tokyo3_base.Base.{
  ℕ, zero, suc, ◌+◌, ◌-◌, ◌^◌, ◌≤◌, ◌<◌, ◌≡◌, refl, ap, sym, ◌∙◌, true, false, List, [], ◌∷◌, ◌++◌,
  arith, All, length, drop, ltb, inl, inr, ◌⊎◌, if◌then◌else◌,
}
use mathlib.Core.List.{append_assoc}
use tokyo3_base.Base.Int.{is_nonpositive}
use tokyo3_base.Journal.Tracker.{
  Msg, Tracker, State, ingest, Round, refused, cancelled, closed, running, Subscription,
  subscription, run,
}
use tokyo3_base.Journal.Tracker.Resume.{IsLive, all_messages, last_seq-ingest, run-live}

-- The messages from a sequence number on.
unfoldable pub from_seq : ℕ → List Msg → List Msg
from_seq n [] = []
from_seq n (m ∷ ms) = if ltb m.seq n then from_seq n ms else m ∷ ms

-- The journal's messages with the sequence numbers that the source gives them: positive, growing, and below
-- the last 64-bit number.
abbrev pub IsNumbered : List Msg → Type 0
IsNumbered [] = Unit
IsNumbered (m ∷ ms) =
    ((0 < m.seq) × (m.seq + 1 < 2 ^ 64) × All (λ (n : Msg). m.seq < n.seq) ms) × IsNumbered ms

-- What a source with this journal gives in one round of a subscription: from a positive sequence number on,
-- or, without one, the newest `replay` of the messages that it has by then, and those that follow.
abbrev pub Follows : List Msg → Subscription → List Msg → Type 0
Follows log sub msgs =
    (0 < sub.from → (rest : List Msg) × (from_seq sub.from log ≡ msgs ++ rest))
    × (sub.from ≡ 0
        → (had : ℕ) × (rest : List Msg) × (had ≤ length log)
          × (drop (had - sub.replay) log ≡ msgs ++ rest))

module _ {T : Type 0} (t : Tracker T) (log : List Msg) where
  -- Each round gives what the subscription asks for that `Run` makes in it; one that is refused gives nothing.
  abbrev pub AllFollow : State T → List Round → Type 0
  AllFollow s [] = Unit
  AllFollow s (refused context_done stopped ∷ rs) = AllFollow s rs
  AllFollow s (cancelled msgs ∷ rs) =
      Follows log (subscription t s) msgs × AllFollow (ingest t msgs s) rs
  AllFollow s (closed msgs stopped ∷ rs) =
      Follows log (subscription t s) msgs × AllFollow (ingest t msgs s) rs

snoc_cases : (xs : List Msg) → (xs ≡ []) ⊎ ((ys : List Msg) × (m : Msg) × (xs ≡ ys ++ (m ∷ [])))
snoc_cases [] = inl refl
snoc_cases (x ∷ xs) = elim (snoc_cases xs) [
  | inl nothing ↦ inr ([], x, ap (λ zs. x ∷ zs) nothing)
  | inr (ys, m, same) ↦ inr (x ∷ ys, m, ap (λ zs. x ∷ zs) same)
]

inside :
    (P : Msg → Type 0) (before : List Msg) (m : Msg) (after : List Msg)
    → All P (before ++ (m ∷ after))
    → P m
inside P [] m after h = h.0
inside P (x ∷ before) m after h = inside P before m after h.1

split_drop : (k : ℕ) (xs : List Msg) → (ys : List Msg) × (xs ≡ ys ++ drop k xs)
split_drop zero xs = ([], refl)
split_drop (suc k) [] = ([], refl)
split_drop (suc k) (x ∷ xs) = let (ys, same) = split_drop k xs in (x ∷ ys, ap (λ zs. x ∷ zs) same)

regroup :
    (before : List Msg) (ys : List Msg) (m : Msg) (after : List Msg)
    → before ++ ((ys ++ (m ∷ [])) ++ after) ≡ (before ++ ys) ++ (m ∷ after)
regroup [] [] m after = refl
regroup [] (y ∷ ys) m after = ap (λ zs. y ∷ zs) (regroup [] ys m after)
regroup (x ∷ before) ys m after = ap (λ zs. x ∷ zs) (regroup before ys m after)

-- Behind a message of a numbered journal stand those from the next number on.
from_seq_later :
    (n : ℕ) (ms : List Msg) → All (λ (m : Msg). n < m.seq) ms → from_seq (n + 1) ms ≡ ms
unfolding from_seq
from_seq_later n [] h = refl
from_seq_later n (m ∷ ms) h =
    let late : ltb m.seq (n + 1) ≡ false = ground (arith, h.0) in rw late refl

from_seq_after :
    (before : List Msg) (m : Msg) (after : List Msg)
    → IsNumbered (before ++ (m ∷ after))
    → (0 < m.seq) × (m.seq + 1 < 2 ^ 64) × (from_seq (m.seq + 1) (before ++ (m ∷ after)) ≡ after)
unfolding from_seq
from_seq_after [] m after h =
    let early : ltb m.seq (m.seq + 1) ≡ true = ground arith in
    (h.0.0, h.0.1, rw early (from_seq_later m.seq after h.0.2))
from_seq_after (x ∷ before) m after h =
    let (positive, fits, rest) = from_seq_after before m after h.1 in
    let early : ltb x.seq (m.seq + 1) ≡ true =
      ground (arith, inside (λ (n : Msg). x.seq < n.seq) before m after h.0.2) in
    (positive, fits, rw early rest)

module _ {T : Type 0} (t : Tracker T) (log : List Msg) where
  from_next :
      (s : State T) (n : ℕ)
      → s.last_seq ≡ n
      → 0 < n
      → n + 1 < 2 ^ 64
      → (subscription t s).from ≡ n + 1
  unfolding subscription
  from_next s n last positive fits = ground (arith, last, positive, fits)

  from_none : (s : State T) → s.last_seq ≡ 0 → (subscription t s).from ≡ 0
  unfolding subscription
  from_none s last = ground (arith, last)

  unchanged : (s : State T) (msgs : List Msg) → msgs ≡ [] → (ingest t msgs s).last_seq ≡ s.last_seq
  unfolding ingest
  unchanged s msgs h = ap (λ xs. (ingest t xs s).last_seq) h

  moved :
      (s : State T) (msgs ys : List Msg) (m : Msg)
      → msgs ≡ ys ++ (m ∷ [])
      → (ingest t msgs s).last_seq ≡ m.seq
  moved s msgs ys m h = ap (λ xs. (ingest t xs s).last_seq) h ∙ last_seq-ingest t ys m s

  joined :
      (after msgs rest more end : List Msg)
      → after ≡ msgs ++ rest
      → rest ≡ more ++ end
      → after ≡ (msgs ++ more) ++ end
  joined after msgs rest more end h k =
      h ∙ ap (λ xs. msgs ++ xs) k ∙ sym (append_assoc msgs more end)

  behind :
      (rounds : List Round) (s : State T) (before : List Msg) (m : Msg) (after : List Msg)
      → IsNumbered log
      → log ≡ before ++ (m ∷ after)
      → s.last_seq ≡ m.seq
      → All IsLive rounds
      → AllFollow t log s rounds
      → (rest : List Msg) × (after ≡ all_messages rounds ++ rest)
  behind [] s before m after num split last live follow = (after, refl)
  behind (refused context_done stopped ∷ rs) s before m after num split last live follow =
      behind rs s before m after num split last live.1 follow
  behind (cancelled msgs ∷ rs) s before m after num split last live follow = absurd live.0
  behind (closed msgs stopped ∷ rs) s before m after num split last live follow =
      let (positive, fits, there) = from_seq_after before m after (rw (← split) num) in
      let from = from_next s m.seq last positive fits in
      let (rest, given) = follow.0.0 (rw from (omega arith)) in
      let next : after ≡ msgs ++ rest =
        sym there
        ∙ ap (from_seq (m.seq + 1)) (sym split)
        ∙ ap (λ n. from_seq n log) (sym from)
        ∙ given in
      elim (snoc_cases msgs) [
        | inl nothing ↦
            let (end, all) =
              behind rs (ingest t msgs s) before m after num split (unchanged s msgs nothing ∙ last)
                live.1 follow.1 in
            (end, all ∙ ap (λ xs. (xs ++ all_messages rs) ++ end) (sym nothing))
        | inr (ys, n, same) ↦
            let (end, all) =
              behind rs (ingest t msgs s) (before ++ (m ∷ ys)) n rest num
                (split
                  ∙ ap (λ xs. before ++ (m ∷ xs)) (next ∙ ap (λ xs. xs ++ rest) same)
                  ∙ regroup before (m ∷ ys) n rest)
                (moved s msgs ys n same) live.1 follow.1 in
            (end, joined after msgs rest (all_messages rs) end next all)
      ]

  -- A run of the journal, from the newest messages at some time on.
  abbrev pub IsRun : List Msg → Type 0
  IsRun msgs =
      (had : ℕ) × (rest : List Msg) × (had ≤ length log)
      × (drop (had - t.max_size) log ≡ msgs ++ rest)

  fresh :
      (rounds : List Round) (s : State T)
      → IsNumbered log
      → s.last_seq ≡ 0
      → All IsLive rounds
      → AllFollow t log s rounds
      → IsRun (all_messages rounds)
  unfolding subscription
  fresh [] s num last live follow = (0, log, omega arith, none_yet)
    where
      none_yet : drop (0 - t.max_size) log ≡ log
      none_yet = let e : 0 - t.max_size ≡ 0 = omega arith in rw e refl
  fresh (refused context_done stopped ∷ rs) s num last live follow =
      fresh rs s num last live.1 follow
  fresh (cancelled msgs ∷ rs) s num last live follow = absurd live.0
  fresh (closed msgs stopped ∷ rs) s num last live follow =
      let (had, rest, small, given) = follow.0.1 (from_none s last) in
      elim (snoc_cases msgs) [
        | inl nothing ↦
            let (had', end, small', all) =
              fresh rs (ingest t msgs s) num (unchanged s msgs nothing ∙ last) live.1 follow.1 in
            (had', end, small', all ∙ ap (λ xs. (xs ++ all_messages rs) ++ end) (sym nothing))
        | inr (ys, n, same) ↦
            let (before, split) = split_drop (had - t.max_size) log in
            let (end, all) =
              behind rs (ingest t msgs s) (before ++ ys) n rest num
                (split
                  ∙ ap (λ xs. before ++ xs) (given ∙ ap (λ xs. xs ++ rest) same)
                  ∙ regroup before ys n rest)
                (moved s msgs ys n same) live.1 follow.1 in
            (
              had,
              end,
              small,
              joined (drop (had - t.max_size) log) msgs rest (all_messages rs) end given all,
            )
      ]

  -- Over a source that gives of a journal, numbered with growing 64-bit numbers, what each subscription asks
  -- for, with a wait configured and while the context is live: a `Run` that starts with nothing never gives
  -- up, however often the source refuses or drops. What it ingests in all its rounds is one run of the
  -- journal, from the newest `max_size` messages at the time of the first subscription that gave any, with
  -- no message left out and none twice; and the ring is what one uninterrupted channel would have made of it.
  pub run_resumes :
      (rounds : List Round)
      → IsNumbered log
      → is_nonpositive t.retry ≡ false
      → All IsLive rounds
      → AllFollow t log (record { ring = []; last_seq = 0 }) rounds
      → ((run t rounds (record { ring = []; last_seq = 0 })).exit ≡ running)
        × ((run t rounds (record { ring = []; last_seq = 0 })).state
            ≡ ingest t (all_messages rounds) (record { ring = []; last_seq = 0 }))
        × IsRun (all_messages rounds)
  run_resumes rounds num waits live follow =
      let same = run-live t rounds (record { ring = []; last_seq = 0 }) waits live in
      (
        ap (λ o. o.exit) same,
        ap (λ o. o.state) same,
        fresh rounds (record { ring = []; last_seq = 0 }) num refl live follow,
      )
