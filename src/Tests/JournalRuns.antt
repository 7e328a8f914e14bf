-- ===== src/Tests/JournalRuns.antt =====
-- The theorems of the journal packages at concrete inputs.
use tokyo3_base.Base.{
  ℕ, ◌*◌, ◌≡◌, refl, true, false, Option, none, some, List, [], ◌∷◌, arith, Bytes, text, Result, ok,
  err,
}
use tokyo3_base.Base.Int.{pos}
use tokyo3_base.Journal.Tracker.{
  Msg, subscription, ingest_one, Tracker, State, ingest, Round, refused, closed, run, running,
}
use tokyo3_base.Journal.Tracker.Resume.{all_messages}
use tokyo3_base.Journal.Tracker.Contiguous.{IsNumbered, from_seq, AllFollow, IsRun, run_resumes}
use tokyo3_base.Journal.Encoded.{Signal, message, stopped}
use tokyo3_base.Journal.Limits
use tokyo3_base.Journal.Limits.{Limits, LimitsConfig, new_limits, open_stream, release}
use tokyo3_base.Journal.Limits.Accounting.{IsCounted, run_counts}

abbrev msg : ℕ → Msg
msg seq = record { seq = seq; time = 10 * seq; payload = seq ∷ [] }

abbrev first_byte : Msg → Option ℕ
first_byte m = some m.seq

abbrev newest_first : Tracker ℕ
newest_first = record { decode = first_byte; less = none; max_size = 2; retry = pos 1 }

abbrev empty_state : State ℕ
empty_state = record { ring = []; last_seq = 0 }

abbrev rounds : List Round
rounds = closed (msg 7 ∷ msg 8 ∷ []) false ∷ refused false false ∷ closed (msg 9 ∷ []) false ∷ []

abbrev journal : List Msg
journal = msg 7 ∷ msg 8 ∷ msg 9 ∷ msg 10 ∷ []

journal-IsNumbered : IsNumbered journal
journal-IsNumbered = (
  (omega arith, omega arith, (omega arith, (omega arith, (omega arith, tt)))),
  (
    (omega arith, omega arith, (omega arith, (omega arith, tt))),
    ((omega arith, omega arith, (omega arith, tt)), ((omega arith, omega arith, tt), tt)),
  ),
)

-- The first subscription came when the journal had two messages; the second one goes on behind them.
rounds_follow : AllFollow newest_first journal empty_state rounds
unfolding subscription ingest ingest_one from_seq
rounds_follow = (
  (λ h. absurd (omega (arith, h)), λ h. (2, msg 9 ∷ msg 10 ∷ [], omega arith, refl)),
  ((λ h. (msg 10 ∷ [], refl), λ h. absurd (omega (arith, h))), tt),
)

run_resumes_example :
    ((run newest_first rounds empty_state).exit ≡ running)
    × ((run newest_first rounds empty_state).state
        ≡ ingest newest_first (all_messages rounds) empty_state)
    × IsRun newest_first journal (all_messages rounds)
run_resumes_example =
    run_resumes newest_first journal rounds journal-IsNumbered refl
      (refl, ((refl, refl), (refl, tt))) rounds_follow

abbrev decode : Bytes → Result ℕ ℕ
decode [] = err 0
decode (b ∷ bs) = ok b

abbrev signals : List Signal
signals = message (msg 7) true ∷ message (msg 8) false ∷ stopped ∷ []

abbrev limits_config : LimitsConfig
limits_config = record {
  max_streams = pos 2;
  max_per_client = pos 1;
  has_client_key = true;
  retry_after = pos 0;
}

abbrev limits : Limits
limits = record {
  max_streams = 2;
  max_per_client = 1;
  retry_after = 10_000_000_000;
  total = 0;
  per_client = [];
}

run_counts_example : IsCounted (
    Limits.run
      (record { limits = limits; slots = [] })
      (open_stream (text "a")
        ∷ open_stream (text "a")
        ∷ release 0
        ∷ release 0
        ∷ open_stream (text "a")
        ∷ []))
unfolding new_limits
run_counts_example =
    run_counts limits_config limits
      (open_stream (text "a")
        ∷ open_stream (text "a")
        ∷ release 0
        ∷ release 0
        ∷ open_stream (text "a")
        ∷ [])
      refl
