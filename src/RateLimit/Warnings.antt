-- ===== src/RateLimit/Warnings.antt =====
-- The log lines of ratelimit/ratelimit.go: what they count, and when they come.
use tokyo3_base.Base.{
  ℕ, suc, ◌+◌, ◌≤◌, ◌≡◌, refl, sym, subst, ap, ◌⊎◌, Option, none, some, List, [], ◌∷◌, arith, Bytes,
  length,
}
use tokyo3_base.Base.Dict
use tokyo3_base.Base.Dict.{Dict, get-put_self}
use tokyo3_base.RateLimit.{Bucket, Limiter, warn, warn_tracked, warn_due, warn_interval}

-- Requests that the lines account for: each line for its own and for those suppressed before.
abbrev reported_one : Option ℕ → ℕ
reported_one none = 0
reported_one (some n) = suc n

abbrev pub reported : List (Option ℕ) → ℕ
reported [] = 0
reported (due ∷ ds) = reported_one due + reported ds

-- Each line comes at least `warn_interval` after the one before it, the first after `last`; 0 is
-- no line.
abbrev IsLater : ℕ → ℕ → Type 0
IsLater last now = (last ≡ 0) ⊎ (last + warn_interval ≤ now)

abbrev pub IsSpaced : ℕ → List ℕ → List (Option ℕ) → Type 0
IsSpaced last (now ∷ times) (none ∷ ds) = IsSpaced last times ds
IsSpaced last (now ∷ times) (some n ∷ ds) = IsLater last now × IsSpaced now times ds
IsSpaced last _ _ = Unit

module _ {L : Type 0} (key : Bytes) where
  -- Throttled requests of one source, one after the other, and the lines that they make due.
  pub warn_all : List ℕ → Limiter L → List (Option ℕ) × Limiter L
  warn_all [] l = ([], l)
  warn_all (now ∷ times) l =
      let (due, l') = warn_due key now l in let (rest, l'') = warn_all times l' in (due ∷ rest, l'')

  warn_counts :
      (b : Bucket L) (now : ℕ)
      → reported_one (warn b now).0 + (warn b now).1.suppressed ≡ b.suppressed + 1
  unfolding warn
  warn_counts b now = ground arith

  warn_due-tracked :
      (now : ℕ) (l : Limiter L) (b : Bucket L)
      → Dict.get key l.buckets ≡ some b
      → ((warn_due key now l).0 ≡ (warn b now).0)
        × (Dict.get key (warn_due key now l).1.buckets ≡ some (warn b now).1)
  unfolding warn_due
  warn_due-tracked now l b e =
      rw (e, warn_tracked) (refl, get-put_self key (warn b now).1 l.buckets)

  warn-none :
      (b : Bucket L) (now : ℕ) → (warn b now).0 ≡ none → (warn b now).1.last_warn ≡ b.last_warn
  unfolding warn
  warn-none b now h = ground arith

  warn-some :
      (b : Bucket L) (now n : ℕ)
      → (warn b now).0 ≡ some n
      → ((warn b now).1.last_warn ≡ now) × IsLater b.last_warn now
  unfolding warn
  warn-some b now n h = ground arith

  -- Every throttled request of a tracked source is accounted for by a line or still counted in
  -- its bucket, and two lines of the source are at least a minute apart, whatever the times are.
  pub warn_all_lines :
      (times : List ℕ) (l : Limiter L) (b : Bucket L)
      → Dict.get key l.buckets ≡ some b
      → (b' : Bucket L) × (Dict.get key (warn_all times l).1.buckets ≡ some b')
        × (reported (warn_all times l).0 + b'.suppressed ≡ b.suppressed + length times)
        × IsSpaced b.last_warn times (warn_all times l).0
  unfolding warn_all
  warn_all_lines [] l b e = (b, e, omega arith, tt)
  warn_all_lines (now ∷ times) l b e =
      let (due, held) = warn_due-tracked now l b e in
      let (b', kept, counts, spaced) =
        warn_all_lines times (warn_due key now l).1 (warn b now).1 held in
      (
        b',
        kept,
        omega (arith, warn_counts b now, ap reported_one due, counts),
        spaced_step (warn_due key now l).0 due spaced,
      )
    where
      spaced_step :
          (d : Option ℕ)
          → d ≡ (warn b now).0
          → IsSpaced (warn b now).1.last_warn times (warn_all times (warn_due key now l).1).0
          → IsSpaced b.last_warn (now ∷ times) (d ∷ (warn_all times (warn_due key now l).1).0)
      spaced_step none p s =
          subst (λ k. IsSpaced k times (warn_all times (warn_due key now l).1).0)
            (warn-none b now (sym p)) s
      spaced_step (some n) p s =
          let (at, later) = warn-some b now n (sym p) in
          (later, subst (λ k. IsSpaced k times (warn_all times (warn_due key now l).1).0) at s)
