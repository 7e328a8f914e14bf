-- ===== src/Oidc/Lazy/Once.antt =====
-- One discovery for all callers of the lazy verifier of oidc/oidc.go.
use tokyo3_base.Base.{
  ℕ, ◌≡◌, refl, sym, true, false, Option, none, some, List, [], ◌∷◌, ◌++◌, Bytes, Result, ok, err,
  arith, All, Bool-cases, inl, inr,
}
use tokyo3_base.Oidc.Lazy.{
  Error, HttpVerifier, LazyVerifier, Event, begin, join, discovered, leave, Answer,
  new_http_verifier, new_lazy_http_verifier, to_all, is_waiting, begun, joined, landed, found, left,
  step, run,
}

module _ {V : Type 0} where
  -- A good answer is the verifier that is kept.
  abbrev pub IsKept : Option (HttpVerifier V) → Answer V → Type 0
  IsKept o (i, ok hv) = o ≡ some hv
  IsKept o (i, err e) = Unit

  -- Nothing is discovered once there is a verifier.
  pub record IsSettled (l : LazyVerifier V) : Type 0 where
    pub settled : (hv : HttpVerifier V) → l.verifier ≡ some hv → l.waiting ≡ none

  -- What a step does to the verifier and gives to the callers.
  pub record Keeps (l : LazyVerifier V) (out : LazyVerifier V × List (Answer V)) : Type 0 where
    pub kept : (hv : HttpVerifier V) → l.verifier ≡ some hv → out.0.verifier ≡ some hv
    pub still : IsSettled out.0
    pub answers : All (IsKept out.0.verifier) out.1

  to_all-IsKept :
      (o : Option (HttpVerifier V)) (r : Result Error (HttpVerifier V)) (ids : List ℕ)
      → ((hv : HttpVerifier V) → r ≡ ok hv → o ≡ some hv)
      → All (IsKept o) (to_all r ids)
  unfolding to_all
  to_all-IsKept o r [] h = tt
  to_all-IsKept o (ok hv) (i ∷ ids) h = (h hv refl, to_all-IsKept o (ok hv) ids h)
  to_all-IsKept o (err e) (i ∷ ids) h = (tt, to_all-IsKept o (err e) ids h)

  begun-IsKept :
      (l : LazyVerifier V) (i : ℕ) (c : Option (HttpVerifier V))
      → c ≡ l.verifier
      → All (IsKept l.verifier) (begun l i c)
  unfolding begun
  begun-IsKept l i none h = tt
  begun-IsKept l i (some hv) h = (sym h, tt)

  joined-Keeps :
      (l : LazyVerifier V) (i : ℕ) (w : Option (List ℕ)) (c : Option (HttpVerifier V))
      → w ≡ l.waiting
      → c ≡ l.verifier
      → IsSettled l
      → Keeps l (joined l i w c)
  unfolding joined
  joined-Keeps l i (some ids) c w_is c_is h = record {
    kept = λ hv e. e;
    still = record { settled = λ hv e. absurd (ground (arith, w_is, h.settled hv e)) };
    answers = tt;
  }
  joined-Keeps l i none (some hv) w_is c_is h = record {
    kept = λ hv e. e;
    still = h;
    answers = (sym c_is, tt);
  }
  joined-Keeps l i none none w_is c_is h = record {
    kept = λ hv e. e;
    still = record { settled = λ hv e. absurd (ground (arith, c_is, e)) };
    answers = tt;
  }

  landed-Keeps :
      (l : LazyVerifier V) (ids : List ℕ) (r : Result Error (HttpVerifier V))
      → some ids ≡ l.waiting
      → IsSettled l
      → Keeps l (landed l ids r)
  unfolding landed
  landed-Keeps l ids (err e) w_is h = record {
    kept = λ hv e. e;
    still = record { settled = λ hv e. refl };
    answers = to_all-IsKept l.verifier (err e) ids (λ hv e. absurd (ground (arith, e)));
  }
  landed-Keeps l ids (ok new) w_is h = record {
    kept = λ hv e. absurd (ground (arith, w_is, h.settled hv e));
    still = record { settled = λ hv e. refl };
    answers = to_all-IsKept (some new) (ok new) ids (λ hv e. ground (arith, e));
  }

  idle-Keeps : (l : LazyVerifier V) → IsSettled l → Keeps l (l, [])
  idle-Keeps l h = record { kept = λ hv e. e; still = h; answers = tt }

  found-Keeps :
      (l : LazyVerifier V) (p : Option V) (w : Option (List ℕ))
      → w ≡ l.waiting
      → IsSettled l
      → Keeps l (found l p w)
  unfolding found
  found-Keeps l p none w_is h = idle-Keeps l h
  found-Keeps l p (some ids) w_is h =
      landed-Keeps l ids (new_http_verifier l.issuer l.audience p) w_is h

  left-Keeps :
      (l : LazyVerifier V) (i : ℕ) (w : Option (List ℕ))
      → w ≡ l.waiting
      → IsSettled l
      → Keeps l (left l i w)
  unfolding left
  left-Keeps l i none w_is h = idle-Keeps l h
  left-Keeps l i (some ids) w_is h = elim (Bool-cases (is_waiting i ids)) [
    | inr gone ↦ rw gone (idle-Keeps l h)
    | inl there ↦ rw there (record {
      kept = λ hv e. e;
      still = record { settled = λ hv e. absurd (ground (arith, w_is, h.settled hv e)) };
      answers = (tt, tt);
    })
  ]

  step-Keeps : (l : LazyVerifier V) (e : Event V) → IsSettled l → Keeps l (step l e)
  unfolding step
  step-Keeps l (begin i true) h = record { kept = λ hv e. e; still = h; answers = (tt, tt) }
  step-Keeps l (begin i false) h = record {
    kept = λ hv e. e;
    still = h;
    answers = begun-IsKept l i l.verifier refl;
  }
  step-Keeps l (join i) h = joined-Keeps l i l.waiting l.verifier refl refl h
  step-Keeps l (discovered p) h = found-Keeps l p l.waiting refl h
  step-Keeps l (leave i) h = left-Keeps l i l.waiting refl h

  IsKept-later :
      (o p : Option (HttpVerifier V)) (xs bs : List (Answer V))
      → ((hv : HttpVerifier V) → o ≡ some hv → p ≡ some hv)
      → All (IsKept o) xs
      → All (IsKept p) bs
      → All (IsKept p) (xs ++ bs)
  IsKept-later o p [] bs h xs_kept bs_kept = bs_kept
  IsKept-later o p ((i, ok hv) ∷ xs) bs h xs_kept bs_kept =
      (h hv xs_kept.0, IsKept-later o p xs bs h xs_kept.1 bs_kept)
  IsKept-later o p ((i, err e) ∷ xs) bs h xs_kept bs_kept =
      (tt, IsKept-later o p xs bs h xs_kept.1 bs_kept)

  run-Keeps : (l : LazyVerifier V) (es : List (Event V)) → IsSettled l → Keeps l (run l es)
  unfolding run
  run-Keeps l [] h = idle-Keeps l h
  run-Keeps l (e ∷ es) h =
      let now = step-Keeps l e h in
      let rest = run-Keeps (step l e).0 es now.still in
      record {
        kept = λ hv e. rest.kept hv (now.kept hv e);
        still = rest.still;
        answers =
            IsKept-later (step l e).0.verifier (run (step l e).0 es).0.verifier (step l e).1
              (run (step l e).0 es).1 rest.kept now.answers rest.answers;
      }

  new_lazy_inv :
      (issuer audience : Bytes) (l : LazyVerifier V)
      → new_lazy_http_verifier issuer audience ≡ ok l
      → l.verifier ≡ none
  unfolding new_lazy_http_verifier
  new_lazy_inv issuer audience l h = ground (arith, h)

  -- Whatever the order in which callers come, give up and join a discovery, and however often discovery fails
  -- before it succeeds: every verifier that a caller of a new lazy verifier gets is the one that is kept, so
  -- all of them get the same, and once there is one no discovery is under way.
  pub run_lazy-Keeps :
      (issuer audience : Bytes) (l : LazyVerifier V) (es : List (Event V))
      → new_lazy_http_verifier issuer audience ≡ ok l
      → Keeps l (run l es)
  run_lazy-Keeps issuer audience l es h =
      run-Keeps l es
        (record { settled = λ hv e. absurd (ground (arith, e, new_lazy_inv issuer audience l h)) })
