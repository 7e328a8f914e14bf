-- ===== src/Oidc/Logout/Replay.antt =====
-- Which notifications oidc/backchannel_logout.go refuses as replays, whatever other requests run
-- between two deliveries of one.
use tokyo3_base.Base.{
  ℕ, ◌≡◌, refl, ap, ◌∙◌, Bool, true, false, none, some, List, [], ◌∷◌, arith, Bytes, bytes_eq,
  bytes_eq_iff, All, Bool-cases, inl, inr,
}
use tokyo3_base.Base.Dict
use tokyo3_base.Base.Dict.{keep_value}
use tokyo3_base.Oidc.Logout.{Entry, JtiCache, is_fresh, is_dup, sweep, reserve, accept, finish}

-- What requests do to the cache: they start, and they end.
pub data Event : Type 0 where
  starts : Bytes → ℕ → Event
  ends : Bytes → Bool → ℕ → Event

abbrev step : Event → JtiCache → JtiCache
step (starts jti now) c = (accept jti now c).1
step (ends jti success now) c = finish jti success now c

unfoldable pub run : List Event → JtiCache → JtiCache
run [] c = c
run (ev ∷ es) c = run es (step ev c)

-- An event that does not touch what the cache holds of the id `k`: it starts a request at a time at
-- which the entry is fresh, or it ends a request for another id.
abbrev pub Undisturbed : ℕ → Bytes → Entry → Event → Type 0
Undisturbed window k entry (starts jti now) = is_fresh window now entry ≡ true
Undisturbed window k entry (ends jti success now) = bytes_eq jti k ≡ false

get-sweep :
    (k : Bytes) (now : ℕ) (c : JtiCache) (entry : Entry)
    → Dict.get k c.seen ≡ some entry
    → is_fresh c.window now entry ≡ true
    → Dict.get k (sweep now c).seen ≡ some entry
unfolding sweep
get-sweep k now c entry h fresh =
    ground (arith, h, fresh, Dict.get-keep k (is_fresh c.window now) c.seen)

sweep-window : (now : ℕ) (c : JtiCache) → (sweep now c).window ≡ c.window
unfolding sweep
sweep-window now c = ground arith

reserve_fresh :
    (k : Bytes) (now : ℕ) (c : JtiCache) (entry : Entry)
    → Dict.get k c.seen ≡ some entry
    → is_fresh c.window now entry ≡ true
    → reserve k now c ≡ (false, c)
unfolding reserve
reserve_fresh k now c entry h fresh = rw (h, is_dup, fresh) refl

get-reserve :
    (k jti : Bytes) (now : ℕ) (c : JtiCache) (entry : Entry)
    → Dict.get k c.seen ≡ some entry
    → is_fresh c.window now entry ≡ true
    → (Dict.get k (reserve jti now c).1.seen ≡ some entry)
      × ((reserve jti now c).1.window ≡ c.window)
unfolding reserve
get-reserve k jti now c entry h fresh =
    elim (Bool-cases (is_dup c.window now (Dict.get jti c.seen))) [
      | inl dup ↦ (rw dup h, rw dup refl)
      | inr new ↦ elim (Bool-cases (bytes_eq jti k)) [
        | inl e ↦
            let same : jti ≡ k = ground (arith, e, bytes_eq_iff jti k) in
            absurd (cc (rw (same, h, is_dup, fresh) at new))
        | inr ne ↦ (
          rw (new, Dict.get-put k jti (record { at = now; pending = true }) c.seen, ne, h) refl,
          rw new refl,
        )
      ]
    ]

get-accept :
    (k jti : Bytes) (now : ℕ) (c : JtiCache) (entry : Entry)
    → Dict.get k c.seen ≡ some entry
    → is_fresh c.window now entry ≡ true
    → (Dict.get k (accept jti now c).1.seen ≡ some entry) × ((accept jti now c).1.window ≡ c.window)
unfolding accept
get-accept k jti now c entry h fresh =
    let same = sweep-window now c in
    let (kept, w) =
      get-reserve k jti now (sweep now c) entry (get-sweep k now c entry h fresh) (rw same fresh) in
    (kept, w ∙ same)

accept_fresh :
    (k : Bytes) (now : ℕ) (c : JtiCache) (entry : Entry)
    → Dict.get k c.seen ≡ some entry
    → is_fresh c.window now entry ≡ true
    → accept k now c ≡ (false, sweep now c)
unfolding accept
accept_fresh k now c entry h fresh =
    reserve_fresh k now (sweep now c) entry (get-sweep k now c entry h fresh)
      (rw (sweep-window now c) fresh)

get-step :
    (k : Bytes) (ev : Event) (c : JtiCache) (entry : Entry)
    → Dict.get k c.seen ≡ some entry
    → Undisturbed c.window k entry ev
    → (Dict.get k (step ev c).seen ≡ some entry) × ((step ev c).window ≡ c.window)
unfolding finish
get-step k (starts jti now) c entry h calm = get-accept k jti now c entry h calm
get-step k (ends jti true now) c entry h calm =
    (rw (Dict.get-put k jti (record { at = now; pending = false }) c.seen, calm, h) refl, refl)
get-step k (ends jti false now) c entry h calm =
    (rw (Dict.get-remove k jti c.seen, calm, h) refl, refl)

get-run :
    (k : Bytes) (es : List Event) (c : JtiCache) (entry : Entry)
    → Dict.get k c.seen ≡ some entry
    → All (Undisturbed c.window k entry) es
    → (Dict.get k (run es c).seen ≡ some entry) × ((run es c).window ≡ c.window)
unfolding run
get-run k [] c entry h calm = (h, refl)
get-run k (ev ∷ es) c entry h (now_calm, calm) =
    let (kept, w) = get-step k ev c entry h now_calm in
    let (end, w') = get-run k es (step ev c) entry kept (rw w calm) in (end, w' ∙ w)

-- While the request that reserved an id is at work, and for the window after it has succeeded,
-- every other request with that id is refused, whatever requests start in that time and whatever
-- requests for other ids end.
pub replay_refused :
    (k : Bytes) (es : List Event) (c : JtiCache) (entry : Entry) (now : ℕ)
    → Dict.get k c.seen ≡ some entry
    → All (Undisturbed c.window k entry) es
    → is_fresh c.window now entry ≡ true
    → (accept k now (run es c)).0 ≡ false
replay_refused k es c entry now h calm fresh =
    let (kept, w) = get-run k es c entry h calm in
    ap (λ x. x.0) (accept_fresh k now (run es c) entry kept (rw w fresh))

pub accept-window : (jti : Bytes) (now : ℕ) (c : JtiCache) → (accept jti now c).1.window ≡ c.window
unfolding accept reserve
accept-window jti now c = ground (arith, sweep-window now c)

get-sweep-none :
    (k : Bytes) (now : ℕ) (c : JtiCache)
    → Dict.get k c.seen ≡ none
    → Dict.get k (sweep now c).seen ≡ none
unfolding sweep
get-sweep-none k now c h = ground (arith, h, Dict.get-keep k (is_fresh c.window now) c.seen)

pub accept_new :
    (k : Bytes) (now : ℕ) (c : JtiCache) → Dict.get k c.seen ≡ none → (accept k now c).0 ≡ true
unfolding accept reserve
accept_new k now c h = rw (get-sweep-none k now c h, is_dup) refl
