-- ===== src/Tests/GateRuns.antt =====
-- The theorems of packages httpauth and api at concrete inputs.
use tokyo3_base.Base.{
  ◌≤◌, ◌≡◌, ◌≢◌, refl, true, false, not, ◌&&◌, ◌||◌, Option, none, some, List, [], ◌∷◌, arith,
  Bytes, text, err, contains_bytes,
}
use tokyo3_base.SealedCookie.{is_empty}
use tokyo3_base.HttpAuth.{BasicAuthConfig, basic_auth}
use tokyo3_base.HttpAuth.Admission.{is_next, presents, basic_auth-is_next}
use tokyo3_base.Api.BearerToken.{early, TokenManager, leads, is_fresh, get_token, run_refresh}
use tokyo3_base.Api.BearerToken.Refresh.{
  Event, calls, ends, run, IsSingle, get_token-run_refresh, run-IsSingle,
}

-- A digest that is the text.
abbrev digest : Bytes → Bytes
digest b = b

abbrev gate : BasicAuthConfig
gate = record { username = text "admin"; password = text "pw"; realm = [] }

abbrev presented : Option (Bytes × Bytes)
presented = some (text "admin", text "pw")

basic_auth-is_next_example :
    is_next (basic_auth digest gate (text "/healthz" ∷ []) (text "/") presented) ≡ (
      contains_bytes (text "/healthz" ∷ []) (text "/")
      || (is_empty gate.username && is_empty gate.password)
      || (not (is_empty gate.username) && not (is_empty gate.password) && presents gate presented))
basic_auth-is_next_example =
    basic_auth-is_next digest gate (text "/healthz" ∷ []) (text "/") presented ((λ h. h), (λ h. h))

-- A token that expires at 100 seconds.
abbrev manager : TokenManager
manager = record {
  token = text "t";
  expires_at = 100_000_000_000;
  has_refresher = true;
  inflight = false;
  next_attempt = 0;
  lifetime = 0;
  last_err = none;
}

get_token-run_refresh_example :
    ((get_token (early 5) 100_000_000_001 (run_refresh (err 7) 100_000_000_000 manager)).0 ≢ leads)
    × ((get_token (early 5) 130_000_000_000 (run_refresh (err 7) 100_000_000_000 manager)).0
        ≡ leads)
unfolding is_fresh
get_token-run_refresh_example =
    get_token-run_refresh (early 5) 7 100_000_000_000 100_000_000_001 130_000_000_000 manager refl
      (omega arith) (omega arith) refl

abbrev events : List Event
events =
    calls (early 5) 100_000_000_000
    ∷ calls (early 5) 100_000_000_001
    ∷ ends (err 7) 100_000_000_002
    ∷ []

run-IsSingle_example :
    IsSingle (run events (record { manager = manager; refreshing = 0 }))
    × ((run events (record { manager = manager; refreshing = 0 })).refreshing ≤ 1)
run-IsSingle_example = run-IsSingle events (record { manager = manager; refreshing = 0 }) refl
