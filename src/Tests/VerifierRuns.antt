-- ===== src/Tests/VerifierRuns.antt =====
-- The theorems of the verifiers of package oidc, and of package auth/jwt, at concrete inputs.
use tokyo3_base.Base.{
  ℕ, ◌+◌, ◌≡◌, ◌≢◌, refl, true, false, none, some, List, [], ◌∷◌, arith, text, ok, err,
}
use tokyo3_base.Base.Int.{pos}
use tokyo3_base.Oidc.Verifier
use tokyo3_base.Oidc.Verifier.{
  is_logout_token, verify, verify_claims, verify_logout_claims, verify_logout_token,
}
use tokyo3_base.AuthJwt.{
  Signing, Signer, new, Identity, IdClaims, LogoutClaims, id_claims, logout_claims, id_token,
  logout_token, numeric_date, logout_token_ttl, mint_id_token, mint_logout_token,
}
use tokyo3_base.AuthJwt.Accepted.{verify_logout_token-mint, verify-mint}
use tokyo3_base.Oidc.Lazy.{
  LazyVerifier, Event, begin, join, discovered, leave, new_lazy_http_verifier, run,
}
use tokyo3_base.Oidc.Lazy.Once.{Keeps, run_lazy-Keeps}

abbrev lazy : LazyVerifier ℕ
lazy = record { issuer = text "i"; audience = text "a"; verifier = none; waiting = none }

-- The first discovery fails; in the second one caller gives up.
abbrev events : List (Event ℕ)
events =
    begin 1 false
    ∷ join 1
    ∷ discovered none
    ∷ begin 2 false
    ∷ join 2
    ∷ join 3
    ∷ leave 2
    ∷ discovered (some 7)
    ∷ begin 4 false
    ∷ []

run_lazy-Keeps_example : Keeps lazy (run lazy events)
unfolding new_lazy_http_verifier
run_lazy-Keeps_example = run_lazy-Keeps (text "i") (text "a") lazy events refl

-- A signer whose texts are all alike, and verifiers that read the claims of these tests in them.
abbrev signing : Signing
signing = record { sign_id = λ kid c. some (text "t"); sign_logout = λ kid c. some (text "t") }

abbrev signer : Signer
signer = new (text "k") (text "i") (record { id_token_ttl = pos 0; acr_mfa = [] })

abbrev minted_at : ℕ
minted_at = 63900000000123456789

abbrev the_logout : LogoutClaims
the_logout = logout_claims signer (text "a") (text "u") [] [] minted_at (text "n")

abbrev identity : Identity
identity = record {
  user_id = text "u";
  client_id = text "a";
  email = text "e";
  name = text "m";
  nonce = text "o";
  mfa_verified = true;
  amr = [];
  auth_time = minted_at;
  sid = [];
  groups = [];
}

abbrev the_id : IdClaims
the_id = id_claims signer identity minted_at (text "n")

verify_logout_token-mint_example :
    (verify_logout_token (λ raw. some (logout_token the_logout)) minted_at (text "t")
      ≡ ok (record {
        issuer = text "i";
        subject = text "u";
        session_id = [];
        jti = text "n";
        issued_at = numeric_date minted_at;
        expires_at = numeric_date (minted_at + logout_token_ttl);
      }))
    × (verify_claims (logout_token the_logout) ≡ err is_logout_token)
unfolding mint_logout_token new
verify_logout_token-mint_example =
    verify_logout_token-mint signer (text "a") (text "u") [] [] minted_at (text "n") signing
      (λ raw. some (logout_token the_logout)) minted_at (text "t")
      (record { reads = λ kid raw h. refl }) refl refl (omega arith) (omega arith) refl

verify-mint_example :
    (verify (λ raw. some (id_token the_id)) (text "t")
      ≡ ok (record {
        subject = text "u";
        email = text "e";
        email_verified = false;
        name = text "m";
        groups = [];
        nonce = text "o";
        issuer = text "i";
        auth_time = numeric_date minted_at;
        session_id = [];
      }))
    × ((later : ℕ) (c : Verifier.LogoutClaims)
        → verify_logout_claims later (id_token the_id) ≢ ok c)
unfolding mint_id_token new
verify-mint_example =
    verify-mint signer identity minted_at (text "n") signing (λ raw. some (id_token the_id))
      (text "t")
      (record {
        present = λ kid raw h. let e : text "t" ≡ raw = ground (arith, h) in rw (← e) refl;
        reads = λ kid raw h. refl;
      })
      refl
