-- ===== src/OidcClient/Endpoints/Secure.antt =====
-- To where auth/oidcclient sends credentials.
use tokyo3_base.Base.{
  ℕ, ◌≡◌, refl, Bool, true, not, ◌&&◌, Option, none, some, Bytes, bytes_eq, bytes_eq_refl, text,
  ◌++◌, Result, ok, err, arith, Bool-cases, Option-cases, Result-cases, inl, inr, ◌⊎◌,
  if◌then◌else◌,
}
use tokyo3_base.SealedCookie.{is_empty}
use tokyo3_base.UrlQuery.{Values}
use tokyo3_base.OidcClient.Endpoints.{
  Web, Endpoints, Document, Error, convention_endpoints, trim_slashes, require_secure_endpoint,
  secure_url, post_form, post_token_at, token_response, is_ok, chosen, from_document, document_of,
  discover_endpoints, refresh,
}

module _ (w : Web) where
  abbrev pub IsSecure : Bytes → Type 0
  IsSecure url = require_secure_endpoint w url ≡ ok tt

  -- An endpoint is the conventional one, or a secure one.
  abbrev pub IsChosen : Bytes → Bytes → Type 0
  IsChosen fallback url = (url ≡ fallback) ⊎ IsSecure url

  is_ok_inv : (r : Result Error (Unit {0})) → is_ok r ≡ true → r ≡ ok tt
  unfolding is_ok
  is_ok_inv (ok u) h = refl
  is_ok_inv (err e) h = absurd (ground (arith, h))

  chosen_cases : (fallback found : Bytes) → IsChosen fallback (chosen w fallback found)
  unfolding chosen
  chosen_cases fallback found =
      elim (Bool-cases (not (is_empty found) && is_ok (require_secure_endpoint w found))) [
        | inr refused ↦ inl (rw refused refl)
        | inl taken ↦
            rw taken (inr (is_ok_inv (require_secure_endpoint w found) (ground (arith, taken))))
      ]

  abbrev pub AreChosen : Bytes → Endpoints → Type 0
  AreChosen issuer ep =
      IsChosen (convention_endpoints issuer).authorization ep.authorization
      × IsChosen (convention_endpoints issuer).token ep.token
      × IsChosen (convention_endpoints issuer).device_authorization ep.device_authorization

  from_document_cases :
      (issuer : Bytes) (o : Option Document) → AreChosen issuer (from_document w issuer o)
  unfolding from_document
  from_document_cases issuer none = (inl refl, inl refl, inl refl)
  from_document_cases issuer (some d) =
      elim (Bool-cases (bytes_eq (trim_slashes d.issuer) (trim_slashes issuer))) [
        | inr other ↦ rw other (inl refl, inl refl, inl refl)
        | inl same ↦ rw same (
          chosen_cases (convention_endpoints issuer).authorization d.endpoints.authorization,
          chosen_cases (convention_endpoints issuer).token d.endpoints.token,
          chosen_cases (convention_endpoints issuer).device_authorization
              d.endpoints.device_authorization,
        )
      ]

  -- Whatever a discovery document says, each of the three endpoints is the conventional one of the issuer,
  -- or is https, or http on the loopback.
  pub discover_endpoints_cases : (issuer : Bytes) → AreChosen issuer (discover_endpoints w issuer)
  unfolding discover_endpoints
  discover_endpoints_cases issuer = elim (Bool-cases (is_ok (require_secure_endpoint w issuer))) [
    | inr insecure ↦ rw insecure (inl refl, inl refl, inl refl)
    | inl secure ↦ rw secure (from_document_cases issuer _)
  ]

  -- Where a web is asked for the discovery document of a secure issuer.
  unfoldable pub is_document_of : Bytes → Bytes → Bool
  is_document_of issuer url =
      is_ok (require_secure_endpoint w issuer)
      && bytes_eq url (trim_slashes issuer ++ text "/.well-known/openid-configuration")

  module _ (issuer : Bytes) (other : Bytes → Values → Option (ℕ × Bytes))
      (other_get : Bytes → Option (ℕ × Bytes)) where
    -- The same network, but that the servers at insecure endpoints answer posts otherwise, and all servers
    -- answer otherwise what they are asked to get, but for the discovery document of the issuer, and for this
    -- too where the issuer is insecure.
    abbrev pub elsewhere : Web
    elsewhere = record w {
      post = λ url form.
          if is_ok (require_secure_endpoint w url) then w.post url form else other url form;
      get = λ url. if is_document_of issuer url then w.get url else other_get url;
    }

    require_secure_same :
        (url : Bytes) → require_secure_endpoint elsewhere url ≡ require_secure_endpoint w url
    unfolding require_secure_endpoint secure_url
    require_secure_same url = elim (Option-cases (w.parse_url url)) [
      | inl bad ↦ rw bad refl
      | inr (u, good) ↦ rw good refl
    ]

    post_form_secure :
        (url : Bytes) (form : Values) → post_form elsewhere url form ≡ post_form w url form
    unfolding post_form is_ok
    post_form_secure url form = elim (Result-cases (require_secure_endpoint w url)) [
      | inl (u, secure) ↦ rw (require_secure_same, secure) refl
      | inr (e, refused) ↦ rw (require_secure_same, refused) refl
    ]

    chosen_same :
        (fallback found : Bytes) → chosen elsewhere fallback found ≡ chosen w fallback found
    unfolding chosen
    chosen_same fallback found = rw require_secure_same refl

    from_document_same :
        (issuer : Bytes) (o : Option Document)
        → from_document elsewhere issuer o ≡ from_document w issuer o
    unfolding from_document
    from_document_same issuer none = refl
    from_document_same issuer (some d) =
        rw
          (
            chosen_same (convention_endpoints issuer).authorization d.endpoints.authorization,
            chosen_same (convention_endpoints issuer).token d.endpoints.token,
            chosen_same (convention_endpoints issuer).device_authorization
                d.endpoints.device_authorization,
          )
          refl

    document_same :
        is_ok (require_secure_endpoint w issuer) ≡ true
        → elsewhere.get (trim_slashes issuer ++ text "/.well-known/openid-configuration")
          ≡ w.get (trim_slashes issuer ++ text "/.well-known/openid-configuration")
    unfolding is_document_of
    document_same secure =
        rw (secure, bytes_eq_refl (trim_slashes issuer ++ text "/.well-known/openid-configuration"))
          refl

    discover_endpoints_same : discover_endpoints elsewhere issuer ≡ discover_endpoints w issuer
    unfolding discover_endpoints document_of
    discover_endpoints_same =
        rw (require_secure_same issuer)
          (elim (Bool-cases (is_ok (require_secure_endpoint w issuer))) [
            | inr insecure ↦ rw insecure refl
            | inl secure ↦ rw (secure, document_same secure) (from_document_same issuer _)
          ])

    post_token_at_same :
        (now : ℕ) (url : Bytes) (form : Values)
        → post_token_at elsewhere now url form ≡ post_token_at w now url form
    unfolding post_token_at token_response
    post_token_at_same now url form = rw (post_form_secure url form) refl

    -- A refresh gives the same, whatever servers at insecure endpoints answer to what is posted to them,
    -- however the issuer and its discovery document name them, and whatever is answered to any request for a
    -- document but that for the discovery document of an issuer that is secure itself. So neither an insecure
    -- issuer nor an insecure endpoint can make a difference.
    pub refresh_secure :
        (now : ℕ) (client_id refresh_token : Bytes)
        → refresh elsewhere now issuer client_id refresh_token
          ≡ refresh w now issuer client_id refresh_token
    unfolding refresh
    refresh_secure now client_id refresh_token =
        rw discover_endpoints_same (post_token_at_same now _ _)
