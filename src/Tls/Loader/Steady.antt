-- ===== src/Tls/Loader/Steady.antt =====
-- The calls of the loaders of tls/reloader/loader.go, by what they do to the kept value.
use tokyo3_base.Base.{
  ◌≡◌, refl, true, false, Option, none, some, [], ◌∷◌, Bytes, Result, ok, err, map_err, arith,
  Option-cases, Result-cases, inl, inr,
}
use tokyo3_base.Tls.Files
use tokyo3_base.Tls.Files.{X509, ConnectionState, verify_peer_chain}
use tokyo3_base.Tls.Reload.{Got}
use tokyo3_base.Tls.Reload.Direct.{direct}
use tokyo3_base.Tls.Reload.Loaded.{IsSteady, get-IsSteady, forced_direct, forced_fails}
use tokyo3_base.Tls.Loader.{
  Sight, CertLoader, CaLoader, Error, files, stat, load_pair, load_pool, cert_call, ca_call,
  get_certificate, reload_cert, pool, reload_ca, result_of, verify_with, verify_connection,
}

module _ {V : Type 0} where
  pub result_of_ok :
      (g : Got V Files.Error) (o : Option V) → result_of g ≡ ok o → (g.error ≡ none) × (g.value ≡ o)
  unfolding result_of
  result_of_ok g o h = elim (Option-cases g.error) [
    | inl fine ↦ (fine, ground (arith, fine, h))
    | inr (e, bad) ↦ absurd (ground (arith, bad, h))
  ]

module _ {Cert Pool : Type 0} (x : X509 Cert Pool) where
  pub get_certificate-IsSteady :
      (l : CertLoader Cert) (s : Sight)
      → IsSteady false l.val ((get_certificate x l s).0, (get_certificate x l s).1.val)
  unfolding get_certificate cert_call
  get_certificate-IsSteady l s = get-IsSteady false l.val _ s.now s.now _

  pub pool-IsSteady :
      (l : CaLoader Pool) (s : Sight) → IsSteady false l.val ((pool x l s).0, (pool x l s).1.val)
  unfolding pool ca_call
  pool-IsSteady l s = get-IsSteady false l.val _ s.now s.now _

  -- A refreshed certificate stays loaded, and keeps what was read, or what was kept before.
  pub reload_cert_kept :
      (l : CertLoader Cert) (s : Sight)
      → ((reload_cert x l s).1.val.val
          ≡ direct l.val.val (load_pair x s.disk l.cert_file l.key_file))
        × ((reload_cert x l s).1.val.max_stale ≡ l.val.max_stale)
        × ((reload_cert x l s).1.cert_file ≡ l.cert_file)
        × ((reload_cert x l s).1.key_file ≡ l.key_file)
  unfolding reload_cert cert_call
  reload_cert_kept l s = (
    forced_direct l.val _ s.now s.now _,
    (get-IsSteady true l.val (stat s.disk (l.cert_file ∷ l.key_file ∷ [])) s.now s.now
        (load_pair x s.disk l.cert_file l.key_file)).limit,
    refl,
    refl,
  )

  pub reload_cert_fails :
      (l : CertLoader Cert) (s : Sight)
      → (reload_cert x l s).0 ≡ none
      → (c : Cert) × (raw : Bytes) × (load_pair x s.disk l.cert_file l.key_file ≡ ok (c, raw))
  unfolding reload_cert cert_call
  reload_cert_fails l s h = forced_fails l.val _ s.now s.now _ h

  pub reload_ca_kept :
      (l : CaLoader Pool) (s : Sight)
      → ((reload_ca x l s).1.val.val ≡ direct l.val.val (load_pool x s.disk l.ca_file))
        × ((reload_ca x l s).1.val.max_stale ≡ l.val.max_stale)
        × ((reload_ca x l s).1.ca_file ≡ l.ca_file)
  unfolding reload_ca ca_call
  reload_ca_kept l s = (
    forced_direct l.val _ s.now s.now _,
    (get-IsSteady true l.val (stat s.disk (l.ca_file ∷ [])) s.now s.now
        (load_pool x s.disk l.ca_file)).limit,
    refl,
  )

  pub reload_ca_fails :
      (l : CaLoader Pool) (s : Sight)
      → (reload_ca x l s).0 ≡ none
      → (p : Pool) × (raw : Bytes) × (load_pool x s.disk l.ca_file ≡ ok (p, raw))
  unfolding reload_ca ca_call
  reload_ca_fails l s h = forced_fails l.val _ s.now s.now _ h

  -- The verdict on a connection is that of the pool that the loader gives.
  pub verify_connection-pool :
      (l : CaLoader Pool) (s : Sight) (cs : ConnectionState) (p : Pool)
      → (pool x l s).0.value ≡ some p
      → (pool x l s).0.error ≡ none
      → (verify_connection x l s cs).0 ≡ map_err files (verify_peer_chain x (some p) cs)
  unfolding verify_connection verify_with result_of
  verify_connection-pool l s cs p is fine = ground (arith, is, fine)

  pub verify_connection_state :
      (l : CaLoader Pool) (s : Sight) (cs : ConnectionState)
      → (verify_connection x l s cs).1 ≡ (pool x l s).1
  unfolding verify_connection
  verify_connection_state l s cs = refl

  verify_with_inv :
      (cs : ConnectionState) (r : Result Error (Option Pool))
      → verify_with x cs r ≡ ok tt
      → (o : Option Pool) × (r ≡ ok o) × (verify_peer_chain x o cs ≡ ok tt)
  unfolding verify_with
  verify_with_inv cs (err e) h = absurd (ground (arith, h))
  verify_with_inv cs (ok o) h = elim (Result-cases (verify_peer_chain x o cs)) [
    | inl (u, fine) ↦ (o, refl, fine)
    | inr (e, bad) ↦ absurd (ground (arith, bad, h))
  ]

  -- An accepted connection has a name and a chain that the pool given verifies.
  pub verify_connection_inv :
      (l : CaLoader Pool) (s : Sight) (cs : ConnectionState)
      → (verify_connection x l s cs).0 ≡ ok tt
      → (o : Option Pool) × ((pool x l s).0.value ≡ o)
        × ((pool x l s).0.error ≡ none)
        × (verify_peer_chain x o cs ≡ ok tt)
  unfolding verify_connection
  verify_connection_inv l s cs h =
      let (o, given, fine) = verify_with_inv cs (result_of (pool x l s).0) h in
      let (error, value) = result_of_ok (pool x l s).0 o given in (o, value, error, fine)
