-- ===== src/Tls/Reloader/Pools.antt =====
-- The pools that tls/reloader/reloader.go was configured with stay there, to verify with.
use tokyo3_base.Base.{
  ◌≡◌, refl, ap, subst, ◌∙◌, true, Option, none, some, List, [], ◌∷◌, Bytes, bytes_eq, Result, ok,
  err, map_err, arith, Bool-cases, inl, inr,
}
use tokyo3_base.Base.Int.{ℤ, is_nonpositive}
use tokyo3_base.Base.Dict
use tokyo3_base.Base.Dict.{Dict, get-put}
use tokyo3_base.Tls.Files
use tokyo3_base.Tls.Files.{X509, ConnectionState, verify_peer_chain}
use tokyo3_base.Tls.Loader
use tokyo3_base.Tls.Loader.{
  Sight, CaLoader, CertLoader, reload_ca, pool, get_certificate, result_of, new_cert_loader,
}
use tokyo3_base.Tls.Loader.Steady.{pool-IsSteady, verify_connection-pool}
use tokyo3_base.Tls.Reloader.{
  Config, PoolEntry, system_pool, file_pool, Reloader, Error, new, new_entries, with_cert, refresh,
  refresh_pools, get_client_certificate, verify_connection, verify_entry, tick, poll_pools,
  unverified,
}
use tokyo3_base.Tls.Reloader.Ready.{IsLoaded, get-IsLoaded}
use tokyo3_base.Tls.Reloader.Always.{
  Op, refreshed, ticked, dialled, verified, apply, run, run-IsReady, new-IsReady, new_entries_inv,
  with_cert_inv,
}

module _ {A : Type 0} (name : Bytes) where
  -- There is an entry under the name.
  abbrev Has : Dict A → Type 0
  Has m = (e : A) × (Dict.get name m ≡ some e)

  Has-put : (k : Bytes) (e : A) (m : Dict A) → Has m → Has (Dict.put k e m)
  Has-put k e m (f, at) = elim (Bool-cases (bytes_eq k name)) [
    | inl same ↦ (e, get-put name k e m ∙ rw same refl)
    | inr differ ↦ (f, get-put name k e m ∙ rw differ at)
  ]

module _ {A B : Type 0} (name : Bytes) where
  -- Entries under the same key are there alike.
  Has-cons :
      (k : Bytes) (a : A) (b : B) (m : Dict A) (m' : Dict B)
      → (Has name m → Has name m')
      → Has name ((k, a) ∷ m)
      → Has name ((k, b) ∷ m')
  unfolding Dict.get
  Has-cons k a b m m' f (e, at) = elim (Bool-cases (bytes_eq k name)) [
    | inl same ↦ (b, rw same refl)
    | inr differ ↦ let (e', at') = f (e, rw differ at at) in (e', rw differ at')
  ]

module _ {Cert Pool : Type 0} (x : X509 Cert Pool) (name : Bytes) where
  refresh_pools-Has :
      (m : Dict (PoolEntry Pool)) (s : Sight) → Has name m → Has name (refresh_pools x m s).1
  unfolding refresh_pools
  refresh_pools-Has [] s h = h
  refresh_pools-Has ((k, system_pool p) ∷ rest) s h =
      Has-cons name k (system_pool p) (system_pool p) rest (refresh_pools x rest s).1
        (refresh_pools-Has rest s) h
  refresh_pools-Has ((k, file_pool l) ∷ rest) s h =
      Has-cons name k (file_pool l) (file_pool (reload_ca x l s).1) rest (refresh_pools x rest s).1
        (refresh_pools-Has rest s) h

  poll_pools-Has :
      (m : Dict (PoolEntry Pool)) (s : Sight) → Has name m → Has name (poll_pools x m s)
  unfolding poll_pools
  poll_pools-Has [] s h = h
  poll_pools-Has ((k, system_pool p) ∷ rest) s h =
      Has-cons name k (system_pool p) (system_pool p) rest (poll_pools x rest s)
        (poll_pools-Has rest s) h
  poll_pools-Has ((k, file_pool l) ∷ rest) s h =
      Has-cons name k (file_pool l) (file_pool (pool x l s).1) rest (poll_pools x rest s)
        (poll_pools-Has rest s) h

  verify_entry-Has :
      (r : Reloader Cert Pool) (k : Bytes) (s : Sight) (cs : ConnectionState)
      (o : Option (PoolEntry Pool))
      → Has name r.pools
      → Has name (verify_entry x r k s cs o).1.pools
  unfolding verify_entry
  verify_entry-Has r k s cs none h = h
  verify_entry-Has r k s cs (some (system_pool p)) h = h
  verify_entry-Has r k s cs (some (file_pool l)) h =
      Has-put name k (file_pool (Loader.verify_connection x l s cs).1) r.pools h

  run-Has :
      (r : Reloader Cert Pool) (ops : List Op) → Has name r.pools → Has name (run x r ops).pools
  unfolding run apply refresh tick get_client_certificate verify_connection
  run-Has r [] h = h
  run-Has r (refreshed s ∷ ops) h = run-Has (refresh x r s).1 ops (refresh_pools-Has r.pools s h)
  run-Has r (ticked s ∷ ops) h = run-Has (tick x r s) ops (poll_pools-Has r.pools s h)
  run-Has r (dialled s ∷ ops) h = run-Has (get_client_certificate x r s).1 ops h
  run-Has r (verified k s cs ∷ ops) h =
      run-Has (verify_connection x r k s cs).1 ops
        (verify_entry-Has r k s cs (Dict.get k r.pools) h)

  new_entries-Has :
      (system : Option Pool) (stale : ℤ) (paths : Dict Bytes) (s : Sight)
      (pools : Dict (PoolEntry Pool))
      → new_entries x system stale paths s ≡ ok pools
      → Has name paths
      → Has name pools
  unfolding new_entries Dict.get
  new_entries-Has system stale [] s pools h (e, at) = absurd (ground (arith, at))
  new_entries-Has system stale ((k, path) ∷ rest) s pools h has =
      let (e, es, _, all, same) = new_entries_inv x system stale k path rest s pools h in
      subst (Has name) same
        (Has-cons name k path e rest es (new_entries-Has system stale rest s es all) has)

  with_cert-Has :
      (system : Option Pool) (cfg : Config) (s : Sight) (res : Result Loader.Error (Option Cert))
      (l : CertLoader Cert) (r : Reloader Cert Pool)
      → with_cert x system cfg s res l ≡ ok r
      → Has name cfg.pools
      → Has name r.pools
  with_cert-Has system cfg s res l r h has =
      let (_, entries, _, all, same) = with_cert_inv x system cfg s res l r h in
      subst (λ (q : Reloader Cert Pool). Has name q.pools) same
        (new_entries-Has system cfg.ca_max_stale cfg.pools s entries all has)

  new-Has :
      (system : Option Pool) (cfg : Config) (s : Sight) (r : Reloader Cert Pool)
      → new x system cfg s ≡ ok r
      → Has name cfg.pools
      → Has name r.pools
  unfolding new
  new-Has system cfg s r h has =
      with_cert-Has system cfg s
        (result_of (get_certificate x (new_cert_loader cfg.cert_path cfg.key_path) s).0)
        (get_certificate x (new_cert_loader cfg.cert_path cfg.key_path) s).1 r (ground (arith, h))
        has

  abbrev pub verdict : Option Pool → ConnectionState → Result Error (Unit {0})
  verdict o cs = map_err (λ e. unverified (Loader.files e)) (verify_peer_chain x o cs)

  verdict_twice :
      (r : Result Files.Error (Unit {0}))
      → map_err unverified (map_err Loader.files r) ≡ map_err (λ e. unverified (Loader.files e)) r
  verdict_twice (ok u) = refl
  verdict_twice (err e) = refl

  verify_entry_loaded :
      (stale : ℤ) (r : Reloader Cert Pool) (s : Sight) (cs : ConnectionState) (e : PoolEntry Pool)
      → is_nonpositive stale ≡ true
      → IsLoaded x stale e
      → (p : Pool) × ((verify_entry x r name s cs (some e)).0 ≡ verdict (some p) cs)
  unfolding verify_entry
  verify_entry_loaded stale r s cs (system_pool p) free loaded = (p, refl)
  verify_entry_loaded stale r s cs (file_pool l) free (p, has, limit) =
      let (w, value, fine) = (pool-IsSteady x l s).serves p has refl (rw limit free) in
      (
        w,
        ap (map_err unverified) (verify_connection-pool x l s cs w value fine)
            ∙ verdict_twice (verify_peer_chain x (some w) cs),
      )

  -- Once New succeeded without a limit on how long a bundle is kept: after any refreshes, polls, dials and
  -- verifications, whatever the disk held at each, and whatever it holds now, a connection that is
  -- verified against a pool of the configuration gets the verdict of a pool on its name and its chain. It
  -- is never refused because a pool is not registered or has not loaded.
  pub pools_always :
      (system : Option Pool) (cfg : Config) (s s' : Sight) (r : Reloader Cert Pool) (ops : List Op)
      (path : Bytes) (cs : ConnectionState)
      → new x system cfg s ≡ ok r
      → Dict.get name cfg.pools ≡ some path
      → is_nonpositive cfg.ca_max_stale ≡ true
      → (p : Pool) × ((verify_connection x (run x r ops) name s' cs).0 ≡ verdict (some p) cs)
  unfolding verify_connection
  pools_always system cfg s s' r ops path cs made listed free =
      let ready = run-IsReady x cfg.ca_max_stale r ops (new-IsReady x system cfg s r made) in
      let (e, at) = run-Has r ops (new-Has system cfg s r made (path, listed)) in
      let loaded =
        get-IsLoaded x cfg.ca_max_stale name e (run x r ops).pools ready.pools_loaded at in
      rw at (verify_entry_loaded cfg.ca_max_stale (run x r ops) s' cs e free loaded)
