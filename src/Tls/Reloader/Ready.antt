-- ===== src/Tls/Reloader/Ready.antt =====
-- What tls/reloader/reloader.go has once New succeeded, it keeps: material to serve and to verify with.
use tokyo3_base.Base.{
  ◌≡◌, refl, subst, ◌∙◌, inl, inr, Option, none, some, [], ◌∷◌, Bytes, bytes_eq, All, Result, ok,
  err, arith, Bool-cases,
}
use tokyo3_base.Base.Int.{ℤ}
use tokyo3_base.Base.Dict
use tokyo3_base.Base.Dict.{Dict}
use tokyo3_base.Tls.Files
use tokyo3_base.Tls.Files.{X509, ConnectionState, verify_peer_chain}
use tokyo3_base.Tls.Reload.Direct.{direct}
use tokyo3_base.Tls.Loader
use tokyo3_base.Tls.Loader.{
  Sight, CertLoader, CaLoader, new_cert_loader, new_ca_loader, result_of, load_pair, load_pool,
  get_certificate, reload_cert, pool, reload_ca,
}
use tokyo3_base.Tls.Loader.Steady.{
  get_certificate-IsSteady, pool-IsSteady, reload_cert_kept, reload_ca_kept,
  verify_connection_state,
}
use tokyo3_base.Tls.Reloader.{
  PoolEntry, system_pool, file_pool, Reloader, refresh, refresh_pools, get_client_certificate,
  verify_connection, verify_entry, tick, poll_pools,
}

module _ {V : Type 0} where
  direct_loaded :
      (o : Option V) (r : Result Files.Error (V × Bytes)) (v : V)
      → o ≡ some v
      → (w : V) × (direct o r ≡ some w)
  direct_loaded o (ok (w, raw)) v h = (w, refl)
  direct_loaded o (err e) v h = (v, h)

module _ {Cert Pool : Type 0} (x : X509 Cert Pool) (stale : ℤ) where
  -- The system's pool, or a loader that has a pool and the given MaxStale.
  abbrev pub IsLoaded : PoolEntry Pool → Type 0
  IsLoaded (system_pool p) = Unit
  IsLoaded (file_pool l) = (p : Pool) × (l.val.val ≡ some p) × (l.val.max_stale ≡ some stale)

  abbrev pub AreLoaded : Dict (PoolEntry Pool) → Type 0
  AreLoaded pools = All (λ (e : Bytes × PoolEntry Pool). IsLoaded e.1) pools

  pub record IsReady (r : Reloader Cert Pool) : Type 0 where
    pub has_cert : (c : Cert) × (r.loader.val.val ≡ some c)
    pub cert_kept : r.loader.val.max_stale ≡ none
    pub pools_loaded : AreLoaded r.pools

  pub pool-IsLoaded :
      (l : CaLoader Pool) (s : Sight) → IsLoaded (file_pool l) → IsLoaded (file_pool (pool x l s).1)
  pool-IsLoaded l s (p, has, limit) =
      let steady = pool-IsSteady x l s in
      let (w, held) = steady.stays p has in (w, held, steady.limit ∙ limit)

  reload_ca-IsLoaded :
      (l : CaLoader Pool) (s : Sight)
      → IsLoaded (file_pool l)
      → IsLoaded (file_pool (reload_ca x l s).1)
  reload_ca-IsLoaded l s (p, has, limit) =
      let (val, same, _) = reload_ca_kept x l s in
      let (w, held) = direct_loaded l.val.val (load_pool x s.disk l.ca_file) p has in
      (w, val ∙ held, same ∙ limit)

  refresh_pools_loaded :
      (pools : Dict (PoolEntry Pool)) (s : Sight)
      → AreLoaded pools
      → AreLoaded (refresh_pools x pools s).1
  unfolding refresh_pools
  refresh_pools_loaded [] s h = tt
  refresh_pools_loaded ((name, system_pool p) ∷ rest) s h = (tt, refresh_pools_loaded rest s h.1)
  refresh_pools_loaded ((name, file_pool l) ∷ rest) s h =
      (reload_ca-IsLoaded l s h.0, refresh_pools_loaded rest s h.1)

  poll_pools_loaded :
      (pools : Dict (PoolEntry Pool)) (s : Sight)
      → AreLoaded pools
      → AreLoaded (poll_pools x pools s)
  unfolding poll_pools
  poll_pools_loaded [] s h = tt
  poll_pools_loaded ((name, system_pool p) ∷ rest) s h = (tt, poll_pools_loaded rest s h.1)
  poll_pools_loaded ((name, file_pool l) ∷ rest) s h =
      (pool-IsLoaded l s h.0, poll_pools_loaded rest s h.1)

  put_loaded :
      (name : Bytes) (e : PoolEntry Pool) (pools : Dict (PoolEntry Pool))
      → IsLoaded e
      → AreLoaded pools
      → AreLoaded (Dict.put name e pools)
  unfolding Dict.put
  put_loaded name e [] h all = (h, tt)
  put_loaded name e ((k, other) ∷ rest) h all = elim (Bool-cases (bytes_eq k name)) [
    | inl same ↦ rw same (h, all.1)
    | inr differ ↦ rw differ (all.0, put_loaded name e rest h all.1)
  ]

  pub get-IsLoaded :
      (name : Bytes) (e : PoolEntry Pool) (pools : Dict (PoolEntry Pool))
      → AreLoaded pools
      → Dict.get name pools ≡ some e
      → IsLoaded e
  unfolding Dict.get
  get-IsLoaded name e [] all h = absurd (ground (arith, h))
  get-IsLoaded name e ((k, other) ∷ rest) all h = elim (Bool-cases (bytes_eq k name)) [
    | inl same ↦ let is : other ≡ e = ground (arith, h, same) in subst IsLoaded is all.0
    | inr differ ↦ get-IsLoaded name e rest all.1 (rw differ at h)
  ]

  pub get_client_certificate-IsReady :
      (r : Reloader Cert Pool) (s : Sight) → IsReady r → IsReady (get_client_certificate x r s).1
  unfolding get_client_certificate
  get_client_certificate-IsReady r s ready =
      let steady = get_certificate-IsSteady x r.loader s in
      let (c, has) = ready.has_cert in
      record {
        has_cert = steady.stays c has;
        cert_kept = steady.limit ∙ ready.cert_kept;
        pools_loaded = ready.pools_loaded;
      }

  pub refresh-IsReady : (r : Reloader Cert Pool) (s : Sight) → IsReady r → IsReady (refresh x r s).1
  unfolding refresh
  refresh-IsReady r s ready =
      let (val, same, _, _) = reload_cert_kept x r.loader s in
      let (c, has) = ready.has_cert in
      let (w, held) =
        direct_loaded r.loader.val.val (load_pair x s.disk r.loader.cert_file r.loader.key_file) c
          has in
      record {
        has_cert = (w, val ∙ held);
        cert_kept = same ∙ ready.cert_kept;
        pools_loaded = refresh_pools_loaded r.pools s ready.pools_loaded;
      }

  pub tick-IsReady : (r : Reloader Cert Pool) (s : Sight) → IsReady r → IsReady (tick x r s)
  unfolding tick
  tick-IsReady r s ready = elim (Bool-cases r.poll_cert) [
    | inl polled ↦
        let steady = get_certificate-IsSteady x r.loader s in
        let (c, has) = ready.has_cert in
        let (w, held) = steady.stays c has in
        record {
          has_cert = (w, ground (arith, polled, held));
          cert_kept = ground (arith, polled, steady.limit, ready.cert_kept);
          pools_loaded = poll_pools_loaded r.pools s ready.pools_loaded;
        }
    | inr left ↦
        let (c, has) = ready.has_cert in
        record {
          has_cert = (c, ground (arith, left, has));
          cert_kept = ground (arith, left, ready.cert_kept);
          pools_loaded = poll_pools_loaded r.pools s ready.pools_loaded;
        }
  ]

  verify_entry-IsReady :
      (r : Reloader Cert Pool) (name : Bytes) (s : Sight) (cs : ConnectionState)
      (o : Option (PoolEntry Pool))
      → Dict.get name r.pools ≡ o
      → IsReady r
      → IsReady (verify_entry x r name s cs o).1
  unfolding verify_entry
  verify_entry-IsReady r name s cs none at ready = ready
  verify_entry-IsReady r name s cs (some (system_pool p)) at ready = ready
  verify_entry-IsReady r name s cs (some (file_pool l)) at ready = record {
    has_cert = ready.has_cert;
    cert_kept = ready.cert_kept;
    pools_loaded =
        let loaded = get-IsLoaded name (file_pool l) r.pools ready.pools_loaded at in
        put_loaded name (file_pool (Loader.verify_connection x l s cs).1) r.pools
          (rw verify_connection_state (pool-IsLoaded l s loaded)) ready.pools_loaded;
  }

  pub verify_connection-IsReady :
      (r : Reloader Cert Pool) (name : Bytes) (s : Sight) (cs : ConnectionState)
      → IsReady r
      → IsReady (verify_connection x r name s cs).1
  unfolding verify_connection
  verify_connection-IsReady r name s cs ready =
      verify_entry-IsReady r name s cs (Dict.get name r.pools) refl ready
