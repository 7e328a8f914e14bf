-- ===== src/Tls/Reloader/Always.antt =====
-- Once New of tls/reloader/reloader.go succeeded, there is always a certificate and a pool.
use tokyo3_base.Base.{
  ◌≡◌, refl, subst, inl, inr, Option, none, some, List, [], ◌∷◌, Bytes, Result, ok, err, and_then,
  or_err, map_err, arith, Bool-cases,
}
use tokyo3_base.Base.Int.{ℤ}
use tokyo3_base.Base.Dict.{Dict}
use tokyo3_base.SealedCookie.{is_empty}
use tokyo3_base.Tls.Files.{X509, ConnectionState}
use tokyo3_base.Tls.Reload.{unloaded}
use tokyo3_base.Tls.Loader
use tokyo3_base.Tls.Loader.{
  Sight, CertLoader, CaLoader, new_cert_loader, new_ca_loader, result_of, get_certificate, pool,
}
use tokyo3_base.Tls.Loader.Steady.{get_certificate-IsSteady, pool-IsSteady, result_of_ok}
use tokyo3_base.Tls.Reloader.{
  Config, PoolEntry, system_pool, file_pool, Reloader, Error, new, new_entries, new_entry,
  registered, with_cert, refresh, get_client_certificate, verify_connection, tick, no_system_pool,
  no_cert,
}
use tokyo3_base.Tls.Reloader.Ready.{
  IsLoaded, AreLoaded, IsReady, get_client_certificate-IsReady, refresh-IsReady, tick-IsReady,
  verify_connection-IsReady,
}

-- What callers do with a reloader, each at what it sees of the disk.
pub data Op : Type 0 where
  refreshed ticked dialled : Sight → Op
  verified : Bytes → Sight → ConnectionState → Op

module _ {E A B : Type 0} where
  pub and_then_inv :
      (r : Result E A) (f : A → Result E B) (b : B)
      → and_then r f ≡ ok b
      → (a : A) × (r ≡ ok a) × (f a ≡ ok b)
  and_then_inv (ok a) f b h = (a, refl, h)
  and_then_inv (err e) f b h = absurd (ground (arith, h))

module _ {E F A : Type 0} where
  map_err_inv : (f : E → F) (r : Result E A) (a : A) → map_err f r ≡ ok a → r ≡ ok a
  map_err_inv f (ok b) a h = ground (arith, h)
  map_err_inv f (err e) a h = absurd (ground (arith, h))

module _ {Cert Pool : Type 0} (x : X509 Cert Pool) where
  unfoldable pub apply : Reloader Cert Pool → Op → Reloader Cert Pool
  apply r (refreshed s) = (refresh x r s).1
  apply r (ticked s) = tick x r s
  apply r (dialled s) = (get_client_certificate x r s).1
  apply r (verified name s cs) = (verify_connection x r name s cs).1

  unfoldable pub run : Reloader Cert Pool → List Op → Reloader Cert Pool
  unfolding apply
  run r [] = r
  run r (op ∷ ops) = run (apply r op) ops

  pub run-IsReady :
      (stale : ℤ) (r : Reloader Cert Pool) (ops : List Op)
      → IsReady x stale r
      → IsReady x stale (run r ops)
  unfolding run apply
  run-IsReady stale r [] ready = ready
  run-IsReady stale r (refreshed s ∷ ops) ready =
      run-IsReady stale (refresh x r s).1 ops (refresh-IsReady x stale r s ready)
  run-IsReady stale r (ticked s ∷ ops) ready =
      run-IsReady stale (tick x r s) ops (tick-IsReady x stale r s ready)
  run-IsReady stale r (dialled s ∷ ops) ready =
      run-IsReady stale (get_client_certificate x r s).1 ops
        (get_client_certificate-IsReady x stale r s ready)
  run-IsReady stale r (verified name s cs ∷ ops) ready =
      run-IsReady stale (verify_connection x r name s cs).1 ops
        (verify_connection-IsReady x stale r name s cs ready)

  registered-IsLoaded :
      (stale : ℤ) (name path : Bytes) (s : Sight) (e : PoolEntry Pool)
      → registered x name path
          (result_of (pool x (new_ca_loader path stale) s).0)
          (pool x (new_ca_loader path stale) s).1
        ≡ ok e
      → IsLoaded x stale e
  unfolding registered new_ca_loader unloaded
  registered-IsLoaded stale name path s e h =
      let (o, given, is) = and_then_inv _ _ e h in
      let (fine, _) =
        result_of_ok (pool x (new_ca_loader path stale) s).0 o (map_err_inv _ _ o given) in
      let steady = pool-IsSteady x (new_ca_loader path stale) s in
      let (p, _, held) = steady.gives fine in
      let same : file_pool (pool x (new_ca_loader path stale) s).1 ≡ e = ground (arith, is) in
      subst (IsLoaded x stale) same (p, held, steady.limit)

  new_entry-IsLoaded :
      (system : Option Pool) (stale : ℤ) (name path : Bytes) (s : Sight) (e : PoolEntry Pool)
      → new_entry x system stale name path s ≡ ok e
      → IsLoaded x stale e
  unfolding new_entry
  new_entry-IsLoaded system stale name path s e h = elim (Bool-cases (is_empty path)) [
    | inr full ↦ registered-IsLoaded stale name path s e (rw full at h)
    | inl empty ↦
        let (p, _, is) =
          and_then_inv (or_err system (no_system_pool name)) (λ p. ok (system_pool p)) e
            (rw empty at h) in
        let same : system_pool p ≡ e = ground (arith, is) in subst (IsLoaded x stale) same tt
  ]

  pub new_entries_inv :
      (system : Option Pool) (stale : ℤ) (name path : Bytes) (rest : Dict Bytes) (s : Sight)
      (pools : Dict (PoolEntry Pool))
      → new_entries x system stale ((name, path) ∷ rest) s ≡ ok pools
      → (e : PoolEntry Pool) × (es : Dict (PoolEntry Pool)) × (new_entry x system stale name path s
          ≡ ok e)
        × (new_entries x system stale rest s ≡ ok es)
        × ((name, e) ∷ es ≡ pools)
  unfolding new_entries
  new_entries_inv system stale name path rest s pools h =
      let (e, made, h₁) =
        and_then_inv (new_entry x system stale name path s)
          (λ e. and_then (new_entries x system stale rest s) (λ es. ok ((name, e) ∷ es))) pools h in
      let (es, all, h₂) =
        and_then_inv (new_entries x system stale rest s) (λ es. ok ((name, e) ∷ es)) pools h₁ in
      (e, es, made, all, ground (arith, h₂))

  pub with_cert_inv :
      (system : Option Pool) (cfg : Config) (s : Sight) (res : Result Loader.Error (Option Cert))
      (l : CertLoader Cert) (r : Reloader Cert Pool)
      → with_cert x system cfg s res l ≡ ok r
      → (o : Option Cert) × (entries : Dict (PoolEntry Pool)) × (res ≡ ok o)
        × (new_entries x system cfg.ca_max_stale cfg.pools s ≡ ok entries)
        × (◌≡◌ {A = Reloader Cert Pool}
            (record { poll_cert = cfg.poll_cert; loader = l; pools = entries })
            r)
  unfolding with_cert
  with_cert_inv system cfg s res l r h =
      let made : Dict (PoolEntry Pool) → Result Error (Reloader Cert Pool) =
        λ entries. ok (record { poll_cert = cfg.poll_cert; loader = l; pools = entries }) in
      let (o, given, h₁) =
        and_then_inv (map_err no_cert res)
          (λ c. and_then (new_entries x system cfg.ca_max_stale cfg.pools s) made) r h in
      let (entries, all, h₂) =
        and_then_inv (new_entries x system cfg.ca_max_stale cfg.pools s) made r h₁ in
      (o, entries, map_err_inv no_cert res o given, all, ground (arith, h₂))

  new_entries_loaded :
      (system : Option Pool) (stale : ℤ) (paths : Dict Bytes) (s : Sight)
      (pools : Dict (PoolEntry Pool))
      → new_entries x system stale paths s ≡ ok pools
      → AreLoaded x stale pools
  unfolding new_entries
  new_entries_loaded system stale [] s pools h =
      let same : [] ≡ pools = ground (arith, h) in subst (AreLoaded x stale) same tt
  new_entries_loaded system stale ((name, path) ∷ rest) s pools h =
      let (e, es, made, all, same) = new_entries_inv system stale name path rest s pools h in
      subst (AreLoaded x stale) same (
        new_entry-IsLoaded system stale name path s e made,
        new_entries_loaded system stale rest s es all,
      )

  with_cert-IsReady :
      (system : Option Pool) (cfg : Config) (s : Sight) (r : Reloader Cert Pool)
      → with_cert x system cfg s
          (result_of (get_certificate x (new_cert_loader cfg.cert_path cfg.key_path) s).0)
          (get_certificate x (new_cert_loader cfg.cert_path cfg.key_path) s).1
        ≡ ok r
      → IsReady x cfg.ca_max_stale r
  unfolding new_cert_loader unloaded
  with_cert-IsReady system cfg s r h =
      let l = new_cert_loader cfg.cert_path cfg.key_path in
      let (o, entries, given, all, same) = with_cert_inv system cfg s _ _ r h in
      let (fine, _) = result_of_ok (get_certificate x l s).0 o given in
      let steady = get_certificate-IsSteady x l s in
      let (c, _, held) = steady.gives fine in
      subst (IsReady x cfg.ca_max_stale) same (record {
        has_cert = (c, held);
        cert_kept = steady.limit;
        pools_loaded = new_entries_loaded system cfg.ca_max_stale cfg.pools s entries all;
      })

  pub new-IsReady :
      (system : Option Pool) (cfg : Config) (s : Sight) (r : Reloader Cert Pool)
      → new x system cfg s ≡ ok r
      → IsReady x cfg.ca_max_stale r
  unfolding new
  new-IsReady system cfg s r h = with_cert-IsReady system cfg s r (ground (arith, h))

  -- Once New succeeded, GetClientCertificate never fails: after any refreshes, polls, dials and
  -- verifications, whatever the disk held at each, and whatever it holds now, there is a certificate.
  pub certificate_always :
      (system : Option Pool) (cfg : Config) (s s' : Sight) (r : Reloader Cert Pool) (ops : List Op)
      → new x system cfg s ≡ ok r
      → (c : Cert) × ((get_client_certificate x (run r ops) s').0.value ≡ some c)
        × ((get_client_certificate x (run r ops) s').0.error ≡ none)
  unfolding get_client_certificate
  certificate_always system cfg s s' r ops made =
      let ready = run-IsReady cfg.ca_max_stale r ops (new-IsReady system cfg s r made) in
      let (c, has) = ready.has_cert in
      let limit = ready.cert_kept in
      (get_certificate-IsSteady x (run r ops).loader s').serves c has refl (rw limit refl)
