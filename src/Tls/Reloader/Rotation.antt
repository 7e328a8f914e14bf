-- ===== src/Tls/Reloader/Rotation.antt =====
-- What Refresh of tls/reloader/reloader.go reads, keeps and reports.
use tokyo3_base.Base.{
  ◌≡◌, refl, ap, subst, ◌∙◌, Option, none, some, List, [], ◌∷◌, Bytes, bytes_eq, ok, arith,
  Bool-cases, inl, inr,
}
use tokyo3_base.Base.Dict
use tokyo3_base.Base.Dict.{Dict}
use tokyo3_base.Tls.Files
use tokyo3_base.Tls.Files.{X509}
use tokyo3_base.Tls.Reload.{Failure}
use tokyo3_base.Tls.Reload.Direct.{direct}
use tokyo3_base.Tls.Loader.{Sight, CaLoader, load_pair, load_pool, reload_cert, reload_ca}
use tokyo3_base.Tls.Loader.Steady.{
  reload_cert_kept, reload_cert_fails, reload_ca_kept, reload_ca_fails,
}
use tokyo3_base.Tls.Reloader.{
  PoolEntry, system_pool, file_pool, Reloader, Error, refresh, refresh_pools, failure, named,
  unnamed,
}

module _ {Cert Pool : Type 0} (x : X509 Cert Pool) where
  -- An entry after a refresh: the pool that was read now, or the one before where reading failed.
  abbrev pub IsRefreshed : Sight → CaLoader Pool → PoolEntry Pool → Type 0
  IsRefreshed s l (system_pool p) = ⊥
  IsRefreshed s l (file_pool l') =
      (l'.ca_file ≡ l.ca_file) × (l'.val.val ≡ direct l.val.val (load_pool x s.disk l.ca_file))

  refresh_pools_entry :
      (name : Bytes) (l : CaLoader Pool) (pools : Dict (PoolEntry Pool)) (s : Sight)
      → Dict.get name pools ≡ some (file_pool l)
      → (e : PoolEntry Pool) × (Dict.get name (refresh_pools x pools s).1 ≡ some e)
        × IsRefreshed s l e
  unfolding refresh_pools Dict.get
  refresh_pools_entry name l [] s h = absurd (ground (arith, h))
  refresh_pools_entry name l ((k, system_pool p) ∷ rest) s h = elim (Bool-cases (bytes_eq k name)) [
    | inl same ↦ absurd (ground (arith, h, same))
    | inr differ ↦
        let (e, at, is) = refresh_pools_entry name l rest s (rw differ at h) in
        (e, rw differ at, is)
  ]
  refresh_pools_entry name l ((k, file_pool m) ∷ rest) s h = elim (Bool-cases (bytes_eq k name)) [
    | inl same ↦
        let is : m ≡ l = ground (arith, h, same) in
        let (val, _, file) = reload_ca_kept x m s in
        (
          file_pool (reload_ca x m s).1,
          rw same refl,
          subst (λ q. IsRefreshed s q (file_pool (reload_ca x m s).1)) is (file, val),
        )
    | inr differ ↦
        let (e, at, is) = refresh_pools_entry name l rest s (rw differ at h) in
        (e, rw differ at, is)
  ]

  -- A refresh reads the certificate pair and every pool of a file, whatever their times: each then has
  -- what was read, or what it had before where reading failed.
  pub refresh-direct :
      (r : Reloader Cert Pool) (s : Sight) (name : Bytes) (l : CaLoader Pool)
      → Dict.get name r.pools ≡ some (file_pool l)
      → ((refresh x r s).1.loader.val.val
          ≡ direct r.loader.val.val (load_pair x s.disk r.loader.cert_file r.loader.key_file))
        × (e : PoolEntry Pool) × (Dict.get name (refresh x r s).1.pools ≡ some e)
        × IsRefreshed s l e
  unfolding refresh
  refresh-direct r s name l h =
      let (val, _, _, _) = reload_cert_kept x r.loader s in
      let (e, at, is) = refresh_pools_entry name l r.pools s h in (val, e, at, is)

  cons_nil :
      (o : Option Error) (errs : List Error) → failure x o errs ≡ [] → (o ≡ none) × (errs ≡ [])
  unfolding failure
  cons_nil none errs h = (refl, h)
  cons_nil (some e) errs h = absurd (ground (arith, h))

  named-none : (name : Bytes) (o : Option (Failure Files.Error)) → named x name o ≡ none → o ≡ none
  unfolding named
  named-none name none h = refl
  named-none name (some e) h = absurd (ground (arith, h))

  unnamed-none : (o : Option (Failure Files.Error)) → unnamed x o ≡ none → o ≡ none
  unfolding unnamed
  unnamed-none none h = refl
  unnamed-none (some e) h = absurd (ground (arith, h))

  refresh_pools_clean :
      (name : Bytes) (l : CaLoader Pool) (pools : Dict (PoolEntry Pool)) (s : Sight)
      → (refresh_pools x pools s).0 ≡ []
      → Dict.get name pools ≡ some (file_pool l)
      → (p : Pool) × (raw : Bytes) × (load_pool x s.disk l.ca_file ≡ ok (p, raw))
  unfolding refresh_pools Dict.get
  refresh_pools_clean name l [] s clean h = absurd (ground (arith, h))
  refresh_pools_clean name l ((k, system_pool p) ∷ rest) s clean h =
      elim (Bool-cases (bytes_eq k name)) [
        | inl same ↦ absurd (ground (arith, h, same))
        | inr differ ↦ refresh_pools_clean name l rest s clean (rw differ at h)
      ]
  refresh_pools_clean name l ((k, file_pool m) ∷ rest) s clean h =
      let (here, there) =
        cons_nil (named x k (reload_ca x m s).0) (refresh_pools x rest s).0 clean in
      elim (Bool-cases (bytes_eq k name)) [
        | inl same ↦
            let is : m ≡ l = ground (arith, h, same) in
            subst
              (λ (q : CaLoader Pool).
                (p : Pool) × (raw : Bytes) × (load_pool x s.disk q.ca_file ≡ ok (p, raw)))
              is (reload_ca_fails x m s (named-none k (reload_ca x m s).0 here))
        | inr differ ↦ refresh_pools_clean name l rest s there (rw differ at h)
      ]

  refreshed_file :
      (s : Sight) (l : CaLoader Pool) (e : PoolEntry Pool)
      → IsRefreshed s l e
      → (l' : CaLoader Pool) × (e ≡ file_pool l')
        × (l'.val.val ≡ direct l.val.val (load_pool x s.disk l.ca_file))
  refreshed_file s l (system_pool p) is = elim is [ ]
  refreshed_file s l (file_pool l') (_, val) = (l', refl, val)

  -- A refresh that reports no error read the certificate pair, and the pool of every file, and each has
  -- what was read.
  pub refresh_clean :
      (r r' : Reloader Cert Pool) (s : Sight) (name : Bytes) (l : CaLoader Pool)
      → refresh x r s ≡ ([], r')
      → Dict.get name r.pools ≡ some (file_pool l)
      → (c : Cert) × (p : Pool) × (l' : CaLoader Pool) × (raw raw' : Bytes) × (load_pair x s.disk
            r.loader.cert_file r.loader.key_file
          ≡ ok (c, raw))
        × (r'.loader.val.val ≡ some c)
        × (load_pool x s.disk l.ca_file ≡ ok (p, raw'))
        × (Dict.get name r'.pools ≡ some (file_pool l'))
        × (l'.val.val ≡ some p)
  unfolding refresh
  refresh_clean r r' s name l h at =
      let errs = ap (λ q. q.0) h in
      let after : (refresh x r s).1 ≡ r' = ap (λ q. q.1) h in
      let (here, there) =
        cons_nil (unnamed x (reload_cert x r.loader s).0) (refresh_pools x r.pools s).0 errs in
      let (c, raw, read) =
        reload_cert_fails x r.loader s (unnamed-none (reload_cert x r.loader s).0 here) in
      let (p, raw', read') = refresh_pools_clean name l r.pools s there at in
      let (val, e, found, is) = refresh-direct r s name l at in
      let (l', file, val') = refreshed_file s l e is in
      (
        c,
        p,
        l',
        raw,
        raw',
        read,
        subst (λ (q : Reloader Cert Pool). q.loader.val.val ≡ some c) after (val ∙ rw read refl),
        read',
        subst (λ (q : Reloader Cert Pool). Dict.get name q.pools ≡ some (file_pool l')) after
            (found ∙ ap some file),
        val' ∙ rw read' refl,
      )
