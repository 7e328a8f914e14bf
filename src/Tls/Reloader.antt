-- ===== src/Tls/Reloader.antt =====
-- tls/reloader/reloader.go: one certificate pair and named trust pools. The system's pool, and when the
-- leaf of a certificate expires, are parameters. Log lines and their attributes are left out.
pub mod Ready
pub mod Always
pub mod Pools
pub mod Rotation
use tokyo3_base.Base.{
  ℕ, ◌+◌, ◌*◌, ◌≡◌, Bool, true, false, not, ◌&&◌, ◌||◌, Option, none, some, List, [], ◌∷◌, ◌++◌,
  Bytes, Result, ok, err, and_then, or_err, map_err, ltb, if◌then◌else◌,
}
use tokyo3_base.Base.Int.{ℤ, pos_part, is_nonpositive}
use tokyo3_base.Base.Dict
use tokyo3_base.Base.Dict.{Dict}
use tokyo3_base.SealedCookie.{is_empty}
use tokyo3_base.Tls.Files
use tokyo3_base.Tls.Files.{X509, ConnectionState, verify_peer_chain}
use tokyo3_base.Tls.Reload.{Failure, Got}
use tokyo3_base.Tls.Loader
use tokyo3_base.Tls.Loader.{
  Sight, CertLoader, CaLoader, new_cert_loader, new_ca_loader, result_of, get_certificate,
  reload_cert, pool, reload_ca, fallback_server_name,
}

abbrev pub default_poll_interval : ℕ
default_poll_interval = 30 * 1_000_000_000

pub record Config : Type 0 where
  pub cert_path : Bytes
  pub key_path : Bytes
  pub pools : Dict Bytes
  pub poll_cert : Bool
  pub ca_max_stale : ℤ

pub data PoolEntry (Pool : Type 0) : Type 0 where
  system_pool : Pool → PoolEntry Pool
  file_pool : CaLoader Pool → PoolEntry Pool

pub record Reloader (Cert Pool : Type 0) : Type 0 where
  pub poll_cert : Bool
  pub loader : CertLoader Cert
  pub pools : Dict (PoolEntry Pool)

pub data Error : Type 0 where
  no_paths no_pools no_name : Error
  no_cert : Loader.Error → Error
  no_system_pool not_registered : Bytes → Error
  no_pool : Bytes → Loader.Error → Error
  unverified : Loader.Error → Error
  cert_failed : Failure Files.Error → Error
  pool_failed : Bytes → Failure Files.Error → Error

has_empty_name : Dict Bytes → Bool
has_empty_name [] = false
has_empty_name ((name, path) ∷ rest) = is_empty name || has_empty_name rest

no_entries : Dict Bytes → Bool
no_entries [] = true
no_entries (entry ∷ rest) = false

-- The interval of the ticker.
unfoldable pub poll_interval : ℤ → ℕ
poll_interval interval =
    if is_nonpositive interval then default_poll_interval else pos_part interval

module _ {Cert Pool : Type 0} (x : X509 Cert Pool) where
  registered :
      Bytes
      → Bytes
      → Result Loader.Error (Option Pool)
      → CaLoader Pool
      → Result Error (PoolEntry Pool)
  registered name path r l = and_then (map_err (no_pool name) r) (λ p. ok (file_pool l))

  -- An empty path stands for the system's pool.
  pub new_entry : Option Pool → ℤ → Bytes → Bytes → Sight → Result Error (PoolEntry Pool)
  unfolding registered
  new_entry system max_stale name path s =
      let (g, l) = pool x (new_ca_loader path max_stale) s in
      if is_empty path
      then and_then (or_err system (no_system_pool name)) (λ p. ok (system_pool p))
      else registered name path (result_of g) l

  pub new_entries : Option Pool → ℤ → Dict Bytes → Sight → Result Error (Dict (PoolEntry Pool))
  unfolding new_entry
  new_entries system max_stale [] s = ok []
  new_entries system max_stale ((name, path) ∷ rest) s =
      and_then (new_entry system max_stale name path s) λ entry.
        and_then (new_entries system max_stale rest s) λ entries. ok ((name, entry) ∷ entries)

  pub with_cert :
      Option Pool
      → Config
      → Sight
      → Result Loader.Error (Option Cert)
      → CertLoader Cert
      → Result Error (Reloader Cert Pool)
  unfolding new_entries
  with_cert system cfg s r l = and_then (map_err no_cert r) λ c.
      and_then (new_entries system cfg.ca_max_stale cfg.pools s)
        λ entries. ok (record { poll_cert = cfg.poll_cert; loader = l; pools = entries })

  unfoldable pub new : Option Pool → Config → Sight → Result Error (Reloader Cert Pool)
  unfolding with_cert has_empty_name no_entries
  new system cfg s =
      let (g, l) = get_certificate x (new_cert_loader cfg.cert_path cfg.key_path) s in
      if is_empty cfg.cert_path || is_empty cfg.key_path
      then err no_paths
      else if no_entries cfg.pools
      then err no_pools
      else if has_empty_name cfg.pools
      then err no_name
      else with_cert system cfg s (result_of g) l

  failure : Option Error → List Error → List Error
  failure none errs = errs
  failure (some e) errs = e ∷ errs

  named : Bytes → Option (Failure Files.Error) → Option Error
  named name none = none
  named name (some e) = some (pool_failed name e)

  unnamed : Option (Failure Files.Error) → Option Error
  unnamed none = none
  unnamed (some e) = some (cert_failed e)

  refresh_pools : Dict (PoolEntry Pool) → Sight → List Error × Dict (PoolEntry Pool)
  unfolding failure named
  refresh_pools [] s = ([], [])
  refresh_pools ((name, system_pool p) ∷ rest) s =
      let (errs, rest') = refresh_pools rest s in (errs, (name, system_pool p) ∷ rest')
  refresh_pools ((name, file_pool l) ∷ rest) s =
      let (e, l') = reload_ca x l s in
      let (errs, rest') = refresh_pools rest s in
      (failure (named name e) errs, (name, file_pool l') ∷ rest')

  -- The errors that are joined.
  unfoldable pub refresh : Reloader Cert Pool → Sight → List Error × Reloader Cert Pool
  unfolding refresh_pools failure unnamed
  refresh r s =
      let (e, l) = reload_cert x r.loader s in
      let (errs, pools) = refresh_pools r.pools s in
      (failure (unnamed e) errs, record r { loader = l; pools = pools })

  unfoldable pub get_client_certificate :
      Reloader Cert Pool → Sight → Got Cert Files.Error × Reloader Cert Pool
  get_client_certificate r s =
      let (g, l) = get_certificate x r.loader s in (g, record r { loader = l })

  not_after_of : (Cert → Option ℕ) → Result Loader.Error (Option Cert) → Option ℕ
  not_after_of not_after (err e) = none
  not_after_of not_after (ok none) = none
  not_after_of not_after (ok (some c)) = not_after c

  -- No time is the zero Time.
  unfoldable pub leaf_expiry :
      (Cert → Option ℕ) → Reloader Cert Pool → Sight → Option ℕ × Reloader Cert Pool
  unfolding not_after_of
  leaf_expiry not_after r s =
      let (g, r') = get_client_certificate r s in (not_after_of not_after (result_of g), r')

  is_near : ℕ → ℕ → Option ℕ → Bool
  is_near threshold now none = false
  is_near threshold now (some t) = ltb t (now + threshold)

  -- Whether the warning is logged.
  unfoldable pub warn_if_near_expiry :
      (Cert → Option ℕ) → ℕ → Reloader Cert Pool → Sight → Bool × Reloader Cert Pool
  unfolding is_near
  warn_if_near_expiry not_after threshold r s =
      let (t, r') = leaf_expiry not_after r s in (is_near threshold s.now t, r')

  names_of : Dict (PoolEntry Pool) → List Bytes
  names_of [] = []
  names_of ((name, entry) ∷ rest) = name ∷ names_of rest

  unfoldable pub pool_names : Reloader Cert Pool → List Bytes
  unfolding names_of
  pool_names r = names_of r.pools

  verify_entry :
      Reloader Cert Pool
      → Bytes
      → Sight
      → ConnectionState
      → Option (PoolEntry Pool)
      → Result Error (Unit {0}) × Reloader Cert Pool
  verify_entry r name s cs none = (err (not_registered name), r)
  verify_entry r name s cs (some (system_pool p)) =
      (map_err (λ e. unverified (Loader.files e)) (verify_peer_chain x (some p) cs), r)
  verify_entry r name s cs (some (file_pool l)) =
      let (v, l') = Loader.verify_connection x l s cs in
      (map_err unverified v, record r { pools = Dict.put name (file_pool l') pools })
    where
      open r use {pools}

  unfoldable pub verify_connection :
      Reloader Cert Pool
      → Bytes
      → Sight
      → ConnectionState
      → Result Error (Unit {0}) × Reloader Cert Pool
  unfolding verify_entry
  verify_connection r name s cs = verify_entry r name s cs (Dict.get name r.pools)

  -- The verification of the config that TLSConfig returns for a pool, whose own server name is set by
  -- WithServerName, or empty.
  unfoldable pub tls_config_verify :
      Reloader Cert Pool
      → Bytes
      → Bytes
      → Sight
      → ConnectionState
      → Result Error (Unit {0}) × Reloader Cert Pool
  tls_config_verify r name server_name s cs =
      verify_connection r name s (fallback_server_name server_name cs)

  poll_pools : Dict (PoolEntry Pool) → Sight → Dict (PoolEntry Pool)
  poll_pools [] s = []
  poll_pools ((name, system_pool p) ∷ rest) s = (name, system_pool p) ∷ poll_pools rest s
  poll_pools ((name, file_pool l) ∷ rest) s = (name, file_pool (pool x l s).1) ∷ poll_pools rest s

  unfoldable pub tick : Reloader Cert Pool → Sight → Reloader Cert Pool
  unfolding poll_pools
  tick r s = record r {
    loader = if poll_cert then (get_certificate x loader s).1 else loader;
    pools = poll_pools pools s;
  }
    where
      open r use {poll_cert, loader, pools}

  -- The ticks before the context ends.
  unfoldable pub run_poll : Reloader Cert Pool → List Sight → Reloader Cert Pool
  run_poll r [] = r
  run_poll r (s ∷ ss) = run_poll (tick r s) ss
