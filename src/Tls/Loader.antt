-- ===== src/Tls/Loader.antt =====
-- tls/reloader/loader.go and server.go: the loaders of a certificate pair and of a trust pool, and the
-- configs that they serve. A call sees the disk at one moment, at which it reads the clock.
pub mod Steady
use tokyo3_base.Base.{
  ℕ, ◌≡◌, Bool, true, false, not, ◌&&◌, ◌||◌, Option, none, some, List, [], ◌∷◌, Bytes, Result, ok,
  err, and_then, or_err, map_err, if◌then◌else◌,
}
use tokyo3_base.Base.Int.{ℤ}
use tokyo3_base.SealedCookie.{is_empty}
use tokyo3_base.Tls.Files
use tokyo3_base.Tls.Files.{
  Disk, X509, ConnectionState, ClientMaterial, unreadable, bad_pair, cert_pool_from_pem, from_files,
  verify_peer_chain,
}
use tokyo3_base.Tls.Reload.{Stamp, FileValue, Failure, Hook, Got, unloaded, get}

-- What a call sees.
pub record Sight : Type 0 where
  pub disk : Disk
  pub now : ℕ

-- The zero value of `tls.ClientAuthType` is `NoClientCert`.
pub data ClientAuth : Type 0 where
  no_client_cert request_cert require_any verify_if_given require_and_verify : ClientAuth

pub data Error : Type 0 where
  files : Files.Error → Error
  kept : Failure Files.Error → Error
  half_pair no_self_signed nil_pool : Error

-- The times of all files, or none where one has no time.
stat_with : ℕ → Option Stamp → Option Stamp
stat_with t none = none
stat_with t (some s) = some (t ∷ s)

stat_then : Option ℕ → Option Stamp → Option Stamp
unfolding stat_with
stat_then none rest = none
stat_then (some t) rest = stat_with t rest

unfoldable pub stat : Disk → List Bytes → Option Stamp
unfolding stat_then
stat d [] = some []
stat d (p ∷ ps) = stat_then (d.mtime p) (stat d ps)

pub record CertLoader (Cert : Type 0) : Type 0 where
  pub cert_file : Bytes
  pub key_file : Bytes
  pub val : FileValue Cert Files.Error

pub record CaLoader (Pool : Type 0) : Type 0 where
  pub ca_file : Bytes
  pub val : FileValue Pool Files.Error

module _ {Cert : Type 0} where
  unfoldable pub new_cert_loader : Bytes → Bytes → CertLoader Cert
  new_cert_loader cert_file key_file = record {
    cert_file = cert_file;
    key_file = key_file;
    val = unloaded none;
  }

module _ {Pool : Type 0} where
  -- `MaxStale` is set before the first use.
  unfoldable pub new_ca_loader : Bytes → ℤ → CaLoader Pool
  new_ca_loader ca_file max_stale = record { ca_file = ca_file; val = unloaded (some max_stale) }

-- The certificate of a server: served by a loader, or a self-signed one.
pub data CertSource (Cert : Type 0) : Type 0 where
  hot : CertLoader Cert → CertSource Cert
  self_signed : Cert → CertSource Cert

-- The client pool as wired into a config: what the eager load gave, and the loader behind it.
pub record ClientCas (Pool : Type 0) : Type 0 where
  pub auth : ClientAuth
  pub client_cas : Option Pool
  pub loader : CaLoader Pool

pub record ServerConfig (Cert Pool : Type 0) : Type 0 where
  pub cert : CertSource Cert
  pub clients : Option (ClientCas Pool)
  pub min_version : ℕ

pub record ServerTlsConfig : Type 0 where
  pub cert_file : Bytes
  pub key_file : Bytes
  pub client_ca_file : Bytes
  pub client_auth : ClientAuth
  pub min_version : ℕ

-- A client's config: its loader, and the live pool that verifies the server. `server_name` is the
-- config's own, for a connection that has none.
pub record ClientConfig (Cert Pool : Type 0) : Type 0 where
  pub loader : CertLoader Cert
  pub roots : Option (CaLoader Pool)

-- The shape of ClientTLS: a hot config, or the one of FromFiles.
pub data ClientTls (Cert Pool : Type 0) : Type 0 where
  live : ClientConfig Cert Pool → ClientTls Cert Pool
  fixed : Option (ClientMaterial Cert Pool) → ClientTls Cert Pool

-- `(value, error)`; the value may be nil.
module _ {V : Type 0} where
  unfoldable pub result_of : Got V Files.Error → Result Error (Option V)
  result_of g = elim g.error [ some e ↦ err (kept e) | none ↦ ok g.value ]

unfoldable pub fallback_server_name : Bytes → ConnectionState → ConnectionState
fallback_server_name name cs =
    if is_empty cs.server_name then record cs { server_name = name } else cs

module _ {Cert Pool : Type 0} (x : X509 Cert Pool) where
  -- `tls.LoadX509KeyPair`.
  unfoldable pub load_pair : Disk → Bytes → Bytes → Result Files.Error (Cert × Bytes)
  load_pair d cert_file key_file =
      and_then (or_err (d.read_file cert_file) (unreadable cert_file)) λ cert.
        and_then (or_err (d.read_file key_file) (unreadable key_file))
          λ key. and_then (or_err (x.parse_pair cert key) bad_pair) λ c. ok (c, [])

  unfoldable pub load_pool : Disk → Bytes → Result Files.Error (Pool × Bytes)
  load_pool d ca_file =
      and_then (or_err (d.read_file ca_file) (unreadable ca_file))
        λ raw. and_then (cert_pool_from_pem x raw) λ p. ok (p, raw)

  cert_call : Bool → CertLoader Cert → Sight → Got Cert Files.Error × CertLoader Cert
  unfolding load_pair
  cert_call forced l s =
      let (g, val) =
        get forced l.val (stat s.disk (l.cert_file ∷ l.key_file ∷ [])) s.now s.now
          (load_pair s.disk l.cert_file l.key_file) in
      (g, record l { val = val })

  ca_call : Bool → CaLoader Pool → Sight → Got Pool Files.Error × CaLoader Pool
  unfolding load_pool
  ca_call forced l s =
      let (g, val) =
        get forced l.val (stat s.disk (l.ca_file ∷ [])) s.now s.now (load_pool s.disk l.ca_file) in
      (g, record l { val = val })

  -- `GetCertificate` and `GetClientCertificate`, and `Reload`.
  unfoldable pub get_certificate : CertLoader Cert → Sight → Got Cert Files.Error × CertLoader Cert
  unfolding cert_call
  get_certificate l s = cert_call false l s

  unfoldable pub reload_cert :
      CertLoader Cert → Sight → Option (Failure Files.Error) × CertLoader Cert
  unfolding cert_call
  reload_cert l s = let (g, l') = cert_call true l s in (g.error, l')

  unfoldable pub pool : CaLoader Pool → Sight → Got Pool Files.Error × CaLoader Pool
  unfolding ca_call
  pool l s = ca_call false l s

  unfoldable pub reload_ca : CaLoader Pool → Sight → Option (Failure Files.Error) × CaLoader Pool
  unfolding ca_call
  reload_ca l s = let (g, l') = ca_call true l s in (g.error, l')

  verify_with : ConnectionState → Result Error (Option Pool) → Result Error (Unit {0})
  verify_with cs r = and_then r (λ p. map_err files (verify_peer_chain x p cs))

  -- `VerifyConnection` of a CaLoader.
  unfoldable pub verify_connection :
      CaLoader Pool → Sight → ConnectionState → Result Error (Unit {0}) × CaLoader Pool
  unfolding verify_with
  verify_connection l s cs = let (g, l') = pool l s in (verify_with cs (result_of g), l')

  wired : ClientAuth → CaLoader Pool → Result Error (Option Pool) → Result Error (ClientCas Pool)
  wired auth l r = and_then r (λ p. ok (record { auth = auth; client_cas = p; loader = l }))

  unfoldable pub wire_client_cas :
      ClientAuth → CaLoader Pool → Sight → Result Error (ClientCas Pool)
  unfolding wired
  wire_client_cas auth l s = let (g, l') = pool l s in wired auth l' (result_of g)

  -- `GetConfigForClient`, at each handshake.
  unfoldable pub config_for_client :
      ClientCas Pool → Sight → Result Error (Option Pool) × ClientCas Pool
  config_for_client c s = let (g, l') = pool c.loader s in (result_of g, record c { loader = l' })

  or_verify : ClientAuth → ClientAuth
  or_verify no_client_cert = verify_if_given
  or_verify request_cert = request_cert
  or_verify require_any = require_any
  or_verify verify_if_given = verify_if_given
  or_verify require_and_verify = require_and_verify

  client_part : ServerTlsConfig → Sight → Result Error (Option (ClientCas Pool))
  unfolding or_verify
  client_part cfg s =
      if is_empty cfg.client_ca_file
      then ok none
      else and_then
          (wire_client_cas (or_verify cfg.client_auth) (new_ca_loader cfg.client_ca_file (ℤ.pos 0))
            s)
          (λ c. ok (some c))

  hot_part : CertLoader Cert → Result Error (Option Cert) → Result Error (CertSource Cert)
  hot_part l r = and_then r (λ c. ok (hot l))

  cert_part : ServerTlsConfig → Option Cert → Sight → Result Error (CertSource Cert)
  unfolding hot_part
  cert_part cfg made s =
      let (g, l) = get_certificate (new_cert_loader cfg.cert_file cfg.key_file) s in
      if is_empty cfg.cert_file
      then and_then (or_err made no_self_signed) (λ c. ok (self_signed c))
      else hot_part l (result_of g)

  -- `made` is what SelfSignedCert gives.
  unfoldable pub server_tls :
      ServerTlsConfig → Option Cert → Sight → Result Error (ServerConfig Cert Pool)
  unfolding cert_part client_part
  server_tls cfg made s =
      if (is_empty cfg.cert_file && not (is_empty cfg.key_file))
        || (not (is_empty cfg.cert_file) && is_empty cfg.key_file)
      then err half_pair
      else and_then (cert_part cfg made s) λ cert.
        and_then (client_part cfg s)
          λ clients. ok (record { cert = cert; clients = clients; min_version = cfg.min_version })

  rooted : CertLoader Cert → Bytes → Sight → Result Error (ClientConfig Cert Pool)
  rooted l ca_file s =
      let (g, ca) = pool (new_ca_loader ca_file (ℤ.pos 0)) s in
      if is_empty ca_file
      then ok (record { loader = l; roots = none })
      else and_then (result_of g) (λ p. ok (record { loader = l; roots = some ca }))

  unfoldable pub client_config :
      Bytes → Bytes → Bytes → Sight → Result Error (ClientConfig Cert Pool)
  unfolding rooted
  client_config cert_file key_file ca_file s =
      let (g, l) = get_certificate (new_cert_loader cert_file key_file) s in
      if is_empty cert_file || is_empty key_file
      then err half_pair
      else and_then (result_of g) (λ c. rooted l ca_file s)

  unfoldable pub client_tls : Bytes → Bytes → Bytes → Sight → Result Error (ClientTls Cert Pool)
  client_tls cert_file key_file ca_file s =
      if not (is_empty cert_file) && not (is_empty key_file)
      then and_then (client_config cert_file key_file ca_file s) (λ c. ok (live c))
      else and_then (map_err files (from_files x s.disk cert_file key_file ca_file))
          (λ m. ok (fixed m))
