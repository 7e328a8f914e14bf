-- ===== src/Tls/Files.antt =====
-- tls/tls.go: TLS material from files and PEM texts, and the check of a peer's chain. The file system is
-- what a call sees of it, and the parsers and the verifier of package x509 are parameters. The
-- self-signed certificate is not modelled.
use tokyo3_base.Base.{
  ℕ, Bool, ◌&&◌, ◌||◌, Option, none, some, List, [], ◌∷◌, Bytes, Result, ok, err, and_then, or_err,
  if◌then◌else◌,
}
use tokyo3_base.SealedCookie.{is_empty}

-- `os.ReadFile` and the modification time of `os.Stat`.
pub record Disk : Type 0 where
  pub read_file : Bytes → Option Bytes
  pub mtime : Bytes → Option ℕ

-- `verify` is given the roots, the server's name, the leaf and the intermediates.
pub record X509 (Cert Pool : Type 0) : Type 0 where
  pub parse_pair : Bytes → Bytes → Option Cert
  pub parse_pool : Bytes → Option Pool
  pub verify : Pool → Bytes → Bytes → List Bytes → Bool

pub data Error : Type 0 where
  unreadable empty_file : Bytes → Error
  no_certificates half_pair bad_pair : Error
  no_pool no_peer no_server_name untrusted : Error

pub record ConnectionState : Type 0 where
  pub server_name : Bytes
  pub peer_certificates : List Bytes

-- What FromPEM fills in of a config.
pub record ClientMaterial (Cert Pool : Type 0) : Type 0 where
  pub certificate : Option Cert
  pub root_cas : Option Pool

-- An empty path is an empty text; an empty file is an error.
full_file : Bytes → Option Bytes → Result Error Bytes
full_file path none = err (unreadable path)
full_file path (some b) = if is_empty b then err (empty_file path) else ok b

unfoldable pub read_pem : Disk → Bytes → Result Error Bytes
unfolding full_file
read_pem d path = if is_empty path then ok [] else full_file path (d.read_file path)

module _ {Cert Pool : Type 0} (x : X509 Cert Pool) where
  unfoldable pub cert_pool_from_pem : Bytes → Result Error Pool
  cert_pool_from_pem pem = or_err (x.parse_pool pem) no_certificates

  unfoldable pub cert_pool_from_file : Disk → Bytes → Result Error Pool
  unfolding cert_pool_from_pem
  cert_pool_from_file d path = and_then (read_pem d path) cert_pool_from_pem

  pair_from : Bytes → Bytes → Result Error (Option Cert)
  pair_from cert key =
      if is_empty cert && is_empty key
      then ok none
      else if is_empty cert || is_empty key
      then err half_pair
      else and_then (or_err (x.parse_pair cert key) bad_pair) (λ c. ok (some c))

  roots_from : Bytes → Result Error (Option Pool)
  unfolding cert_pool_from_pem
  roots_from ca =
      if is_empty ca then ok none else and_then (cert_pool_from_pem ca) (λ p. ok (some p))

  -- No config where all three texts are empty.
  unfoldable pub from_pem : Bytes → Bytes → Bytes → Result Error (Option (ClientMaterial Cert Pool))
  unfolding pair_from roots_from
  from_pem cert key ca =
      if is_empty cert && is_empty key && is_empty ca
      then ok none
      else and_then (pair_from cert key)
          λ c. and_then (roots_from ca) λ p. ok (some (record { certificate = c; root_cas = p }))

  unfoldable pub from_files :
      Disk → Bytes → Bytes → Bytes → Result Error (Option (ClientMaterial Cert Pool))
  unfolding from_pem
  from_files d cert_file key_file ca_file = and_then (read_pem d cert_file) λ cert.
      and_then (read_pem d key_file) λ key. and_then (read_pem d ca_file) λ ca. from_pem cert key ca

  verify_leaf : Pool → Bytes → List Bytes → Result Error (Unit {0})
  verify_leaf roots name [] = err no_peer
  verify_leaf roots name (leaf ∷ rest) =
      if is_empty name
      then err no_server_name
      else if x.verify roots name leaf rest
      then ok tt
      else err untrusted

  -- A missing pool is nil.
  unfoldable pub verify_peer_chain : Option Pool → ConnectionState → Result Error (Unit {0})
  unfolding verify_leaf
  verify_peer_chain none cs = err no_pool
  verify_peer_chain (some roots) cs = verify_leaf roots cs.server_name cs.peer_certificates
