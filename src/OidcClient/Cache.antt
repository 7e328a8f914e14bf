-- ===== src/OidcClient/Cache.antt =====
-- auth/oidcclient/client.go: the token cache that the helpers share, its refresh under the lock, and the
-- names of its files.
pub mod Steps
pub mod Once
pub mod Binding
pub mod Names
use tokyo3_base.Base.{
  ℕ, ◌≡◌, Bool, true, false, not, ◌&&◌, ◌||◌, Option, none, some, List, [], ◌∷◌, Bytes, bytes_eq,
  text, Result, ok, err, and_then, leb, ◌==◌, if◌then◌else◌,
}
use tokyo3_base.SealedCookie.{is_empty}
use tokyo3_base.OidcClient.Duration.{add}
use tokyo3_base.OidcClient.Endpoints.{Web, Tokens, Error, refresh}

pub record Config : Type 0 where
  pub issuer : Bytes
  pub client_id : Bytes

pub record CachedTokens : Type 0 where
  pub tokens : Tokens
  pub config : Option Config

-- What a read of a file gives; `damaged` is any failure but a missing file.
pub data Stored (A : Type 0) : Type 0 where
  missing damaged : Stored A
  stored : A → Stored A

-- config.json and tokens.json.
pub record Disk : Type 0 where
  pub config : Stored Config
  pub tokens : Stored CachedTokens

pub data CacheError : Type 0 where
  no_cache unreadable incomplete mismatch not_bound no_lock no_refresh_token no_save : CacheError
  no_refresh : Error → CacheError

unfoldable pub same_config : Config → Config → Bool
same_config a b = bytes_eq a.issuer b.issuer && bytes_eq a.client_id b.client_id

unfoldable pub load_config : Stored Config → Result CacheError Config
load_config missing = err unreadable
load_config damaged = err unreadable
load_config (stored c) = if is_empty c.issuer || is_empty c.client_id then err incomplete else ok c

unfoldable pub load_cached_tokens : Stored CachedTokens → Result CacheError CachedTokens
load_cached_tokens missing = err no_cache
load_cached_tokens damaged = err unreadable
load_cached_tokens (stored t) = ok t

names : Config → Result CacheError Config → Bool
unfolding same_config
names cfg (ok saved) = same_config saved cfg
names cfg (err e) = false

unfoldable pub check_bound :
    Config
    → Result CacheError Config
    → CachedTokens
    → Option Config
    → Result CacheError CachedTokens
unfolding same_config names
check_bound cfg saved cached (some c) = if same_config c cfg then ok cached else err mismatch
check_bound cfg saved cached none = if names cfg saved then ok cached else err not_bound

unfoldable pub load_matching_tokens : Config → Disk → Result CacheError CachedTokens
load_matching_tokens cfg d =
    and_then (load_cached_tokens d.tokens)
      (λ cached. check_bound cfg (load_config d.config) cached cached.config)

-- A call of `EnsureFreshTokens`: the clock at its two tests, and whether the lock is got and the file can be
-- written.
pub record Call : Type 0 where
  pub web : Web
  pub config : Config
  pub access_skew : ℕ
  pub first_now : ℕ
  pub now : ℕ
  pub locks : Bool
  pub saves : Bool

-- `request` is the refresh token that is sent and the answer to it.
pub record Outcome : Type 0 where
  pub result : Result CacheError Tokens
  pub disk : Disk
  pub request : Option (Bytes × Result Error Tokens)

-- `time.Until(expiration) >= accessSkew`.
unfoldable pub is_fresh : ℕ → ℕ → Tokens → Bool
is_fresh now skew t = leb (add now skew) t.expiration

unfoldable pub or_keep : Bytes → Bytes → Bytes
or_keep old new = if is_empty new then old else new

-- What the refreshed tokens keep of the cached ones.
unfoldable pub keep_missing : Tokens → Tokens → Tokens
keep_missing old fresh = record fresh {
  refresh_token = or_keep old.refresh_token fresh.refresh_token;
  id_token = or_keep old.id_token fresh.id_token;
}

unfoldable pub save_refreshed : Call → Disk → Tokens → Result Error Tokens → Outcome
save_refreshed c d old (err e) = record {
  result = err (no_refresh e);
  disk = d;
  request = some (old.refresh_token, err e);
}
save_refreshed c d old (ok fresh) =
    let kept = keep_missing old fresh in
    if c.saves
    then record {
      result = ok kept;
      disk = record d { tokens = stored (record { tokens = kept; config = some c.config }) };
      request = some (old.refresh_token, ok fresh);
    }
    else record { result = err no_save; disk = d; request = some (old.refresh_token, ok fresh) }

abbrev pub quiet : Disk → Result CacheError Tokens → Outcome
quiet d r = record { result = r; disk = d; request = none }

-- From the re-read under the lock on.
unfoldable pub refresh_locked : Call → Disk → Result CacheError CachedTokens → Outcome
refresh_locked c d (err e) = quiet d (err e)
refresh_locked c d (ok cached) =
    let t = cached.tokens in
    if is_fresh c.now c.access_skew t
    then quiet d (ok t)
    else if is_empty t.refresh_token
    then quiet d (err no_refresh_token)
    else save_refreshed c d t
        (refresh c.web c.now c.config.issuer c.config.client_id t.refresh_token)

after_first_read : Call → Disk → Result CacheError CachedTokens → Outcome
after_first_read c d (err e) = quiet d (err e)
after_first_read c d (ok cached) =
    if is_fresh c.first_now c.access_skew cached.tokens
    then quiet d (ok cached.tokens)
    else if not c.locks
    then quiet d (err no_lock)
    else refresh_locked c d (load_matching_tokens c.config d)

-- The disk as the first read sees it, and as it is under the lock.
unfoldable pub ensure_fresh_tokens : Call → Disk → Disk → Outcome
unfolding after_first_read
ensure_fresh_tokens c first d = after_first_read c d (load_matching_tokens c.config first)

is_alphanumeric : ℕ → Bool
is_alphanumeric c =
    (leb b'a' c && leb c b'z') || (leb b'A' c && leb c b'Z') || (leb b'0' c && leb c b'9')

all_app_bytes : Bytes → Bool
unfolding is_alphanumeric
all_app_bytes [] = true
all_app_bytes (c ∷ s) = (is_alphanumeric c || c == b'-' || c == b'_') && all_app_bytes s

unfoldable pub valid_app_name : Bytes → Bool
unfolding all_app_bytes
valid_app_name s = if is_empty s then false else all_app_bytes s

unfoldable pub is_file_byte : ℕ → Bool
unfolding is_alphanumeric
is_file_byte c = is_alphanumeric c || c == b'-' || c == b'_' || c == b'.'

unfoldable pub replace_bytes : Bytes → Bytes
replace_bytes [] = []
replace_bytes (c ∷ s) = (if is_file_byte c then c else b'_') ∷ replace_bytes s

unfoldable pub replace_dots : Bytes → Bytes
replace_dots [] = []
replace_dots (c ∷ s) = (if c == b'.' then b'_' else c) ∷ replace_dots s

unfoldable pub safe_filename : Bytes → Bytes
safe_filename s =
    let b = replace_bytes s in
    if is_empty b
    then text "default"
    else if bytes_eq b (text ".") || bytes_eq b (text "..")
    then replace_dots b
    else b
