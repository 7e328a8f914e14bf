-- ===== src/Tests/ClientRuns.antt =====
-- The theorems of package auth/oidcclient at concrete inputs.
use tokyo3_base.Base.{ℕ, ◌*◌, ◌≡◌, refl, true, false, none, some, [], ◌∷◌, bytes_eq, text}
use tokyo3_base.OidcClient.Duration.{second, add}
use tokyo3_base.OidcClient.Endpoints.{
  Web, Tokens, trim_slashes, convention_endpoints, parse_tokens, is_ok, require_secure_endpoint,
  post_form, post_token_at, discover_endpoints, refresh,
}
use tokyo3_base.OidcClient.Endpoints.Secure.{elsewhere, refresh_secure}
use tokyo3_base.OidcClient.Cache.{
  Config, CachedTokens, stored, Disk, Call, is_fresh, same_config, load_config, load_cached_tokens,
  check_bound, load_matching_tokens, or_keep, keep_missing, save_refreshed, refresh_locked,
  ensure_fresh_tokens, safe_filename,
}
use tokyo3_base.OidcClient.Cache.Once.{
  Reachable, start, login, ensured, spent, was_used, rotates, refresh_once,
}
use tokyo3_base.OidcClient.Cache.Binding.{Exchange, ensure_fresh_tokens_sends}
use tokyo3_base.OidcClient.Cache.Names.{IsLeaf, safe_filename-IsLeaf}

-- Every URL is https, and the token endpoint always gives the same tokens.
abbrev pub site : Web
site = record {
  parse_url = λ s. some (record { scheme = text "https"; host = s });
  is_loopback = λ h. false;
  post = λ url form. some (200, []);
  get = λ url. none;
  decode_document = λ body. none;
  decode_tokens = λ body. some (record {
    access_token = text "a";
    refresh_token = text "k";
    id_token = [];
    expires_in = none;
  });
}

abbrev pub config : Config
config = record { issuer = text "i"; client_id = text "c" }

abbrev old_tokens : CachedTokens
old_tokens = record {
  tokens = record {
    access_token = text "a";
    refresh_token = text "r";
    id_token = [];
    expiration = 0;
  };
  config = some config;
}

abbrev disk : Disk
disk = record { config = stored config; tokens = stored old_tokens }

abbrev pub call_at : ℕ → Call
call_at now = record {
  web = site;
  config = config;
  access_skew = 60 * second;
  first_now = now;
  now = now;
  locks = true;
  saves = true;
}

abbrev pub got : Tokens
got = record { access_token = text "a"; refresh_token = text "k"; id_token = []; expiration = 3601 }

logged_in : Reachable disk []
unfolding was_used
logged_in = login old_tokens (start {config = stored config}) refl

first_call :
    (ensure_fresh_tokens (call_at 1) disk disk).request
    ≡ some (text "r", refresh site 1 (text "i") (text "c") (text "r"))
unfolding ensure_fresh_tokens load_matching_tokens load_cached_tokens load_config check_bound
    same_config is_fresh bytes_eq refresh_locked save_refreshed keep_missing or_keep add refresh
    post_token_at post_form require_secure_endpoint discover_endpoints convention_endpoints
    trim_slashes parse_tokens is_ok
first_call = refl

ensure_fresh_tokens_sends_example :
    Exchange (call_at 1) disk (ensure_fresh_tokens (call_at 1) disk disk) (text "r")
ensure_fresh_tokens_sends_example =
    ensure_fresh_tokens_sends (call_at 1) disk disk (text "r")
      (refresh site 1 (text "i") (text "c") (text "r")) first_call

-- A refresh, and a second one after an hour.
refreshed_once : Reachable (ensure_fresh_tokens (call_at 1) disk disk).disk (text "r" ∷ [])
unfolding ensure_fresh_tokens load_matching_tokens load_cached_tokens load_config check_bound
    same_config is_fresh bytes_eq refresh_locked save_refreshed keep_missing or_keep add refresh
    post_token_at post_form require_secure_endpoint discover_endpoints convention_endpoints
    trim_slashes parse_tokens is_ok rotates spent was_used
refreshed_once = ensured (call_at 1) disk logged_in refl refl

second_call :
    (ensure_fresh_tokens
      (call_at (4000 * second))
      disk
      (ensure_fresh_tokens (call_at 1) disk disk).disk).request
    ≡ some (text "k", refresh site (4000 * second) (text "i") (text "c") (text "k"))
unfolding ensure_fresh_tokens load_matching_tokens load_cached_tokens load_config check_bound
    same_config is_fresh bytes_eq refresh_locked save_refreshed keep_missing or_keep add refresh
    post_token_at post_form require_secure_endpoint discover_endpoints convention_endpoints
    trim_slashes parse_tokens is_ok
second_call = refl

refresh_once_example : was_used (text "k") (text "r" ∷ []) ≡ false
refresh_once_example =
    refresh_once (call_at (4000 * second)) disk (text "k")
      (refresh site (4000 * second) (text "i") (text "c") (text "k")) refreshed_once second_call

safe_filename-IsLeaf_example :
    IsLeaf (safe_filename (text "../x"))
    × (IsLeaf (text "../x") → safe_filename (text "../x") ≡ text "../x")
safe_filename-IsLeaf_example = safe_filename-IsLeaf (text "../x")

refresh_secure_example :
    refresh
      (elsewhere site (text "i") (λ url form. none) (λ url. some (404, [])))
      7
      (text "i")
      (text "c")
      (text "r")
    ≡ refresh site 7 (text "i") (text "c") (text "r")
refresh_secure_example =
    refresh_secure site (text "i") (λ url form. none) (λ url. some (404, [])) 7 (text "c")
      (text "r")
