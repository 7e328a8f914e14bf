-- ===== src/Tests/TlsRuns.antt =====
-- The theorems of packages tls and tls/reloader at concrete inputs.
use tokyo3_base.Base.{
  ℕ, ◌≡◌, refl, inl, true, false, none, some, [], ◌∷◌, arith, Bytes, bytes_eq, text, Result, ok,
  err, ltb, if◌then◌else◌,
}
use tokyo3_base.Base.Int.{pos}
use tokyo3_base.SealedCookie.{is_empty}
use tokyo3_base.Tls.Files.{X509, cert_pool_from_pem}
use tokyo3_base.Tls.Reload.{
  Stamp, FileValue, unloaded, get, reload, peek, equal, settled, after_load,
}
use tokyo3_base.Tls.Reload.Kept.{Call, run, outage_bounded}
use tokyo3_base.Tls.Reload.Direct.{read_next, read_all, IsServed, get-direct}
use tokyo3_base.Tls.Loader.{
  Sight, CaLoader, CertLoader, load_pair, load_pool, stat, new_cert_loader, new_ca_loader,
  result_of, get_certificate, pool,
}
use tokyo3_base.Tls.Reloader.{Config, Reloader, file_pool, new, get_client_certificate}
use tokyo3_base.Tls.Reloader.Always
use tokyo3_base.Tls.Reloader.Always.{Op, refreshed, ticked, certificate_always}

-- Contents are texts, and a reading that fails gives a number.
abbrev content_of : Stamp → Result ℕ (Bytes × Bytes)
content_of [] = err 9
content_of (t ∷ ts) = if ltb t 5 then ok (t ∷ [], []) else err 7

abbrev seen_at : ℕ → ℕ → Call Bytes ℕ
seen_at t now = record {
  forced = false;
  stat = some (t ∷ []);
  now = now;
  later = now;
  content = content_of (t ∷ []);
}

get-direct_example :
    IsServed content_of
      (some (pos 5))
      (read_next
        (read_all (record { last = none; since = none }) (seen_at 1 10 ∷ seen_at 6 20 ∷ []))
        30
        (content_of (1 ∷ [])))
      30
      30
      (get false
        (run (unloaded (some (pos 5))) (seen_at 1 10 ∷ seen_at 6 20 ∷ []))
        (some (1 ∷ []))
        30
        30
        (content_of (1 ∷ []))).0.value
get-direct_example =
    get-direct content_of (some (pos 5)) (seen_at 1 10 ∷ seen_at 6 20 ∷ []) (seen_at 1 30)
      (inl (1 ∷ [], refl, omega arith, refl), (inl (6 ∷ [], refl, omega arith, refl), tt))
      (inl (1 ∷ [], refl, omega arith, refl))

abbrev failing_since_20 : FileValue Bytes ℕ
failing_since_20 = record {
  max_stale = some (pos 100);
  val = some (1 ∷ []);
  loaded_at = 1 ∷ [];
  failed_at = 6 ∷ [];
  stat_failed = false;
  fail_since = some 20;
  fail_err = some 7;
}

outage_bounded_example :
    (get false (run failing_since_20 (seen_at 7 50 ∷ [])) (some (7 ∷ [])) 121 121 (err 7)).0.value
    ≡ none
outage_bounded_example =
    outage_bounded (pos 100) (1 ∷ []) 20 failing_since_20 (seen_at 7 50 ∷ []) (seen_at 7 121)
      (refl, refl, refl) ((7, refl), tt) (7, refl) refl

-- Certificates and pools are their texts.
abbrev plain : X509 Bytes Bytes
plain = record {
  parse_pair = λ cert key. if is_empty cert then none else some cert;
  parse_pool = λ pem. if is_empty pem then none else some pem;
  verify = λ roots name leaf rest. bytes_eq roots leaf;
}

abbrev full : Sight
full = record { disk = record { read_file = λ path. some path; mtime = λ path. some 1 }; now = 10 }

abbrev bare : Sight
bare = record { disk = record { read_file = λ path. none; mtime = λ path. none }; now = 20 }

abbrev config : Config
config = record {
  cert_path = text "c";
  key_path = text "k";
  pools = (text "ca", text "b") ∷ [];
  poll_cert = true;
  ca_max_stale = pos 0;
}

abbrev loaded_cert : CertLoader Bytes
loaded_cert = record {
  cert_file = text "c";
  key_file = text "k";
  val = record {
    max_stale = none;
    val = some (text "c");
    loaded_at = 1 ∷ 1 ∷ [];
    failed_at = [];
    stat_failed = false;
    fail_since = none;
    fail_err = none;
  };
}

abbrev loaded_pool : CaLoader Bytes
loaded_pool = record {
  ca_file = text "b";
  val = record {
    max_stale = some (pos 0);
    val = some (text "b");
    loaded_at = 1 ∷ [];
    failed_at = [];
    stat_failed = false;
    fail_since = none;
    fail_err = none;
  };
}

abbrev started : Reloader Bytes Bytes
started = record {
  poll_cert = true;
  loader = loaded_cert;
  pools = (text "ca", file_pool loaded_pool) ∷ [];
}

certificate_always_example :
    (c : Bytes) × ((get_client_certificate plain
        (Always.run plain started (refreshed bare ∷ ticked bare ∷ []))
        bare).0.value
      ≡ some c)
    × ((get_client_certificate plain
          (Always.run plain started (refreshed bare ∷ ticked bare ∷ []))
          bare).0.error
        ≡ none)
unfolding new get_certificate pool load_pair load_pool stat new_cert_loader new_ca_loader result_of
    get reload peek equal settled after_load unloaded cert_pool_from_pem
certificate_always_example =
    certificate_always plain none config full bare started (refreshed bare ∷ ticked bare ∷ []) refl
