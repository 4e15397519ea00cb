-- ===== src/Token/Cache/Tests.antt =====
-- Runs of the credential cache, and its theorems at a concrete file.
use text.Mathlib.Text.{◌==◌}
use iam2kube.Shared.{
  ℕ, String, ◌≡◌, refl, Bool, true, false, ◌&&◌, Option, none, some, List, [], ◌∷◌, ok, err, nat_eq,
  if◌then◌else◌, ◌⊎◌,
}
use iam2kube.Shared.Assoc.{lookup, insert}
use iam2kube.Token.Cache.{
  RoleMap, Credential, CachedCredential, CacheFile, CacheKey, zero_cached, put, get,
}
use iam2kube.Token.Cache.Provider.{
  Yaml, Disk, Faults, Source, FileCacheProvider, shared_bits, nil_info, not_private,
  new_file_cache_provider, retrieve,
}
use iam2kube.Token.Cache.Provider.Laws.{new_file_cache_provider-private}
use iam2kube.Token.Cache.Provider.Reuse.{held}

abbrev fetched : Credential
fetched = record {
  access_key_id = "AKIA";
  secret_access_key = "secret";
  session_token = "";
  provider_name = "assumed";
}

abbrev fetched_until_100 : CachedCredential
fetched_until_100 = record { credential = fetched; expiration = 100 }

abbrev admin_key : CacheKey
admin_key = record { cluster_id = "cluster"; profile = "default"; role_arn = "admin" }

abbrev other_key : CacheKey
other_key = record { cluster_id = "cluster"; profile = "default"; role_arn = "other" }

-- A map with this one entry, told by a test of its value.
abbrev is_single : {V : Type 0} → String → (V → Bool) → List (String × V) → Bool
is_single k p [] = false
is_single k p ((j, v) ∷ []) = j == k && p v
is_single k p (_ ∷ _ ∷ _) = false

abbrev is_fetched : ℕ → CachedCredential → Bool
is_fetched until c =
    c.credential.access_key_id == "AKIA"
    && (c.credential.secret_access_key == "secret"
        && (c.credential.session_token == ""
            && (c.credential.provider_name == "assumed" && nat_eq c.expiration until)))

abbrev one_entry : CacheFile
one_entry = ("cluster", ("default", ("admin", fetched_until_100) ∷ []) ∷ []) ∷ []

abbrev is_one_entry : CacheFile → Bool
is_one_entry = is_single "cluster" (is_single "default" (is_single "admin" (is_fetched 100)))

-- A YAML library that knows one file.
abbrev yaml : Yaml
yaml = record {
  marshal = λ cache. if is_one_entry cache then ok "one entry" else err "unknown";
  unmarshal = λ text. if text == "one entry" then (one_entry, none) else ([], some "unknown");
}

abbrev fine : Faults
fine = record {
  stat_fails = false;
  takes_read_lock = true;
  takes_write_lock = true;
  read_fails = none;
  write_fails = none;
}

abbrev source : Source
source = record { get_credential = ok fetched; expires_at = ok 100; is_source_expired = false }

abbrev start : FileCacheProvider
start = record { cache_key = admin_key; cached_credential = zero_cached }

abbrev filled : Disk
filled = record { mode = 384; content = "one entry" }

cache_tests :
    (new_file_cache_provider yaml fine true admin_key none ≡ ok start)
    × (retrieve yaml fine 50 source start none ≡ (
      ok fetched,
      record { cache_key = admin_key; cached_credential = fetched_until_100 },
      some filled,
    ))
    × (new_file_cache_provider yaml fine true admin_key
          (some (record { mode = 420; content = "one entry" }))
        ≡ err not_private)
    × (get (put (put [] other_key zero_cached) admin_key fetched_until_100) other_key ≡ zero_cached)
unfolding new_file_cache_provider retrieve put get lookup insert
cache_tests = (refl, refl, refl, refl)

-- Where `Stat` fails for another reason than a missing file, the code reads the mode of a nil
-- `FileInfo`.
stat_failure_panics :
    new_file_cache_provider yaml
      (record {
        stat_fails = true;
        takes_read_lock = true;
        takes_write_lock = true;
        read_fails = none;
        write_fails = none;
      })
      true
      admin_key
      none
    ≡ err nil_info
unfolding new_file_cache_provider
stat_failure_panics = refl

filled_made :
    new_file_cache_provider yaml fine true admin_key (some filled)
    ≡ ok (record { cache_key = admin_key; cached_credential = fetched_until_100 })
unfolding new_file_cache_provider get lookup
filled_made = refl

abbrev full : FileCacheProvider
full = record { cache_key = admin_key; cached_credential = fetched_until_100 }

new_file_cache_provider-private_example :
    ((◌≡◌ {A = Option Disk} (some filled) none)
      × (full ≡ record { cache_key = admin_key; cached_credential = zero_cached }))
    ⊎ ((d : Disk) × (some filled ≡ some d)
        × (shared_bits d.mode ≡ 0)
        × (full ≡ record {
          cache_key = admin_key;
          cached_credential = get (yaml.unmarshal d.content).0 admin_key;
        })
        × ((yaml.unmarshal d.content).1 ≡ none))
new_file_cache_provider-private_example =
    new_file_cache_provider-private yaml fine admin_key (some filled) full filled_made

-- A file with an entry of another key, and the file that has both.
abbrev other_until_60 : CachedCredential
other_until_60 = record { credential = fetched; expiration = 60 }

abbrev other_entry : CacheFile
other_entry = ("cluster", ("default", ("other", other_until_60) ∷ []) ∷ []) ∷ []

abbrev both_roles : RoleMap
both_roles = ("other", other_until_60) ∷ ("admin", fetched_until_100) ∷ []

abbrev both_entries : CacheFile
both_entries = ("cluster", ("default", both_roles) ∷ []) ∷ []

abbrev is_both_roles : RoleMap → Bool
is_both_roles [] = false
is_both_roles ((j, v) ∷ rest) =
    j == "other" && (is_fetched 60 v && is_single "admin" (is_fetched 100) rest)

abbrev is_both : CacheFile → Bool
is_both = is_single "cluster" (is_single "default" is_both_roles)

abbrev yaml_of_both : Yaml
yaml_of_both = record {
  marshal = λ cache. if is_both cache then ok "both" else err "unknown";
  unmarshal = λ text.
      if text == "both"
      then (both_entries, none)
      else if text == "other"
      then (other_entry, none)
      else ([], some "unknown");
}

abbrev used : Option Disk
used = some (record { mode = 384; content = "other" })

other_is_kept : held yaml_of_both fine used other_key ≡ other_until_60
unfolding held get lookup
other_is_kept = refl
