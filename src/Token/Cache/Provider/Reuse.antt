-- ===== src/Token/Cache/Provider/Reuse.antt =====
-- What a run stores, the next run finds.
use iam2kube.Shared.{ℕ, ◌≡◌, true, false, String, Option, none, some, ok}
use iam2kube.Token.Cache.{
  zero_cached, Credential, CachedCredential, CacheFile, is_expired, CacheKey, put, get,
}
use iam2kube.Token.Cache.Provider.{
  Yaml, Disk, Faults, Source, FileCacheProvider, shared_bits, read_cache_while_locked,
}

-- Unmarshalling what was marshalled gives back a map with the same entries.
pub record RoundTrips (yaml : Yaml) : Type 0 where
  pub parses :
      (cache : CacheFile) (text : String)
      → yaml.marshal cache ≡ ok text
      → (yaml.unmarshal text).1 ≡ none
  pub same_entries :
      (cache : CacheFile) (text : String) (key : CacheKey)
      → yaml.marshal cache ≡ ok text
      → get (yaml.unmarshal text).0 key ≡ get cache key

-- No other user can access the file, if there is one.
abbrev pub IsPrivate : Option Disk → Type 0
IsPrivate none = Unit
IsPrivate (some d) = shared_bits d.mode ≡ 0

-- What a file holds for a key, as a run sees it: the zero value where there is no file or where it
-- cannot be read, and otherwise what its content is parsed into.
unfoldable pub held : Yaml → Faults → Option Disk → CacheKey → CachedCredential
held yaml faults none key = zero_cached
held yaml faults (some d) key = elim faults.read_fails [
  | some _ ↦ zero_cached
  | none ↦ get (yaml.unmarshal d.content).0 key
]

module _ (yaml : Yaml) (laws : RoundTrips yaml) (faults next : Faults) (p : FileCacheProvider)
    (disk : Option Disk) (now : ℕ) (source : Source) (credential : Credential) (expiration : ℕ)
    (text : String) (private : IsPrivate disk) (locks : faults.takes_write_lock ≡ true)
    (writes : faults.write_fails ≡ none) (stats : next.stat_fails ≡ false)
    (locks' : next.takes_read_lock ≡ true) (reads : next.read_fails ≡ none)
    (expired : is_expired p.cached_credential now ≡ true)
    (fetched : source.get_credential ≡ ok credential) (expires : source.expires_at ≡ ok expiration)
    (marshalled : yaml.marshal (
        put
          (read_cache_while_locked yaml faults disk).0
          p.cache_key
          (record { credential = credential; expiration = expiration }))
      ≡ ok text) where
  abbrev fresh : CachedCredential
  fresh = record { credential = credential; expiration = expiration }
