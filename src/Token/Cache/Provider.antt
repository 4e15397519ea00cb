-- ===== src/Token/Cache/Provider.antt =====
-- pkg/token/filecache.go: the provider that keeps credentials in a file. The file is explicit; the
-- YAML library, the provider below, and what may fail in the operating system are parameters.
-- Messages to the user are left out.
pub mod Laws
pub mod Reuse
use iam2kube.Shared.{
  ℕ, ◌%◌, String, Bool, true, false, not, ◌&&◌, Option, none, some, Result, ok, err, [], nat_eq,
  if◌then◌else◌,
}
use iam2kube.Token.Cache.{
  Credential, CachedCredential, zero_cached, is_expired, CacheFile, CacheKey, put, get,
}

-- `yaml.Marshal` and `yaml.Unmarshal`; the second fills what it can, and may fail.
pub record Yaml : Type 0 where
  pub marshal : CacheFile → Result String String
  pub unmarshal : String → CacheFile × Option String

-- The cache file: its permission bits, and its content.
pub record Disk : Type 0 where
  pub mode : ℕ
  pub content : String

-- What the operating system does in one run: `Stat` may fail for another reason than a missing file,
-- each lock is taken in time or not, and reading and writing may fail.
pub record Faults : Type 0 where
  pub stat_fails : Bool
  pub takes_read_lock : Bool
  pub takes_write_lock : Bool
  pub read_fails : Option String
  pub write_fails : Option String

-- The provider below: `Get`, `ExpiresAt` and `IsExpired` of its credentials.
pub record Source : Type 0 where
  pub get_credential : Result String Credential
  pub expires_at : Result String ℕ
  pub is_source_expired : Bool

-- `FileCacheProvider`, without the credentials of the provider below.
pub record FileCacheProvider : Type 0 where
  pub cache_key : CacheKey
  pub cached_credential : CachedCredential

pub data NewProblem : Type 0 where
  no_credentials not_private not_locked : NewProblem
  cannot_open cannot_parse : String → NewProblem
  -- The mode of a `FileInfo` that is nil is read, which is a panic.
  nil_info : NewProblem

-- The bits of a mode under the mask 0077.
abbrev pub shared_bits : ℕ → ℕ
shared_bits mode = mode % 64

-- `WriteFile`: a file that is there keeps its mode, a new one has 0600.
abbrev pub written : Option Disk → String → Disk
written none content = record { mode = 384; content = content }
written (some d) content = record { mode = d.mode; content = content }

module _ (yaml : Yaml) (faults : Faults) where
  -- The part of the reader after `ReadFile`.
  pub parse_cache : String → CacheFile × Option NewProblem
  parse_cache content =
      let (cache, failure) = yaml.unmarshal content in
      elim failure [ none ↦ (cache, none) | some e ↦ (cache, some (cannot_parse e)) ]

  -- `readCacheWhileLocked`: the cache, with the error if there is one.
  unfoldable pub read_cache_while_locked : Option Disk → CacheFile × Option NewProblem
  unfolding parse_cache
  read_cache_while_locked none = ([], some (cannot_open "no such file"))
  read_cache_while_locked (some d) = elim faults.read_fails [
    | some e ↦ ([], some (cannot_open e))
    | none ↦ parse_cache d.content
  ]

  -- `writeCacheWhileLocked`: the file after it.
  unfoldable pub write_cache_while_locked : CacheFile → Option Disk → Option Disk
  write_cache_while_locked cache disk = elim (yaml.marshal cache) [
    | err _ ↦ disk
    | ok content ↦ elim faults.write_fails [ some _ ↦ disk | none ↦ some (written disk content) ]
  ]

  -- The part that has found a file.
  pub load_credential : CacheKey → Disk → Result NewProblem CachedCredential
  load_credential key d =
      if not (nat_eq (shared_bits d.mode) 0)
      then err not_private
      else if faults.takes_read_lock
      then (let (cache, failure) = read_cache_while_locked (some d) in
          elim failure [ none ↦ ok (get cache key) | some e ↦ err e ])
      else err not_locked

  -- `Stat`, and what follows it.
  pub stat_and_load : CacheKey → Option Disk → Result NewProblem CachedCredential
  stat_and_load key disk =
      if faults.stat_fails
      then err nil_info
      else elim disk [ none ↦ ok zero_cached | some d ↦ load_credential key d ]

  -- `NewFileCacheProvider`; the first argument tells whether there are credentials.
  unfoldable pub new_file_cache_provider :
      Bool → CacheKey → Option Disk → Result NewProblem FileCacheProvider
  unfolding stat_and_load load_credential read_cache_while_locked
  new_file_cache_provider has_credentials key disk =
      if has_credentials
      then elim (stat_and_load key disk) [
        | err e ↦ err e
        | ok cached ↦ ok (record { cache_key = key; cached_credential = cached })
      ]
      else err no_credentials

  -- The provider and the file after a credential was fetched that says when it expires.
  pub store_credential :
      FileCacheProvider → Option Disk → Credential → ℕ → FileCacheProvider × Option Disk
  store_credential p disk credential expiration =
      let cached : CachedCredential = record { credential = credential; expiration = expiration } in
      let (cache, _) = read_cache_while_locked disk in
      if faults.takes_write_lock
      then (
        record { cache_key = p.cache_key; cached_credential = cached },
        write_cache_while_locked (put cache p.cache_key cached) disk,
      )
      else (p, disk)

  -- `Retrieve`: what it returns, and the provider and the file after it.
  unfoldable pub retrieve :
      ℕ
      → Source
      → FileCacheProvider
      → Option Disk
      → Result String Credential × FileCacheProvider × Option Disk
  unfolding store_credential read_cache_while_locked write_cache_while_locked
  retrieve now source p disk =
      if is_expired p.cached_credential now
      then elim source.get_credential [
        | err e ↦ (err e, p, disk)
        | ok credential ↦ elim source.expires_at [
          | err _ ↦ (ok credential, p, disk)
          | ok expiration ↦
              let (q, file) = store_credential p disk credential expiration in
              (ok credential, q, file)
        ]
      ]
      else (ok p.cached_credential.credential, p, disk)

-- `FileCacheProvider.IsExpired`
pub is_provider_expired : ℕ → Source → FileCacheProvider → Bool
is_provider_expired now source p = is_expired p.cached_credential now && source.is_source_expired
