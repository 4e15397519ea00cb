-- ===== src/Token/Cache/Provider/Laws.antt =====
-- What the cache file can do to a caller: nothing, but to save a call of the provider below.
use iam2kube.Shared.{
  ◌≡◌, refl, true, Option, none, some, ok, arith, Result-cases, Option-cases, inl, inr, ◌⊎◌,
}
use iam2kube.Token.Cache.{CachedCredential, zero_cached, CacheKey, get}
use iam2kube.Token.Cache.Provider.{
  Yaml, Disk, Faults, FileCacheProvider, shared_bits, new_file_cache_provider, load_credential,
  read_cache_while_locked,
}

-- A read of the cache that succeeds.
read_sound :
    (yaml : Yaml) (faults : Faults) (d : Disk)
    → (read_cache_while_locked yaml faults (some d)).1 ≡ none
    → ((read_cache_while_locked yaml faults (some d)).0 ≡ (yaml.unmarshal d.content).0)
      × ((yaml.unmarshal d.content).1 ≡ none)
unfolding read_cache_while_locked
read_sound yaml faults d h = elim (Option-cases faults.read_fails) [
  | inr (_, e) ↦ absurd (ground arith)
  | inl e ↦ ground arith
]

load_sound :
    (yaml : Yaml) (faults : Faults) (key : CacheKey) (d : Disk) (c : CachedCredential)
    → load_credential yaml faults key d ≡ ok c
    → (shared_bits d.mode ≡ 0)
      × (c ≡ get (yaml.unmarshal d.content).0 key)
      × ((yaml.unmarshal d.content).1 ≡ none)
unfolding load_credential
load_sound yaml faults key d c h = ground (arith, read_sound yaml faults d)

-- A provider is made only where there is no file, and then it holds the zero value, or from a file
-- that no other user can access and that parses, and then it holds what that file has for its key.
pub new_file_cache_provider-private :
    (yaml : Yaml) (faults : Faults) (key : CacheKey) (disk : Option Disk) (p : FileCacheProvider)
    → new_file_cache_provider yaml faults true key disk ≡ ok p
    → ((disk ≡ none) × (p ≡ record { cache_key = key; cached_credential = zero_cached }))
      ⊎ ((d : Disk) × (disk ≡ some d)
          × (shared_bits d.mode ≡ 0)
          × (p ≡ record {
            cache_key = key;
            cached_credential = get (yaml.unmarshal d.content).0 key;
          })
          × ((yaml.unmarshal d.content).1 ≡ none))
unfolding new_file_cache_provider
new_file_cache_provider-private yaml faults key none p h = inl (refl, ground arith)
new_file_cache_provider-private yaml faults key (some d) p h =
    elim (Result-cases (load_credential yaml faults key d)) [
      | inr (_, e) ↦ absurd (ground arith)
      | inl (c, e) ↦
          let (private, held, parsed) = load_sound yaml faults key d c e in
          inr (d, refl, private, ground arith, parsed)
    ]
