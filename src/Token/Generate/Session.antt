-- ===== src/Token/Generate/Session.antt =====
-- Which session `GetWithOptions` builds, said without its helpers.
use iam2kube.Shared.{
  String, ◌≡◌, ◌≢◌, ◌⊎◌, refl, true, false, ok, err, if◌then◌else◌, arith, Result-cases, Bool-cases,
  str_cases, str_eq_of_ne, inl, inr, ltb, len,
}
use iam2kube.Token.{GetTokenOptions}
use iam2kube.Token.Cache.{CacheKey}
use iam2kube.Token.Cache.Provider.{
  FileCacheProvider, NewProblem, nil_info, no_credentials, not_private, not_locked, cannot_open,
  cannot_parse, new_file_cache_provider,
}
use iam2kube.Token.Generate.{Aws, Generator, Surroundings, without_cache, use_cache, build_session}
use text.Mathlib.Text.{◌==◌}

module _ {Session Client : Type 0} (aws : Aws Session Client) (encode : String → String) where
  -- The session in the region of the options, if they name one.
  pub data IsInRegion (options : GetTokenOptions) (base session : Session) : Type 0 where
    stays : options.region ≡ "" → session ≡ base → IsInRegion options base session
    moves :
        options.region ≢ ""
        → session ≡ aws.with_region base options.region
        → IsInRegion options base session

  -- The key of the cache, made of the options and of the environment.
  abbrev pub key_of : Surroundings → GetTokenOptions → CacheKey
  key_of env options = record {
    cluster_id = options.cluster_id;
    profile = if ltb 0 (len env.aws_profile) then env.aws_profile else aws.default_profile;
    role_arn = options.assume_role_arn;
  }

  -- A session with its cache, or without one that cannot be used.
  pub data IsCached (env : Surroundings) (options : GetTokenOptions) (base session : Session)
      : Type 0 where
    cached :
        (provider : FileCacheProvider)
        → new_file_cache_provider env.yaml env.faults
            (aws.has_credentials base)
            (key_of env options)
            env.disk
          ≡ ok provider
        → session ≡ aws.with_cache base provider
        → IsCached env options base session
    uncached :
        (e : NewProblem)
        → e ≢ nil_info
        → new_file_cache_provider env.yaml env.faults
            (aws.has_credentials base)
            (key_of env options)
            env.disk
          ≡ err e
        → session ≡ base
        → IsCached env options base session

  -- The session that is built where the options have none.
  pub record IsBuilt (g : Generator) (env : Surroundings) (options : GetTokenOptions)
      (session : Session) : Type 0 where
    pub base : Session
    pub makes : aws.new_session ≡ ok base
    pub placed : Session
    pub in_region : IsInRegion options base placed
    pub ends :
        ((g.cache ≡ false) × (session ≡ placed))
        ⊎ ((g.cache ≡ true) × IsCached env options placed session)

  in_region_lem :
      (options : GetTokenOptions) (base : Session)
      → IsInRegion options base
          (if options.region == "" then base else aws.with_region base options.region)
  in_region_lem options base = elim (str_cases options.region "") [
    | inl (e, empty) ↦ rw e (stays empty refl)
    | inr (e, apart) ↦ rw e (moves apart refl)
  ]

  IsInRegion-is :
      (options : GetTokenOptions) (base session : Session)
      → IsInRegion options base session
      → (if options.region == "" then base else aws.with_region base options.region) ≡ session
  IsInRegion-is options base session (stays empty is) = rw (empty, is) refl
  IsInRegion-is options base session (moves apart is) =
      rw (str_eq_of_ne options.region "" apart, is) refl

  without_cache_sound :
      (s session : Session) (e : NewProblem)
      → without_cache aws encode s e ≡ ok session
      → (e ≢ nil_info) × (session ≡ s)
  without_cache_sound s session nil_info h = absurd (ground arith)
  without_cache_sound s session no_credentials h = (λ e. cc, ground arith)
  without_cache_sound s session not_private h = (λ e. cc, ground arith)
  without_cache_sound s session not_locked h = (λ e. cc, ground arith)
  without_cache_sound s session (cannot_open _) h = (λ e. cc, ground arith)
  without_cache_sound s session (cannot_parse _) h = (λ e. cc, ground arith)

  pub without_cache_lem :
      (s : Session) (e : NewProblem) → e ≢ nil_info → without_cache aws encode s e ≡ ok s
  without_cache_lem s nil_info h = absurd (h refl)
  without_cache_lem s no_credentials h = refl
  without_cache_lem s not_private h = refl
  without_cache_lem s not_locked h = refl
  without_cache_lem s (cannot_open _) h = refl
  without_cache_lem s (cannot_parse _) h = refl

  use_cache_sound :
      (env : Surroundings) (options : GetTokenOptions) (base session : Session)
      → use_cache aws encode env options base ≡ ok session
      → IsCached env options base session
  unfolding use_cache
  use_cache_sound env options base session h =
      elim (Result-cases (
        new_file_cache_provider env.yaml env.faults (aws.has_credentials base) (key_of env options)
          env.disk)) [
            | inl (provider, e) ↦ cached provider e (ground (arith, e))
            | inr (problem, e) ↦
                let (apart, is) =
                  without_cache_sound base session problem (rw (use_cache, e) at h) in
                uncached problem apart e is
          ]

  use_cache_complete :
      (env : Surroundings) (options : GetTokenOptions) (base session : Session)
      → IsCached env options base session
      → use_cache aws encode env options base ≡ ok session
  unfolding use_cache
  use_cache_complete env options base session (cached provider e is) = rw (use_cache, e, is) refl
  use_cache_complete env options base session (uncached problem apart e is) =
      rw (use_cache, e, is) (without_cache_lem base problem apart)

  pub build_session_sound :
      (g : Generator) (env : Surroundings) (options : GetTokenOptions) (session : Session)
      → build_session aws encode g env options ≡ ok session
      → IsBuilt g env options session
  unfolding build_session
  build_session_sound g env options session h = elim (Result-cases aws.new_session) [
    | inr (_, e) ↦ absurd (ground (arith, e))
    | inl (base, e) ↦
        let placed = if options.region == "" then base else aws.with_region base options.region in
        record {
          base = base;
          makes = e;
          placed = placed;
          in_region = in_region_lem options base;
          ends = elim (Bool-cases g.cache) [
            | inr f ↦ inl (f, ground (arith, e, f))
            | inl f ↦ inr (f, use_cache_sound env options placed session (ground (arith, e, f)))
          ];
        }
  ]

  pub build_session_complete :
      (g : Generator) (env : Surroundings) (options : GetTokenOptions) (session : Session)
      → IsBuilt g env options session
      → build_session aws encode g env options ≡ ok session
  unfolding build_session
  build_session_complete g env options session built =
      let same = IsInRegion-is options built.base built.placed built.in_region in
      elim built.ends [
        | inl (f, is) ↦ rw (built.makes, build_session, f, same, is) refl
        | inr (f, in_cache) ↦ ground (
          arith,
          built.makes,
          f,
          same,
          use_cache_complete env options built.placed session in_cache,
        )
      ]
