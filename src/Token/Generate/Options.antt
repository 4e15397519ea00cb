-- ===== src/Token/Generate/Options.antt =====
-- What `GetWithOptions` makes of its options.
use text.Mathlib.Text.{◌==◌}
use iam2kube.Shared.{
  ℕ, ◌+◌, String, ◌<>◌, ◌≡◌, ◌≢◌, ◌↔◌, ◌*◌, sym, ap, ◌∙◌, str_eq_of_ne, refl, Bool, true, false,
  Option, none, some, ok, err, if◌then◌else◌, arith, Result-cases, str_cases, inl, inr,
}
use iam2kube.Token.{Token, GetTokenOptions, minute, request_presign_param}
use iam2kube.Token.Cache.Provider.{NewProblem, nil_info, new_file_cache_provider}
use iam2kube.Token.Generate.Client.{IsClient, choose_client_sound, choose_client_complete}
use iam2kube.Token.Generate.Session.{
  key_of, IsBuilt, without_cache_lem, build_session_sound, build_session_complete,
}
use iam2kube.Token.Generate.{
  Aws, Generator, Surroundings, get_with_sts, use_cache, build_session, choose_client,
  role_session_name, token_for, get_with_options,
}

module _ {Session Client : Type 0} (aws : Aws Session Client) (encode : String → String) where
  -- A token for these options, signed in this session: a URL that the client pre-signs with the
  -- expiry 60, in a token that says it lasts 14 minutes.
  pub record Signs (g : Generator) (now : ℕ) (options : GetTokenOptions) (session : Session)
      (t : Token) : Type 0 where
    pub client : Client
    pub chosen : IsClient aws encode g options session client
    pub url : String
    pub presigned : aws.presign client options.cluster_id 60 ≡ ok url
    pub token : t ≡ record { token = "k8s-aws-v1." <> encode url; expiration = now + 14 * minute }

  -- The session of the options, or where they have none the one that is built.
  abbrev pub ComesFrom :
      Generator → Surroundings → GetTokenOptions → Option Session → Session → Type 0
  ComesFrom g env options (some session) s = s ≡ session
  ComesFrom g env options none s = IsBuilt aws encode g env options s

  token_for_sound :
      (g : Generator) (now : ℕ) (options : GetTokenOptions) (session : Session) (t : Token)
      → token_for aws encode g now options session ≡ ok t
      → Signs g now options session t
  unfolding token_for get_with_sts
  token_for_sound g now options session t h =
      elim (Result-cases (choose_client aws encode g options session)) [
        | inr (_, e) ↦ absurd (ground arith)
        | inl (client, e) ↦
            elim (Result-cases (aws.presign client options.cluster_id request_presign_param)) [
              | inr (_, f) ↦ absurd (ground arith)
              | inl (url, f) ↦ record {
                client = client;
                chosen = choose_client_sound aws encode g options session client e;
                url = url;
                presigned = f;
                token = ground arith;
              }
            ]
      ]

  token_for_complete :
      (g : Generator) (now : ℕ) (options : GetTokenOptions) (session : Session) (t : Token)
      → Signs g now options session t
      → token_for aws encode g now options session ≡ ok t
  unfolding token_for get_with_sts
  token_for_complete g now options session t signs =
      rw
        (
          choose_client_complete aws encode g options session signs.client signs.chosen,
          token_for,
          get_with_sts,
          signs.presigned,
        )
        (ap ok (sym signs.token))

  -- A token is returned, and a session is left in the options, exactly when the options name a
  -- cluster, that session is the one given or, where none was given, one that is built for the
  -- options, and the token is one for the cluster that is signed by the client which belongs to the
  -- options in that session.
  pub get_with_options_iff :
      (g : Generator) (env : Surroundings) (now : ℕ) (options : GetTokenOptions)
      (session : Option Session) (s : Session) (t : Token)
      → (get_with_options aws encode g env now options session ≡ (ok t, some s))
        ↔ ((options.cluster_id ≢ "") × ComesFrom g env options session s × Signs g now options s t)
  unfolding get_with_options
  get_with_options_iff g env now options session s t = (sound session, complete session)
    where
      sound :
          (session : Option Session)
          → get_with_options aws encode g env now options session ≡ (ok t, some s)
          → (options.cluster_id ≢ "") × ComesFrom g env options session s × Signs g now options s t
      sound (some given) h = elim (str_cases options.cluster_id "") [
        | inl (e, _) ↦ absurd (ground (arith, e))
        | inr (e, named) ↦
            let same : given ≡ s = ground (arith, e) in
            (named, sym same, token_for_sound g now options s t (ground (arith, e, same)))
      ]
      sound none h = elim (str_cases options.cluster_id "") [
        | inl (e, _) ↦ absurd (ground (arith, e))
        | inr (e, named) ↦ elim (Result-cases (build_session aws encode g env options)) [
          | inr (_, f) ↦ absurd (ground (arith, e, f))
          | inl (built, f) ↦
              let same : built ≡ s = ground (arith, e, f) in
              (
                named,
                build_session_sound aws encode g env options s (f ∙ ap ok same),
                token_for_sound g now options s t (ground (arith, e, f, same)),
              )
        ]
      ]

      complete :
          (session : Option Session)
          → (options.cluster_id ≢ "") × ComesFrom g env options session s × Signs g now options s t
          → get_with_options aws encode g env now options session ≡ (ok t, some s)
      complete (some given) (named, same, signs) =
          rw (str_eq_of_ne options.cluster_id "" named, sym same)
            (ap (λ r. (r, some s)) (token_for_complete g now options s t signs))
      complete none (named, built, signs) =
          rw
            (
              str_eq_of_ne options.cluster_id "" named,
              build_session_complete aws encode g env options s built,
            )
            (ap (λ r. (r, some s)) (token_for_complete g now options s t signs))

  use_no_cache :
      (env : Surroundings) (options : GetTokenOptions) (s : Session) (e : NewProblem)
      → new_file_cache_provider env.yaml env.faults
          (aws.has_credentials s)
          (key_of aws encode env options)
          env.disk
        ≡ err e
      → e ≢ nil_info
      → use_cache aws encode env options s ≡ ok s
  unfolding use_cache
  use_no_cache env options s e broken h =
      rw (broken, use_cache) (without_cache_lem aws encode s e h)

  build_session-no_cache :
      (forward : Bool) (env : Surroundings) (options : GetTokenOptions)
      → ((s : Session) → use_cache aws encode env options s ≡ ok s)
      → build_session aws encode
          (record { forward_session_name = forward; cache = true })
          env
          options
        ≡ build_session aws encode
            (record { forward_session_name = forward; cache = false })
            env
            options
  unfolding build_session
  build_session-no_cache forward env options unused = elim (Result-cases aws.new_session) [
    | inr (_, e) ↦ rw (e, build_session) refl
    | inl (s, e) ↦
        ground
          (arith, unused (if options.region == "" then s else aws.with_region s options.region))
  ]

  -- Where the cache cannot be used, for another reason than the panic, a generator with the cache does what one without it does.
  pub get_with_options-no_cache :
      (forward : Bool) (env : Surroundings) (now : ℕ) (options : GetTokenOptions)
      (session : Option Session)
      → ((s : Session)
          → (e : NewProblem) × (e ≢ nil_info)
            × (new_file_cache_provider env.yaml env.faults
                  (aws.has_credentials s)
                  (key_of aws encode env options)
                  env.disk
                ≡ err e))
      → get_with_options aws encode
          (record { forward_session_name = forward; cache = true })
          env
          now
          options
          session
        ≡ get_with_options aws encode
            (record { forward_session_name = forward; cache = false })
            env
            now
            options
            session
  unfolding get_with_options token_for choose_client role_session_name
  get_with_options-no_cache forward env now options (some s) broken = refl
  get_with_options-no_cache forward env now options none broken =
      rw
        (build_session-no_cache forward env options
          (λ s. use_no_cache env options s (broken s).0 (broken s).2 (broken s).1))
        refl
