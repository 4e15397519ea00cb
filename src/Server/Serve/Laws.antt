-- ===== src/Server/Serve/Laws.antt =====
-- What a started server grants, and what its metrics count.
use iam2kube.Shared.{
  Bool, true, false, String, ◌≡◌, refl, ap, sym, ◌∙◌, ◌↔◌, Option, none, List, map, Result, ok, err,
  arith, inl, inr, Result-cases, Option-cases, Bool-cases,
}
use iam2kube.Shared.Assoc.{lookup}
use iam2kube.Arn.Format.{Sdk}
use iam2kube.Config.{Config}
use iam2kube.Config.Files.{Crypto, System, Files}
use iam2kube.Mapper.{Mapper}
use iam2kube.Token.Verify.{Parsers, verify}
use iam2kube.Token.Hosts.{new_verifier}
use iam2kube.Server.Authenticate.{Metric, UserInfo, Outcome, Handler, authenticate_endpoint}
use iam2kube.Server.Authenticate.Grants.{grant, Grants, granted_iff}
use iam2kube.Server.Chain.{Makers, build_mapper_chain}
use iam2kube.Server.Start.{
  Outside, ServerHandler, Server, handler_routes, is_bad_role, get_handler, open_listener,
  new_server, configure_client,
}
use iam2kube.Server.Serve.{
  Moment, WebRequest, Reply, reviews, plain, webhook, answer_endpoint, serve,
}
use iam2kube.Command.Root.{Viper, get_config}
use iam2kube.Command.Server.{server_run, serve_mappers, start_mappers}
use text.Mathlib.Text.{◌==◌}
use mathlib.Core.Path.{subst}
use text.Mathlib.TextEquality.{eq_iff}
use iam2kube.Ec2Provider.Session.{Session, new_provider}
use iam2kube.Ec2Provider.{Provider}
use iam2kube.Config.Files.{Certificate, get_or_create_certificate}

-- The webhook that a configuration and its backends ask for.
abbrev pub webhook_of :
    Outside → Parsers → (String → Result String String) → Config → List Mapper → Moment → Handler
webhook_of outside parsers decode c mappers moment = record {
  decode = decode;
  verify =
      verify outside.arns parsers
        (new_verifier outside.endpoints outside.send c.cluster_id c.partition_id) moment.now;
  private_dns_name = moment.private_dns_name;
  mappers = map moment.current mappers;
  scrubbed_accounts = c.scrubbed_aws_accounts;
}

-- The handler that is made, once it has a session.
abbrev handler_of : Outside → Config → List Mapper → Session → Provider → ServerHandler
handler_of outside c mappers session provider = record {
  verifier = new_verifier outside.endpoints outside.send c.cluster_id c.partition_id;
  ec2_session = session;
  ec2_provider = provider;
  cluster_id = c.cluster_id;
  mappers = mappers;
  scrubbed_accounts = c.scrubbed_aws_accounts;
  routes = handler_routes;
}

abbrev is_review : Reply → Bool
is_review (reviews _) = true
is_review (plain _ _) = false

abbrev outcome_of : Outcome → Reply → Outcome
outcome_of _ (reviews o) = o
outcome_of o (plain _ _) = o

module _ (sdk : Sdk) (parsers : Parsers) (decode : String → Result String String)
    (page : List Metric → String) (h : ServerHandler) (moment : Moment)
    (observed : List Metric) where
  -- Only the webhook's path has a review for an answer.
  serve-is_review :
      (req : WebRequest)
      → h.routes ≡ handler_routes
      → is_review (serve sdk parsers decode page h moment req observed).0
        ≡ ("/authenticate" == req.path)
  unfolding serve answer_endpoint lookup
  serve-is_review req routes = elim (Bool-cases ("/authenticate" == req.path)) [
    | inl e ↦ rw (routes, serve, e) refl
    | inr e ↦ elim (Bool-cases ("/metrics" == req.path)) [
      | inl f ↦ rw (routes, serve, e, f) refl
      | inr f ↦ elim (Bool-cases ("/healthz" == req.path)) [
        | inl g ↦ rw (routes, serve, e, f, g) refl
        | inr g ↦ rw (routes, serve, e, f, g) refl
      ]
    ]
  ]

  serve-webhook :
      (req : WebRequest)
      → h.routes ≡ handler_routes
      → req.path ≡ "/authenticate"
      → (serve sdk parsers decode page h moment req observed).0
        ≡ reviews (authenticate_endpoint (webhook sdk parsers decode page h moment) req.http)
  unfolding serve answer_endpoint lookup
  serve-webhook req routes e = rw (routes, e) refl

  pub serve-grant_iff :
      (req : WebRequest) (user : UserInfo)
      → h.routes ≡ handler_routes
      → ((serve sdk parsers decode page h moment req observed).0 ≡ reviews (grant user)) ↔ (
          (req.path ≡ "/authenticate")
          × Grants (webhook sdk parsers decode page h moment) req.http user)
  serve-grant_iff req user routes = (
    λ granted.
        let path = sym (
          (eq_iff "/authenticate" req.path).0
            (sym (serve-is_review req routes) ∙ ap is_review granted)) in
        (
          path,
          (granted_iff (webhook sdk parsers decode page h moment) req.http user).0
              (ap (outcome_of (grant user)) (sym (serve-webhook req routes path) ∙ granted)),
        ),
    λ (path, stands).
        serve-webhook req routes path
        ∙ ap reviews
            ((granted_iff (webhook sdk parsers decode page h moment) req.http user).1 stands),
  )

module _ (outside : Outside) (parsers : Parsers) (decode : String → Result String String)
    (page : List Metric → String) where
  -- The webhook of a handler that was made.
  get_handler-webhook :
      (c : Config) (mappers : List Mapper) (h : ServerHandler) (moment : Moment)
      → get_handler outside c mappers ≡ ok h
      → (webhook outside.arns parsers decode page h moment
          ≡ webhook_of outside parsers decode c mappers moment)
        × (h.routes ≡ handler_routes)
  unfolding get_handler
  get_handler-webhook c mappers h moment made =
      elim (Bool-cases (is_bad_role outside.arns c.server_ec2_describe_instances_role_arn)) [
        | inl bad ↦ absurd (ground (arith, bad))
        | inr fine ↦
            elim (Result-cases (
              new_provider outside.regions c.server_ec2_describe_instances_role_arn
                c.ec2_describe_instances_qps c.ec2_describe_instances_burst)) [
                  | inr (_, failed) ↦ absurd (ground (arith, fine, failed))
                  | inl ((session, provider), has) ↦
                      let same : ok (handler_of outside c mappers session provider) ≡ ok h =
                        sym (rw (fine, get_handler, has) refl) ∙ made in
                      subst
                        (λ (x : ServerHandler).
                          (webhook outside.arns parsers decode page x moment
                            ≡ webhook_of outside parsers decode c mappers moment)
                          × (x.routes ≡ handler_routes))
                        (ap (λ r. elim r [ ok x ↦ x | err _ ↦ h ]) same) (refl, refl)
                ]
      ]

  open_listener-handler :
      (c : Config) (mappers : List Mapper) (cert : Certificate) (s : Server)
      → open_listener outside c mappers cert ≡ ok s
      → get_handler outside c mappers ≡ ok s.handler
  unfolding open_listener
  open_listener-handler c mappers cert s made = ground arith

  new_server-handler :
      (crypto : Crypto) (system : System) (c : Config) (mappers : List Mapper) (files : Files)
      (s : Server)
      → (new_server outside crypto system c mappers files).0 ≡ ok s
      → get_handler outside c mappers ≡ ok s.handler
  unfolding new_server
  new_server-handler crypto system c mappers files s made =
      let (_, with_pair) = get_or_create_certificate crypto system c files in
      elim (Result-cases (get_or_create_certificate crypto system c files).0) [
        | inr (_, e) ↦ absurd (ground arith)
        | inl (cert, e) ↦ elim (Result-cases (configure_client crypto system c with_pair).0) [
          | inr (_, f) ↦ absurd (ground arith)
          | inl (_, f) ↦ open_listener-handler c mappers cert s (ground (arith, e, f))
        ]
      ]

  -- What a run of the command goes through to its server.
  server_run-handler :
      (makers : Makers) (starts : Mapper → Option String) (crypto : Crypto) (system : System)
      (viper : Viper) (files : Files) (s : Server)
      → (server_run outside makers starts crypto system viper files).0 ≡ ok s
      → (c : Config) × (get_config outside.arns.partitions viper ≡ ok c)
        × (mappers : List Mapper) × (build_mapper_chain outside.arns makers c ≡ ok mappers)
        × (start_mappers starts mappers ≡ none)
        × (get_handler outside c mappers ≡ ok s.handler)
  unfolding server_run serve_mappers
  server_run-handler makers starts crypto system viper files s made =
      elim (Result-cases (get_config outside.arns.partitions viper)) [
        | inr (_, e) ↦ absurd (ground (arith, e))
        | inl (c, e) ↦ elim (Result-cases (build_mapper_chain outside.arns makers c)) [
          | inr (_, f) ↦ absurd (ground (arith, e, f))
          | inl (mappers, f) ↦ elim (Option-cases (start_mappers starts mappers)) [
            | inr (_, g) ↦ absurd (ground (arith, e, f, g))
            | inl g ↦
                let server = new_server outside crypto system c mappers files in
                elim (Result-cases server.0) [
                  | inr (_, k) ↦ absurd (ground (arith, e, f, g, k))
                  | inl (t, k) ↦
                      let same : t ≡ s = ground (arith, e, f, g, k) in
                      (
                        c,
                        e,
                        mappers,
                        f,
                        g,
                        new_server-handler crypto system c mappers files s (k ∙ ap ok same),
                      )
                ]
          ]
        ]
      ]

  -- A server that the command runs grants a user exactly to a request at the path of the webhook
  -- behind which `Grants` stands, for the verifier of the configured cluster and partition, the
  -- backends of the configured modes as they answer at the moment, and the configured accounts.
  pub server_run-Grants_iff :
      (makers : Makers) (starts : Mapper → Option String) (crypto : Crypto) (system : System)
      (viper : Viper) (files : Files) (s : Server) (moment : Moment) (observed : List Metric)
      (req : WebRequest) (user : UserInfo)
      → (server_run outside makers starts crypto system viper files).0 ≡ ok s
      → (c : Config) × (get_config outside.arns.partitions viper ≡ ok c)
        × (mappers : List Mapper) × (build_mapper_chain outside.arns makers c ≡ ok mappers)
        × (((serve outside.arns parsers decode page s.handler moment req observed).0
              ≡ reviews (grant user))
            ↔ ((req.path ≡ "/authenticate")
                × Grants (webhook_of outside parsers decode c mappers moment) req.http user))
  server_run-Grants_iff makers starts crypto system viper files s moment observed req user made =
      let (c, has, mappers, built, _, handler) =
        server_run-handler makers starts crypto system viper files s made in
      let (same, routes) = get_handler-webhook c mappers s.handler moment handler in
      (
        c,
        has,
        mappers,
        built,
        subst
            (λ (w : Handler).
              ((serve outside.arns parsers decode page s.handler moment req observed).0
                ≡ reviews (grant user))
              ↔ ((req.path ≡ "/authenticate") × Grants w req.http user))
            same
            (serve-grant_iff outside.arns parsers decode page s.handler moment observed req user
              routes),
      )
