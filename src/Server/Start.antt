-- ===== src/Server/Start.antt =====
-- pkg/server/server.go: `New` and `getHandler`. The listener and the AWS SDK are parameters; logs and
-- the registration of the metrics are left out.
pub mod Trust
pub mod Tests
use iam2kube.Shared.{
  ℕ, String, Bool, true, false, Option, none, some, List, [], ◌∷◌, Result, ok, err, if◌then◌else◌,
}
use iam2kube.Arn.Format.{Sdk}
use iam2kube.Config.{Config}
use iam2kube.Config.Paths.{listen_addr}
use iam2kube.Config.Files.{
  Certificate, Crypto, System, Files, Failure, failed, panics, exits, get_or_create_certificate,
}
use iam2kube.Config.Kubeconfig.{create_kubeconfig}
use iam2kube.Ec2Provider.{Provider}
use iam2kube.Ec2Provider.Session.{Regions, Session, new_provider}
use iam2kube.Mapper.{Mapper}
use iam2kube.Token.Verify.{Request, Response, Verifier}
use iam2kube.Token.Hosts.{Endpoints, new_verifier}
use text.Mathlib.Text.{◌==◌}

-- What is used of the AWS SDK, the HTTP client and the network; `listens` has the error of
-- `tls.Listen`, if there is one.
pub record Outside : Type 0 where
  pub arns : Sdk
  pub endpoints : Endpoints
  pub regions : Regions
  pub send : Request → Result String Response
  pub listens : String → Option String

pub data Endpoint : Type 0 where
  authenticate metrics healthz : Endpoint

-- The fields of `handler`, with the paths that it serves.
pub record ServerHandler : Type 0 where
  pub verifier : Verifier
  pub ec2_session : Session
  pub ec2_provider : Provider
  pub cluster_id : String
  pub mappers : List Mapper
  pub scrubbed_accounts : List String
  pub routes : List (String × Endpoint)

-- The TLS listener: its address and its certificates.
pub record Listener : Type 0 where
  pub address : String
  pub certificates : List Certificate

-- `Server`
pub record Server : Type 0 where
  pub config : Config
  pub handler : ServerHandler
  pub listener : Listener

-- The paths of the multiplexer, with what answers each.
abbrev pub handler_routes : List (String × Endpoint)
handler_routes =
    ("/authenticate", authenticate) ∷ ("/metrics", metrics) ∷ ("/healthz", healthz) ∷ []

-- The check of the role at the start of `getHandler`.
abbrev pub is_bad_role : Sdk → String → Bool
is_bad_role arns role_arn =
    if role_arn == "" then false else elim (arns.parse role_arn) [ err _ ↦ true | ok _ ↦ false ]

-- `getHandler`
unfoldable pub get_handler : Outside → Config → List Mapper → Result Failure ServerHandler
get_handler outside c mappers =
    if is_bad_role outside.arns c.server_ec2_describe_instances_role_arn
    then err panics
    else elim (new_provider outside.regions c.server_ec2_describe_instances_role_arn
        c.ec2_describe_instances_qps c.ec2_describe_instances_burst) [
          | err e ↦ err e
          | ok (session, provider) ↦ ok (record {
            verifier = new_verifier outside.endpoints outside.send c.cluster_id c.partition_id;
            ec2_session = session;
            ec2_provider = provider;
            cluster_id = c.cluster_id;
            mappers = mappers;
            scrubbed_accounts = c.scrubbed_aws_accounts;
            routes = handler_routes;
          })
        ]

-- An error that is logged as fatal ends the process.
abbrev pub fatal : Failure → Failure
fatal (failed e) = exits e
fatal panics = panics
fatal (exits e) = exits e

-- The kubeconfig, unless it was generated before.
unfoldable pub configure_client :
    Crypto → System → Config → Files → Result Failure (Unit {0}) × Files
configure_client crypto system c files =
    if c.kubeconfig_pregenerated
    then (ok tt, files)
    else (let (result, after) = create_kubeconfig crypto system c files in
        elim result [ err e ↦ (err (fatal e), after) | ok _ ↦ (ok tt, after) ])

-- The part of `New` from the listener on.
unfoldable pub open_listener : Outside → Config → List Mapper → Certificate → Result Failure Server
open_listener outside c mappers cert = elim (outside.listens (listen_addr c)) [
  | some e ↦ err (exits e)
  | none ↦ elim (get_handler outside c mappers) [
    | err e ↦ err e
    | ok handler ↦ ok (record {
      config = c;
      handler = handler;
      listener = record { address = listen_addr c; certificates = cert ∷ [] };
    })
  ]
]

-- `New`: the server, and the files after it.
unfoldable pub new_server :
    Outside → Crypto → System → Config → List Mapper → Files → Result Failure Server × Files
unfolding configure_client open_listener
new_server outside crypto system c mappers files =
    let (cert, with_pair) = get_or_create_certificate crypto system c files in
    elim cert [
      | err e ↦ (err (exits e), with_pair)
      | ok cert ↦
          let (configured, after) = configure_client crypto system c with_pair in
          elim configured [
            | err e ↦ (err e, after)
            | ok _ ↦ (open_listener outside c mappers cert, after)
          ]
    ]
