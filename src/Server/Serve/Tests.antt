-- ===== src/Server/Serve/Tests.antt =====
-- A server from its configuration to a grant, over one token.
use iam2kube.Shared.{String, ◌≡◌, ◌↔◌, ◌*◌, refl, ap, ◌∙◌, none, some, List, [], ◌∷◌, map, ok, err}
use iam2kube.Shared.Assoc.{lookup}
use iam2kube.Arn.Example.{sdk, parse}
use iam2kube.Arn.{canonicalize}
use iam2kube.Shared.Text.{to_lower}
use iam2kube.Config.{Config, RoleMapping}
use iam2kube.Config.Files.{get_or_create_certificate, write_file}
use iam2kube.Config.Kubeconfig.{create_kubeconfig}
use iam2kube.Config.Paths.{listen_addr, cert_path, key_path}
use iam2kube.Config.Tests.{crypto_at, quiet}
use iam2kube.Mapper.{Mapper, validate_backend_mode}
use iam2kube.Mapper.File.{new_file_mapper_with_maps, file_mapper}
use iam2kube.Ec2Provider.Session.{new_session, new_provider}
use iam2kube.Token.{minute}
use iam2kube.Token.Hosts.{new_verifier}
use iam2kube.Token.Verify.{verify}
use iam2kube.Token.Verify.Tests.{parsers, answering, ann, accepted}
use iam2kube.Server.Chain.{build_mapper_chain}
use iam2kube.Server.Authenticate.{
  Metric, malformed_request, UserInfo, authenticate_endpoint, user_info,
}
use iam2kube.Server.Authenticate.Grants.{grant, Grants}
use iam2kube.Server.Mapping.{do_mapping}
use iam2kube.Server.Render.{render_templates}
use iam2kube.Server.Start.{Outside, Server, handler_routes, new_server, get_handler}
use iam2kube.Server.Start.Tests.{outside}
use iam2kube.Server.Serve.{Moment, WebRequest, Reply, reviews, plain, serve, serve_all}
use iam2kube.Server.Serve.Laws.{webhook_of, serve-grant_iff, server_run-Grants_iff}
use iam2kube.Command.Flags.{default_value}
use iam2kube.Command.Root.{Viper, get_config, filled_config}
use iam2kube.Command.Server.{server_run, start_mappers}
use iam2kube.Command.Tests.{viper, unreachable}

abbrev admin : RoleMapping
admin = record {
  role_arn = "arn:aws:iam::1:role/Admin";
  username = "admin:{{SessionName}}";
  groups = "system:masters" ∷ [];
}

abbrev admin_viper : Viper
admin_viper = record viper { unmarshal_roles = λ key. ok (admin ∷ []) }

abbrev online : Outside
online = record outside {
  endpoints = record {
    partitions = record { id = "aws"; services = ("sts", "sts.amazonaws.com" ∷ []) ∷ [] } ∷ [];
    resolve_endpoint = λ endpoint. ok endpoint;
    hostname = λ url. ok url;
  };
  send = (answering 200).send;
}

abbrev admin_config : Config
admin_config = filled_config admin_viper (admin ∷ []) [] []

abbrev pair_key : String
pair_key = "key"

abbrev served : Server
served = record {
  config = admin_config;
  handler = record {
    verifier = new_verifier online.endpoints online.send "cluster" "aws";
    ec2_session = record { region = "us-east-1"; credentials = none };
    ec2_provider = record { private_dns_cache = []; in_flight = [] };
    cluster_id = "cluster";
    mappers =
        file_mapper (new_file_mapper_with_maps (("arn:aws:iam::1:role/admin", admin) ∷ []) [] [])
        ∷ [];
    scrubbed_accounts = [];
    routes = handler_routes;
  };
  listener = record {
    address = "127.0.0.1:0";
    certificates = record { certificate = "der" ∷ []; private_key = "key" } ∷ [];
  };
}

runs :
    (server_run online unreachable (λ m. none) (crypto_at 1 "key") quiet admin_viper []).0
    ≡ ok served
unfolding server_run get_config default_value validate_backend_mode build_mapper_chain new_server
    listen_addr get_or_create_certificate create_kubeconfig get_handler new_provider lookup
    write_file cert_path key_path new_session canonicalize parse to_lower start_mappers
runs = refl

abbrev moment : Moment
moment = record {
  now = 1015 * minute;
  private_dns_name = λ id. err "no instance";
  current = λ m. m;
}

abbrev posted : WebRequest
posted = record {
  path = "/authenticate";
  http = record { method = "POST"; body = some "k8s-aws-v1.sts.amazonaws.com" };
}

abbrev at : String → WebRequest
at path = record { path = path; http = record { method = "GET"; body = none } }

abbrev admin_user : UserInfo
admin_user = record {
  username = "admin:ann";
  uid = "aws-iam-authenticator:1:AROA";
  groups = "system:masters" ∷ [];
  extra =
      ("arn", "arn:aws:sts::1:assumed-role/Admin/ann" ∷ [])
      ∷ ("canonicalArn", "arn:aws:iam::1:role/Admin" ∷ [])
      ∷ ("sessionName", "ann" ∷ [])
      ∷ ("accessKeyId", "AKIA" ∷ [])
      ∷ [];
}

abbrev page : List Metric → String
page observed = "metrics"

abbrev replies : List WebRequest → List Reply × List Metric
replies reqs =
    serve_all online.arns parsers (λ content. ok content) page served.handler
      (map (λ req. (moment, req)) reqs) []

same_verifier : served.handler.verifier ≡ answering 200
unfolding new_verifier
same_verifier = refl

verified :
    verify online.arns parsers served.handler.verifier moment.now "k8s-aws-v1.sts.amazonaws.com"
    ≡ ok ann
verified =
    ap (λ v. verify sdk parsers v moment.now "k8s-aws-v1.sts.amazonaws.com") same_verifier
    ∙ accepted

granted_to_ann :
    (serve online.arns parsers (λ content. ok content) page served.handler moment posted []).0
    ≡ reviews (grant admin_user)
unfolding do_mapping file_mapper render_templates user_info to_lower lookup
granted_to_ann =
    (serve-grant_iff online.arns parsers (λ content. ok content) page served.handler moment []
        posted admin_user refl).1
      (
        refl,
        record {
          method = refl;
          content = "k8s-aws-v1.sts.amazonaws.com";
          body = refl;
          token = "k8s-aws-v1.sts.amazonaws.com";
          decoded = refl;
          identity = ann;
          verified = verified;
          username = "admin:ann";
          groups = "system:masters" ∷ [];
          mapped = refl;
          info = refl;
        },
      )

other_paths :
    (replies (at "/healthz" ∷ at "/metrics" ∷ at "/" ∷ [])
      ≡ (plain 200 "ok" ∷ plain 200 "metrics" ∷ plain 404 "404 page not found\n" ∷ [], []))
    × ((replies (at "/authenticate" ∷ [])).1 ≡ malformed_request ∷ [])
unfolding serve_all serve lookup authenticate_endpoint
other_paths = (refl, refl)

server_run-Grants_iff_example :
    (c : Config) × (get_config online.arns.partitions admin_viper ≡ ok c)
    × (mappers : List Mapper) × (build_mapper_chain online.arns unreachable c ≡ ok mappers)
    × (((serve online.arns parsers (λ content. ok content) page served.handler moment posted []).0
          ≡ reviews (grant admin_user))
        ↔ ((posted.path ≡ "/authenticate")
            × Grants
                (webhook_of online parsers (λ content. ok content) c mappers moment)
                posted.http
                admin_user))
server_run-Grants_iff_example =
    server_run-Grants_iff online parsers (λ content. ok content) page unreachable (λ m. none)
      (crypto_at 1 "key") quiet admin_viper [] served moment [] posted admin_user runs
