-- ===== src/Server/Start/Tests.antt =====
-- A start of the server in an empty directory.
use iam2kube.Shared.{◌≡◌, refl, none, [], ◌∷◌, ok, err}
use iam2kube.Arn.Example.{sdk}
use iam2kube.Config.Paths.{listen_addr, cert_path, key_path}
use iam2kube.Config.Files.{Certificate, write_file, get_or_create_certificate}
use iam2kube.Config.Kubeconfig.{create_kubeconfig}
use iam2kube.Shared.Assoc.{lookup}
use iam2kube.Config.Tests.{example, example-IsApart, crypto_at, quiet, first_pair}
use iam2kube.Ec2Provider.Session.{new_session, new_provider}
use iam2kube.Token.Hosts.{new_verifier}
use iam2kube.Server.Start.{Outside, Server, handler_routes, new_server, get_handler}
use iam2kube.Server.Start.Trust.{Leaves, new_server-Leaves}

abbrev pub outside : Outside
outside = record {
  arns = sdk;
  endpoints = record {
    partitions = record { id = "aws"; services = ("sts", "us" ∷ []) ∷ [] } ∷ [];
    resolve_endpoint = λ endpoint. ok endpoint;
    hostname = λ url. ok url;
  };
  regions = record { session_region = ok "us-east-1"; metadata_region = err "none" };
  send = λ request. err "offline";
  listens = λ address. none;
}

abbrev started : Server
started = record {
  config = example;
  handler = record {
    verifier = new_verifier outside.endpoints outside.send "cluster" "aws";
    ec2_session = record { region = "us-east-1"; credentials = none };
    ec2_provider = record { private_dns_cache = []; in_flight = [] };
    cluster_id = "cluster";
    mappers = [];
    scrubbed_accounts = [];
    routes = handler_routes;
  };
  listener = record { address = "0.0.0.0:21362"; certificates = first_pair ∷ [] };
}

starts : (new_server outside (crypto_at 1 "key") quiet example [] []).0 ≡ ok started
unfolding new_server listen_addr get_or_create_certificate create_kubeconfig get_handler
    new_provider lookup write_file cert_path key_path new_session
starts = refl

new_server-Leaves_example :
    (cert : Certificate) × (started.listener.certificates ≡ cert ∷ [])
    × Leaves
        (crypto_at 1 "key")
        quiet
        example
        []
        cert
        (new_server outside (crypto_at 1 "key") quiet example [] []).1
new_server-Leaves_example =
    new_server-Leaves outside (crypto_at 1 "key") quiet example [] [] started example-IsApart starts
