-- ===== src/Server/Tests.antt =====
-- Runs of the webhook, and its theorems at a concrete request.
use iam2kube.Shared.{
  any, String, ◌≡◌, refl, ◌↔◌, true, false, some, List, [], ◌∷◌, Result, ok, err, if◌then◌else◌,
}
use iam2kube.Shared.Int.{pos}
use iam2kube.Shared.Text.{contains}
use iam2kube.Config.{Config, IdentityMapping}
use iam2kube.Token.{Identity}
use iam2kube.Arn.Example.{sdk, parse}
use iam2kube.Mapper.{Mapper, failed}
use iam2kube.Mapper.File.{FileMapper, file_mapper}
use iam2kube.Mapper.ConfigMap.{empty_store, config_map_mapper}
use iam2kube.Mapper.Crd.{crd_mapper}
use iam2kube.Server.Render.{
  no_instance_id, matches_instance_id, ec2_placeholder, render_template, render_templates,
}
use iam2kube.Server.Render.Laws.{IsKnownInstance, render_templates-IsKnownInstance}
use iam2kube.Server.Mapping.{backends_failed, do_mapping}
use iam2kube.Server.Mapping.Order.{Decides, do_mapping_iff}
use iam2kube.Server.Authenticate.{UserInfo, Handler, HttpRequest, user_info, authenticate_endpoint}
use iam2kube.Server.Authenticate.Grants.{
  IsConsistent, Grants, grant, granted_iff, authenticate-IsConsistent,
}
use text.Mathlib.Text.{◌==◌}
use iam2kube.Server.Chain.{Makers, build_mapper_chain}

abbrev node : Identity
node = record {
  arn = "arn:aws:sts::1:assumed-role/Node/i-0123abcd";
  canonical_arn = "arn:aws:iam::1:role/Node";
  account_id = "1";
  user_id = "AROA";
  session_name = "i-0123abcd";
  access_key_id = "ASIA";
}

abbrev other_node : Identity
other_node = record {
  arn = "arn:aws:sts::1:assumed-role/Other/s@t";
  canonical_arn = "arn:aws:iam::1:role/Other";
  account_id = "1";
  user_id = "AROB";
  session_name = "s@t";
  access_key_id = "ASIB";
}

-- One instance has a private DNS name.
private_dns_name : String → Result String String
private_dns_name id =
    if id == "i-0123abcd" then ok "ip-10-0-0-1.ec2.internal" else err "no such instance"

abbrev nodes : FileMapper
nodes = record {
  lowercase_role_map =
      (
        "arn:aws:iam::1:role/node",
        record {
          role_arn = "arn:aws:iam::1:role/Node";
          username = "system:node:{{EC2PrivateDNSName}}";
          groups = "system:nodes" ∷ "{{AccountID}}:{{SessionName}}" ∷ [];
        },
      )
      ∷ [];
  lowercase_user_map = [];
  account_map = [];
}

-- A backend that fails, before the one that maps the node.
abbrev broken : Mapper
broken = record {
  name = "CRD";
  map_arn = λ arn. err (failed "no index");
  is_account_allowed = λ account. false;
}

abbrev handler : Handler
handler = record {
  decode = λ content. ok content;
  verify = λ token. ok node;
  private_dns_name = private_dns_name;
  mappers = broken ∷ file_mapper nodes ∷ [];
  scrubbed_accounts = "1" ∷ [];
}

abbrev request : HttpRequest
request = record { method = "POST"; body = some "token" }

abbrev node_user : UserInfo
node_user = record {
  username = "system:node:ip-10-0-0-1.ec2.internal";
  uid = "aws-iam-authenticator:administrative:system:node:ip-10-0-0-1.ec2.internal";
  groups = "system:nodes" ∷ "1:i-0123abcd" ∷ [];
  extra = [];
}

webhook_tests :
    (authenticate_endpoint handler request ≡ grant node_user)
    × (do_mapping private_dns_name other_node handler.mappers
        ≡ err (backends_failed (("CRD", "no index") ∷ [])))
unfolding authenticate_endpoint private_dns_name user_info do_mapping file_mapper render_templates
webhook_tests = (refl, refl)

verified_by_nodes : Grants handler request node_user
unfolding authenticate_endpoint private_dns_name user_info do_mapping file_mapper render_templates
verified_by_nodes = record {
  method = refl;
  content = "token";
  body = refl;
  token = "token";
  decoded = refl;
  identity = node;
  verified = refl;
  username = node_user.username;
  groups = node_user.groups;
  mapped = refl;
  info = refl;
}

granted_iff_example :
    (authenticate_endpoint handler request ≡ grant node_user) ↔ Grants handler request node_user
granted_iff_example = granted_iff handler request node_user

authenticate-IsConsistent_example : IsConsistent (authenticate_endpoint handler request)
authenticate-IsConsistent_example = authenticate-IsConsistent handler request

do_mapping_iff_example :
    (do_mapping private_dns_name node handler.mappers ≡ ok (node_user.username, node_user.groups))
    ↔ Decides private_dns_name node [] handler.mappers (ok (node_user.username, node_user.groups))
do_mapping_iff_example =
    do_mapping_iff private_dns_name node handler.mappers (ok (node_user.username, node_user.groups))

abbrev node_template : String
node_template = "{{EC2PrivateDNSName}}-{{AccountID}}"

plain : contains "node" "{{" ≡ false
unfolding contains
plain = refl

render_tests :
    (matches_instance_id "i-0123abcd" ≡ true)
    × (render_template private_dns_name node_template node ≡ ok "ip-10-0-0-1.ec2.internal-1")
    × (render_template private_dns_name node_template other_node ≡ err no_instance_id)
    × (render_template private_dns_name "{{SessionName}} {{SessionNameRaw}}" other_node
        ≡ ok "s-t s@t")
unfolding matches_instance_id render_template private_dns_name
render_tests = (refl, refl, refl, refl)

abbrev node_mapping : IdentityMapping
node_mapping = record {
  identity_arn = "arn:aws:iam::1:role/node";
  username = node_template;
  groups = "system:nodes" ∷ [];
}

node_rendered :
    render_templates private_dns_name node_mapping node
    ≡ ok ("ip-10-0-0-1.ec2.internal-1", "system:nodes" ∷ [])
unfolding render_templates private_dns_name
node_rendered = refl

one_asks : any (λ t. contains t ec2_placeholder) (node_template ∷ "system:nodes" ∷ []) ≡ true
unfolding contains
one_asks = refl

render_templates-IsKnownInstance_example : IsKnownInstance private_dns_name node
render_templates-IsKnownInstance_example =
    render_templates-IsKnownInstance private_dns_name node_mapping node "ip-10-0-0-1.ec2.internal-1"
      ("system:nodes" ∷ []) node_rendered one_asks

abbrev cfg : Config
cfg = record {
  partition_id = "aws";
  cluster_id = "cluster";
  kubeconfig_pregenerated = false;
  host_port = pos 21362;
  hostname = "localhost";
  generate_kubeconfig_path = "kubeconfig.yaml";
  state_dir = "/var/aws-iam-authenticator";
  role_mappings =
      record { role_arn = "arn:aws:iam::1:role/Node"; username = "node"; groups = [] } ∷ [];
  user_mappings = [];
  auto_mapped_aws_accounts = [];
  scrubbed_aws_accounts = [];
  server_ec2_describe_instances_role_arn = "";
  address = "127.0.0.1";
  master = "";
  kubeconfig = "";
  backend_mode = "EKSConfigMap" ∷ "File" ∷ "CRD" ∷ [];
  ec2_describe_instances_qps = pos 15;
  ec2_describe_instances_burst = pos 5;
}

abbrev makers : Makers
makers = record {
  new_map_store = λ c. ok empty_store;
  new_indexer = λ c. ok (record { by_canonical_arn = λ arn. ok [] });
}

abbrev plain_nodes : FileMapper
plain_nodes = record {
  lowercase_role_map =
      (
        "arn:aws:iam::1:role/node",
        record { role_arn = "arn:aws:iam::1:role/Node"; username = "node"; groups = [] },
      )
      ∷ [];
  lowercase_user_map = [];
  account_map = [];
}

abbrev chain : List Mapper
chain =
    config_map_mapper empty_store
    ∷ file_mapper plain_nodes
    ∷ crd_mapper (record { by_canonical_arn = λ arn. ok [] })
    ∷ []

chain_made : build_mapper_chain sdk makers cfg ≡ ok chain
unfolding build_mapper_chain parse
chain_made = refl
