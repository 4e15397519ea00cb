-- ===== src/Config/Tests.antt =====
-- Runs of the configuration's files, and their theorems at a concrete server.
use iam2kube.Shared.{
  ℕ, String, ◌≡◌, refl, true, false, none, some, [], ◌∷◌, ok, if◌then◌else◌, arith,
}
use iam2kube.Shared.Assoc.{lookup, insert}
use iam2kube.Shared.Int.{pos}
use iam2kube.Config.{Config}
use iam2kube.Config.Paths.{cert_path, key_path, server_url, clean, join_host_port, itoa}
use iam2kube.Config.Files.{
  Certificate, Crypto, System, Files, ipv4_zero, template, get_or_create_certificate,
}
use iam2kube.Config.Existing.{get_or_create-again, get_or_create-keeps}
use iam2kube.Config.Fresh.{Works, Signs, saved_pair, get_or_create-fresh, generate_files-fresh}
use iam2kube.Config.Generated.{IsApart}
use iam2kube.Config.Kubeconfig.{kubeconfig_text, webhook_params, generate_files}
use iam2kube.Config.Names.{covers, template-covers}
use text.Mathlib.Text.{◌==◌}
use text.Mathlib.TextEquality.{eq_iff}

-- The server of the example configuration.
abbrev pub example : Config
example = record {
  partition_id = "aws";
  cluster_id = "cluster";
  kubeconfig_pregenerated = false;
  host_port = pos 21362;
  hostname = "localhost";
  generate_kubeconfig_path = "/etc/kubernetes/kubeconfig.yaml";
  state_dir = "/var/aws-iam-authenticator";
  role_mappings = [];
  user_mappings = [];
  auto_mapped_aws_accounts = [];
  scrubbed_aws_accounts = [];
  server_ec2_describe_instances_role_arn = "";
  address = "0.0.0.0";
  master = "";
  kubeconfig = "";
  backend_mode = "MountedFile" ∷ [];
  ec2_describe_instances_qps = pos 15;
  ec2_describe_instances_burst = pos 5;
}

path_tests :
    (cert_path example ≡ "/var/aws-iam-authenticator/cert.pem")
    × (server_url example ≡ "https://localhost:21362/authenticate")
    × (clean "./a/../b//c" ≡ "b/c")
    × (join_host_port "::1" (itoa (pos 80)) ≡ "[::1]:80")
unfolding cert_path server_url clean join_host_port itoa
path_tests = (refl, refl, refl, refl)

-- A key pair is two texts as they are, and no two runs make the same key.
abbrev pub crypto_at : ℕ → String → Crypto
crypto_at now key = record {
  generate_key = ok key;
  random_int = λ limit. ok now;
  now = now;
  create_certificate = λ t k. ok "der";
  pem = λ block_type bytes. bytes;
  base64 = λ bytes. bytes;
  x509_key_pair = λ cert k. ok (record { certificate = cert ∷ []; private_key = k });
  parse_ip = λ name. if name == "0.0.0.0" then some ipv4_zero else none;
}

abbrev pub quiet : System
quiet = record {
  stat_denied = λ path. false;
  read_fails = λ path. none;
  open_fails = λ path. none;
  write_fails = λ path. none;
}

quiet-Works : Works quiet
quiet-Works = record {
  stats = λ path. refl;
  reads = λ path. refl;
  opens = λ path. refl;
  writes = λ path. refl;
}

abbrev pub first_pair : Certificate
first_pair = record { certificate = "der" ∷ []; private_key = "key" }

first-Signs : Signs (crypto_at 1 "key") example "der" "key" first_pair
first-Signs = record {
  serial = 1;
  makes_key = refl;
  makes_serial = refl;
  makes_cert = refl;
  reads_pair = refl;
  has_first = refl;
}

pub example-IsApart : IsApart example
unfolding cert_path key_path
example-IsApart = (
  λ e. absurd (ground (arith, e, eq_iff example.generate_kubeconfig_path (cert_path example))),
  λ e. absurd (ground (arith, e, eq_iff example.generate_kubeconfig_path (key_path example))),
)

abbrev pub first_files : Files
first_files = saved_pair (crypto_at 1 "key") example "der" "key" []

no_cert : lookup {V = String} (cert_path example) [] ≡ none
unfolding lookup
no_cert = refl

generate_files-fresh_example : generate_files (crypto_at 1 "key") quiet example [] ≡ (
  ok tt,
  insert example.generate_kubeconfig_path
      (kubeconfig_text (webhook_params (crypto_at 1 "key") example "der"))
      (saved_pair (crypto_at 1 "key") example "der" "key" []),
)
generate_files-fresh_example =
    generate_files-fresh (crypto_at 1 "key") quiet example "der" "key" first_pair [] quiet-Works
      first-Signs no_cert

get_or_create-again_example :
    get_or_create_certificate (crypto_at 2 "other") quiet example first_files
    ≡ (ok first_pair, first_files)
get_or_create-again_example =
    get_or_create-again (crypto_at 1 "key") (crypto_at 2 "other") quiet example [] first_pair
      first_files (λ cert key. refl)
      (get_or_create-fresh (crypto_at 1 "key") quiet example "der" "key" first_pair [] quiet-Works
        first-Signs no_cert)

get_or_create-keeps_example :
    (get_or_create_certificate (crypto_at 2 "other") quiet example first_files).1 ≡ first_files
unfolding lookup insert cert_path key_path
get_or_create-keeps_example =
    get_or_create-keeps (crypto_at 2 "other") quiet example first_files "der" "key" refl refl

template-covers_example :
    covers (crypto_at 1 "key") "localhost" (template (crypto_at 1 "key") example 1) ≡ true
template-covers_example = template-covers (crypto_at 1 "key") example 1
