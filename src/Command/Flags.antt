-- ===== src/Command/Flags.antt =====
-- cmd/aws-iam-authenticator: the flags of the commands, and the keys of viper that they are bound to.
-- Go runs the `init` functions of the files in the order of the files' names, and a later binding of
-- a key replaces an earlier one. Usage texts and one-letter forms are left out.
use iam2kube.Shared.{String, Bool, false, Option, none, some, List, [], ◌∷◌, ◌++◌}
use iam2kube.Shared.Assoc.{lookup, insert}
use iam2kube.Shared.Int.{ℤ, pos}
use iam2kube.Mapper.{mode_mounted_file}

pub data Default : Type 0 where
  one : String → Default
  many : List String → Default
  number : ℤ → Default
  boolean : Bool → Default

pub data CommandName : Type 0 where
  root_cmd init_cmd server_cmd token_cmd verify_cmd : CommandName

pub record Flag : Type 0 where
  pub command : CommandName
  pub name : String
  pub default : Default

abbrev flag : CommandName → String → Default → Flag
flag command name default = record { command = command; name = name; default = default }

-- A flag with the key that it is bound to, if there is one.
abbrev pub Binding : Type 0
Binding = Option String × Flag

abbrev pub default_port : ℤ
default_port = pos 21362

abbrev pub default_ec2_describe_instances_qps : ℤ
default_ec2_describe_instances_qps = pos 15

abbrev pub default_ec2_describe_instances_burst : ℤ
default_ec2_describe_instances_burst = pos 5

-- `endpoints.AwsPartitionID`
abbrev pub aws_partition_id : String
aws_partition_id = "aws"

-- `init` of init.go
abbrev pub init_flags : List Binding
init_flags =
    (some "server.hostname", flag init_cmd "hostname" (one "localhost"))
    ∷ (some "server.address", flag init_cmd "address" (one "127.0.0.1"))
    ∷ []

-- `init` of root.go
abbrev pub root_flags : List Binding
root_flags =
    (none, flag root_cmd "config" (one ""))
    ∷ (none, flag root_cmd "log-format" (one "text"))
    ∷ (some "clusterID", flag root_cmd "cluster-id" (one ""))
    ∷ []

-- `init` of server.go
abbrev pub server_flags : List Binding
server_flags =
    (some "server.partition", flag server_cmd "partition" (one aws_partition_id))
    ∷ (
      some "server.generateKubeconfig",
      flag server_cmd "generate-kubeconfig"
          (one "/etc/kubernetes/aws-iam-authenticator/kubeconfig.yaml"),
    )
    ∷ (
      some "server.kubeconfigPregenerated",
      flag server_cmd "kubeconfig-pregenerated" (boolean false),
    )
    ∷ (some "server.stateDir", flag server_cmd "state-dir" (one "/var/aws-iam-authenticator"))
    ∷ (some "server.kubeconfig", flag server_cmd "kubeconfig" (one ""))
    ∷ (some "server.master", flag server_cmd "master" (one ""))
    ∷ (some "server.address", flag server_cmd "address" (one "127.0.0.1"))
    ∷ (some "server.backendMode", flag server_cmd "backend-mode" (many (mode_mounted_file ∷ [])))
    ∷ (some "server.port", flag server_cmd "port" (number default_port))
    ∷ (
      some "server.ec2DescribeInstancesQps",
      flag server_cmd "ec2-describeInstances-qps" (number default_ec2_describe_instances_qps),
    )
    ∷ (
      some "server.ec2DescribeInstancesBurst",
      flag server_cmd "ec2-describeInstances-burst" (number default_ec2_describe_instances_burst),
    )
    ∷ []

-- `init` of token.go
abbrev pub token_flags : List Binding
token_flags =
    (some "region", flag token_cmd "region" (one ""))
    ∷ (some "role", flag token_cmd "role" (one ""))
    ∷ (some "externalID", flag token_cmd "external-id" (one ""))
    ∷ (some "sessionName", flag token_cmd "session-name" (one ""))
    ∷ (some "tokenOnly", flag token_cmd "token-only" (boolean false))
    ∷ (some "forwardSessionName", flag token_cmd "forward-session-name" (boolean false))
    ∷ (some "cache", flag token_cmd "cache" (boolean false))
    ∷ []

-- `init` of verify.go
abbrev pub verify_flags : List Binding
verify_flags =
    (some "token", flag verify_cmd "token" (one ""))
    ∷ (some "output", flag verify_cmd "output" (one ""))
    ∷ (some "partition", flag verify_cmd "partition" (one aws_partition_id))
    ∷ []

-- `BindPFlag`, in order
unfoldable pub bind : List Binding → List (String × Flag) → List (String × Flag)
unfolding insert
bind [] bound = bound
bind ((none, f) ∷ flags) bound = bind flags bound
bind ((some key, f) ∷ flags) bound = bind flags (insert key f bound)

-- `BindEnv`: the variables of the environment that answer for a key.
abbrev pub bound_variables : List (String × String)
bound_variables =
    ("clusterID", "KUBERNETES_AWS_AUTHENTICATOR_CLUSTER_ID") ∷ ("role", "DEFAULT_ROLE") ∷ []

-- The flag that answers for a key.
unfoldable pub bound_flag : String → Option Flag
unfolding bind lookup
bound_flag key =
    lookup key
      (bind (init_flags ++ (root_flags ++ (server_flags ++ (token_flags ++ verify_flags)))) [])

-- The default that a key has.
unfoldable pub default_value : String → Option Default
unfolding bound_flag
default_value key = elim (bound_flag key) [ none ↦ none | some f ↦ some f.default ]
