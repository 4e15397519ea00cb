-- ===== src/Command/Root.antt =====
-- cmd/aws-iam-authenticator/root.go: the configuration of a run.
pub mod Laws
use iam2kube.Shared.{
  String, Bool, true, false, not, Option, none, some, List, [], ◌∷◌, Result, ok, err, ◌>>=◌, ◌>>◌,
  map_err, refuse, if◌then◌else◌, member,
}
use iam2kube.Shared.Int.{ℤ}
use iam2kube.Config.{Config, RoleMapping, UserMapping}
use iam2kube.Mapper.{ModeError, validate_backend_mode}
use text.Mathlib.Text.{◌==◌}

-- What viper answers for a key, from the flags, the environment and the configuration file. The last
-- three are `UnmarshalKey` into lists of the three types.
pub record Viper : Type 0 where
  pub get_string : String → String
  pub get_int : String → ℤ
  pub get_bool : String → Bool
  pub get_string_slice : String → List String
  pub unmarshal_roles : String → Result String (List RoleMapping)
  pub unmarshal_users : String → Result String (List UserMapping)
  pub unmarshal_accounts : String → Result String (List String)

-- The errors of `getConfig`; those of the users and of the accounts end the process.
pub data ConfigError : Type 0 where
  invalid_roles exits_on_users exits_on_accounts : String → ConfigError
  no_cluster_id invalid_partition : ConfigError
  invalid_modes : List ModeError → ConfigError

-- The configuration with the mappings that were read.
unfoldable pub filled_config : Viper → List RoleMapping → List UserMapping → List String → Config
filled_config viper roles users accounts = record {
  partition_id = viper.get_string "server.partition";
  cluster_id = viper.get_string "clusterID";
  kubeconfig_pregenerated = viper.get_bool "server.kubeconfigPregenerated";
  host_port = viper.get_int "server.port";
  hostname = viper.get_string "server.hostname";
  generate_kubeconfig_path = viper.get_string "server.generateKubeconfig";
  state_dir = viper.get_string "server.stateDir";
  role_mappings = roles;
  user_mappings = users;
  auto_mapped_aws_accounts = accounts;
  scrubbed_aws_accounts = viper.get_string_slice "server.scrubbedAccounts";
  server_ec2_describe_instances_role_arn = viper.get_string "server.ec2DescribeInstancesRoleARN";
  address = viper.get_string "server.address";
  master = viper.get_string "server.master";
  kubeconfig = viper.get_string "server.kubeconfig";
  backend_mode = viper.get_string_slice "server.backendMode";
  ec2_describe_instances_qps = viper.get_int "server.ec2DescribeInstancesQps";
  ec2_describe_instances_burst = viper.get_int "server.ec2DescribeInstancesBurst";
}

-- `if errs := ...; len(errs) > 0`
abbrev pub refuse_modes : List ModeError → Result ConfigError (Unit {0})
refuse_modes [] = ok tt
refuse_modes (e ∷ es) = err (invalid_modes (e ∷ es))

-- The checks at the end; the partitions are the ids of `DefaultPartitions`.
unfoldable pub check_config : List String → Config → Result ConfigError Config
check_config partitions c = do
  refuse (c.cluster_id == "") no_cluster_id
  refuse (not (member partitions c.partition_id)) invalid_partition
  refuse_modes (validate_backend_mode c.backend_mode)
  ok c

-- `getConfig`
unfoldable pub get_config : List String → Viper → Result ConfigError Config
unfolding check_config filled_config
get_config partitions viper = do
  roles ← map_err invalid_roles (viper.unmarshal_roles "server.mapRoles")
  users ← map_err exits_on_users (viper.unmarshal_users "server.mapUsers")
  accounts ← map_err exits_on_accounts (viper.unmarshal_accounts "server.mapAccounts")
  check_config partitions (filled_config viper roles users accounts)

pub data LogFormat : Type 0 where
  json_format text_format : LogFormat

-- `getLogFormatter`, with the format that it warns of.
unfoldable pub get_log_formatter : String → LogFormat × Option String
get_log_formatter format =
    if format == "json"
    then (json_format, none)
    else (text_format, (if not (format == "text") then some format else none))

-- `initConfig`: the format of the logs, and the configuration file that is read, if one is named;
-- the first argument reads it, and its error ends the process.
unfoldable pub init_config :
    (String → Option String) → String → String → Result String (LogFormat × Option String)
unfolding get_log_formatter
init_config read_in_config format cfg_file =
    let (log_format, _) = get_log_formatter format in
    if cfg_file == ""
    then ok (log_format, none)
    else elim (read_in_config cfg_file) [ some e ↦ err e | none ↦ ok (log_format, some cfg_file) ]
