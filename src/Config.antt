-- ===== src/Config.antt =====
-- pkg/config/types.go: the configuration of a server and the mappings of identities.
pub mod Paths
pub mod Tests
pub mod Distinct
pub mod Existing
pub mod Files
pub mod Fresh
pub mod Generated
pub mod Names
pub mod Kubeconfig
use iam2kube.Shared.{String, Bool, List}
use iam2kube.Shared.Int.{ℤ}

pub record IdentityMapping : Type 0 where
  pub identity_arn : String
  pub username : String
  pub groups : List String

pub record RoleMapping : Type 0 where
  pub role_arn : String
  pub username : String
  pub groups : List String

pub record UserMapping : Type 0 where
  pub user_arn : String
  pub username : String
  pub groups : List String

pub record Config : Type 0 where
  pub partition_id : String
  pub cluster_id : String
  pub kubeconfig_pregenerated : Bool
  pub host_port : ℤ
  pub hostname : String
  pub generate_kubeconfig_path : String
  pub state_dir : String
  pub role_mappings : List RoleMapping
  pub user_mappings : List UserMapping
  pub auto_mapped_aws_accounts : List String
  pub scrubbed_aws_accounts : List String
  pub server_ec2_describe_instances_role_arn : String
  pub address : String
  pub master : String
  pub kubeconfig : String
  pub backend_mode : List String
  pub ec2_describe_instances_qps : ℤ
  pub ec2_describe_instances_burst : ℤ
