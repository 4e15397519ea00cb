-- ===== src/Mapper/Tests.antt =====
-- Runs of the backends, and their theorems at a concrete configuration.
use iam2kube.Shared.{◌≡◌, refl, true, false, none, some, List, [], ◌∷◌, ok, err, All, member}
use iam2kube.Shared.Int.{pos}
use iam2kube.Config.{Config}
use iam2kube.Shared.Text.{to_lower}
use iam2kube.Arn.{canonicalize}
use iam2kube.Mapper.File.Roles.{file_map-role}
use iam2kube.Arn.Example.{sdk, parse, sdk-ParsesArns}
use iam2kube.Mapper.{
  not_mapped, not_valid, has_duplicates, none_given, validate_backend_mode, deprecation_warnings,
}
use iam2kube.Mapper.File.{FileMapper, new_file_mapper, file_mapper}
use iam2kube.Mapper.File.Laws.{configured, file_map-configured}
use iam2kube.Mapper.ConfigMap.{
  Decoders, WatchEvent, added, modified, config_map, watch, config_map_mapper, empty_store,
}
use iam2kube.Mapper.ConfigMap.Laws.{last_in_force, store_of, watch-last_in_force}
use iam2kube.Mapper.ConfigMap.Answers.{last_content, answers, accounts_of, watch-answers}

validate_tests :
    (validate_backend_mode ("File" ∷ "CRD" ∷ []) ≡ [])
    × (validate_backend_mode ("Fil" ∷ "CRD" ∷ "CRD" ∷ [])
        ≡ not_valid "Fil" ∷ has_duplicates ("Fil" ∷ "CRD" ∷ "CRD" ∷ []) ∷ [])
    × (validate_backend_mode [] ≡ none_given ∷ [])
    × (deprecation_warnings ("CRD" ∷ "File" ∷ []) ≡ ("File", "MountedFile") ∷ [])
unfolding validate_backend_mode deprecation_warnings
validate_tests = (refl, refl, refl, refl)

abbrev cfg : Config
cfg = record {
  partition_id = "aws";
  cluster_id = "cluster";
  kubeconfig_pregenerated = false;
  host_port = pos 21362;
  hostname = "localhost";
  generate_kubeconfig_path = "kubeconfig.yaml";
  state_dir = "/var/aws-iam-authenticator";
  role_mappings =
      record { role_arn = "arn:aws:iam::1:role/Admin"; username = "old"; groups = [] }
      ∷ record {
        role_arn = "arn:aws:sts::1:assumed-role/ADMIN/s";
        username = "admin";
        groups = "system:masters" ∷ [];
      }
      ∷ [];
  user_mappings =
      record { user_arn = "arn:aws:iam::1:user/Ann"; username = "ann"; groups = [] } ∷ [];
  auto_mapped_aws_accounts = "7" ∷ [];
  scrubbed_aws_accounts = [];
  server_ec2_describe_instances_role_arn = "";
  address = "127.0.0.1";
  master = "";
  kubeconfig = "";
  backend_mode = "File" ∷ "CRD" ∷ [];
  ec2_describe_instances_qps = pos 15;
  ec2_describe_instances_burst = pos 5;
}

abbrev stored : FileMapper
stored = record {
  lowercase_role_map =
      (
        "arn:aws:iam::1:role/admin",
        record {
          role_arn = "arn:aws:sts::1:assumed-role/ADMIN/s";
          username = "admin";
          groups = "system:masters" ∷ [];
        },
      )
      ∷ [];
  lowercase_user_map =
      (
        "arn:aws:iam::1:user/ann",
        record { user_arn = "arn:aws:iam::1:user/Ann"; username = "ann"; groups = [] },
      )
      ∷ [];
  account_map = ("7", true) ∷ [];
}

made : new_file_mapper sdk cfg ≡ ok stored
unfolding new_file_mapper parse
made = refl

file_map_tests :
    ((file_mapper stored).map_arn "arn:aws:iam::1:role/Admin"
      ≡ ok (record {
        identity_arn = "arn:aws:iam::1:role/admin";
        username = "admin";
        groups = "system:masters" ∷ [];
      }))
    × ((file_mapper stored).map_arn "arn:aws:iam::1:role/other" ≡ err not_mapped)
unfolding file_mapper
file_map_tests = (refl, refl)

file_map-configured_example :
    (file_mapper stored).map_arn "arn:aws:iam::1:role/Admin"
    ≡ configured sdk cfg "arn:aws:iam::1:role/Admin"
file_map-configured_example = file_map-configured sdk cfg made "arn:aws:iam::1:role/Admin"

lower_partitions : All (λ partition. to_lower partition ≡ partition) sdk.partitions
unfolding to_lower
lower_partitions = (refl, (refl, (refl, tt)))

admin_role : canonicalize sdk "arn:aws:sts::1:assumed-role/ADMIN/s" ≡ ok "arn:aws:iam::1:role/ADMIN"
unfolding canonicalize parse
admin_role = refl

any_case : to_lower "arn:aws:iam::1:Role/admin" ≡ to_lower "arn:aws:iam::1:role/ADMIN"
unfolding to_lower
any_case = refl

file_map-role_example :
    (file_mapper stored).map_arn "arn:aws:iam::1:Role/admin"
    ≡ ok (record {
      identity_arn = to_lower "arn:aws:iam::1:role/ADMIN";
      username = "admin";
      groups = "system:masters" ∷ [];
    })
file_map-role_example =
    file_map-role sdk sdk-ParsesArns lower_partitions cfg made
      (record { role_arn = "arn:aws:iam::1:role/Admin"; username = "old"; groups = [] } ∷ []) []
      (record {
        role_arn = "arn:aws:sts::1:assumed-role/ADMIN/s";
        username = "admin";
        groups = "system:masters" ∷ [];
      })
      "arn:aws:iam::1:role/ADMIN" "arn:aws:iam::1:Role/admin" refl admin_role tt any_case

-- Decoders that read a list of one entry.
abbrev decoders : Decoders
decoders = record {
  to_json = λ text. ok text;
  unmarshal_users = λ text. (record { user_arn = text; username = "user"; groups = [] } ∷ [], none);
  unmarshal_roles = λ text. (record { role_arn = text; username = "role"; groups = [] } ∷ [], none);
  unmarshal_accounts = λ text. (text ∷ [], none);
}

abbrev events : List WatchEvent
events =
    added (config_map "aws-auth" (("mapRoles", "ARN:A") ∷ []))
    ∷ modified (config_map "aws-auth" (("mapUsers", "ARN:B") ∷ ("mapAccounts", "7") ∷ []))
    ∷ modified (config_map "other" (("mapRoles", "ARN:C") ∷ []))
    ∷ []

watch_tests :
    ((config_map_mapper (watch decoders events empty_store)).map_arn "arn:b"
      ≡ ok (record { identity_arn = "arn:b"; username = "user"; groups = [] }))
    × ((config_map_mapper (watch decoders events empty_store)).map_arn "arn:a" ≡ err not_mapped)
    × ((config_map_mapper (watch decoders events empty_store)).is_account_allowed "7" ≡ true)
unfolding config_map_mapper watch
watch_tests = (refl, refl, refl)

watch-last_in_force_example :
    watch decoders events empty_store
    ≡ (elim (last_in_force decoders events) [ none ↦ empty_store | some p ↦ store_of p ])
watch-last_in_force_example = watch-last_in_force decoders events empty_store

watch-answers_example :
    ((config_map_mapper (watch decoders events empty_store)).map_arn "arn:b"
      ≡ answers decoders (last_content events) "arn:b")
    × ((config_map_mapper (watch decoders events empty_store)).is_account_allowed "7"
        ≡ member (accounts_of decoders (last_content events)) "7")
watch-answers_example = watch-answers decoders events "arn:b" "7"
