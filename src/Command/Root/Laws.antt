-- ===== src/Command/Root/Laws.antt =====
-- Which configurations `getConfig` accepts.
use iam2kube.Shared.{
  String, ◌≡◌, ◌≢◌, ◌↔◌, refl, ap, true, false, not, List, [], ◌∷◌, Result, ok, err, arith, member,
  All, >>=-eq-ok, str_eq_of_ne, Bool, ◌>>◌, refuse, map_err,
}
use iam2kube.Config.{Config, RoleMapping, UserMapping}
use iam2kube.Mapper.{mode_mounted_file, ModeError, validate_backend_mode, is_valid_mode}
use iam2kube.Mapper.Validate.{IsDistinct, validate_backend_mode_iff}
use iam2kube.Command.Root.{
  Viper, ConfigError, filled_config, check_config, get_config, refuse_modes, invalid_roles,
  exits_on_users, exits_on_accounts, no_cluster_id, invalid_partition,
}
use text.Mathlib.Text.{◌==◌}
use text.Mathlib.TextEquality.{eq_iff}
use mathlib.Core.Option.{some}
use iam2kube.Command.Flags.{one, many, default_value, aws_partition_id}

-- What a configuration must have: a cluster, a known partition, and backend modes that are known and
-- distinct, at least one.
pub record IsValid (partitions : List String) (c : Config) : Type 0 where
  pub cluster : c.cluster_id ≢ ""
  pub partition : member partitions c.partition_id ≡ true
  pub some_mode : c.backend_mode ≢ []
  pub known_modes : All (λ mode. is_valid_mode mode ≡ true) c.backend_mode
  pub distinct_modes : IsDistinct c.backend_mode

refuse_sound :
    {E A : Type 0} (bad : Bool) (e : E) (next : Result E A) (a : A)
    → refuse bad e >> next ≡ ok a
    → (bad ≡ false) × (next ≡ ok a)
refuse_sound false e next a h = (refl, h)
refuse_sound true e next a h = absurd (ground arith)

refuse_modes_sound :
    {A : Type 0} (es : List ModeError) (next : Result ConfigError A) (a : A)
    → refuse_modes es >> next ≡ ok a
    → (es ≡ []) × (next ≡ ok a)
refuse_modes_sound [] next a h = (refl, h)
refuse_modes_sound (_ ∷ _) next a h = absurd (ground arith)

check_config_sound :
    (partitions : List String) (c d : Config)
    → check_config partitions c ≡ ok d
    → IsValid partitions c × (c ≡ d)
unfolding check_config
check_config_sound partitions c d h =
    let (cluster, h1) = refuse_sound (c.cluster_id == "") no_cluster_id _ d h in
    let (partition, h2) =
      refuse_sound (not (member partitions c.partition_id)) invalid_partition _ d h1 in
    let (modes, h3) = refuse_modes_sound (validate_backend_mode c.backend_mode) (ok c) d h2 in
    let (has_mode, known, distinct) = (validate_backend_mode_iff c.backend_mode).0 modes in
    (
      record {
        cluster = λ e. absurd (ground (arith, e, eq_iff c.cluster_id ""));
        partition = ground arith;
        some_mode = has_mode;
        known_modes = known;
        distinct_modes = distinct;
      },
      ok_inj c d h3,
    )
  where
    ok_inj : (a b : Config) → ◌≡◌ {A = Result ConfigError Config} (ok a) (ok b) → a ≡ b
    ok_inj a b e = ground arith

check_config_complete :
    (partitions : List String) (c : Config)
    → IsValid partitions c
    → check_config partitions c ≡ ok c
unfolding check_config
check_config_complete partitions c valid =
    let modes =
      (validate_backend_mode_iff c.backend_mode).1
        (valid.some_mode, valid.known_modes, valid.distinct_modes) in
    rw (str_eq_of_ne c.cluster_id "" valid.cluster, check_config, valid.partition, modes) refl

-- What `getConfig` reads: the mappings of the three kinds, and a valid configuration with them.
pub record Reads (partitions : List String) (viper : Viper) (c : Config) : Type 0 where
  pub roles : List RoleMapping
  pub users : List UserMapping
  pub accounts : List String
  pub reads_roles : viper.unmarshal_roles "server.mapRoles" ≡ ok roles
  pub reads_users : viper.unmarshal_users "server.mapUsers" ≡ ok users
  pub reads_accounts : viper.unmarshal_accounts "server.mapAccounts" ≡ ok accounts
  pub filled : filled_config viper roles users accounts ≡ c
  pub valid : IsValid partitions (filled_config viper roles users accounts)

map_err_sound :
    {E F A : Type 0} (f : E → F) (r : Result E A) (a : A) → map_err f r ≡ ok a → r ≡ ok a
map_err_sound f (ok _) a h = ground arith
map_err_sound f (err _) a h = absurd (ground arith)

get_config_sound :
    (partitions : List String) (viper : Viper) (c : Config)
    → get_config partitions viper ≡ ok c
    → Reads partitions viper c
unfolding get_config
get_config_sound partitions viper c h =
    let (roles, r, h1) =
      >>=-eq-ok (map_err invalid_roles (viper.unmarshal_roles "server.mapRoles")) _ h in
    let (users, u, h2) =
      >>=-eq-ok (map_err exits_on_users (viper.unmarshal_users "server.mapUsers")) _ h1 in
    let (accounts, a, h3) =
      >>=-eq-ok (map_err exits_on_accounts (viper.unmarshal_accounts "server.mapAccounts")) _ h2 in
    let (valid, same) =
      check_config_sound partitions (filled_config viper roles users accounts) c h3 in
    record {
      roles = roles;
      users = users;
      accounts = accounts;
      reads_roles = map_err_sound invalid_roles _ roles r;
      reads_users = map_err_sound exits_on_users _ users u;
      reads_accounts = map_err_sound exits_on_accounts _ accounts a;
      filled = same;
      valid = valid;
    }

-- `getConfig` gives a configuration exactly when the mappings of roles, users and accounts can be
-- read, there is a cluster id, the partition is one of the known ones, and there is a backend mode,
-- each known and none repeated; it is then the configuration with the values of the keys.
pub get_config_iff :
    (partitions : List String) (viper : Viper) (c : Config)
    → (get_config partitions viper ≡ ok c) ↔ Reads partitions viper c
unfolding get_config
get_config_iff partitions viper c = (
  get_config_sound partitions viper c,
  λ reads.
      rw
        (
          reads.reads_roles,
          get_config,
          reads.reads_users,
          reads.reads_accounts,
          check_config_complete partitions _ reads.valid,
        )
        (ap ok reads.filled),
)

-- A run with no flag but the cluster id: viper answers for a key with the default of the flag that
-- the key is bound to.
pub record AnswersDefaults (viper : Viper) : Type 0 where
  pub answers_text :
      (key value : String)
      → key ≢ "clusterID"
      → default_value key ≡ some (one value)
      → viper.get_string key ≡ value
  pub answers_texts :
      (key : String) (values : List String)
      → default_value key ≡ some (many values)
      → viper.get_string_slice key ≡ values

-- A server that is started with the cluster id alone, and mappings that can be read, is configured:
-- the defaults of the flags pass every check.
pub get_config-defaults :
    (partitions : List String) (viper : Viper) (roles : List RoleMapping) (users : List UserMapping)
    (accounts : List String)
    → AnswersDefaults viper
    → member partitions aws_partition_id ≡ true
    → viper.get_string "clusterID" ≢ ""
    → viper.unmarshal_roles "server.mapRoles" ≡ ok roles
    → viper.unmarshal_users "server.mapUsers" ≡ ok users
    → viper.unmarshal_accounts "server.mapAccounts" ≡ ok accounts
    → get_config partitions viper ≡ ok (filled_config viper roles users accounts)
unfolding default_value filled_config is_valid_mode
get_config-defaults partitions viper roles users accounts answers known named r u a =
    let c = filled_config viper roles users accounts in
    let partition =
      answers.answers_text "server.partition" aws_partition_id
        (λ e. absurd (ground (arith, e, eq_iff "server.partition" "clusterID"))) refl in
    let modes = answers.answers_texts "server.backendMode" (mode_mounted_file ∷ []) refl in
    (get_config_iff partitions viper c).1 (record {
      roles = roles;
      users = users;
      accounts = accounts;
      reads_roles = r;
      reads_users = u;
      reads_accounts = a;
      filled = refl;
      valid = record {
        cluster = named;
        partition = rw partition known;
        some_mode = rw modes (λ e. absurd (ground (arith, e)));
        known_modes = rw modes (refl, tt);
        distinct_modes = rw modes (refl, tt);
      };
    })
