-- ===== src/Mapper/ConfigMap/Connect.antt =====
-- pkg/mapper/configmap: `New` and `NewConfigMapMapper`. The clients of the API server are client-go's,
-- so a configuration of them and a client are parameters.
use iam2kube.Shared.{String, Result, ok, ◌>>=◌}
use iam2kube.Config.{Config}
use iam2kube.Mapper.{Mapper}
use iam2kube.Mapper.ConfigMap.{MapStore, empty_store, config_map_mapper}

module _ {KubeConfig : Type 0}
    (build_config_from_flags : String → String → Result String KubeConfig)
    (kube_client : KubeConfig → Result String (Unit {0})) where
  -- `New`: a store with no mapping yet.
  unfoldable pub connect_store : String → String → Result String MapStore
  connect_store master_url kubeconfig = do
    config ← build_config_from_flags master_url kubeconfig
    _ ← kube_client config
    ok empty_store

  -- `NewConfigMapMapper`
  unfoldable pub new_config_map_mapper : Config → Result String Mapper
  new_config_map_mapper c = do
    store ← connect_store c.master c.kubeconfig
    ok (config_map_mapper store)
