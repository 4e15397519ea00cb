-- ===== src/Mapper/Crd/Controller.antt =====
-- pkg/mapper/crd/controller/controller.go and pkg/mapper/crd/mapper.go: how the controller and its
-- mapper are made, what reaches the queue, and the workers. The informer, the queue and the clients
-- of the API server are client-go's; what they answer is a parameter or an argument.
pub mod Worker
use iam2kube.Shared.{
  String, Bool, not, ◌&&◌, Option, none, some, List, [], ◌∷◌, ◌++◌, map, Result, ok, err, ◌>>=◌,
  map_err, if◌then◌else◌,
}
use iam2kube.Arn.Format.{Sdk}
use iam2kube.Config.{Config}
use iam2kube.Mapper.Crd.{Object, Indexer}
use iam2kube.Mapper.Crd.Sync.{Item, key, Effect, Cluster, process_next_work_item}
use text.Mathlib.Text.{◌==◌}

-- What an informer tells its handlers.
pub data Change : Type 0 where
  added deleted : Object → Change
  updated : Object → Object → Change

-- What `enqueueIAMIdentityMapping` calls: `Add` of the queue, or `HandleError`.
pub data Queued : Type 0 where
  adds : Item → Queued
  reports : String → Queued

-- `enqueueIAMIdentityMapping`; the first argument is `MetaNamespaceKeyFunc`.
unfoldable pub enqueue_iam_identity_mapping : (Object → Result String String) → Object → Queued
enqueue_iam_identity_mapping key_func obj = elim (key_func obj) [
  | err e ↦ reports e
  | ok k ↦ adds (key k)
]

-- The handlers that `New` registers: a deletion has none.
unfoldable pub handle_change : (Object → Result String String) → Change → List Queued
unfolding enqueue_iam_identity_mapping
handle_change key_func (added obj) = enqueue_iam_identity_mapping key_func obj ∷ []
handle_change key_func (updated old new) = enqueue_iam_identity_mapping key_func new ∷ []
handle_change key_func (deleted obj) = []

module _ (sdk : Sdk) (c : Cluster) where
  -- `runWorker`, for what the queue gives at each turn: it ends when the queue is shut down. With the
  -- list at its end the worker waits for the queue.
  unfoldable pub run_worker : List (Option Item) → List Effect
  run_worker [] = []
  run_worker (got ∷ rest) =
      let (goes_on, effects) = process_next_work_item sdk c got in
      let more = run_worker rest in if goes_on then effects ++ more else effects

  -- `Controller.Run`, once the caches have synced or not, for what the queue gives to each of its
  -- workers.
  unfoldable pub run_controller :
      Bool → List (List (Option Item)) → Result String (List (List Effect))
  unfolding run_worker
  run_controller synced workers =
      if not synced then err "failed to wait for caches to sync" else ok (map run_worker workers)

-- What is used of client-go to reach the API server.
pub record Clients (KubeConfig : Type 0) : Type 0 where
  pub build_config_from_flags : String → String → Result String KubeConfig
  pub in_cluster_config : Result String KubeConfig
  pub kube_client : KubeConfig → Result String (Unit {0})
  pub iam_client : KubeConfig → Result String Indexer
  pub add_indexers : Option String

pub data CrdError : Type 0 where
  no_kube_config no_kube_client no_iam_client exits_on_index : String → CrdError

module _ {KubeConfig : Type 0} (clients : Clients KubeConfig) where
  -- The configuration of the clients
  pub kube_config : Config → Result String KubeConfig
  kube_config c =
      if c.master == "" && c.kubeconfig == ""
      then clients.in_cluster_config
      else clients.build_config_from_flags c.master c.kubeconfig

  -- `controller.New` of the mapper's informer: a failure to add the index ends the process.
  abbrev pub new_controller : Indexer → Result CrdError Indexer
  new_controller index = elim clients.add_indexers [
    | some e ↦ err (exits_on_index e)
    | none ↦ ok index
  ]

  -- `NewCRDMapper`, up to the index that its answers come from.
  unfoldable pub new_crd_mapper : Config → Result CrdError Indexer
  unfolding kube_config
  new_crd_mapper c = do
    config ← map_err no_kube_config (kube_config c)
    _ ← map_err no_kube_client (clients.kube_client config)
    index ← map_err no_iam_client (clients.iam_client config)
    new_controller index
