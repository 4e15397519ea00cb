-- ===== src/Mapper/Crd/Tests.antt =====
-- Runs of the controller, and its theorems at a concrete mapping.
use iam2kube.Shared.{◌≡◌, refl, true, false, none, some, List, [], ◌∷◌, ok, All}
use iam2kube.Shared.Text.{to_lower}
use iam2kube.Arn.{canonicalize}
use iam2kube.Arn.Example.{sdk, parse, sdk-ParsesArns}
use iam2kube.Mapper.Crd.{IamIdentityMapping, Object, identity, Indexer, crd_mapper}
use iam2kube.Mapper.Crd.Sync.{
  Cluster, found, key, stray, updates, records, forgets, requeues, is_done, handles, sync_failed,
  update_error, with_canonical_arn, sync_handler, process_next_work_item,
}
use iam2kube.Mapper.Crd.Sync.Laws.{queue_part, settled}
use iam2kube.Mapper.Crd.Controller.{run_worker}
use iam2kube.Mapper.Crd.Controller.Worker.{all_settled, run_worker-queue_part}
use iam2kube.Mapper.Crd.Sync.Lookup.{select, sync_handler-crd_map}

abbrev admin_mapping : IamIdentityMapping
admin_mapping = record {
  name = "admin";
  spec = record {
    arn = "arn:aws:iam::1:role/Admin";
    username = "admin";
    groups = "system:masters" ∷ [];
  };
  status = record { canonical_arn = ""; user_id = "" };
}

abbrev synced_mapping : IamIdentityMapping
synced_mapping = with_canonical_arn admin_mapping "arn:aws:iam::1:role/admin"

abbrev cluster : Cluster
cluster = record {
  split_key = λ k. ok k;
  get_mapping = λ name. found admin_mapping;
  update_status = λ m. none;
}

abbrev refusing : Cluster
refusing = record {
  split_key = λ k. ok k;
  get_mapping = λ name. found admin_mapping;
  update_status = λ m. some "conflict";
}

sync_tests :
    (process_next_work_item sdk cluster (some (key "admin")) ≡ (
      true,
      updates synced_mapping
          ∷ records admin_mapping
          ∷ forgets (key "admin")
          ∷ is_done (key "admin")
          ∷ [],
    ))
    × (process_next_work_item sdk refusing (some (key "admin")) ≡ (
      true,
      updates synced_mapping
          ∷ requeues (key "admin")
          ∷ is_done (key "admin")
          ∷ handles (sync_failed "admin" (update_error "conflict"))
          ∷ [],
    ))
    × (process_next_work_item sdk cluster none ≡ (false, []))
unfolding process_next_work_item sync_handler canonicalize parse to_lower
sync_tests = (refl, refl, refl)

-- A worker of two items whose first sync is refused.
worker_tells :
    all_settled sdk refusing (key "admin" ∷ stray ∷ [])
    ≡ requeues (key "admin") ∷ is_done (key "admin") ∷ forgets stray ∷ is_done stray ∷ []
unfolding all_settled settled sync_handler canonicalize parse to_lower
worker_tells = refl

run_worker-queue_part_example :
    queue_part
      (run_worker sdk refusing (some (key "admin") ∷ some stray ∷ none ∷ some (key "admin") ∷ []))
    ≡ all_settled sdk refusing (key "admin" ∷ stray ∷ [])
run_worker-queue_part_example =
    run_worker-queue_part sdk refusing (key "admin" ∷ stray ∷ []) (some (key "admin") ∷ [])

lower_partitions : All (λ partition. to_lower partition ≡ partition) sdk.partitions
unfolding to_lower
lower_partitions = (refl, (refl, (refl, tt)))

admin_accepted : canonicalize sdk "arn:aws:iam::1:role/Admin" ≡ ok "arn:aws:iam::1:role/Admin"
unfolding canonicalize parse
admin_accepted = refl

abbrev cache : List Object
cache = identity (with_canonical_arn admin_mapping (to_lower "arn:aws:iam::1:role/Admin")) ∷ []

abbrev index : Indexer
index = record { by_canonical_arn = λ value. ok (select value cache) }

any_case : to_lower "arn:aws:iam::1:ROLE/admin" ≡ to_lower "arn:aws:iam::1:role/Admin"
unfolding to_lower
any_case = refl

sync_handler-crd_map_example :
    (sync_handler sdk cluster "admin" ≡ (
      updates (with_canonical_arn admin_mapping (to_lower "arn:aws:iam::1:role/Admin"))
          ∷ records admin_mapping
          ∷ [],
      ok tt,
    ))
    × ((crd_mapper index).map_arn "arn:aws:iam::1:ROLE/admin"
        ≡ ok (record {
          identity_arn = to_lower "arn:aws:iam::1:role/Admin";
          username = "admin";
          groups = "system:masters" ∷ [];
        }))
sync_handler-crd_map_example =
    sync_handler-crd_map sdk sdk-ParsesArns lower_partitions cluster "admin" "admin" admin_mapping
      "arn:aws:iam::1:role/Admin" refl refl admin_accepted refl index [] []
      "arn:aws:iam::1:ROLE/admin" (λ v. refl) tt any_case
