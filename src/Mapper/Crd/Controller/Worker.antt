-- ===== src/Mapper/Crd/Controller/Worker.antt =====
-- What a worker tells the queue until the queue is shut down.
use iam2kube.Shared.{◌≡◌, refl, ap, ◌∙◌, Option, none, some, List, [], ◌∷◌, ◌++◌, map}
use iam2kube.Arn.Format.{Sdk}
use iam2kube.Mapper.Crd.Controller.{run_worker}
use iam2kube.Mapper.Crd.Sync.{Item, Effect, Cluster, process_next_work_item}
use iam2kube.Mapper.Crd.Sync.Laws.{queue_part, queue_part-append, settled, process_next-queue_part}

module _ (sdk : Sdk) (c : Cluster) where
  -- What the queue is to be told of some items, in their order.
  unfoldable pub all_settled : List Item → List Effect
  all_settled [] = []
  all_settled (item ∷ items) = settled sdk c item ++ all_settled items

  -- Until the queue is shut down, a worker tells it of each item that it is given, in their order,
  -- and of no other: a key whose sync succeeds, or an item that is no key, is forgotten and then
  -- done; a key whose sync fails is put back and then done. Nothing is taken after the shutdown.
  pub run_worker-queue_part :
      (items : List Item) (rest : List (Option Item))
      → queue_part (run_worker sdk c (map some items ++ (none ∷ rest))) ≡ all_settled items
  unfolding run_worker process_next_work_item all_settled
  run_worker-queue_part [] rest = refl
  run_worker-queue_part (item ∷ items) rest =
      queue_part-append (process_next_work_item sdk c (some item)).1
        (run_worker sdk c (map some items ++ (none ∷ rest)))
      ∙ ap (λ es. es ++ queue_part (run_worker sdk c (map some items ++ (none ∷ rest))))
          (process_next-queue_part sdk c item)
      ∙ ap (λ es. settled sdk c item ++ es) (run_worker-queue_part items rest)
