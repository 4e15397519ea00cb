-- ===== src/Mapper/Crd/Sync/Laws.antt =====
-- What becomes of a key of the work queue.
use text.Mathlib.Text.{◌==◌}
use iam2kube.Shared.{
  String, ◌≡◌, refl, ap, ◌∙◌, [], ◌∷◌, some, List, ◌++◌, Result, ok, err, Result-cases,
  Option-cases, Bool-cases, inl, inr,
}
use iam2kube.Shared.Text.{to_lower}
use iam2kube.Arn.{canonicalize}
use iam2kube.Arn.Format.{Sdk}
use iam2kube.Mapper.Crd.{IamIdentityMapping}
use iam2kube.Mapper.Crd.Sync.{
  Cluster, Listed, found, not_found, get_failed, SyncError, key, Effect, forgets, requeues, is_done,
  updates, records, handles, Item, stray, with_canonical_arn, settle, sync_handler, sync_mapping,
  send_update, process_item, process_next_work_item,
}

-- What the queue is told, out of all that is done.
abbrev pub queue_part : List Effect → List Effect
queue_part [] = []
queue_part (updates _ ∷ es) = queue_part es
queue_part (records _ ∷ es) = queue_part es
queue_part (handles _ ∷ es) = queue_part es
queue_part (forgets i ∷ es) = forgets i ∷ queue_part es
queue_part (requeues i ∷ es) = requeues i ∷ queue_part es
queue_part (is_done i ∷ es) = is_done i ∷ queue_part es

pub queue_part-append :
    (xs ys : List Effect) → queue_part (xs ++ ys) ≡ queue_part xs ++ queue_part ys
queue_part-append [] ys = refl
queue_part-append (updates _ ∷ es) ys = queue_part-append es ys
queue_part-append (records _ ∷ es) ys = queue_part-append es ys
queue_part-append (handles _ ∷ es) ys = queue_part-append es ys
queue_part-append (forgets i ∷ es) ys = ap (λ r. forgets i ∷ r) (queue_part-append es ys)
queue_part-append (requeues i ∷ es) ys = ap (λ r. requeues i ∷ r) (queue_part-append es ys)
queue_part-append (is_done i ∷ es) ys = ap (λ r. is_done i ∷ r) (queue_part-append es ys)

module _ (sdk : Sdk) (c : Cluster) where
  send_update-queue_part :
      (m : IamIdentityMapping) (arn : String) → queue_part (send_update sdk c m arn).0 ≡ []
  unfolding send_update
  send_update-queue_part m arn = elim (Option-cases (c.update_status (with_canonical_arn m arn))) [
    | inl g ↦ rw (g, send_update) refl
    | inr (_, g) ↦ rw (g, send_update) refl
  ]

  sync_mapping-queue_part : (m : IamIdentityMapping) → queue_part (sync_mapping sdk c m).0 ≡ []
  unfolding sync_mapping
  sync_mapping-queue_part m = elim (Bool-cases (m.spec.arn == "")) [
    | inl e ↦ rw (e, sync_mapping) refl
    | inr e ↦ elim (Result-cases (canonicalize sdk (to_lower m.spec.arn))) [
      | inr (_, f) ↦ rw (e, f, sync_mapping) refl
      | inl (arn, f) ↦ rw (e, f, sync_mapping) (send_update-queue_part m arn)
    ]
  ]

  -- The handler itself tells the queue nothing.
  pub sync_handler-queue_part : (k : String) → queue_part (sync_handler sdk c k).0 ≡ []
  unfolding sync_handler
  sync_handler-queue_part k = elim (Result-cases (c.split_key k)) [
    | inr (_, e) ↦ rw (e, sync_handler) refl
    | inl (name, e) ↦ by_mapping name e (c.get_mapping name) refl
  ]
    where
      by_mapping :
          (name : String)
          → c.split_key k ≡ ok name
          → (l : Listed) → c.get_mapping name ≡ l
          → queue_part (sync_handler sdk c k).0 ≡ []
      by_mapping name e not_found f = rw (e, f, sync_handler) refl
      by_mapping name e (get_failed _) f = rw (e, f, sync_handler) refl
      by_mapping name e (found m) f = rw (e, f, sync_handler) (sync_mapping-queue_part m)

  -- What the queue is to be told of an item: a key whose sync fails is put back, every other item is
  -- forgotten, and each is done.
  unfoldable pub settled : Item → List Effect
  settled stray = forgets stray ∷ is_done stray ∷ []
  settled (key k) = elim (sync_handler sdk c k).1 [
    | ok _ ↦ forgets (key k) ∷ is_done (key k) ∷ []
    | err _ ↦ requeues (key k) ∷ is_done (key k) ∷ []
  ]

  settle-queue_part :
      (k : String) (r : Result SyncError (Unit {0}))
      → (sync_handler sdk c k).1 ≡ r
      → queue_part (settle sdk c k r) ≡ settled (key k)
  unfolding settled
  settle-queue_part k (ok _) e = rw (settled, e) refl
  settle-queue_part k (err _) e = rw (settled, e) refl

  -- A worker tells the queue of the item that it took, and of no other.
  pub process_next-queue_part :
      (item : Item) → queue_part (process_next_work_item sdk c (some item)).1 ≡ settled item
  unfolding process_next_work_item process_item settled
  process_next-queue_part stray = refl
  process_next-queue_part (key k) =
      let (effects, result) = sync_handler sdk c k in
      queue_part-append effects (settle sdk c k result)
      ∙ ap (λ es. es ++ queue_part (settle sdk c k result)) (sync_handler-queue_part k)
      ∙ settle-queue_part k result refl
