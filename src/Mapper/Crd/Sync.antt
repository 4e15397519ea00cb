-- ===== src/Mapper/Crd/Sync.antt =====
-- pkg/mapper/crd/controller/controller.go: the worker that keeps the canonical ARN in the status of
-- each mapping. The lister, the client of the API server and the work queue are client-go's: the
-- answers of the first two are a parameter, and the calls that change something are the effects
-- that a function returns, in their order.
pub mod Laws
pub mod Lookup
use iam2kube.Shared.{
  String, Bool, true, false, Option, none, some, List, [], ◌∷◌, ◌++◌, Result, ok, err,
  if◌then◌else◌,
}
use iam2kube.Shared.Text.{to_lower}
use iam2kube.Arn.{ArnError, canonicalize}
use iam2kube.Arn.Format.{Sdk}
use iam2kube.Mapper.Crd.{IamIdentityMapping, IamIdentityMappingStatus}
use text.Mathlib.Text.{◌==◌}

-- `iamMappingLister.Get`
pub data Listed : Type 0 where
  found : IamIdentityMapping → Listed
  not_found : Listed
  get_failed : String → Listed

-- The answers of the libraries: the name in a key, the lister's mapping of a name, and the error of
-- `UpdateStatus`, if any.
pub record Cluster : Type 0 where
  pub split_key : String → Result String String
  pub get_mapping : String → Listed
  pub update_status : IamIdentityMapping → Option String

pub data SyncError : Type 0 where
  lister_error update_error : String → SyncError
  arn_error : ArnError → SyncError

-- What the queue holds: a key, or a thing that is no text.
pub data Item : Type 0 where
  key : String → Item
  stray : Item

-- What `utilruntime.HandleError` is told.
pub data Problem : Type 0 where
  invalid_key no_longer_exists : String → Problem
  not_a_key : Problem
  sync_failed : String → SyncError → Problem

pub data Effect : Type 0 where
  updates : IamIdentityMapping → Effect
  records : IamIdentityMapping → Effect
  handles : Problem → Effect
  forgets requeues is_done : Item → Effect

-- The copy with its new canonical ARN.
abbrev pub with_canonical_arn : IamIdentityMapping → String → IamIdentityMapping
with_canonical_arn m arn = record {
  name = m.name;
  spec = m.spec;
  status = record { canonical_arn = arn; user_id = m.status.user_id };
}

module _ (sdk : Sdk) (c : Cluster) where
  -- `UpdateStatus`, and the event after it.
  send_update : IamIdentityMapping → String → List Effect × Result SyncError (Unit {0})
  send_update m arn =
      let copy = with_canonical_arn m arn in
      elim (c.update_status copy) [
        | some e ↦ (updates copy ∷ [], err (update_error e))
        | none ↦ (updates copy ∷ records m ∷ [], ok tt)
      ]

  -- The part that has the mapping.
  sync_mapping : IamIdentityMapping → List Effect × Result SyncError (Unit {0})
  sync_mapping m =
      if m.spec.arn == ""
      then (records m ∷ [], ok tt)
      else elim (canonicalize sdk (to_lower m.spec.arn)) [
        | err e ↦ ([], err (arn_error e))
        | ok arn ↦ send_update m arn
      ]

  unfoldable pub sync_handler : String → List Effect × Result SyncError (Unit {0})
  unfolding sync_mapping send_update
  sync_handler k = elim (c.split_key k) [
    | err _ ↦ (handles (invalid_key k) ∷ [], ok tt)
    | ok name ↦ elim (c.get_mapping name) [
      | not_found ↦ (handles (no_longer_exists k) ∷ [], ok tt)
      | get_failed e ↦ ([], err (lister_error e))
      | found m ↦ sync_mapping m
    ]
  ]

  -- The closure of `processNextWorkItem`, its deferred `Done`, and the report of its error.
  abbrev pub settle : String → Result SyncError (Unit {0}) → List Effect
  settle k (ok _) = forgets (key k) ∷ is_done (key k) ∷ []
  settle k (err e) = requeues (key k) ∷ is_done (key k) ∷ handles (sync_failed k e) ∷ []

  unfoldable pub process_item : Item → List Effect
  process_item stray = forgets stray ∷ handles not_a_key ∷ is_done stray ∷ []
  process_item (key k) = let (effects, result) = sync_handler k in effects ++ settle k result

  -- `processNextWorkItem`: whether to go on, and what was done. The queue gives no item when it is
  -- shut down.
  unfoldable pub process_next_work_item : Option Item → Bool × List Effect
  unfolding process_item
  process_next_work_item none = (false, [])
  process_next_work_item (some item) = (true, process_item item)
