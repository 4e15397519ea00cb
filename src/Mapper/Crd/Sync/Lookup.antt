-- ===== src/Mapper/Crd/Sync/Lookup.antt =====
-- A mapping is found once its key was worked on and the cache has seen the update.
use text.Mathlib.TextLemmas.{cons-append}
use text.Mathlib.TextEquality.{eq_iff}
use text.Mathlib.Text.{◌==◌}
use iam2kube.Shared.{
  String, ◌<>◌, ◌≡◌, refl, ap, false, none, some, List, [], ◌∷◌, ◌++◌, ok, if◌then◌else◌, All,
  member, arith, str_eq_of_ne,
}
use iam2kube.Shared.Text.{to_lower}
use iam2kube.Arn.{canonicalize}
use iam2kube.Arn.Format.{Sdk, Arn, arn_text, ParsesArns}
use iam2kube.Arn.Accepts.{canonicalize_iff}
use iam2kube.Arn.Canonical.{canonicalize_idem}
use iam2kube.Arn.Case.{canonicalize-to_lower}
use iam2kube.Mapper.Crd.{
  IamIdentityMapping, Object, identity, other, index_by_canonical_arn, Indexer, crd_map, crd_mapper,
  first_identity,
}
use iam2kube.Mapper.Crd.Sync.{
  Cluster, found, updates, records, with_canonical_arn, sync_handler, sync_mapping, send_update,
}

-- The objects of a cache that the index function files under a value, in the cache's order.
pub select : String → List Object → List Object
select value [] = []
select value (o ∷ os) =
    let rest = select value os in if member (index_by_canonical_arn o) value then o ∷ rest else rest

-- `ByIndex` finds the objects that the index function files under the value.
abbrev pub ReadsIndex : Indexer → List Object → Type 0
ReadsIndex index cache = (value : String) → index.by_canonical_arn value ≡ ok (select value cache)

-- The object is no mapping with this canonical ARN.
abbrev pub IsElsewhere : String → Object → Type 0
IsElsewhere arn other = Unit
IsElsewhere arn (identity m) = (m.status.canonical_arn == arn) ≡ false

first_identity-select :
    (arn : String) (before after : List Object) (m : IamIdentityMapping)
    → All (IsElsewhere arn) before
    → m.status.canonical_arn ≡ arn
    → (arn == "") ≡ false
    → first_identity (select arn (before ++ (identity m ∷ after))) ≡ some m
unfolding select first_identity index_by_canonical_arn
first_identity-select arn [] after m elsewhere e filled =
    ground
      (arith, eq_iff m.status.canonical_arn arn, eq_iff m.status.canonical_arn "", eq_iff arn "")
first_identity-select arn (other ∷ before) after m (_, elsewhere) e filled =
    first_identity-select arn before after m elsewhere e filled
first_identity-select arn (identity n ∷ before) after m (apart, elsewhere) e filled =
    ground (arith, first_identity-select arn before after m elsewhere e filled)

arn_text_filled : (a : Arn) → (arn_text a == "") ≡ false
unfolding arn_text
arn_text_filled a =
    rw
      (cons-append "a" "rn:" (
        a.partition
        <> (":"
            <> (a.service
                <> (":" <> (a.region <> (":" <> (a.account_id <> (":" <> a.resource)))))))))
      (str_eq_of_ne _ _ (λ e. cc))

module _ (sdk : Sdk) (laws : ParsesArns sdk) where
  -- What has a canonical form is not empty.
  canonicalize_filled : (arn t : String) → canonicalize sdk arn ≡ ok t → (arn == "") ≡ false
  canonicalize_filled arn t h =
      let (a, parsed, _, _) = (canonicalize_iff sdk arn t).0 h in
      rw (laws.sound_text arn a parsed) (arn_text_filled a)

  module _ (lower : All (λ partition. to_lower partition ≡ partition) sdk.partitions) (c : Cluster)
      (k name : String) (m : IamIdentityMapping) (t : String) (split : c.split_key k ≡ ok name)
      (listed : c.get_mapping name ≡ found m) (accepted : canonicalize sdk m.spec.arn ≡ ok t)
      (updated : c.update_status (with_canonical_arn m (to_lower t)) ≡ none) where
    -- A key whose mapping has an ARN with a canonical form is synced: the status is updated with that
    -- form in lower case and the event recorded. From then on, where the cache holds the updated
    -- mapping and no earlier one with the same canonical ARN, the backend answers an ARN that is the
    -- canonical form up to letter case with the name and the groups of the mapping.
    pub sync_handler-crd_map :
        (index : Indexer) (before after : List Object) (arn : String)
        → ReadsIndex index (before ++ (identity (with_canonical_arn m (to_lower t)) ∷ after))
        → All (IsElsewhere (to_lower t)) before
        → to_lower arn ≡ to_lower t
        → (sync_handler sdk c k
            ≡ (updates (with_canonical_arn m (to_lower t)) ∷ records m ∷ [], ok tt))
          × ((crd_mapper index).map_arn arn
              ≡ ok (record {
                identity_arn = to_lower t;
                username = m.spec.username;
                groups = m.spec.groups;
              }))
    unfolding crd_mapper crd_map sync_handler
    sync_handler-crd_map index before after arn reads elsewhere same = (synced, mapped)
      where
        lowered : canonicalize sdk (to_lower m.spec.arn) ≡ ok (to_lower t)
        lowered = canonicalize-to_lower sdk laws lower m.spec.arn t accepted

        synced :
            sync_handler sdk c k
            ≡ (updates (with_canonical_arn m (to_lower t)) ∷ records m ∷ [], ok tt)
        synced =
            rw (split, listed, sync_handler)
              (rw (canonicalize_filled m.spec.arn t accepted, lowered, sync_mapping)
                (rw (updated, send_update) refl))

        at_once :
            first_identity (
              select
                (to_lower t)
                (before ++ (identity (with_canonical_arn m (to_lower t)) ∷ after)))
            ≡ some (with_canonical_arn m (to_lower t))
        at_once =
            first_identity-select (to_lower t) before after (with_canonical_arn m (to_lower t))
              elsewhere refl
              (canonicalize_filled (to_lower t) (to_lower t)
                (canonicalize_idem sdk laws (to_lower m.spec.arn) (to_lower t) lowered))

        mapped :
            crd_map index arn
            ≡ ok (record {
              identity_arn = to_lower t;
              username = m.spec.username;
              groups = m.spec.groups;
            })
        mapped =
            rw (same, reads (to_lower t), crd_map)
              (rw at_once (
                ap
                  (λ x. ok (record {
                    identity_arn = x;
                    username = m.spec.username;
                    groups = m.spec.groups;
                  }))
                  same))
