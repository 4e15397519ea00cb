-- ===== src/Arn/Case.antt =====
-- Canonical forms and letter case: the backends lower a name before `Canonicalize`, the webhook
-- lowers a caller's canonical name after it.
use iam2kube.Shared.{
  String, ◌≡◌, refl, ap, ◌∙◌, true, List, map, ok, All, member, arith, inl, inr, str_cases,
  All-member, [], ◌∷◌,
}
use iam2kube.Shared.Text.{split, to_lower}
use iam2kube.Shared.Text.Lower.{to_lower-append, to_lower-Free, split-to_lower}
use iam2kube.Arn.Format.{Sdk, Arn, colon, arn_text, ParsesArns}
use iam2kube.Arn.{first_part, slash, role_arn, canonicalize}
use iam2kube.Arn.Assumed.{assumed_role}
use iam2kube.Arn.Accepts.{Accepts, federated, identity, assumed, canonicalize_iff}

first_part-to_lower : (xs : List String) → first_part (map to_lower xs) ≡ to_lower (first_part xs)
unfolding to_lower
first_part-to_lower [] = refl
first_part-to_lower (x ∷ xs) = refl

-- The sections of a lowered name.
abbrev lower_arn : Arn → Arn
lower_arn a = record {
  partition = to_lower a.partition;
  service = to_lower a.service;
  region = to_lower a.region;
  account_id = to_lower a.account_id;
  resource = to_lower a.resource;
}

arn_text-lower_arn : (a : Arn) → arn_text (lower_arn a) ≡ to_lower (arn_text a)
unfolding arn_text to_lower
arn_text-lower_arn a = simp (to_lower-append)

role_arn-to_lower :
    (partition account role : String)
    → to_lower (role_arn partition account role)
      ≡ role_arn (to_lower partition) (to_lower account) (to_lower role)
unfolding role_arn to_lower
role_arn-to_lower partition account role = simp (to_lower-append)

assumed_role-to_lower :
    (role session : String)
    → to_lower (assumed_role role session) ≡ assumed_role (to_lower role) (to_lower session)
unfolding to_lower
assumed_role-to_lower role session = simp (to_lower-append)

known_kind :
    (kind : String)
    → member ("role" ∷ "user" ∷ "root" ∷ []) kind ≡ true
    → member ("role" ∷ "user" ∷ "root" ∷ []) (to_lower kind) ≡ true
unfolding to_lower
known_kind kind h = elim (str_cases "role" kind) [
  | inl (_, e) ↦ rw (← e) refl
  | inr (no_role, _) ↦ elim (str_cases "user" kind) [
    | inl (_, e) ↦ rw (← e) refl
    | inr (no_user, _) ↦ elim (str_cases "root" kind) [
      | inl (_, e) ↦ rw (← e) refl
      | inr (no_root, _) ↦ absurd (ground arith)
    ]
  ]
]

lowered_kind :
    (a : Arn) (kind : String)
    → first_part (split a.resource slash) ≡ kind
    → first_part (split (to_lower a.resource) slash) ≡ to_lower kind
lowered_kind a kind h =
    rw (split-to_lower a.resource slash (omega arith))
      (first_part-to_lower (split a.resource slash) ∙ ap to_lower h)

lower_arn-Accepts :
    (a : Arn) (arn t : String) → Accepts a arn t → Accepts (lower_arn a) (to_lower arn) (to_lower t)
unfolding to_lower
lower_arn-Accepts a arn t (federated sts user e) =
    federated (ap to_lower sts) (lowered_kind a "federated-user" user) (ap to_lower e)
lower_arn-Accepts a arn t (identity iam kind e) =
    identity (ap to_lower iam)
      (rw (lowered_kind a _ refl) (known_kind (first_part (split a.resource slash)) kind))
      (ap to_lower e)
lower_arn-Accepts a arn t (assumed role session sts e free e') =
    assumed (to_lower role) (to_lower session) (ap to_lower sts)
      (ap to_lower e ∙ assumed_role-to_lower role session)
      (to_lower-Free slash session (omega arith) free)
      (ap to_lower e' ∙ role_arn-to_lower a.partition a.account_id role)

module _ (sdk : Sdk) (laws : ParsesArns sdk) where
  lowered_parse :
      (arn : String) (a : Arn) → sdk.parse arn ≡ ok a → sdk.parse (to_lower arn) ≡ ok (lower_arn a)
  lowered_parse arn a parsed =
      let free = laws.sound_sections arn a parsed in
      rw (laws.sound_text arn a parsed, ← arn_text-lower_arn a)
        (laws.complete (lower_arn a) (record {
          partition = to_lower-Free colon a.partition (omega arith) free.partition;
          service = to_lower-Free colon a.service (omega arith) free.service;
          region = to_lower-Free colon a.region (omega arith) free.region;
          account_id = to_lower-Free colon a.account_id (omega arith) free.account_id;
        }))

  -- Where the ids of the partitions are in lower case, lowering a name and taking its canonical form
  -- may be done in either order: the canonical form of a lowered name is the lowered canonical form.
  pub canonicalize-to_lower :
      All (λ partition. to_lower partition ≡ partition) sdk.partitions
      → (arn t : String) → canonicalize sdk arn ≡ ok t
      → canonicalize sdk (to_lower arn) ≡ ok (to_lower t)
  canonicalize-to_lower lower arn t h =
      let (a, parsed, known, shape) = (canonicalize_iff sdk arn t).0 h in
      (canonicalize_iff sdk (to_lower arn) (to_lower t)).1 (
        lower_arn a,
        lowered_parse arn a parsed,
        rw
            (All-member (λ partition. to_lower partition ≡ partition) sdk.partitions a.partition
              lower known)
            known,
        lower_arn-Accepts a arn t shape,
      )
