-- ===== src/Arn/Accepts.antt =====
-- Which names `Canonicalize` accepts, and what it makes of them.
use iam2kube.Shared.{
  String, ◌≡◌, sym, ap, ◌∙◌, ◌⊎◌, inl, inr, true, [], ◌∷◌, ok, err, ltb, length, member, Bool-cases,
  Result-cases, arith, ◌↔◌, str_cases,
}
use iam2kube.Shared.Text.{split, join}
use iam2kube.Shared.Text.Split.{Free, join-split, split-Free}
use iam2kube.Arn.Format.{Sdk, Arn}
use iam2kube.Arn.{
  first_part, middle, slash, role_arn, canonicalize_sts, canonicalize_iam, canonicalize_service,
  canonicalize,
}
use iam2kube.Arn.Assumed.{assumed_role, canonicalize_sts-assumed_role, assumed_parts}

-- The three shapes of an accepted name, told from its sections alone.
pub data Accepts (a : Arn) (arn t : String) : Type 0 where
  federated :
      a.service ≡ "sts"
      → first_part (split a.resource slash) ≡ "federated-user"
      → t ≡ arn
      → Accepts a arn t
  identity :
      a.service ≡ "iam"
      → member ("role" ∷ "user" ∷ "root" ∷ []) (first_part (split a.resource slash)) ≡ true
      → t ≡ arn
      → Accepts a arn t
  assumed :
      (role session : String)
      → a.service ≡ "sts"
      → a.resource ≡ assumed_role role session
      → Free slash session
      → t ≡ role_arn a.partition a.account_id role
      → Accepts a arn t

canonicalize_sts-Accepts :
    (arn : String) (a : Arn) (t : String)
    → a.service ≡ "sts"
    → canonicalize_sts arn a (split a.resource slash) ≡ ok t
    → Accepts a arn t
unfolding canonicalize_sts
canonicalize_sts-Accepts arn a t sts h =
    elim (str_cases (first_part (split a.resource slash)) "federated-user") [
      | inl (e, user) ↦ federated sts user (ground arith)
      | inr (e, _) ↦ elim (str_cases (first_part (split a.resource slash)) "assumed-role") [
        | inr (e', _) ↦ absurd (ground arith)
        | inl (e', role) ↦ elim (Bool-cases (ltb (length (split a.resource slash)) 3)) [
          | inl few ↦ absurd (ground arith)
          | inr enough ↦
              let (session, free, j) =
                assumed_parts (split a.resource slash) role enough (split-Free a.resource slash) in
              assumed (join (middle (split a.resource slash)) "/") session sts
                (sym (join-split a.resource slash) ∙ j) free (ground arith)
        ]
      ]
    ]

canonicalize_iam-Accepts :
    (arn : String) (a : Arn) (t : String)
    → a.service ≡ "iam"
    → canonicalize_iam arn a (split a.resource slash) ≡ ok t
    → Accepts a arn t
unfolding canonicalize_iam
canonicalize_iam-Accepts arn a t iam h = identity iam (ground arith) (ground arith)

canonicalize_service-Accepts :
    (arn : String) (a : Arn) (t : String) → canonicalize_service arn a ≡ ok t → Accepts a arn t
canonicalize_service-Accepts arn a t h = elim (str_cases a.service "sts") [
  | inl (e, sts) ↦
      canonicalize_sts-Accepts arn a t sts
        (unfold canonicalize_service in rw (e, canonicalize_service) at h)
  | inr (e, _) ↦ elim (str_cases a.service "iam") [
    | inl (e', iam) ↦
        canonicalize_iam-Accepts arn a t iam
          (unfold canonicalize_service in rw (e, e', canonicalize_service) at h)
    | inr (e', _) ↦ absurd (unfold canonicalize_service in ground arith)
  ]
]

accepted_service :
    (arn : String) (a : Arn) (t : String) → Accepts a arn t → canonicalize_service arn a ≡ ok t
unfolding canonicalize_service
accepted_service arn a t (federated sts user e) =
    rw (sts, canonicalize_service) (rw user (ap ok (sym e)))
accepted_service arn a t (identity iam kind e) =
    rw (iam, canonicalize_service) (rw kind (ap ok (sym e)))
accepted_service arn a t (assumed role session sts e free e') =
    rw (sts, canonicalize_service)
      (canonicalize_sts-assumed_role arn a role session e free ∙ ap ok (sym e'))

module _ (sdk : Sdk) where
  -- A name is accepted exactly when it parses, its partition is known and its sections have one of
  -- the three shapes; the result is the name itself, or the role of an assumed role.
  pub canonicalize_iff :
      (arn t : String)
      → (canonicalize sdk arn ≡ ok t) ↔ (
          (a : Arn) × (sdk.parse arn ≡ ok a)
          × (member sdk.partitions a.partition ≡ true)
          × Accepts a arn t)
  unfolding canonicalize
  canonicalize_iff arn t = (to (Result-cases (sdk.parse arn)), from)
    where
      to :
          ((a : Arn) × (sdk.parse arn ≡ ok a)) ⊎ ((e : String) × (sdk.parse arn ≡ err e))
          → canonicalize sdk arn ≡ ok t
          → (a : Arn) × (sdk.parse arn ≡ ok a)
            × (member sdk.partitions a.partition ≡ true)
            × Accepts a arn t
      to (inr (e, parsed)) h = absurd (ground arith)
      to (inl (a, parsed)) h = elim (Bool-cases (member sdk.partitions a.partition)) [
        | inr e ↦ absurd (ground arith)
        | inl e ↦
            (a, parsed, e, canonicalize_service-Accepts arn a t (rw (parsed, e, canonicalize) at h))
      ]

      from :
          (a : Arn) × (sdk.parse arn ≡ ok a)
            × (member sdk.partitions a.partition ≡ true)
            × Accepts a arn t
          → canonicalize sdk arn ≡ ok t
      from (a, parsed, known, shape) =
          rw (parsed, canonicalize) (rw known (accepted_service arn a t shape))
