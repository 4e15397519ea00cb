-- ===== src/Arn.antt =====
-- pkg/arn/arn.go: canonical forms of AWS resource names. `awsarn.Parse` and the table of partitions
-- are the SDK's, so they are a parameter.
pub mod Format
pub mod Assumed
pub mod Accepts
pub mod Canonical
pub mod Case
pub mod Example
mod Tests
use Prim.Native.Char.{Char}
use iam2kube.Shared.{
  ℕ, String, ◌<>◌, Bool, true, false, List, [], ◌∷◌, Result, ok, err, ◌>>=◌, ◌>>◌, refuse, ltb,
  length, not, member, if◌then◌else◌,
}
use iam2kube.Shared.Text.{split, join}
use text.Mathlib.Text.{◌==◌}
use iam2kube.Arn.Format.{Sdk, Arn}

-- The errors that `Canonicalize` returns, with the values that their messages quote.
pub data ArnError : Type 0 where
  invalid : String → String → ArnError
  unknown_partition : String → ArnError
  no_role : String → ArnError
  unrecognized_sts unrecognized_iam : String → ArnError
  bad_service : String → String → ArnError

-- `parts[0]`; `strings.Split` returns one part at least.
abbrev pub first_part : List String → String
first_part [] = ""
first_part (x ∷ xs) = x

-- `parts[:len(parts)-1]`
pub drop_last : List String → List String
drop_last [] = []
drop_last (x ∷ []) = []
drop_last (x ∷ y ∷ xs) = x ∷ drop_last (y ∷ xs)

-- `parts[1:len(parts)-1]`
abbrev pub middle : List String → List String
middle [] = []
middle (x ∷ xs) = drop_last xs

abbrev pub slash : Char
slash = "/"

-- `fmt.Sprintf("arn:%s:iam::%s:role/%s", …)`
pub role_arn : String → String → String → String
role_arn partition account role =
    "arn:" <> (partition <> (":iam::" <> (account <> (":role/" <> role))))

-- The cases of service "sts"
pub canonicalize_sts : String → Arn → List String → Result ArnError String
canonicalize_sts arn parsed parts =
    if first_part parts == "federated-user"
    then ok arn
    else if first_part parts == "assumed-role"
    then if ltb (length parts) 3
      then err (no_role arn)
      else ok (role_arn parsed.partition parsed.account_id (join (middle parts) "/"))
    else err (unrecognized_sts parsed.resource)

-- The cases of service "iam"
pub canonicalize_iam : String → Arn → List String → Result ArnError String
canonicalize_iam arn parsed parts =
    if member ("role" ∷ "user" ∷ "root" ∷ []) (first_part parts)
    then ok arn
    else err (unrecognized_iam parsed.resource)

-- The `switch` on the service
pub canonicalize_service : String → Arn → Result ArnError String
unfolding canonicalize_sts canonicalize_iam
canonicalize_service arn parsed =
    let parts = split parsed.resource slash in
    if parsed.service == "sts"
    then canonicalize_sts arn parsed parts
    else if parsed.service == "iam"
    then canonicalize_iam arn parsed parts
    else err (bad_service parsed.service arn)

module _ (sdk : Sdk) where
  -- `checkPartition`
  check_partition : String → Bool
  check_partition partition = member sdk.partitions partition

  unfoldable pub canonicalize : String → Result ArnError String
  unfolding check_partition canonicalize_service split join drop_last role_arn
  canonicalize arn = elim (sdk.parse arn) [
    | err e ↦ err (invalid arn e)
    | ok parsed ↦
        if check_partition parsed.partition
        then canonicalize_service arn parsed
        else err (unknown_partition arn)
  ]
