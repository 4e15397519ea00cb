-- ===== src/Arn/Tests.antt =====
-- Runs of `Canonicalize`, and its theorems at concrete names.
use iam2kube.Shared.{All, String, ◌≡◌, refl, ◌↔◌, true, List, [], ◌∷◌, ok, err, member}
use iam2kube.Arn.{ArnError, canonicalize, no_role, bad_service, unknown_partition}
use iam2kube.Arn.Format.{Arn}
use iam2kube.Arn.Accepts.{Accepts, canonicalize_iff}
use iam2kube.Arn.Canonical.{canonicalize_idem}
use iam2kube.Arn.Case.{canonicalize-to_lower}
use iam2kube.Shared.Text.{to_lower}
use iam2kube.Arn.Example.{sdk, sdk-ParsesArns, parse}

run : String → iam2kube.Shared.Result ArnError String
unfolding canonicalize parse
run = canonicalize sdk

canonicalize_tests :
    (run "arn:aws:iam::123456789012:user/Alice" ≡ ok "arn:aws:iam::123456789012:user/Alice")
    × (run "arn:aws-cn:sts::123456789012:assumed-role/path/Admin/Session"
        ≡ ok "arn:aws-cn:iam::123456789012:role/path/Admin")
    × (run "arn:aws:sts::123456789012:assumed-role/Admin"
        ≡ err (no_role "arn:aws:sts::123456789012:assumed-role/Admin"))
    × (run "arn:aws:s3:::bucket" ≡ err (bad_service "s3" "arn:aws:s3:::bucket"))
    × (run "arn:mars:iam::1:root" ≡ err (unknown_partition "arn:mars:iam::1:root"))
unfolding run
canonicalize_tests = (refl, refl, refl, refl, refl)

assumed_ok : canonicalize sdk "arn:aws:sts::1:assumed-role/Admin/s" ≡ ok "arn:aws:iam::1:role/Admin"
unfolding run
assumed_ok = refl

canonicalize_iff_example :
    (canonicalize sdk "arn:aws:sts::1:assumed-role/Admin/s" ≡ ok "arn:aws:iam::1:role/Admin") ↔ (
      (a : Arn) × (sdk.parse "arn:aws:sts::1:assumed-role/Admin/s" ≡ ok a)
      × (member sdk.partitions a.partition ≡ true)
      × Accepts a "arn:aws:sts::1:assumed-role/Admin/s" "arn:aws:iam::1:role/Admin")
canonicalize_iff_example =
    canonicalize_iff sdk "arn:aws:sts::1:assumed-role/Admin/s" "arn:aws:iam::1:role/Admin"

canonicalize_idem_example :
    canonicalize sdk "arn:aws:iam::1:role/Admin" ≡ ok "arn:aws:iam::1:role/Admin"
canonicalize_idem_example =
    canonicalize_idem sdk sdk-ParsesArns "arn:aws:sts::1:assumed-role/Admin/s"
      "arn:aws:iam::1:role/Admin" assumed_ok

lower_partitions : All (λ partition. to_lower partition ≡ partition) sdk.partitions
unfolding to_lower
lower_partitions = (refl, (refl, (refl, tt)))

canonicalize-to_lower_example :
    canonicalize sdk (to_lower "arn:aws:sts::1:assumed-role/Admin/s")
    ≡ ok (to_lower "arn:aws:iam::1:role/Admin")
canonicalize-to_lower_example =
    canonicalize-to_lower sdk sdk-ParsesArns lower_partitions "arn:aws:sts::1:assumed-role/Admin/s"
      "arn:aws:iam::1:role/Admin" assumed_ok
