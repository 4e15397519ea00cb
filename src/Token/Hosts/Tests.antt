-- ===== src/Token/Hosts/Tests.antt =====
-- The hosts of a concrete table of partitions.
use iam2kube.Shared.{
  String, ◌≡◌, refl, ◌<>◌, some, List, [], ◌∷◌, Result, ok, err, ◌↔◌, if◌then◌else◌,
}
use iam2kube.Shared.Assoc.{lookup}
use iam2kube.Token.Query.{unexpected_host}
use iam2kube.Token.Verify.{Request, Response}
use iam2kube.Token.Hosts.{
  Partition, Endpoints, find_partition, sts_hosts_for_partition, new_verifier, verify_host,
}
use iam2kube.Token.Hosts.Laws.{Resolves, verify_host_iff}
use text.Mathlib.Text.{◌==◌}

abbrev endpoints : Endpoints
endpoints = record {
  partitions =
      record { id = "aws"; services = ("ec2", "eu" ∷ []) ∷ ("sts", "eu" ∷ "moon" ∷ "us" ∷ []) ∷ [] }
      ∷ record { id = "aws-cn"; services = [] }
      ∷ [];
  resolve_endpoint = λ endpoint. if endpoint == "moon" then err "unknown" else ok endpoint;
  hostname = λ url. ok ("sts." <> url);
}

abbrev send : Request → Result String Response
send request = err "offline"

hosts_tests :
    (sts_hosts_for_partition endpoints "aws" ≡ "sts.us" ∷ "sts.eu" ∷ [])
    × (sts_hosts_for_partition endpoints "aws-cn" ≡ [])
    × (sts_hosts_for_partition endpoints "mars" ≡ [])
    × (verify_host (new_verifier endpoints send "cluster" "aws") "sts.eu" ≡ ok tt)
    × (verify_host (new_verifier endpoints send "cluster" "aws") "sts.moon"
        ≡ err (unexpected_host "sts.moon"))
unfolding sts_hosts_for_partition verify_host new_verifier
hosts_tests = (refl, refl, refl, refl, refl)

verify_host_iff_example :
    (verify_host (new_verifier endpoints send "cluster" "aws") "sts.eu" ≡ ok tt) ↔ (
      (p : Partition) × (find_partition "aws" endpoints.partitions ≡ some p)
      × (es : List String) × (lookup "sts" p.services ≡ some es)
      × Resolves endpoints "sts.eu" es)
verify_host_iff_example = verify_host_iff endpoints send "cluster" "aws" "sts.eu"
