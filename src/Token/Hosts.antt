-- ===== src/Token/Hosts.antt =====
-- pkg/token/token.go: `stsHostsForPartition`, `NewVerifier` and `verifyHost`. The table of
-- partitions with their endpoints, the resolution of an endpoint and the parser of URLs are
-- parameters. A Go map of true values is the list of its keys.
pub mod Laws
mod Tests
use iam2kube.Shared.{
  String, Bool, Option, none, some, List, [], ◌∷◌, Result, ok, err, if◌then◌else◌, member,
}
use iam2kube.Shared.Assoc.{lookup}
use iam2kube.Token.Query.{FormatProblem, unexpected_host}
use iam2kube.Token.Verify.{Request, Response, Verifier}
use text.Mathlib.Text.{◌==◌}

-- A partition: its id, and its services by their ids, each with the ids of its endpoints in the
-- order in which a run ranges over them.
pub record Partition : Type 0 where
  pub id : String
  pub services : List (String × List String)

-- `DefaultPartitions`, `ResolveEndpoint` with the regional option, and `url.Parse` with `Hostname`.
pub record Endpoints : Type 0 where
  pub partitions : List Partition
  pub resolve_endpoint : String → Result String String
  pub hostname : String → Result String String

-- The loop that looks for the partition.
pub find_partition : String → List Partition → Option Partition
find_partition id [] = none
find_partition id (p ∷ ps) = let rest = find_partition id ps in if id == p.id then some p else rest

-- One turn of the loop over the endpoints: those that do not resolve or parse are left out.
pub host_of : Endpoints → String → Option String
host_of sdk endpoint = elim (sdk.resolve_endpoint endpoint) [
  | err _ ↦ none
  | ok url ↦ elim (sdk.hostname url) [ err _ ↦ none | ok host ↦ some host ]
]

-- `validSTShostnames[host] = true`
abbrev pub add_host : Option String → List String → List String
add_host none hosts = hosts
add_host (some host) hosts = if member hosts host then hosts else host ∷ hosts

pub hosts_of : Endpoints → List String → List String → List String
hosts_of sdk hosts [] = hosts
hosts_of sdk hosts (e ∷ es) = hosts_of sdk (add_host (host_of sdk e) hosts) es

unfoldable pub sts_hosts_for_partition : Endpoints → String → List String
unfolding find_partition hosts_of host_of lookup
sts_hosts_for_partition sdk partition_id = elim (find_partition partition_id sdk.partitions) [
  | none ↦ []
  | some p ↦ elim (lookup "sts" p.services) [
    | none ↦ []
    | some endpoints ↦ hosts_of sdk [] endpoints
  ]
]

-- `NewVerifier`; the client, which follows no redirect, is an argument.
unfoldable pub new_verifier :
    Endpoints → (Request → Result String Response) → String → String → Verifier
unfolding sts_hosts_for_partition
new_verifier sdk send cluster_id partition_id = record {
  send = send;
  cluster_id = cluster_id;
  valid_sts_hostnames = sts_hosts_for_partition sdk partition_id;
}

-- `verifyHost`
unfoldable pub verify_host : Verifier → String → Result FormatProblem (Unit {0})
verify_host v host = if member v.valid_sts_hostnames host then ok tt else err (unexpected_host host)
