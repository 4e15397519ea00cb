-- ===== src/Ec2Provider/System/Tests.antt =====
-- Runs of lookups and batches, and their theorems at concrete events.
use iam2kube.Shared.{String, ◌≡◌, refl, true, false, some, List, [], ◌∷◌, ok, arith}
use iam2kube.Shared.Assoc.{lookup, insert, delete}
use iam2kube.Ec2Provider.{Provider, Output, is_request_in_flight}
use iam2kube.Ec2Provider.Lookup.{found, sleeps, returned, asks_api}
use iam2kube.Ec2Provider.Lookup.Ends.{comes_to_rest, comes_to_rest_within}
use iam2kube.Ec2Provider.System.{
  Lookup, Event, looks_up, goes_on, answers_lookup, run, new_world, get_elem?,
}
use iam2kube.Ec2Provider.System.Cared.{is_cared}
use iam2kube.Ec2Provider.System.Invariant.{run_in_flight-is_cared}
use iam2kube.Ec2Provider.System.Truth.Runs.{run-returned}

abbrev output : Output
output = (record { instance_id = "i-1"; private_dns_name = "ip-1" } ∷ []) ∷ []

-- One lookup up to its call of the API, and a second of the same id, which waits.
abbrev asking : List Event
asking =
    looks_up "i-1"
    ∷ goes_on 0
    ∷ goes_on 0
    ∷ goes_on 0
    ∷ goes_on 0
    ∷ looks_up "i-1"
    ∷ goes_on 1
    ∷ goes_on 1
    ∷ []

-- The first gets its answer and returns, then the second finds the name in the cache.
abbrev both : List Event
both =
    looks_up "i-1"
    ∷ goes_on 0
    ∷ goes_on 0
    ∷ goes_on 0
    ∷ goes_on 0
    ∷ looks_up "i-1"
    ∷ goes_on 1
    ∷ goes_on 1
    ∷ answers_lookup 0 (ok output)
    ∷ goes_on 0
    ∷ goes_on 0
    ∷ goes_on 0
    ∷ goes_on 1
    ∷ []

abbrev second : Lookup
second = record { id = "i-1"; place = returned (found "ip-1") }

system_tests :
    (is_request_in_flight "i-1" (run asking (new_world 0)).provider ≡ true)
    × (get_elem? (run both (new_world 0)).lookups 0 ≡ some second)
    × (get_elem? (run both (new_world 0)).lookups 1 ≡ some second)
    × (is_request_in_flight "i-1" (run both (new_world 0)).provider ≡ false)
unfolding run is_request_in_flight lookup insert delete
system_tests = (refl, refl, refl, refl)

-- Two lookups of one id both find it free, and both ask the API.
abbrev racing : List Event
racing =
    looks_up "i-1"
    ∷ looks_up "i-1"
    ∷ goes_on 0
    ∷ goes_on 0
    ∷ goes_on 1
    ∷ goes_on 1
    ∷ goes_on 0
    ∷ goes_on 0
    ∷ goes_on 1
    ∷ goes_on 1
    ∷ []

race_test :
    (run racing (new_world 0)).lookups
    ≡ record { id = "i-1"; place = asks_api } ∷ record { id = "i-1"; place = asks_api } ∷ []
unfolding run is_request_in_flight lookup insert delete
race_test = refl

run_in_flight-is_cared_example : is_cared "i-1" (run asking (new_world 0)) ≡ true
run_in_flight-is_cared_example = run_in_flight-is_cared 0 asking "i-1" system_tests.0

-- What the API may say: this name for this id.
abbrev MaySay : String → String → Type 0
MaySay id name = (id ≡ "i-1") × (name ≡ "ip-1")

run-returned_example : MaySay "i-1" "ip-1"
run-returned_example =
    run-returned MaySay 0 both 1 second "ip-1"
      (
        tt,
        (
          tt,
          (
            tt,
            (tt, (tt, (tt, (tt, (tt, ((((refl, refl), tt), tt), (tt, (tt, (tt, (tt, tt)))))))))),
          ),
        ),
      )
      system_tests.2 refl

abbrev busy : Provider
busy = record { private_dns_cache = []; in_flight = ("i-1", true) ∷ [] }

comes_to_rest_within_example : comes_to_rest "i-1" (sleeps 1) (busy ∷ busy ∷ []) ≡ true
comes_to_rest_within_example =
    comes_to_rest_within "i-1" (sleeps 1) (busy ∷ busy ∷ []) (omega arith)
