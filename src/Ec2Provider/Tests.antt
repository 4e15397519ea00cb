-- ===== src/Ec2Provider/Tests.antt =====
-- Runs of the provider, and its theorems at concrete answers.
use text.Mathlib.Text.{◌==◌}
use iam2kube.Shared.{
  ◌≡◌, refl, ◌≤◌, true, none, some, List, [], ◌∷◌, ◌++◌, ok, err, if◌then◌else◌, length, All, arith,
}
use iam2kube.Shared.Assoc.{lookup}
use iam2kube.Mapper.Last.{later}
use iam2kube.Ec2Provider.{
  Provider, Output, answers, waits, queues, asks, begin_lookup, not_found, end_lookup, BatchLoop,
  Tick, turn, start_ec2_describe_batch_processing,
}
use iam2kube.Ec2Provider.Batch.{concat, received_ids, batch_conserves, batch_sizes, HasBatchSize}
use iam2kube.Ec2Provider.Publish.{described, end_lookup_effects}

abbrev empty : Provider
empty = record { private_dns_cache = []; in_flight = [] }

abbrev busy : Provider
busy = record {
  private_dns_cache = ("i-9", "nine") ∷ [];
  in_flight = ("i-1", true) ∷ ("i-2", true) ∷ ("i-3", true) ∷ ("i-4", true) ∷ ("i-5", true) ∷ [];
}

abbrev one : Output
one = (record { instance_id = "i-1"; private_dns_name = "one" } ∷ []) ∷ []

lookup_tests :
    ((begin_lookup "i-9" busy).0 ≡ answers "nine")
    × ((begin_lookup "i-1" busy).0 ≡ waits)
    × ((begin_lookup "i-6" busy).0 ≡ queues)
    × ((begin_lookup "i-6" empty).0 ≡ asks)
    × ((end_lookup "i-1" (ok one) busy).0 ≡ ok "one")
    × ((end_lookup "i-2" (ok one) busy).0 ≡ err not_found)
unfolding begin_lookup end_lookup
lookup_tests = (refl, refl, refl, refl, refl, refl)

-- A lookup whose instance is not in the answer leaves its id in flight, and every later lookup of it
-- only waits.
id_stays_in_flight :
    (begin_lookup "i-7" (end_lookup "i-7" (ok one) (begin_lookup "i-7" empty).1).1).0 ≡ waits
unfolding begin_lookup end_lookup
id_stays_in_flight = refl

end_lookup_effects_example :
    ((end_lookup "i-2" (ok one) busy).0 ≡ (elim (described "i-2" one) [
      | none ↦ err not_found
      | some name ↦ if name == "" then err not_found else ok name
    ]))
    × (lookup "i-2" (end_lookup "i-2" (ok one) busy).1.in_flight
        ≡ (elim (described "i-2" one) [ none ↦ lookup "i-2" busy.in_flight | some _ ↦ none ]))
    × (lookup "i-2" (end_lookup "i-2" (ok one) busy).1.private_dns_cache
        ≡ later (described "i-2" one) (lookup "i-2" busy.private_dns_cache))
end_lookup_effects_example = end_lookup_effects "i-2" one busy

abbrev start : BatchLoop
start = record { start_time = 0; instance_id_list = [] }

abbrev ticks : List Tick
ticks =
    record { received = some "i-1"; end_time = 100_000_000; restart_time = 100_000_000 }
    ∷ record { received = some "i-2"; end_time = 201_000_000; restart_time = 202_000_000 }
    ∷ record { received = some "i-3"; end_time = 203_000_000; restart_time = 203_000_000 }
    ∷ []

batch_tests : start_ec2_describe_batch_processing ticks start ≡ (
  record { start_time = 202_000_000; instance_id_list = "i-3" ∷ [] },
  ("i-1" ∷ "i-2" ∷ []) ∷ [],
)
unfolding start_ec2_describe_batch_processing turn
batch_tests = refl

batch_conserves_example :
    concat (start_ec2_describe_batch_processing ticks start).1
      ++ (start_ec2_describe_batch_processing ticks start).0.instance_id_list
    ≡ [] ++ received_ids ticks
batch_conserves_example = batch_conserves ticks start

batch_sizes_example :
    All HasBatchSize (start_ec2_describe_batch_processing ticks start).1
    × (length (start_ec2_describe_batch_processing ticks start).0.instance_id_list ≤ 100)
batch_sizes_example = batch_sizes ticks start (omega arith)
