-- ===== src/Ec2Provider.antt =====
-- pkg/ec2provider/ec2provider.go: the private DNS names of instances. A state holds the two maps,
-- each function is a section under one lock or a run of them; the answers of the EC2 API and the
-- clock are arguments. Sleeps and logs are left out; the channel of 8000 ids is in System.
pub mod Batch
pub mod Publish
pub mod Session
pub mod Lookup
pub mod System
mod Tests
use iam2kube.Shared.{
  ℕ, ◌-◌, ◌/◌, String, Bool, true, false, ◌&&◌, ◌||◌, Option, none, some, List, [], ◌∷◌, ◌++◌,
  Result, ok, err, if◌then◌else◌, length, ltb,
}
use iam2kube.Shared.Assoc.{lookup, insert, delete}
use text.Mathlib.Text.{◌==◌}

abbrev pub max_allowed_inflight_request : ℕ
max_allowed_inflight_request = 5

abbrev pub max_instances_batch_size : ℕ
max_instances_batch_size = 100

-- In milliseconds
abbrev pub max_wait_interval_for_batch : ℕ
max_wait_interval_for_batch = 200

-- `ec2ProviderImpl`: the cache, and the set of the ids whose request is in flight.
pub record Provider : Type 0 where
  pub private_dns_cache : List (String × String)
  pub in_flight : List (String × Bool)

-- What is read of an instance; a nil text reads as the empty one.
pub record Instance : Type 0 where
  pub instance_id : String
  pub private_dns_name : String

-- The reservations of a `DescribeInstancesOutput`.
abbrev pub Output : Type 0
Output = List (List Instance)

pub set_private_dns_name_cache : String → String → Provider → Provider
set_private_dns_name_cache id name p = record {
  private_dns_cache = insert id name p.private_dns_cache;
  in_flight = p.in_flight;
}

pub set_request_in_flight : String → Provider → Provider
set_request_in_flight id p = record {
  private_dns_cache = p.private_dns_cache;
  in_flight = insert id true p.in_flight;
}

pub unset_request_in_flight : String → Provider → Provider
unset_request_in_flight id p = record {
  private_dns_cache = p.private_dns_cache;
  in_flight = delete id p.in_flight;
}

-- `getRequestInFlightForInstanceId`
pub is_request_in_flight : String → Provider → Bool
is_request_in_flight id p = elim (lookup id p.in_flight) [ none ↦ false | some _ ↦ true ]

pub get_request_in_flight_size : Provider → ℕ
get_request_in_flight_size p = length p.in_flight

pub get_private_dns_name_cache : String → Provider → Option String
get_private_dns_name_cache id p = lookup id p.private_dns_cache

-- How a lookup goes on: it has its answer, waits for the answer to another request, hands the id to
-- the batches and starts anew, or asks the API for the one instance.
pub data Next : Type 0 where
  answers : String → Next
  waits queues asks : Next

-- `GetPrivateDNSName` up to the call of the API or the wait.
unfoldable pub begin_lookup : String → Provider → Next × Provider
unfolding is_request_in_flight get_private_dns_name_cache set_request_in_flight
    get_request_in_flight_size lookup insert
begin_lookup id p = elim (get_private_dns_name_cache id p) [
  | some name ↦ (answers name, p)
  | none ↦
      let marked = set_request_in_flight id p in
      if is_request_in_flight id p
      then (waits, p)
      else if ltb max_allowed_inflight_request (get_request_in_flight_size marked)
      then (queues, marked)
      else (asks, marked)
]

-- One instance of the answer, with the name found so far.
unfoldable pub visit : String → Instance → String × Provider → String × Provider
visit id i (name, p) =
    if i.instance_id == id
    then (
      i.private_dns_name,
      unset_request_in_flight id (set_private_dns_name_cache id i.private_dns_name p),
    )
    else (name, p)

-- The loops of `GetPrivateDNSName` over the answer.
unfoldable pub find_instance : String → List Instance → String × Provider → String × Provider
find_instance id [] found = found
find_instance id (i ∷ is) found = find_instance id is (visit id i found)

unfoldable pub find_in_reservations : String → Output → String × Provider → String × Provider
find_in_reservations id [] found = found
find_in_reservations id (is ∷ output) found =
    find_in_reservations id output (find_instance id is found)

pub data LookupError : Type 0 where
  query_failed : String → LookupError
  not_found : LookupError

-- `GetPrivateDNSName` from the answer of the API on.
unfoldable pub end_lookup :
    String → Result String Output → Provider → Result LookupError String × Provider
unfolding find_in_reservations find_instance visit unset_request_in_flight
    set_private_dns_name_cache insert delete
end_lookup id (err e) p = (err (query_failed e), unset_request_in_flight id p)
end_lookup id (ok output) p =
    let (name, q) = find_in_reservations id output ("", p) in
    if name == "" then (err not_found, q) else (ok name, q)

-- The loops of `getPrivateDnsAndPublishToCache`.
unfoldable pub cache_instances : List Instance → Provider → Provider
cache_instances [] p = p
cache_instances (i ∷ is) p =
    cache_instances is (set_private_dns_name_cache i.instance_id i.private_dns_name p)

unfoldable pub cache_reservations : Output → Provider → Provider
cache_reservations [] p = p
cache_reservations (is ∷ output) p = cache_reservations output (cache_instances is p)

unfoldable pub unset_all : List String → Provider → Provider
unset_all [] p = p
unset_all (id ∷ ids) p = unset_all ids (unset_request_in_flight id p)

unfoldable pub get_private_dns_and_publish_to_cache :
    Result String Output → List String → Provider → Provider
unfolding cache_reservations cache_instances unset_all set_private_dns_name_cache
    unset_request_in_flight insert delete
get_private_dns_and_publish_to_cache (err _) ids p = unset_all ids p
get_private_dns_and_publish_to_cache (ok output) ids p = unset_all ids (cache_reservations output p)

-- The variables of `StartEc2DescribeBatchProcessing`; times are nanoseconds.
pub record BatchLoop : Type 0 where
  pub start_time : ℕ
  pub instance_id_list : List String

-- What a turn of the loop meets: an id of the channel or none, and the two readings of the clock.
pub record Tick : Type 0 where
  pub received : Option String
  pub end_time : ℕ
  pub restart_time : ℕ

abbrev pub receive : List String → Option String → List String
receive ids none = ids
receive ids (some id) = ids ++ (id ∷ [])

-- The test that starts a batch.
pub is_due : ℕ → ℕ → List String → Bool
is_due start_time end_time ids =
    (ltb 0 (length ids) && ltb max_wait_interval_for_batch ((end_time - start_time) / 1_000_000))
    || ltb max_instances_batch_size (length ids)

-- One turn: the loop after it, and the ids of the batch that it starts.
unfoldable pub turn : Tick → BatchLoop → BatchLoop × Option (List String)
unfolding is_due
turn tick loop =
    let ids = receive loop.instance_id_list tick.received in
    if is_due loop.start_time tick.end_time ids
    then (record { start_time = tick.restart_time; instance_id_list = [] }, some ids)
    else (record { start_time = loop.start_time; instance_id_list = ids }, none)

-- `StartEc2DescribeBatchProcessing`, over any number of turns: the loop, and the batches in order.
unfoldable pub start_ec2_describe_batch_processing :
    List Tick → BatchLoop → BatchLoop × List (List String)
start_ec2_describe_batch_processing [] loop = (loop, [])
start_ec2_describe_batch_processing (tick ∷ ticks) loop =
    let (next, batch) = turn tick loop in
    let (last, batches) = start_ec2_describe_batch_processing ticks next in
    elim batch [ none ↦ (last, batches) | some ids ↦ (last, ids ∷ batches) ]
