-- ===== src/Ec2Provider/Lookup.antt =====
-- pkg/ec2provider/ec2provider.go: `GetPrivateDNSName`, one section under a lock at a time. Between two
-- turns of a lookup anything may happen to the maps; a sleep is no turn.
pub mod Ends
pub mod Alone
use iam2kube.Shared.{
  ℕ, zero, suc, String, Bool, true, false, Option, none, some, List, [], ◌∷◌, ◌++◌, Result, ok, err,
  ltb, if◌then◌else◌,
}
use iam2kube.Ec2Provider.{
  Provider, Instance, Output, LookupError, query_failed, not_found, is_request_in_flight,
  get_request_in_flight_size, get_private_dns_name_cache, set_private_dns_name_cache,
  set_request_in_flight, unset_request_in_flight, max_allowed_inflight_request,
}
use text.Mathlib.Text.{◌==◌}

abbrev pub total_iteration_for_wait_interval : ℕ
total_iteration_for_wait_interval = 100

-- A write to one of the two maps.
pub data Write : Type 0 where
  caches : String → String → Write
  unsets : String → Write

unfoldable pub apply_write : Write → Provider → Provider
unfolding set_private_dns_name_cache unset_request_in_flight
apply_write (caches id name) p = set_private_dns_name_cache id name p
apply_write (unsets id) p = unset_request_in_flight id p

-- What a lookup returns; `gave_up` is the error at the end of the wait loop.
pub data Answer : Type 0 where
  found : String → Answer
  fails : LookupError → Answer
  gave_up : Answer

-- Where a lookup stands: before it reads the cache, reads the set of requests, marks its own, counts
-- them, sends its id, or asks the API; in the wait loop with so many turns left; with writes to do
-- before it returns; or at its end.
pub data Place : Type 0 where
  reads_cache reads_flight marks counts sends asks_api : Place
  sleeps : ℕ → Place
  settles : List Write → Answer → Place
  returned : Answer → Place

abbrev pub or_answer : Option String → Place → Place
or_answer none place = place
or_answer (some name) place = returned (found name)

-- One turn of the lookup of an id: where it goes on, the maps after it, and the id that it sends. At
-- the call of the API it waits for the answer, and at its end it stays.
unfoldable pub go : String → Place → Provider → Place × Provider × List String
unfolding get_private_dns_name_cache is_request_in_flight set_request_in_flight
    get_request_in_flight_size apply_write
go id reads_cache p = (or_answer (get_private_dns_name_cache id p) reads_flight, p, [])
go id reads_flight p =
    ((if is_request_in_flight id p then sleeps total_iteration_for_wait_interval else marks), p, [])
go id marks p = (counts, set_request_in_flight id p, [])
go id counts p = (
  (if ltb max_allowed_inflight_request (get_request_in_flight_size p) then sends else asks_api),
  p,
  [],
)
go id sends p = (reads_cache, p, id ∷ [])
go id asks_api p = (asks_api, p, [])
go id (sleeps zero) p = (returned gave_up, p, [])
go id (sleeps (suc n)) p = (or_answer (get_private_dns_name_cache id p) (sleeps n), p, [])
go id (settles [] answer) p = (returned answer, p, [])
go id (settles (w ∷ ws) answer) p = (settles ws answer, apply_write w p, [])
go id (returned answer) p = (returned answer, p, [])

-- The writes of the loop over the instances of an answer, and the name that it ends with.
abbrev matched : String → Instance → List Write
matched id i = if i.instance_id == id then caches id i.private_dns_name ∷ unsets id ∷ [] else []

unfoldable pub instance_writes : String → List Instance → List Write
instance_writes id [] = []
instance_writes id (i ∷ is) = matched id i ++ instance_writes id is

unfoldable pub output_writes : String → Output → List Write
output_writes id [] = []
output_writes id (is ∷ output) = instance_writes id is ++ output_writes id output

abbrev pub name_after : String → Instance → String → String
name_after id i name = if i.instance_id == id then i.private_dns_name else name

unfoldable pub last_instance : String → List Instance → String → String
last_instance id [] name = name
last_instance id (i ∷ is) name = last_instance id is (name_after id i name)

unfoldable pub last_output : String → Output → String → String
last_output id [] name = name
last_output id (is ∷ output) name = last_output id output (last_instance id is name)

abbrev pub answer_of_name : String → Answer
answer_of_name name = if name == "" then fails not_found else found name

-- The place of a lookup once the API has answered.
unfoldable pub place_after : String → Result String Output → Place
unfolding output_writes instance_writes last_output last_instance
place_after id (err e) = settles (unsets id ∷ []) (fails (query_failed e))
place_after id (ok output) =
    settles (output_writes id output) (answer_of_name (last_output id output ""))
