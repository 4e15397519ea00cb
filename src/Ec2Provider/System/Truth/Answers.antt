-- ===== src/Ec2Provider/System/Truth/Answers.antt =====
-- What an answer of the API makes a lookup or a batch do.
use iam2kube.Shared.{
  String, ◌≡◌, refl, List, [], ◌∷◌, map, Result, ok, err, All, All-append, str_cases, inl, inr, ◌⊎◌,
}
use mathlib.Core.Path.{subst}
use iam2kube.Ec2Provider.{Provider, Instance, Output}
use iam2kube.Ec2Provider.Lookup.{
  unsets, place_after, instance_writes, output_writes, last_instance, last_output, answer_of_name,
}
use iam2kube.Ec2Provider.System.{
  Batch, asks, publishes, publish_instances, publish_output, batch_writes, answered, next_write,
}
use iam2kube.Ec2Provider.System.Truth.{
  WriteSays, AnswerSays, PlaceSays, BatchSays, InstanceSays, ResultSays, CacheSays,
  apply_write-CacheSays,
}

module _ (Says : String → String → Type 0) where
  instance_writes-says :
      (id : String) (is : List Instance)
      → All (InstanceSays Says) is
      → All (WriteSays Says) (instance_writes id is)
  unfolding instance_writes
  instance_writes-says id [] h = tt
  instance_writes-says id (i ∷ is) (p, h) = elim (str_cases i.instance_id id) [
    | inl (e, same) ↦
        rw e (subst (λ x. Says x i.private_dns_name) same p, (tt, instance_writes-says id is h))
    | inr (e, _) ↦ rw e (instance_writes-says id is h)
  ]

  output_writes-says :
      (id : String) (output : Output)
      → All (λ is. All (InstanceSays Says) is) output
      → All (WriteSays Says) (output_writes id output)
  unfolding output_writes
  output_writes-says id [] h = tt
  output_writes-says id (is ∷ output) (p, h) =
      All-append (WriteSays Says) (instance_writes id is) (output_writes id output)
        (instance_writes-says id is p) (output_writes-says id output h)

  -- The name found so far is empty or said.
  abbrev NameSays : String → String → Type 0
  NameSays id name = (name ≡ "") ⊎ Says id name

  last_instance-says :
      (id : String) (is : List Instance) (name : String)
      → All (InstanceSays Says) is
      → NameSays id name
      → NameSays id (last_instance id is name)
  unfolding last_instance
  last_instance-says id [] name h k = k
  last_instance-says id (i ∷ is) name (p, h) k = elim (str_cases i.instance_id id) [
    | inl (e, same) ↦ rw e (
        last_instance-says id is i.private_dns_name h
          (inr (subst (λ x. Says x i.private_dns_name) same p)))
    | inr (e, _) ↦ rw e (last_instance-says id is name h k)
  ]

  last_output-says :
      (id : String) (output : Output) (name : String)
      → All (λ is. All (InstanceSays Says) is) output
      → NameSays id name
      → NameSays id (last_output id output name)
  unfolding last_output
  last_output-says id [] name h k = k
  last_output-says id (is ∷ output) name (p, h) k =
      last_output-says id output (last_instance id is name) h (last_instance-says id is name p k)

  answer_of_name-says :
      (id name : String) → NameSays id name → AnswerSays Says id (answer_of_name name)
  answer_of_name-says id name h = elim (str_cases name "") [
    | inl (e, _) ↦ rw e tt
    | inr (e, apart) ↦ rw e (elim h [ inl empty ↦ absurd (apart empty) | inr said ↦ said ])
  ]

  pub place_after-says :
      (id : String) (result : Result String Output)
      → ResultSays Says result
      → PlaceSays Says id (place_after id result)
  unfolding place_after
  place_after-says id (err e) h = ((tt, tt), tt)
  place_after-says id (ok output) h = (
    output_writes-says id output h,
    answer_of_name-says id (last_output id output "") (last_output-says id output "" h (inl refl)),
  )

  publish_instances-says :
      (is : List Instance)
      → All (InstanceSays Says) is
      → All (WriteSays Says) (publish_instances is)
  unfolding publish_instances
  publish_instances-says [] h = tt
  publish_instances-says (i ∷ is) (p, h) = (p, publish_instances-says is h)

  publish_output-says :
      (output : Output)
      → All (λ is. All (InstanceSays Says) is) output
      → All (WriteSays Says) (publish_output output)
  unfolding publish_output
  publish_output-says [] h = tt
  publish_output-says (is ∷ output) (p, h) =
      All-append (WriteSays Says) (publish_instances is) (publish_output output)
        (publish_instances-says is p) (publish_output-says output h)

  map_unsets-says : (ids : List String) → All (WriteSays Says) (map unsets ids)
  map_unsets-says [] = tt
  map_unsets-says (id ∷ ids) = (tt, map_unsets-says ids)

  pub answered-says :
      (b : Batch) (result : Result String Output)
      → BatchSays Says b
      → ResultSays Says result
      → BatchSays Says (answered b result)
  unfolding batch_writes
  answered-says (asks ids) (err _) h k = map_unsets-says ids
  answered-says (asks ids) (ok output) h k =
      All-append (WriteSays Says) (publish_output output) (map unsets ids)
        (publish_output-says output k) (map_unsets-says ids)
  answered-says (publishes ws) result h k = h

  pub next_write-says :
      (b : Batch) (p : Provider)
      → CacheSays Says p
      → BatchSays Says b
      → let (next, q) = next_write b p in CacheSays Says q × BatchSays Says next
  next_write-says (asks ids) p says h = (says, tt)
  next_write-says (publishes []) p says h = (says, tt)
  next_write-says (publishes (w ∷ ws)) p says (first, more) =
      (apply_write-CacheSays Says w p says first, more)
