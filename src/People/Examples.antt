-- ===== src/People/Examples.antt =====
-- An identity is named, and then merged into one that has another person.
use face_identify.Prelude.{String, ◌≢◌, none, some, List, [], ◌∷◌, arith}
use face_identify.Database.{Uuid}
use face_identify.Identities.Model.{IdentityState, Identity, Tables}
use face_identify.Identities.Changes.{merge}
use face_identify.Identities.Merge.{MergeIds}
use face_identify.People.{NameIds}
use face_identify.People.Actions.{AreLinked}
use face_identify.People.History.{
  Action, change, assign_person, remove_person, name, rename, act_all, act_all-AreLinked,
}

abbrev unnamed : Uuid → Identity
unnamed id = record {
  id = id;
  state = IdentityState.active;
  created_by_processing_run_id = none;
  representative_observation_id = none;
  merged_into_identity_id = none;
  revision = 1;
  created_at = 10;
  activated_at = some 10;
  forgotten_at = none;
  updated_at = 10;
}

abbrev two_identities : Tables
two_identities = record {
  identities = unnamed 1 ∷ unnamed 2 ∷ [];
  representations = [];
  occurrences = [];
  members = [];
  people = [];
  associations = [];
  evidence = [];
  evidence_links = [];
  lineage = [];
  sequences = [];
  operations = [];
}

different : (unnamed 1).id ≢ (unnamed 2).id
different e = omega (arith, e)

two_identities-AreLinked : AreLinked two_identities
two_identities-AreLinked = (((different, tt), (tt, tt)), ((λ id. omega arith), tt))

abbrev as_it_is : String → String
as_it_is s = s

abbrev first_name : NameIds
first_name = record { person_id = 31; evidence_id = 41; association_id = 51 }

abbrev second_name : NameIds
second_name = record { person_id = 32; evidence_id = 42; association_id = 52 }

abbrev merge_ids : MergeIds
merge_ids = record { link_evidence_id = 43; association_id = 53; evidence_id = 44; lineage_id = 45 }

abbrev actions : List Action
actions =
    name 1 "Ada" first_name 20 21
    ∷ name 2 "Grace" second_name 22 23
    ∷ rename 31 "Ada L." 1 46 24
    ∷ change (merge 1 2 2 none merge_ids 25 26 1)
    ∷ assign_person 2 31 47 54 27 1
    ∷ remove_person 2 48 28 1
    ∷ []

act_all-AreLinked_example : AreLinked (act_all as_it_is as_it_is actions two_identities)
act_all-AreLinked_example =
    act_all-AreLinked as_it_is as_it_is actions two_identities two_identities-AreLinked
