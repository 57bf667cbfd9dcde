-- ===== src/People/History.antt =====
-- Sequences of the use cases of backend/app/people/use_cases.py and of
-- backend/app/identities/use_cases.py, each committed or rolled back.
use mathlib.Core.Path.{subst}
use face_identify.Prelude.{
  ℕ, String, ◌≡◌, refl, sym, true, not, Option, none, some, List, [], ◌∷◌, ◌==◌,
}
use face_identify.Database.{Uuid, Datetime, optimistic_locked_update}
use face_identify.Identities.Model.{
  Identity, IdentityPersonAssociation, Person, person_versioned, Tables, refused, Result, ok, ◌>>=◌,
  ◌>>◌, need, get_identity, active_row,
}
use face_identify.Identities.{assigned}
use face_identify.Identities.Merge.{
  MergeIds, active_association, superseded_row, carry_over, reconcile_found, reconcile_person,
}
use face_identify.Identities.Results.{ok-then, ok-bind}
use face_identify.Identities.Coherence.{merge_identities-inverts}
use face_identify.Identities.Assignment.{assign-inverts}
use face_identify.Identities.Division.{split_identity-inverts}
use face_identify.Identities.Changes.{
  Change, create, activate, assign, touch, split, merge, step, with_identities, committed,
}
use face_identify.Identities.History.{
  with_identities-inverts, step-Moves, Moves-HasUniqueIds, committed-keeps,
}
use face_identify.People.{
  get_person, assign_identity_to_person, remove_identity_from_person, NameIds, no_link,
  insert_person, named_person, name_identity, rename_conflict, rename_evidence, rename_person,
}
use face_identify.People.Names.{is_empty_name}
use face_identify.People.Counts.{IsLinkTable, none-count}
use face_identify.People.Links.{superseded_row-IsEnder, ended-IsLinkTable, append-IsLinkTable}
use face_identify.People.Actions.{
  AreLinked, assign_identity_to_person-AreLinked, remove_identity_from_person-AreLinked,
  insert_person-AreLinked, rename_evidence-AreLinked,
}

-- The link that a merge carries over is the only one of the survivor.
reconcile_person-IsLinkTable :
    (losing surviving : Uuid) (ids : MergeIds) (now : Datetime) (t : Tables)
    → IsLinkTable t.associations
    → IsLinkTable (reconcile_person losing surviving ids now t).associations
unfolding reconcile_person
reconcile_person-IsLinkTable losing surviving ids now t links =
    found (active_association losing t.associations)
  where
    carried :
        (a : IdentityPersonAssociation) (o : Option IdentityPersonAssociation)
        → active_association surviving t.associations ≡ o
        → IsLinkTable (carry_over losing surviving ids now a o t).associations
    carried a (some b) e = links
    carried a none e =
        append-IsLinkTable ids.association_id ids.link_evidence_id surviving a.person_id now
          t.associations links (none-count surviving t.associations e)

    found :
        (o : Option IdentityPersonAssociation)
        → IsLinkTable (reconcile_found losing surviving ids now o t).associations
    found none = links
    found (some a) =
        ended-IsLinkTable (λ x. x.id == a.id) (superseded_row now)
          (carry_over losing surviving ids now a (active_association surviving t.associations)
            t).associations
          (superseded_row-IsEnder now)
          (carried a (active_association surviving t.associations) refl)

with_identities-IsLinkTable :
    (t after : Tables) (r : Result (List Identity))
    → IsLinkTable t.associations
    → with_identities t r ≡ ok after
    → IsLinkTable after.associations
with_identities-IsLinkTable t after r links h =
    subst (λ (x : Tables). IsLinkTable x.associations) (with_identities-inverts t after r h).2 links

step-IsLinkTable :
    (c : Change) (t after : Tables)
    → AreLinked t
    → step c t ≡ ok after
    → IsLinkTable after.associations
unfolding step assigned
step-IsLinkTable (create _ _ _ _ _) t after l h = with_identities-IsLinkTable t after _ l.1 h
step-IsLinkTable (activate _ _ _) t after l h = with_identities-IsLinkTable t after _ l.1 h
step-IsLinkTable (touch _ _ _) t after l h = with_identities-IsLinkTable t after _ l.1 h
step-IsLinkTable (assign representation_id identity_id evidence_id operation_id now kind source_id)
      t after l h =
    subst (λ (x : Tables). IsLinkTable x.associations)
      (assign-inverts representation_id identity_id evidence_id operation_id now kind source_id t
        after h).result
      l.1
step-IsLinkTable (split source_id selected expected ids now version) t after l h =
    subst IsLinkTable
      (sym
        (split_identity-inverts source_id selected expected ids now version t after h).links_kept)
      l.1
step-IsLinkTable (merge losing surviving expected expected_survivor ids earlier now version) t after
      l h =
    subst IsLinkTable
      (sym
        (merge_identities-inverts losing surviving expected expected_survivor ids earlier now
          version t after l.0 h).3)
      (reconcile_person-IsLinkTable losing surviving ids earlier t l.1)

step-AreLinked :
    (c : Change) (t after : Tables) → AreLinked t → step c t ≡ ok after → AreLinked after
step-AreLinked c t after l h = (
  Moves-HasUniqueIds c t after l.0 (step-Moves c t after l.0 h).0,
  step-IsLinkTable c t after l h,
)

pub data Action : Type 0 where
  change : Change → Action
  assign_person : Uuid → Uuid → Uuid → Uuid → Datetime → ℕ → Action
  remove_person : Uuid → Uuid → Datetime → ℕ → Action
  name : Uuid → String → NameIds → Datetime → Datetime → Action
  rename : Uuid → String → ℕ → Uuid → Datetime → Action

module _ (strip casefold : String → String) where
  unfoldable pub act : Action → Tables → Result Tables
  unfolding step assign_identity_to_person remove_identity_from_person name_identity rename_person
  act (change c) t = step c t
  act (assign_person identity_id person_id evidence_id association_id now version) t =
      assign_identity_to_person identity_id person_id evidence_id association_id now version t
  act (remove_person identity_id evidence_id now version) t =
      remove_identity_from_person identity_id evidence_id now version t
  act (name identity_id display_name ids now later) t =
      name_identity strip casefold identity_id display_name ids now later t
  act (rename person_id display_name expected evidence_id now) t =
      rename_person strip casefold person_id display_name expected evidence_id now t

  unfoldable pub act_all : List Action → Tables → Tables
  unfolding act
  act_all [] t = t
  act_all (a ∷ actions) t = act_all actions (committed t (act a t))

  name_identity-AreLinked :
      (identity_id : Uuid) (display_name : String) (ids : NameIds) (now later : Datetime)
      (t after : Tables)
      → AreLinked t
      → name_identity strip casefold identity_id display_name ids now later t ≡ ok after
      → AreLinked after
  unfolding name_identity
  name_identity-AreLinked identity_id display_name ids now later t after l h =
      let person : Person = named_person strip casefold ids.person_id (strip display_name) now in
      let insert : Result Tables = insert_person (get_person ids.person_id t.people) person t in
      let finish : Tables → Result Tables = λ x.
        assign_identity_to_person identity_id ids.person_id ids.evidence_id ids.association_id later
          1 x in
      let check : Identity → Result Tables = λ i.
        need (no_link (active_association identity_id t.associations)) refused
        >> (insert >>= finish) in
      let (_, h1) =
        ok-then (not (is_empty_name (strip display_name))) refused
          (active_row (get_identity identity_id t.identities) >>= check) after h in
      let (i, _, h2) =
        ok-bind (active_row (get_identity identity_id t.identities)) check after h1 in
      let (_, h3) =
        ok-then (no_link (active_association identity_id t.associations)) refused
          (insert >>= finish) after h2 in
      let (x, e, h4) = ok-bind insert finish after h3 in
      assign_identity_to_person-AreLinked identity_id ids.person_id ids.evidence_id
        ids.association_id later 1 x after
        (insert_person-AreLinked (get_person ids.person_id t.people) person t x l e) h4

  rename_person-AreLinked :
      (person_id : Uuid) (display_name : String) (expected : ℕ) (evidence_id : Uuid)
      (now : Datetime) (t after : Tables)
      → AreLinked t
      → rename_person strip casefold person_id display_name expected evidence_id now t ≡ ok after
      → AreLinked after
  unfolding rename_person
  rename_person-AreLinked person_id display_name expected evidence_id now t after l h =
      let updated : List Person × ℕ =
        optimistic_locked_update person_id expected
          (λ p. record p {
            display_name = strip display_name;
            normalized_name = some (casefold (strip display_name));
            updated_at = now;
          })
          (λ p. true) t.people in
      let renamed : Tables = record t { people = updated.0 } in
      let finish : Result Tables =
        rename_evidence evidence_id expected (get_person person_id updated.0) renamed in
      let (_, h1) =
        ok-then (not (is_empty_name (strip display_name))) refused
          (need (not (updated.1 == 0)) (rename_conflict (get_person person_id t.people)) >> finish)
          after h in
      let (_, h2) =
        ok-then (not (updated.1 == 0)) (rename_conflict (get_person person_id t.people)) finish
          after h1 in
      rename_evidence-AreLinked evidence_id expected (get_person person_id updated.0) renamed after
        l h2

  act-AreLinked :
      (a : Action) (t after : Tables) → AreLinked t → act a t ≡ ok after → AreLinked after
  unfolding act
  act-AreLinked (change c) t after l h = step-AreLinked c t after l h
  act-AreLinked (assign_person identity_id person_id evidence_id association_id now version) t after
        l h =
      assign_identity_to_person-AreLinked identity_id person_id evidence_id association_id now
        version t after l h
  act-AreLinked (remove_person identity_id evidence_id now version) t after l h =
      remove_identity_from_person-AreLinked identity_id evidence_id now version t after l h
  act-AreLinked (name identity_id display_name ids now later) t after l h =
      name_identity-AreLinked identity_id display_name ids now later t after l h
  act-AreLinked (rename person_id display_name expected evidence_id now) t after l h =
      rename_person-AreLinked person_id display_name expected evidence_id now t after l h

  -- After any sequence of the use cases of people (linking, unlinking, naming, renaming) and of
  -- identities, merges among them, each committed or rolled back: the ids of identities differ, an
  -- identity has at most one ACTIVE link to a person, and a link is ACTIVE exactly when it has no
  -- end, where this held at first.
  pub act_all-AreLinked :
      (actions : List Action) (t : Tables) → AreLinked t → AreLinked (act_all actions t)
  unfolding act_all
  act_all-AreLinked [] t l = l
  act_all-AreLinked (a ∷ actions) t l =
      act_all-AreLinked actions (committed t (act a t))
        (committed-keeps AreLinked t (act a t) l (λ after h. act-AreLinked a t after l h))
