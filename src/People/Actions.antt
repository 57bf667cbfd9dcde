-- ===== src/People/Actions.antt =====
-- Sequences of the use cases of people and of identities: the links that they leave.
use mathlib.Core.Path.{subst}
use face_identify.Prelude.{ℕ, ◌≡◌, refl, ap, not, Option, none, some}
use face_identify.Database.{Uuid, Datetime}
use face_identify.Identities.Model.{
  Identity, IdentityPersonAssociation, Person, person_versioned, Tables, refused, Result, ok, ◌>>=◌,
  ◌>>◌, need, get_identity, active_row,
}
use face_identify.Identities.Merge.{active_association, superseded_row}
use face_identify.Identities.Results.{ok-injective, ok-then, ok-bind}
use face_identify.Identities.Rows.{HasUniqueIds, touched-IsTouch}
use face_identify.People.{
  get_person, active_person, is_linked_to, link, assign_identity_to_person, unlink, current_link,
  asserted_row, removed_row, remove_identity_from_person, insert_person, rename_evidence,
}
use face_identify.People.Counts.{IsLinkTable}
use face_identify.People.Links.{
  superseded_row-IsEnder, removed_row-IsEnder, end_link-IsLinkTable, append-IsLinkTable,
}

-- What every use case keeps.
abbrev pub AreLinked : Tables → Type 0
AreLinked t = HasUniqueIds t.identities × IsLinkTable t.associations

link-AreLinked :
    (identity_id person_id evidence_id association_id : Uuid) (now : Datetime) (version : ℕ)
    (t : Tables)
    → AreLinked t
    → AreLinked (
        link identity_id person_id evidence_id association_id now version
          (active_association identity_id t.associations)
          t)
unfolding link
link-AreLinked identity_id person_id evidence_id association_id now version t (u, links) =
    let (ended, free) =
      end_link-IsLinkTable identity_id (superseded_row now)
        (active_association identity_id t.associations) t.associations (superseded_row-IsEnder now)
        refl links in
    (
      (touched-IsTouch none now identity_id t.identities).0 u,
      append-IsLinkTable association_id evidence_id identity_id person_id now _ ended free,
    )

pub assign_identity_to_person-AreLinked :
    (identity_id person_id evidence_id association_id : Uuid) (now : Datetime) (version : ℕ)
    (t after : Tables)
    → AreLinked t
    → assign_identity_to_person identity_id person_id evidence_id association_id now version t
      ≡ ok after
    → AreLinked after
unfolding assign_identity_to_person
assign_identity_to_person-AreLinked identity_id person_id evidence_id association_id now version t
      after l h =
    let current : Option IdentityPersonAssociation =
      active_association identity_id t.associations in
    let finish : Result Tables =
      ok (link identity_id person_id evidence_id association_id now version current t) in
    let check : Person → Result Tables =
      λ person. need (not (is_linked_to person_id current)) refused >> finish in
    let read : Identity → Result Tables =
      λ identity. active_person (get_person person_id t.people) >>= check in
    let (i, _, h1) = ok-bind (active_row (get_identity identity_id t.identities)) read after h in
    let (p, _, h2) = ok-bind (active_person (get_person person_id t.people)) check after h1 in
    let (_, h3) = ok-then (not (is_linked_to person_id current)) refused finish after h2 in
    subst AreLinked (ok-injective _ after h3)
      (link-AreLinked identity_id person_id evidence_id association_id now version t l)

unlink-AreLinked :
    (identity_id evidence_id : Uuid) (now : Datetime) (version : ℕ) (a : IdentityPersonAssociation)
    (t : Tables)
    → active_association identity_id t.associations ≡ some a
    → AreLinked t
    → AreLinked (unlink identity_id evidence_id now version a t)
unfolding unlink
unlink-AreLinked identity_id evidence_id now version a t e (u, links) = (
  (touched-IsTouch none now identity_id t.identities).0 u,
  (end_link-IsLinkTable identity_id (removed_row now) (some a) t.associations
      (removed_row-IsEnder now) e links).0,
)

current_link-inverts :
    (o : Option IdentityPersonAssociation) (a : IdentityPersonAssociation)
    → current_link o ≡ ok a
    → o ≡ some a
current_link-inverts none a h = absurd (cc)
current_link-inverts (some b) a h = ap some (ok-injective b a h)

pub remove_identity_from_person-AreLinked :
    (identity_id evidence_id : Uuid) (now : Datetime) (version : ℕ) (t after : Tables)
    → AreLinked t
    → remove_identity_from_person identity_id evidence_id now version t ≡ ok after
    → AreLinked after
unfolding remove_identity_from_person
remove_identity_from_person-AreLinked identity_id evidence_id now version t after l h =
    let finish : IdentityPersonAssociation → Identity → Result Tables =
      λ current identity. ok (unlink identity_id evidence_id now version current t) in
    let read : IdentityPersonAssociation → Result Tables =
      λ current. asserted_row (get_identity identity_id t.identities) >>= finish current in
    let (a, e, h1) =
      ok-bind (current_link (active_association identity_id t.associations)) read after h in
    let (i, _, h2) =
      ok-bind (asserted_row (get_identity identity_id t.identities)) (finish a) after h1 in
    subst AreLinked (ok-injective _ after h2)
      (unlink-AreLinked identity_id evidence_id now version a t (current_link-inverts _ a e) l)

pub insert_person-AreLinked :
    (o : Option Person) (p : Person) (t after : Tables)
    → AreLinked t
    → insert_person o p t ≡ ok after
    → AreLinked after
insert_person-AreLinked (some taken) p t after l h = absurd (cc)
insert_person-AreLinked none p t after l h = subst AreLinked (ok-injective _ after h) l

pub rename_evidence-AreLinked :
    (id : Uuid) (expected : ℕ) (o : Option Person) (t after : Tables)
    → AreLinked t
    → rename_evidence id expected o t ≡ ok after
    → AreLinked after
rename_evidence-AreLinked id expected none t after l h = absurd (cc)
rename_evidence-AreLinked id expected (some p) t after l h =
    subst AreLinked (ok-injective _ after h) l
