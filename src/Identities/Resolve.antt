-- ===== src/Identities/Resolve.antt =====
-- backend/app/identities/use_cases.py: `resolve_recognition_candidates`, which reads the current
-- identity of each candidate. The loop over merges runs on fuel.
use face_identify.Prelude.{
  ℕ, zero, suc, Bool, false, ◌||◌, Option, none, some, List, [], ◌∷◌, ◌++◌, ◌==◌, if◌then◌else◌,
}
use face_identify.Database.{Uuid}
use face_identify.Identities.Model.{
  IdentityState, IdentityState-discrete, Identity, get_identity, identity_is,
}

abbrev pub row_is_merged : Option Identity → Bool
row_is_merged none = false
row_is_merged (some i) = identity_is IdentityState.merged i

abbrev pub row_at : Option Uuid → List Identity → Option Identity
row_at none table = none
row_at (some id) table = get_identity id table

-- One turn of the `while` loop.
abbrev pub target : List Identity → Option Identity → Option Identity
target table none = none
target table (some i) = row_at i.merged_into_identity_id table

pub data Walk : Type 0 where
  unfinished : Walk
  ended_at : Option Identity → Walk

-- The `while` loop: from a row to the one that it was merged into, until that is not MERGED.
unfoldable pub follow : ℕ → List Identity → Option Identity → Walk
unfolding IdentityState-discrete get_identity
follow zero table o = if row_is_merged o then unfinished else ended_at o
follow (suc fuel) table o =
    let rest = follow fuel table (target table o) in if row_is_merged o then rest else ended_at o

abbrev pub current_or_none : Option Identity → Option Identity
current_or_none none = none
current_or_none (some i) = if identity_is IdentityState.active i then some i else none

abbrev pub is_seen : Uuid → List Identity → Bool
is_seen id [] = false
is_seen id (j ∷ js) = j.id == id || is_seen id js

-- The identity, after those that it does not stand among.
abbrev pub add_current : Option Identity → List Identity → List Identity
add_current none resolved = resolved
add_current (some i) resolved = if is_seen i.id resolved then resolved else resolved ++ i ∷ []

-- What a candidate adds to the identities resolved so far; `none` where the loop did not end.
abbrev pub resolve_one : Walk → List Identity → Option (List Identity)
resolve_one unfinished resolved = none
resolve_one (ended_at o) resolved = some (add_current (current_or_none o) resolved)

abbrev pub then_resolve :
    Option (List Identity) → (List Identity → Option (List Identity)) → Option (List Identity)
then_resolve none next = none
then_resolve (some resolved) next = next resolved

unfoldable pub resolve_from : ℕ → List Identity → List Uuid → List Identity → Option (List Identity)
unfolding follow
resolve_from fuel table [] resolved = some resolved
resolve_from fuel table (id ∷ ids) resolved =
    then_resolve (resolve_one (follow fuel table (get_identity id table)) resolved)
      (λ after. resolve_from fuel table ids after)

-- `resolve_recognition_candidates`.
unfoldable pub resolve_recognition_candidates :
    ℕ → List Identity → List Uuid → Option (List Identity)
unfolding resolve_from
resolve_recognition_candidates fuel table ids = resolve_from fuel table ids []
