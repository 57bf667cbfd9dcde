-- ===== src/Identities/Changes.antt =====
-- Sequences of the use cases of backend/app/identities/use_cases.py, each in its own transaction.
use face_identify.Prelude.{ℕ, ◌+◌, Option, List, [], ◌∷◌}
use face_identify.Database.{Uuid, Datetime}
use face_identify.Identities.Model.{Identity, EvidenceKind, Tables, Result, err, ok}
use face_identify.Identities.{
  create_pending_identity, activate_identity, assign_representation_to_identity, touch_identity,
}
use face_identify.Identities.Merge.{MergeIds, merge_identities}
use face_identify.Identities.Split.{SplitIds, split_identity}

pub data Change : Type 0 where
  create : Uuid → Uuid → Option Uuid → Datetime → Datetime → Change
  activate : Uuid → ℕ → Datetime → Change
  assign : Uuid → Uuid → Uuid → Uuid → Datetime → EvidenceKind → Option Uuid → Change
  touch : Option ℕ → Datetime → Uuid → Change
  split : Uuid → List Uuid → Option ℕ → SplitIds → Datetime → ℕ → Change
  merge : Uuid → Uuid → ℕ → Option ℕ → MergeIds → Datetime → Datetime → ℕ → Change

-- The tables with other identities.
abbrev pub with_identities : Tables → Result (List Identity) → Result Tables
with_identities t (err e) = err e
with_identities t (ok identities) = ok (record t { identities = identities })

unfoldable pub step : Change → Tables → Result Tables
unfolding create_pending_identity activate_identity assign_representation_to_identity touch_identity
    merge_identities split_identity
step (create id run_id observation_id created updated) t =
    with_identities t
      (create_pending_identity id run_id observation_id created updated t.identities)
step (activate id expected now) t =
    with_identities t (activate_identity id expected now t.identities)
step (assign representation_id identity_id evidence_id operation_id now kind source_id) t =
    assign_representation_to_identity representation_id identity_id evidence_id operation_id now
      kind source_id t
step (touch expected now id) t = with_identities t (touch_identity expected now id t.identities)
step (split source_id selected expected ids now version) t =
    split_identity source_id selected expected ids now version t
step (merge losing surviving expected expected_survivor ids earlier now version) t =
    merge_identities losing surviving expected expected_survivor ids earlier now version t

-- What a transaction that raises has done is rolled back.
abbrev pub committed : Tables → Result Tables → Tables
committed t (err e) = t
committed t (ok after) = after

unfoldable pub run : List Change → Tables → Tables
unfolding step
run [] t = t
run (c ∷ cs) t = run cs (committed t (step c t))

abbrev pub is_merge : Change → ℕ
is_merge (merge _ _ _ _ _ _ _ _) = 1
is_merge _ = 0

-- How many merges were asked for.
abbrev pub merges : List Change → ℕ
merges [] = 0
merges (c ∷ cs) = is_merge c + merges cs
