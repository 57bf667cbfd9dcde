-- ===== src/Recognition/Evidence.antt =====
-- backend/app/recognition/reasoner.py: `RecognitionDecision.evidence_payload`, the JSON of an evidence
-- row. Text of an identifier (`str`) and the constants of the module are parameters.
use face_identify.Prelude.{ℕ, ◌+◌, String, Bool, Option, none, some, List, [], ◌∷◌, map}
use face_identify.Database.{Uuid}
use face_identify.Recognition.Order.{Floats}
use face_identify.Recognition.{
  Pool, global, run_local, GroupMember, CandidateGroup, best_similarity, RecognitionAssessment,
  margin,
}
use face_identify.Recognition.Reasoner.{
  RecognitionOutcome, match_existing, create_new, abstain, Reason, matched, no_candidate,
  not_similar, low_quality, retrieval_incomplete, ambiguous_candidates, unresolved_neighbour,
  uncertain_similarity, DecisionPolicy, RecognitionDecision,
}

mutual
  pub data Json (F : Type 0) : Type 0 where
    null : Json F
    boolean : Bool → Json F
    number : ℕ → Json F
    decimal : F → Json F
    string : String → Json F
    list : Items F → Json F
    object : Fields F → Json F

  pub data Items (F : Type 0) : Type 0 where
    no_items : Items F
    item : Json F → Items F → Items F

  pub data Fields (F : Type 0) : Type 0 where
    end : Fields F
    field : String → Json F → Fields F → Fields F

abbrev items_of : {F : Type 0} → List (Json F) → Items F
items_of [] = no_items
items_of (x ∷ xs) = item x (items_of xs)

abbrev outcome_text : RecognitionOutcome → String
outcome_text match_existing = "MATCH_EXISTING"
outcome_text create_new = "CREATE_NEW"
outcome_text abstain = "ABSTAIN"

abbrev reason_text : Reason → String
reason_text matched = "MATCHED"
reason_text no_candidate = "NO_CANDIDATE"
reason_text not_similar = "NOT_SIMILAR"
reason_text low_quality = "LOW_QUALITY"
reason_text retrieval_incomplete = "RETRIEVAL_INCOMPLETE"
reason_text ambiguous_candidates = "AMBIGUOUS_CANDIDATES"
reason_text unresolved_neighbour = "UNRESOLVED_NEIGHBOUR"
reason_text uncertain_similarity = "UNCERTAIN_SIMILARITY"

abbrev pool_text : Pool → String
pool_text global = "GLOBAL"
pool_text run_local = "RUN_LOCAL"

-- What the payload takes from elsewhere: `str` of an identifier and the texts of versions.
pub record Texts : Type 0 where
  pub str : Uuid → String
  pub assessment_version : String
  pub interpretation : String
  pub policy_version : String

module _ {F : Type 0} ⦃f : Floats F⦄ (t : Texts) where
  abbrev id_or_null : Option Uuid → Json F
  id_or_null none = null
  id_or_null (some id) = string (t.str id)

  abbrev decimal_or_null : Option F → Json F
  decimal_or_null none = null
  decimal_or_null (some x) = decimal x

  unfoldable member_payload : GroupMember F → Json F
  member_payload m = object (
      field "representation_id" (string (t.str m.representation_id))
        (field "pool" (string (pool_text m.pool)) (field "similarity" (decimal m.similarity) end)))

  -- `enumerate(assessment.groups, start=1)`; `none` where a group without members raises.
  unfoldable group_payloads : ℕ → List (CandidateGroup F) → Option (List (Json F))
  unfolding member_payload
  group_payloads rank [] = some []
  group_payloads rank (g ∷ gs) = elim (best_similarity g) [
    | none ↦ none
    | some best ↦ elim (group_payloads (rank + 1) gs) [
      | none ↦ none
      | some rest ↦ some (
          object (
            field "rank" (number rank) (
              field "identity_id" (id_or_null g.identity_id) (
                field "similarity" (decimal best)
                  (field "members" (list (items_of (map member_payload g.members))) end))))
          ∷ rest)
    ]
  ]

  unfoldable policy_payload : DecisionPolicy F → Json F
  policy_payload p = object (
      field "version" (string t.policy_version) (
        field "min_detection_score" (decimal p.min_detection_score) (
          field "match_threshold" (decimal p.match_threshold) (
            field "margin" (decimal p.margin)
              (field "new_identity_ceiling" (decimal p.new_identity_ceiling) end)))))

  unfoldable retrieval_payload : RecognitionAssessment F → Json F
  retrieval_payload a = object (
      field "requested_k" (number a.requested_k) (
        field "returned" (number a.returned)
          (field "dropped" (number a.dropped) (field "converged" (boolean a.converged) end))))

  -- `evidence_payload` of a decision, with its assessment and policy.
  unfoldable pub evidence_payload :
      RecognitionAssessment F → DecisionPolicy F → RecognitionDecision → Option (Json F)
  unfolding group_payloads policy_payload retrieval_payload
  evidence_payload a p d = elim (group_payloads 1 a.groups) [
    | none ↦ none
    | some groups ↦ elim (margin a) [
      | none ↦ none
      | some lead ↦ some (
          object (
            field "schema_version" (number 1) (
              field "outcome" (string (outcome_text d.outcome)) (
                field "reason" (string (reason_text d.reason)) (
                  field "identity_id" (id_or_null d.identity_id) (
                    field "assessment_version" (string t.assessment_version) (
                      field "interpretation" (string t.interpretation) (
                        field "representation_space_id" (string (t.str a.representation_space_id)) (
                          field "quality"
                            (object
                              (field "detection_score" (decimal a.quality.detection_score) end))
                            (field "retrieval" (retrieval_payload a) (
                              field "candidates" (list (items_of groups)) (
                                field "margin" (decimal_or_null lead)
                                  (field "policy" (policy_payload p) end)))))))))))))
    ]
  ]
