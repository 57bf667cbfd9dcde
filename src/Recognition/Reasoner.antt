-- ===== src/Recognition/Reasoner.antt =====
-- backend/app/recognition/reasoner.py: `DecisionPolicy` and `IdentityReasoner`.
use face_identify.Prelude.{
  Bool, false, not, ◌&&◌, ◌||◌, Option, none, some, List, [], ◌∷◌, if◌then◌else◌,
}
use face_identify.Database.{Uuid}
use face_identify.Recognition.Order.{Floats}
use face_identify.Recognition.{
  RecognitionAssessment, complete, CandidateGroup, best_similarity, margin,
}

pub data RecognitionOutcome : Type 0 where
  match_existing create_new abstain : RecognitionOutcome

pub data Reason : Type 0 where
  matched no_candidate not_similar low_quality retrieval_incomplete : Reason
  ambiguous_candidates unresolved_neighbour uncertain_similarity : Reason

pub record DecisionPolicy (F : Type 0) : Type 0 where
  pub has_version : Bool  -- `version` is not empty
  pub min_detection_score : F
  pub match_threshold : F
  pub margin : F
  pub new_identity_ceiling : F

-- The constants that `__post_init__` compares with.
pub record Bounds (F : Type 0) : Type 0 where
  pub minus_one : F
  pub zero : F
  pub one : F
  pub two : F

-- The assessment and the policy of a decision are the arguments of `decide`.
pub record RecognitionDecision : Type 0 where
  pub outcome : RecognitionOutcome
  pub reason : Reason
  pub identity_id : Option Uuid

abbrev pub abstains : Reason → Option RecognitionDecision
abstains reason = some (record { outcome = abstain; reason = reason; identity_id = none })

abbrev pub creates : Reason → Option RecognitionDecision
creates reason = some (record { outcome = create_new; reason = reason; identity_id = none })

abbrev pub matches : Uuid → Option RecognitionDecision
matches id = some (record { outcome = match_existing; reason = matched; identity_id = some id })

-- A group without an identity is never a match.
abbrev pub match_of : Option Uuid → Option RecognitionDecision
match_of none = abstains unresolved_neighbour
match_of (some id) = matches id

module _ {F : Type 0} ⦃f : Floats F⦄ where
  abbrev pub le : F → F → Bool
  le x y = f.lt x y || f.eq x y

  -- `automatic_matching`, by `MAX_SIMILARITY`.
  unfoldable pub automatic_matching : Bounds F → DecisionPolicy F → Bool
  automatic_matching b p = le p.match_threshold b.one

  -- `__post_init__`: whether it raises nothing.
  unfoldable pub is_policy : Bounds F → DecisionPolicy F → Bool
  is_policy b p =
      p.has_version
      && ((le b.minus_one p.new_identity_ceiling
            && (le p.new_identity_ceiling p.match_threshold && le p.match_threshold b.two))
          && ((f.lt b.zero p.margin && le p.margin b.two)
              && (le b.zero p.min_detection_score && le p.min_detection_score b.one)))

  -- `margin is not None and margin < policy.margin`.
  abbrev pub is_narrow : F → Option F → Bool
  is_narrow least none = false
  is_narrow least (some m) = f.lt m least

  -- The best group reached the threshold.
  unfoldable pub decide_near :
      DecisionPolicy F → CandidateGroup F → Option (Option F) → Option RecognitionDecision
  decide_near p top none = none
  decide_near p top (some m) =
      if is_narrow p.margin m then abstains ambiguous_candidates else match_of top.identity_id

  -- By the best group's similarity; `>=` is not `<` for finite floats.
  unfoldable pub decide_top :
      DecisionPolicy F
      → CandidateGroup F
      → Option F
      → Option (Option F)
      → Option RecognitionDecision
  unfolding decide_near
  decide_top p top none m = none
  decide_top p top (some best) m =
      if not (f.lt best p.match_threshold)
      then decide_near p top m
      else if f.lt best p.new_identity_ceiling
      then creates not_similar
      else abstains uncertain_similarity

  unfoldable pub decide_groups :
      DecisionPolicy F → List (CandidateGroup F) → Option (Option F) → Option RecognitionDecision
  unfolding decide_top
  decide_groups p [] m = creates no_candidate
  decide_groups p (top ∷ gs) m = decide_top p top (best_similarity top) m

  -- `decide`; `none` where a group without members makes `max` raise.
  unfoldable pub decide : DecisionPolicy F → RecognitionAssessment F → Option RecognitionDecision
  unfolding decide_groups
  decide p a =
      if f.lt a.quality.detection_score p.min_detection_score
      then abstains low_quality
      else if not (complete a)
      then abstains retrieval_incomplete
      else decide_groups p a.groups (margin a)
