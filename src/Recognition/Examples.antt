-- ===== src/Recognition/Examples.antt =====
-- The theorems on decisions at concrete retrievals; similarities in hundredths.
use face_identify.Prelude.{
  ℕ, ◌-◌, ◌≡◌, refl, true, false, Option, none, some, [], ◌∷◌, ltb, ◌==◌, All, arith,
}
use face_identify.Recognition.Order.{Floats}
use face_identify.Recognition.{
  global, RetrievedCandidate, Retrieval, ObservationQuality, assess, margin, complete,
  CandidateGroup, best_of, max_from, nearer, better, group_of, group_by_key, add_member,
}
use face_identify.Recognition.Reasoner.{
  DecisionPolicy, RecognitionDecision, match_existing, create_new, matched, not_similar, decide,
  decide_groups, decide_top, decide_near,
}
use face_identify.Recognition.Safety.{decide-create, decide-IsMatch, IsBest, IsMatch}
use face_identify.Database.Ordering.{order_by, insert}

instance abbrev hundredths : Floats ℕ
hundredths = record {
  lt = ltb;
  eq = λ x y. x == y;
  minus = λ x y. x - y;
  lt_irrefl = λ x. ground arith;
  lt_asym = λ x y h. ground arith;
  le_trans = λ x y z h k. ground arith;
  eq_le = λ x y h. ground arith;
}

abbrev policy : DecisionPolicy ℕ
policy = record {
  has_version = true;
  min_detection_score = 50;
  match_threshold = 70;
  margin = 10;
  new_identity_ceiling = 40;
}

abbrev good : ObservationQuality ℕ
good = record { detection_score = 90 }

abbrev candidate : ℕ → Option ℕ → ℕ → RetrievedCandidate ℕ
candidate id identity similarity = record {
  pool = global;
  representation_id = id;
  identity_id = identity;
  similarity = similarity;
}

abbrev strangers : Retrieval ℕ
strangers = record {
  representation_space_id = 1;
  requested_k = 2;
  candidates = candidate 11 (some 5) 20 ∷ candidate 12 none 30 ∷ [];
  dropped = 0;
  converged = true;
}

abbrev relatives : Retrieval ℕ
relatives = record {
  representation_space_id = 1;
  requested_k = 3;
  candidates = candidate 11 (some 5) 60 ∷ candidate 12 (some 6) 95 ∷ candidate 13 (some 5) 80 ∷ [];
  dropped = 0;
  converged = true;
}

abbrev created : RecognitionDecision
created = record { outcome = create_new; reason = not_similar; identity_id = none }

abbrev recognised : RecognitionDecision
recognised = record { outcome = match_existing; reason = matched; identity_id = some 6 }

decide-strangers : decide policy (assess strangers good) ≡ some created
unfolding decide decide_groups decide_top decide_near assess margin complete best_of max_from nearer
    better group_of group_by_key add_member order_by insert
decide-strangers = refl

decide-relatives : decide policy (assess relatives good) ≡ some recognised
unfolding decide decide_groups decide_top decide_near assess margin complete best_of max_from nearer
    better group_of group_by_key add_member order_by insert
decide-relatives = refl

decide-create_example :
    (ltb 90 50 ≡ false)
    × ((complete (assess strangers good) ≡ true)
        × All (λ c. ltb c.similarity 40 ≡ true) strangers.candidates)
decide-create_example = decide-create policy strangers good created decide-strangers refl

decide-IsMatch_example :
    (ltb 90 50 ≡ false)
    × ((complete (assess relatives good) ≡ true)
        × ((top : CandidateGroup ℕ) × (b : ℕ) × (lead : Option ℕ) × (IsBest
                (assess relatives good).groups
                top
                b
              × ((margin (assess relatives good) ≡ some lead)
                  × IsMatch policy relatives top b lead recognised))))
decide-IsMatch_example = decide-IsMatch policy relatives good recognised decide-relatives refl
