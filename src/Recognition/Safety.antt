-- ===== src/Recognition/Safety.antt =====
-- What the reasoner decides about a retrieval that `assess` grouped.
use mathlib.Core.Path.{subst}
use mathlib.Core.Option.{some-injective}
use face_identify.Prelude.{
  ◌≡◌, ◌≢◌, refl, sym, ◌∙◌, inl, inr, true, false, Option, none, some, List, [], ◌∷◌, All, All-map,
  map, arith, Bool-cases,
}
use face_identify.Recognition.Order.{Floats}
use face_identify.Recognition.{
  RetrievedCandidate, Retrieval, ObservationQuality, RecognitionAssessment, complete, GroupMember,
  CandidateGroup, Key, group_of, best_similarity, nearer, better, assess, margin, member_of,
}
use face_identify.Recognition.Grouping.{
  IsRanked, NotOver, order_by-IsRanked, group_by_key-IsInhabited, All-of_group_by_key, best_of-le,
}
use face_identify.Recognition.Reasoner.{
  match_existing, create_new, abstain, DecisionPolicy, RecognitionDecision, is_narrow, decide,
  decide_groups, decide_top, decide_near,
}
use face_identify.Database.Ordering.{order_by, All-of_order_by}

module _ {F : Type 0} ⦃f : Floats F⦄ where
  -- No candidate is more similar than `b`.
  abbrev pub IsAbove : F → List (RetrievedCandidate F) → Type 0
  IsAbove b = All (λ c. f.lt b c.similarity ≡ false)

  group_of-members :
      (b : F) (e : Key × List (GroupMember F))
      → NotOver b (group_of e)
      → ((g : F) × (best_similarity (group_of e) ≡ some g))
      → All (λ m. f.lt b m.similarity ≡ false) e.1
  unfolding group_of
  group_of-members b (k, ms) h (g, q) =
      All-of_order_by nearer (λ m. f.lt b m.similarity ≡ false) ms
        (All-map (λ (m : GroupMember F). f.lt g m.similarity ≡ false)
          (λ m. f.lt b m.similarity ≡ false) (order_by nearer ms)
          (λ m l. f.le_trans m.similarity g b l (h g q)) (best_of-le (order_by nearer ms) g q))

  abbrev HasBest : CandidateGroup F → Type 0
  HasBest g = (b : F) × (best_similarity g ≡ some b)

  ranked-HasBest : (gs : List (CandidateGroup F)) → IsRanked gs → All HasBest gs
  ranked-HasBest [] r = tt
  ranked-HasBest (g ∷ gs) ((b, (e, below)), r) = ((b, e), ranked-HasBest gs r)

  All-both :
      (P Q : CandidateGroup F → Type 0) (gs : List (CandidateGroup F))
      → All P gs
      → All Q gs
      → All (λ g. P g × Q g) gs
  All-both P Q [] h k = tt
  All-both P Q (g ∷ gs) h k = ((h.0, k.0), All-both P Q gs h.1 k.1)

  first-NotOver :
      (top : CandidateGroup F) (gs : List (CandidateGroup F)) (b : F)
      → IsRanked (top ∷ gs)
      → best_similarity top ≡ some b
      → All (NotOver b) (top ∷ gs)
  first-NotOver top gs b ((c, (q, below)), r) e =
      let same : b ≡ c = some-injective _ _ (sym e ∙ q) in
      (
        (λ y s. subst (λ z. f.lt b z ≡ false) (some-injective _ _ (sym e ∙ s)) (f.lt_irrefl b)),
        subst (λ z. All (NotOver z) gs) (sym same) below,
      )

  All-of_group_of :
      (Q : CandidateGroup F → Type 0) (P : GroupMember F → Type 0)
      → ((e : Key × List (GroupMember F)) → Q (group_of e) → All P e.1)
      → (es : List (Key × List (GroupMember F))) → All Q (map group_of es)
      → All (λ e. All P e.1) es
  All-of_group_of Q P f [] h = tt
  All-of_group_of Q P f (e ∷ es) h = (f e h.0, All-of_group_of Q P f es h.1)

  -- What the groups say of their members holds of the candidates.
  All-of_assess :
      (Q : CandidateGroup F → Type 0) (P : GroupMember F → Type 0)
      → ((e : Key × List (GroupMember F)) → Q (group_of e) → All P e.1)
      → (r : Retrieval F) (quality : ObservationQuality F) → All Q (assess r quality).groups
      → All (λ c. P (member_of c)) r.candidates
  unfolding assess
  All-of_assess Q P f r quality h =
      (All-of_group_by_key P r.candidates []
        (All-of_group_of Q P f _ (All-of_order_by better Q _ h))).1

  assess-IsRanked :
      (r : Retrieval F) (quality : ObservationQuality F) → IsRanked (assess r quality).groups
  unfolding assess
  assess-IsRanked r quality = order_by-IsRanked _ (group_by_key-IsInhabited r.candidates [] tt)

  assess-IsAbove :
      (r : Retrieval F) (quality : ObservationQuality F) (top : CandidateGroup F)
      (gs : List (CandidateGroup F)) (b : F)
      → (assess r quality).groups ≡ top ∷ gs
      → best_similarity top ≡ some b
      → IsAbove b r.candidates
  assess-IsAbove r quality top gs b e best =
      let ranked = subst IsRanked e (assess-IsRanked r quality) in
      All-of_assess (λ g. NotOver b g × HasBest g) (λ m. f.lt b m.similarity ≡ false)
        (λ e h. group_of-members b e h.0 h.1) r quality
        (subst (All (λ g. NotOver b g × HasBest g)) (sym e) (
          All-both (NotOver b) HasBest (top ∷ gs) (first-NotOver top gs b ranked best)
            (ranked-HasBest (top ∷ gs) ranked)))

  -- The best group, when there is one, and its best similarity.
  abbrev pub IsBest : List (CandidateGroup F) → CandidateGroup F → F → Type 0
  IsBest groups top b =
      (gs : List (CandidateGroup F)) × ((groups ≡ top ∷ gs) × (best_similarity top ≡ some b))

  decide_top-create :
      (p : DecisionPolicy F) (top : CandidateGroup F) (o : Option F) (m : Option (Option F))
      (d : RecognitionDecision)
      → decide_top p top o m ≡ some d
      → d.outcome ≡ create_new
      → (b : F) × ((o ≡ some b) × (f.lt b p.new_identity_ceiling ≡ true))
  unfolding decide_top decide_near
  decide_top-create p top none m d h e = absurd (cc)
  decide_top-create p top (some b) m d h e = (b, (refl, ground arith))

  decide_top-match :
      (p : DecisionPolicy F) (top : CandidateGroup F) (o : Option F) (m : Option (Option F))
      (d : RecognitionDecision)
      → decide_top p top o m ≡ some d
      → d.outcome ≡ match_existing
      → (b : F) × (lead : Option F) × ((o ≡ some b)
          × ((m ≡ some lead)
              × ((f.lt b p.match_threshold ≡ false)
                  × ((is_narrow p.margin lead ≡ false)
                      × ((d.identity_id ≡ top.identity_id) × (top.identity_id ≢ none))))))
  unfolding decide_top decide_near
  decide_top-match p top none m d h e = absurd (cc)
  decide_top-match p top (some b) none d h e = ground arith
  decide_top-match p top (some b) (some lead) d h e = (b, lead, ground arith)

  -- Neither a match nor a new identity comes of a poor face or of an incomplete retrieval.
  decide-open :
      (p : DecisionPolicy F) (a : RecognitionAssessment F) (d : RecognitionDecision)
      → decide p a ≡ some d
      → d.outcome ≢ abstain
      → (f.lt a.quality.detection_score p.min_detection_score ≡ false)
        × ((complete a ≡ true) × (decide_groups p a.groups (margin a) ≡ some d))
  unfolding decide
  decide-open p a d h n = ground arith

  candidates-none :
      (P : GroupMember F → Type 0) (r : Retrieval F) (quality : ObservationQuality F)
      → (assess r quality).groups ≡ []
      → All (λ c. P (member_of c)) r.candidates
  candidates-none P r quality e =
      All-of_assess (λ g. ⊥) P (λ e h. absurd h) r quality (subst (All (λ g. ⊥)) (sym e) tt)

  below_ceiling :
      (b c : F)
      → f.lt b c ≡ true
      → (cs : List (RetrievedCandidate F)) → IsAbove b cs
      → All (λ x. f.lt x.similarity c ≡ true) cs
  below_ceiling b c l cs h =
      All-map (λ (x : RetrievedCandidate F). f.lt b x.similarity ≡ false)
        (λ x. f.lt x.similarity c ≡ true) cs
        (λ x k. elim (Bool-cases (f.lt x.similarity c)) [
          | inl e ↦ e
          | inr e ↦ absurd (let z = f.le_trans c x.similarity b e k in cc)
        ])
        h

  groups-create :
      (p : DecisionPolicy F) (r : Retrieval F) (quality : ObservationQuality F)
      (groups : List (CandidateGroup F)) (m : Option (Option F)) (d : RecognitionDecision)
      → (assess r quality).groups ≡ groups
      → decide_groups p groups m ≡ some d
      → d.outcome ≡ create_new
      → All (λ c. f.lt c.similarity p.new_identity_ceiling ≡ true) r.candidates
  unfolding decide_groups
  groups-create p r quality [] m d e h o =
      candidates-none (λ x. f.lt x.similarity p.new_identity_ceiling ≡ true) r quality e
  groups-create p r quality (top ∷ gs) m d e h o =
      let (b, (best, l)) = decide_top-create p top (best_similarity top) m d h o in
      below_ceiling b p.new_identity_ceiling l r.candidates
        (assess-IsAbove r quality top gs b e best)

  -- A new identity is created only for a face that passed the quality gate, from a retrieval that
  -- dropped nothing and had caught up, and only when every retrieved candidate is less similar than
  -- the policy's ceiling for new identities.
  pub decide-create :
      (p : DecisionPolicy F) (r : Retrieval F) (quality : ObservationQuality F)
      (d : RecognitionDecision)
      → decide p (assess r quality) ≡ some d
      → d.outcome ≡ create_new
      → (f.lt quality.detection_score p.min_detection_score ≡ false)
        × ((complete (assess r quality) ≡ true)
            × All (λ c. f.lt c.similarity p.new_identity_ceiling ≡ true) r.candidates)
  unfolding assess
  decide-create p r quality d h o =
      let (gate, (whole, g)) = decide-open p (assess r quality) d h (λ e. absurd (cc)) in
      (gate, (whole, groups-create p r quality _ _ d refl g o))

  -- What a match rests on: `top` is the best group of the candidates, with similarity `b`.
  abbrev pub IsMatch :
      DecisionPolicy F
      → Retrieval F
      → CandidateGroup F
      → F
      → Option F
      → RecognitionDecision
      → Type 0
  IsMatch p r top b lead d =
      (f.lt b p.match_threshold ≡ false)
      × ((is_narrow p.margin lead ≡ false)
          × ((d.identity_id ≡ top.identity_id)
              × ((top.identity_id ≢ none) × IsAbove b r.candidates)))

  groups-IsMatch :
      (p : DecisionPolicy F) (r : Retrieval F) (quality : ObservationQuality F)
      (groups : List (CandidateGroup F)) (m : Option (Option F)) (d : RecognitionDecision)
      → (assess r quality).groups ≡ groups
      → decide_groups p groups m ≡ some d
      → d.outcome ≡ match_existing
      → (top : CandidateGroup F) × (b : F) × (lead : Option F) × (IsBest groups top b
          × ((m ≡ some lead) × IsMatch p r top b lead d))
  unfolding decide_groups
  groups-IsMatch p r quality [] m d e h o = absurd (cc)
  groups-IsMatch p r quality (top ∷ gs) m d e h o =
      let (b, lead, (best, (ml, (reach, (wide, (id, n)))))) =
        decide_top-match p top (best_similarity top) m d h o in
      (
        top,
        b,
        lead,
        (
          (gs, (refl, best)),
          (ml, (reach, (wide, (id, (n, assess-IsAbove r quality top gs b e best))))),
        ),
      )

  -- A match is proposed only for a face that passed the quality gate, from a retrieval that dropped
  -- nothing and had caught up. It names the identity of the first group, whose best similarity is
  -- not below the match threshold and is exceeded by no retrieved candidate, and the margin to the
  -- next group, when there is one, is not below the policy's.
  pub decide-IsMatch :
      (p : DecisionPolicy F) (r : Retrieval F) (quality : ObservationQuality F)
      (d : RecognitionDecision)
      → decide p (assess r quality) ≡ some d
      → d.outcome ≡ match_existing
      → (f.lt quality.detection_score p.min_detection_score ≡ false)
        × ((complete (assess r quality) ≡ true)
            × ((top : CandidateGroup F) × (b : F) × (lead : Option F) × (IsBest
                    (assess r quality).groups
                    top
                    b
                  × ((margin (assess r quality) ≡ some lead) × IsMatch p r top b lead d))))
  unfolding assess
  decide-IsMatch p r quality d h o =
      let (gate, (whole, g)) = decide-open p (assess r quality) d h (λ e. absurd (cc)) in
      (gate, (whole, groups-IsMatch p r quality _ _ d refl g o))
