-- ===== src/Recognition/Grouping.antt =====
-- The groups of an assessment: none is empty, together they hold every candidate, and the first is
-- the nearest.
use mathlib.Core.Path.{subst}
use mathlib.Core.Option.{some-injective}
use face_identify.Prelude.{
  ◌≡◌, ◌≢◌, refl, sym, ap, inl, inr, Bool, true, false, Option, some, List, [], ◌∷◌, ◌++◌,
  if◌then◌else◌, All, All-map, head?, map, Bool-cases,
}
use face_identify.Database.Ordering.{insert, order_by, All-insert, head-order_by-none}
use face_identify.Recognition.Order.{Floats}
use face_identify.Recognition.{
  RetrievedCandidate, GroupMember, CandidateGroup, Key, same_key, key_of, member_of, add_member,
  group_by_key, max_from, best_of, best_similarity, nearer, precedes, better, group_of,
}

-- Some member stands in the list.
abbrev pub IsInhabited : {F : Type 0} → List (GroupMember F) → Type 0
IsInhabited ms = ms ≢ []

module _ {F : Type 0} where
  add_member-IsInhabited :
      (k : Key) (m : GroupMember F) (d : List (Key × List (GroupMember F)))
      → All (λ e. IsInhabited e.1) d
      → All (λ e. IsInhabited e.1) (add_member k m d)
  unfolding add_member
  add_member-IsInhabited k m [] h = (λ q. absurd (cc), tt)
  add_member-IsInhabited k m ((j, []) ∷ es) h = absurd (h.0 refl)
  add_member-IsInhabited k m ((j, n ∷ ns) ∷ es) h = elim (Bool-cases (same_key j k)) [
    | inl e ↦ rw e (λ q. absurd (cc), h.1)
    | inr e ↦ rw e (h.0, add_member-IsInhabited k m es h.1)
  ]

  pub group_by_key-IsInhabited :
      (cs : List (RetrievedCandidate F)) (d : List (Key × List (GroupMember F)))
      → All (λ e. IsInhabited e.1) d
      → All (λ e. IsInhabited e.1) (group_by_key cs d)
  unfolding group_by_key
  group_by_key-IsInhabited [] d h = h
  group_by_key-IsInhabited (c ∷ cs) d h =
      group_by_key-IsInhabited cs _ (add_member-IsInhabited (key_of c) (member_of c) d h)

  All-of_snoc :
      (P : GroupMember F → Type 0) (ms : List (GroupMember F)) (m : GroupMember F)
      → All P (ms ++ m ∷ [])
      → All P ms × P m
  All-of_snoc P [] m h = (tt, h.0)
  All-of_snoc P (n ∷ ns) m h = let r = All-of_snoc P ns m h.1 in ((h.0, r.0), r.1)

  All-of_add_member :
      (P : GroupMember F → Type 0) (k : Key) (m : GroupMember F)
      (d : List (Key × List (GroupMember F)))
      → All (λ e. All P e.1) (add_member k m d)
      → P m × All (λ e. All P e.1) d
  unfolding add_member
  All-of_add_member P k m [] h = (h.0.0, tt)
  All-of_add_member P k m (e ∷ es) h = elim (Bool-cases (same_key e.0 k)) [
    | inl q ↦ let g = (rw q at h) in let r = All-of_snoc P e.1 m g.0 in (r.1, (r.0, g.1))
    | inr q ↦ let g = (rw q at h) in let r = All-of_add_member P k m es g.1 in (r.0, (g.0, r.1))
  ]

  -- What all members of the groups satisfy, every candidate does.
  pub All-of_group_by_key :
      (P : GroupMember F → Type 0) (cs : List (RetrievedCandidate F))
      (d : List (Key × List (GroupMember F)))
      → All (λ e. All P e.1) (group_by_key cs d)
      → All (λ e. All P e.1) d × All (λ c. P (member_of c)) cs
  unfolding group_by_key
  All-of_group_by_key P [] d h = (h, tt)
  All-of_group_by_key P (c ∷ cs) d h =
      let r = All-of_group_by_key P cs _ h in
      let s = All-of_add_member P (key_of c) (member_of c) d r.0 in (s.1, (s.0, r.1))

module _ {F : Type 0} ⦃f : Floats F⦄ where
  -- No number of the list exceeds `z`.
  abbrev IsAtLeast : F → List F → Type 0
  IsAtLeast z = All (λ y. f.lt z y ≡ false)

  max_from-step :
      (x y : F) (ys : List F) (b : Bool)
      → f.lt x y ≡ b
      → max_from x (y ∷ ys) ≡ max_from (if b then y else x) ys
  unfolding max_from
  max_from-step x y ys b e = rw e refl

  max_from-one : (x : F) → f.lt (max_from x []) x ≡ false
  unfolding max_from
  max_from-one x = f.lt_irrefl x

  max_from-le : (x : F) (ys : List F) → IsAtLeast (max_from x ys) (x ∷ ys)
  max_from-le x [] = (max_from-one x, tt)
  max_from-le x (y ∷ ys) = elim (Bool-cases (f.lt x y)) [
    | inl e ↦
        let r = max_from-le y ys in
        subst (λ z. IsAtLeast z (x ∷ y ∷ ys)) (sym (max_from-step x y ys true e))
          (f.le_trans x y (max_from y ys) (f.lt_asym x y e) r.0, r)
    | inr e ↦
        let r = max_from-le x ys in
        subst (λ z. IsAtLeast z (x ∷ y ∷ ys)) (sym (max_from-step x y ys false e))
          (r.0, (f.le_trans y x (max_from x ys) e r.0, r.1))
  ]

  All-of_map :
      (b : F) (ms : List (GroupMember F))
      → All (λ y. f.lt b y ≡ false) (map (λ (m : GroupMember F). m.similarity) ms)
      → All (λ m. f.lt b m.similarity ≡ false) ms
  All-of_map b [] h = tt
  All-of_map b (m ∷ ms) h = (h.0, All-of_map b ms h.1)

  -- The best similarity of a group is one that no member exceeds.
  pub best_of-le :
      (ms : List (GroupMember F)) (b : F)
      → best_of ms ≡ some b
      → All (λ m. f.lt b m.similarity ≡ false) ms
  unfolding best_of
  best_of-le [] b e = tt
  best_of-le (m ∷ ms) b e =
      let r = max_from-le m.similarity (map (λ (x : GroupMember F). x.similarity) ms) in
      subst (λ z. All (λ (n : GroupMember F). f.lt z n.similarity ≡ false) (m ∷ ms))
        (some-injective _ _ e) (r.0, All-of_map _ ms r.1)

  pub best_of-some : (ms : List (GroupMember F)) → IsInhabited ms → (b : F) × (best_of ms ≡ some b)
  unfolding best_of
  best_of-some [] h = absurd (h refl)
  best_of-some (m ∷ ms) h = (_, refl)

  -- The best similarity of `g` is at most `b`.
  abbrev pub NotOver : F → CandidateGroup F → Type 0
  NotOver b g = (y : F) → best_similarity g ≡ some y → f.lt b y ≡ false

  -- Every group has a best similarity, and no later group a greater one.
  abbrev pub IsRanked : List (CandidateGroup F) → Type 0
  IsRanked [] = Unit
  IsRanked (g ∷ gs) = ((b : F) × ((best_similarity g ≡ some b) × All (NotOver b) gs)) × IsRanked gs

  precedes-le :
      (o q : Option F) (t : Bool) (x y : F)
      → o ≡ some x
      → q ≡ some y
      → precedes o q t ≡ true
      → f.lt x y ≡ false
  precedes-le o q t x y e g p = elim (Bool-cases (f.lt y x)) [
    | inl l ↦ f.lt_asym y x l
    | inr l ↦ elim (Bool-cases (f.eq x y)) [
      | inl m ↦ f.eq_le x y m
      | inr m ↦ absurd (let k = (rw (e, g, l, m) at p) in cc)
    ]
  ]

  precedes-ge :
      (o q : Option F) (t : Bool) (x y : F)
      → o ≡ some x
      → q ≡ some y
      → precedes o q t ≡ false
      → f.lt y x ≡ false
  precedes-ge o q t x y e g p = elim (Bool-cases (f.lt y x)) [
    | inl l ↦ absurd (let k = (rw (e, g, l) at p) in cc)
    | inr l ↦ l
  ]

  better-NotOver :
      (g h : CandidateGroup F) (b : F)
      → best_similarity g ≡ some b
      → better g h ≡ true
      → NotOver b h
  unfolding better
  better-NotOver g h b e p y q = precedes-le (best_similarity g) (best_similarity h) _ b y e q p

  not_better-NotOver :
      (g h : CandidateGroup F) (b : F)
      → best_similarity g ≡ some b
      → better h g ≡ false
      → NotOver b h
  unfolding better
  not_better-NotOver g h b e p y q = precedes-ge (best_similarity h) (best_similarity g) _ y b q e p

  NotOver-trans :
      (a b : F) (gs : List (CandidateGroup F))
      → f.lt a b ≡ false
      → All (NotOver b) gs
      → All (NotOver a) gs
  NotOver-trans a b gs e =
      All-map (NotOver b) (NotOver a) gs (λ g h y q. f.le_trans y b a (h y q) e)

  insert-IsRanked :
      (g : CandidateGroup F) (b : F)
      → best_similarity g ≡ some b
      → (gs : List (CandidateGroup F)) → IsRanked gs
      → IsRanked (insert better g gs)
  unfolding insert
  insert-IsRanked g b e [] r = ((b, (e, tt)), tt)
  insert-IsRanked g b e (h ∷ hs) (((c, (q, below)), r)) = elim (Bool-cases (better h g)) [
    | inl p ↦ rw p (
      (c, (q, All-insert better (NotOver c) g hs (better-NotOver h g c q p) below)),
      insert-IsRanked g b e hs r,
    )
    | inr p ↦
        let over = not_better-NotOver g h b e p in
        rw p ((b, (e, (over, NotOver-trans b c hs (over c q) below))), ((c, (q, below)), r))
  ]

  group_of-best :
      (e : Key × List (GroupMember F))
      → IsInhabited e.1
      → (b : F) × (best_similarity (group_of e) ≡ some b)
  unfolding group_of
  group_of-best (k, ms) h =
      best_of-some (order_by nearer ms)
        (λ q. h (head-order_by-none nearer ms (ap (λ (l : List (GroupMember F)). head? l) q)))

  -- Ranking groups that are not empty puts a nearest one first.
  pub order_by-IsRanked :
      (es : List (Key × List (GroupMember F)))
      → All (λ e. IsInhabited e.1) es
      → IsRanked (order_by better (map group_of es))
  unfolding order_by
  order_by-IsRanked [] h = tt
  order_by-IsRanked (e ∷ es) h =
      let r = group_of-best e h.0 in
      insert-IsRanked (group_of e) r.0 r.1 _ (order_by-IsRanked es h.1)
