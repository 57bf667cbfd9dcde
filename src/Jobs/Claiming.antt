-- ===== src/Jobs/Claiming.antt =====
-- What `claim_next` promises: the most urgent, oldest queued job, once.
use mathlib.Core.Path.{subst}
use mathlib.Core.Bool.{false≢true}
use mathlib.Core.Option.{some-injective}
use face_identify.Prelude.{
  ℕ, String, ◌+◌, ◌≡◌, refl, ap, sym, ◌∙◌, ◌≢◌, Bool, true, false, ◌&&◌, ◌||◌, Option, none, some,
  List, [], ◌∷◌, ◌==◌, keep, In, All, arith, inl, inr, Option-cases, ltb,
}
use face_identify.Database.{update_where, find_where, UniqueKeys}
use face_identify.Database.Ordering.{IsOrder, head-order_by, head-order_by-none}
use face_identify.Database.Keys.{
  by_key, by_key-In, by_key-update_self, by_key-update_other, In-keep, All-keep,
  UniqueKeys-update_where,
}
use face_identify.Jobs.Model.{Uuid, Datetime, Job, JobType}
use face_identify.Jobs.{
  get, more_urgent, eligible, chosen, claim_row, claimed, claim_next, ClaimedJob,
}

lex_asym :
    (a b c d e f : ℕ)
    → (ltb a b || a == b && (ltb c d || c == d && ltb e f)) ≡ true
    → (ltb b a || b == a && (ltb d c || d == c && ltb f e)) ≡ false
lex_asym a b c d e f h = ground arith

pub more_urgent-IsOrder : IsOrder more_urgent
unfolding more_urgent
more_urgent-IsOrder = record {
  asym = λ x y h. lex_asym x.rank y.rank x.created_at y.created_at x.id y.id h;
  not_trans = λ x y z h k. ground arith;
}

chosen_lem :
    (types : Option (List JobType)) (table : List Job) (j : Job)
    → chosen types table ≡ some j
    → In j table
      × (eligible types j ≡ true)
      × All (λ k. eligible types k ≡ true → more_urgent k j ≡ false) table
unfolding chosen
chosen_lem types table j h =
    let (member, first) =
      head-order_by more_urgent more_urgent-IsOrder (keep (eligible types) table) j h in
    let (there, passes) = In-keep (eligible types) j table member in
    (there, passes, All-keep _ (eligible types) table first)

claim_inversion :
    (owner : String) (now : Datetime) (lease_for : ℕ) (types : Option (List JobType))
    (table after : List Job) (c : ClaimedJob)
    → claim_next owner now lease_for types table ≡ (after, some c)
    → (j : Job) × (chosen types table ≡ some j)
      × (c ≡ claimed owner (now + lease_for) j)
      × (after ≡ (update_where (λ k. k.id == j.id) (claim_row owner now (now + lease_for)) table).0)
unfolding claim_next
claim_inversion owner now lease_for types table after c h =
    elim (Option-cases (chosen types table)) [
      | inl e ↦ absurd (cc (rw (e, claim_next) at h))
      | inr (j, e) ↦ let k = rw (e, claim_next) at h in (j, e, ground arith, ground arith)
    ]

pub claim_row-id :
    (owner : String) (now expires : Datetime) (j : Job) → (claim_row owner now expires j).id ≡ j.id
unfolding claim_row
claim_row-id owner now expires j = refl

claim_row-eligible :
    (owner : String) (now expires : Datetime) (types : Option (List JobType)) (j : Job)
    → eligible types (claim_row owner now expires j) ≡ false
unfolding claim_row eligible
claim_row-eligible owner now expires types j = refl

keep_none : (p : Job → Bool) (xs : List Job) → keep p xs ≡ [] → All (λ j. p j ≡ false) xs
keep_none p [] h = tt
keep_none p (x ∷ xs) h = ground (arith, keep_none p xs)

none-eligible :
    (types : Option (List JobType)) (table : List Job)
    → chosen types table ≡ none
    → All (λ j. eligible types j ≡ false) table
unfolding chosen
none-eligible types table e =
    keep_none (eligible types) table
      (head-order_by-none more_urgent (keep (eligible types) table) e)

claim_next-UniqueKeys :
    (owner : String) (now : Datetime) (lease_for : ℕ) (types : Option (List JobType))
    (table : List Job)
    → UniqueKeys (λ j. j.id) table
    → UniqueKeys (λ j. j.id) (claim_next owner now lease_for types table).0
unfolding claim_next
claim_next-UniqueKeys owner now lease_for types table u = elim (Option-cases (chosen types table)) [
  | inl e ↦ rw (e, claim_next) u
  | inr (j, e) ↦
      rw (e, claim_next)
        (UniqueKeys-update_where (λ (y : Job). y.id) (λ (y : Job). y.id == j.id)
          (claim_row owner now (now + lease_for)) table (claim_row-id owner now (now + lease_for))
          u)
]

-- What a claim did, by the functions that it is made of.
pub claim_next_lem :
    (owner : String) (now : Datetime) (lease_for : ℕ) (types : Option (List JobType))
    (table after : List Job) (c : ClaimedJob)
    → UniqueKeys (λ j. j.id) table
    → claim_next owner now lease_for types table ≡ (after, some c)
    → (j : Job) × In j table
      × (eligible types j ≡ true)
      × All (λ k. eligible types k ≡ true → more_urgent k j ≡ false) table
      × (c ≡ claimed owner (now + lease_for) j)
      × (get j.id after ≡ some (claim_row owner now (now + lease_for) j))
      × ((k : Uuid) → k ≢ j.id → get k after ≡ get k table)
unfolding get find_where
claim_next_lem owner now lease_for types table after c u h =
    let (j, e, r, t) = claim_inversion owner now lease_for types table after c h in
    let (there, passes, first) = chosen_lem types table j e in
    let key = λ (y : Job). y.id in
    let q = λ (y : Job). y.id == j.id in
    let f = claim_row owner now (now + lease_for) in
    (
      j,
      there,
      passes,
      first,
      r,
      rw t (
          by_key-update_self key j q f table (claim_row-id owner now (now + lease_for)) u there
            (ground arith)),
      λ k n. rw t (
          by_key-update_other key k q f table (claim_row-id owner now (now + lease_for))
            (λ y e. ground arith)),
    )

-- A claim of nothing, by the test of the rows.
pub claim_none_lem :
    (owner : String) (now : Datetime) (lease_for : ℕ) (types : Option (List JobType))
    (table after : List Job)
    → claim_next owner now lease_for types table ≡ (after, none)
    → (after ≡ table) × All (λ j. eligible types j ≡ false) table
unfolding claim_next
claim_none_lem owner now lease_for types table after h = elim (Option-cases (chosen types table)) [
  | inl e ↦ let k = rw (e, claim_next) at h in (ground arith, none-eligible types table e)
  | inr (j, e) ↦ absurd (cc (rw (e, claim_next) at h))
]

-- Two claims, one after the other, never return the same job.
pub claims_differ :
    (owner other : String) (now later : Datetime) (m n : ℕ) (types others : Option (List JobType))
    (t₀ t₁ t₂ : List Job) (c d : ClaimedJob)
    → UniqueKeys (λ j. j.id) t₀
    → claim_next owner now m types t₀ ≡ (t₁, some c)
    → claim_next other later n others t₁ ≡ (t₂, some d)
    → c.id ≢ d.id
unfolding get claimed
claims_differ owner other now later m n types others t₀ t₁ t₂ c d u h k same_id =
    let a = claim_next_lem owner now m types t₀ t₁ c u h in
    let v =
      rw (ap (λ (r : List Job × Option ClaimedJob). r.0) h) at
        (claim_next-UniqueKeys owner now m types t₀ u) in
    let b = claim_next_lem other later n others t₁ t₂ d v k in
    let met = by_key-In (λ (y : Job). y.id) b.0 t₁ v b.1 in
    claimed_twice a.0 b.0 (same_ids a.0 b.0 a.4 b.4 same_id) a.5 met b.2
  where
    same_ids :
        (i j : Job)
        → c ≡ claimed owner (now + m) i
        → d ≡ claimed other (later + n) j
        → c.id ≡ d.id
        → i.id ≡ j.id
    same_ids i j p q e = ground arith

    claimed_twice :
        (i j : Job)
        → i.id ≡ j.id
        → get i.id t₁ ≡ some (claim_row owner now (now + m) i)
        → by_key (λ (y : Job). y.id) j.id t₁ ≡ some j
        → eligible others j ≡ true
        → ⊥
    claimed_twice i j e p q o =
        let row = claim_row owner now (now + m) i in
        let p' : get j.id t₁ ≡ some row = subst (λ (k : ℕ). get k t₁ ≡ some row) e p in
        let joined : j ≡ row = some-injective j row (sym q ∙ p') in
        false≢true (sym (claim_row-eligible owner now (now + m) others i) ∙ rw joined at o)
