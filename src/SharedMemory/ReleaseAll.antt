-- ===== src/SharedMemory/ReleaseAll.antt =====
-- What release_all of backend/infrastructure/resources/shared_memory.py leaves and reports.
use mathlib.Core.Path.{subst}
use mathlib.Core.List.{append_assoc}
use face_identify.Prelude.{
  ◌≡◌, ◌≢◌, refl, sym, ap, ◌∙◌, inl, inr, Bool, true, false, not, Option, none, some, ◌⊎◌, List, [],
  ◌∷◌, ◌++◌, ◌==◌, if◌then◌else◌, keep, All, arith, Bool-cases,
}
use face_identify.Database.{Uuid, find_where, UniqueKeys}
use face_identify.SharedMemory.Ledger.{
  Segment, close, in_use, handle_closed, SegmentLedger, is_named, Release, released, still_in_use,
  release_segment, release_found, release, release_each, names_of, release_all, is_viewed,
  Releasing, first_of, note_release, returned, raised_in_use, all_released,
}

abbrev HasNames : List Segment → Type 0
HasNames = UniqueKeys (λ s. s.name)

unique-middle :
    (ks : List Segment) (s : Segment) (ss : List Segment)
    → HasNames (ks ++ s ∷ ss)
    → All (λ t. t.name ≢ s.name) ks × (All (λ t. t.name ≢ s.name) ss × HasNames (ks ++ ss))
unique-middle [] s ss (h, u) = (tt, (flip ss h, u))
  where
    flip : (ts : List Segment) → All (λ t. s.name ≢ t.name) ts → All (λ t. t.name ≢ s.name) ts
    flip [] h = tt
    flip (t ∷ ts) h = ((λ e. h.0 (sym e)), flip ts h.1)
unique-middle (k ∷ ks) s ss (h, u) =
    let (a, (b, c)) = unique-middle ks s ss u in let (d, e) = parts ks h in ((d, a), (b, (e, c)))
  where
    parts :
        (ts : List Segment)
        → All (λ t. k.name ≢ t.name) (ts ++ s ∷ ss)
        → (k.name ≢ s.name) × All (λ t. k.name ≢ t.name) (ts ++ ss)
    parts [] h = h
    parts (t ∷ ts) h = let r = parts ts h.1 in (r.0, (h.0, r.1))

find_middle :
    (ks : List Segment) (s : Segment) (ss : List Segment)
    → All (λ t. t.name ≢ s.name) ks
    → find_where (is_named s.name) (ks ++ s ∷ ss) ≡ some s
unfolding find_where
find_middle [] s ss h = ground arith
find_middle (k ∷ ks) s ss h =
    let r = find_middle ks s ss h.1 in
    let n = h.0 in let e : (k.name == s.name) ≡ false = ground arith in rw e r

keep-others :
    (name : Uuid) (ss : List Segment)
    → All (λ t. t.name ≢ name) ss
    → keep (λ s. not (is_named name s)) ss ≡ ss
keep-others name [] h = refl
keep-others name (s ∷ ss) h =
    let r = keep-others name ss h.1 in
    let n = h.0 in let e : (s.name == name) ≡ false = ground arith in rw (e, r) refl

keep-middle :
    (ks : List Segment) (s : Segment) (ss : List Segment)
    → All (λ t. t.name ≢ s.name) ks
    → All (λ t. t.name ≢ s.name) ss
    → keep (λ t. not (is_named s.name t)) (ks ++ s ∷ ss) ≡ ks ++ ss
keep-middle [] s ss h k =
    let r = keep-others s.name ss k in let e : (s.name == s.name) ≡ true = ground arith in rw e r
keep-middle (t ∷ ks) s ss h k =
    let r = keep-middle ks s ss h.1 k in
    let n = h.0 in let e : (t.name == s.name) ≡ false = ground arith in rw (e, r) refl

-- What one turn of the loop does at the first segment that it has not come to.
abbrev Turns : List Segment → Segment → List Segment → SegmentLedger × Release → Type 0
Turns ks s ss r =
    (r.0.owned ≡ (if is_viewed s then ks ++ s ∷ ss else ks ++ ss))
    × (r.1 ≡ (if is_viewed s then still_in_use else released))

close_viewed :
    (s : Segment)
    → s.open_handle ≡ true
    → (b : Bool) → is_viewed s ≡ b
    → (close s).1 ≡ (if b then in_use else handle_closed)
unfolding close
close_viewed s o b v = ground arith

found-Turns :
    (ks : List Segment) (s : Segment) (ss : List Segment) (l : SegmentLedger)
    → l.owned ≡ ks ++ s ∷ ss
    → keep (λ t. not (is_named s.name t)) (ks ++ s ∷ ss) ≡ ks ++ ss
    → s.open_handle ≡ true
    → Turns ks s ss (release_found s.name l (some s))
found-Turns ks s ss l e k o = elim (Bool-cases (is_viewed s)) [
  | inl v ↦
      let c = close_viewed s o true v in
      subst (λ c. Turns ks s ss (release_segment s.name l c)) (sym c) (rw v (e, refl))
  | inr v ↦
      let c = close_viewed s o false v in
      subst (λ c. Turns ks s ss (release_segment s.name l c)) (sym c)
        (rw v (ap (keep (λ t. not (is_named s.name t))) e ∙ k, refl))
]

release-Turns :
    (ks : List Segment) (s : Segment) (ss : List Segment) (l : SegmentLedger)
    → l.owned ≡ ks ++ s ∷ ss
    → HasNames (ks ++ s ∷ ss)
    → s.open_handle ≡ true
    → Turns ks s ss (release s.name l)
unfolding release
release-Turns ks s ss l e u o =
    let (a, (b, c)) = unique-middle ks s ss u in
    subst (λ f. Turns ks s ss (release_found s.name l f))
      (sym (ap (find_where (is_named s.name)) e ∙ find_middle ks s ss a))
      (found-Turns ks s ss l e (keep-middle ks s ss a b) o)

abbrev AreOpen : List Segment → Type 0
AreOpen = All (λ s. s.open_handle ≡ true)

abbrev pub first_name : List Segment → Option Uuid
first_name [] = none
first_name (s ∷ ss) = some s.name

abbrev or_first : Option Uuid → Option Uuid → Option Uuid
or_first none later = later
or_first (some first) later = some first

-- What the loop must end with, from the segments that it came to and those before it.
abbrev Ends : List Segment → List Segment → Releasing → SegmentLedger × Releasing → Type 0
Ends ks ss before r =
    (r.0.owned ≡ ks ++ keep is_viewed ss)
    × ((r.1.released_names ≡ before.released_names ++ names_of (keep (λ s. not (is_viewed s)) ss))
        × (r.1.failure ≡ or_first before.failure (first_name (keep is_viewed ss))))

-- `Ends` with a first segment that has an open view, and with one that has none.
abbrev AfterViewed :
    List Segment → Segment → List Segment → Releasing → SegmentLedger × Releasing → Type 0
AfterViewed ks s ss before r =
    (r.0.owned ≡ ks ++ s ∷ keep is_viewed ss)
    × ((r.1.released_names ≡ before.released_names ++ names_of (keep (λ t. not (is_viewed t)) ss))
        × (r.1.failure ≡ or_first before.failure (some s.name)))

abbrev AfterFree :
    List Segment → Segment → List Segment → Releasing → SegmentLedger × Releasing → Type 0
AfterFree ks s ss before r =
    (r.0.owned ≡ ks ++ keep is_viewed ss)
    × ((r.1.released_names
          ≡ before.released_names ++ s.name ∷ names_of (keep (λ t. not (is_viewed t)) ss))
        × (r.1.failure ≡ or_first before.failure (first_name (keep is_viewed ss))))

first_or :
    (o : Option Uuid) (name : Uuid) (later : Option Uuid)
    → or_first (first_of o name) later ≡ or_first o (some name)
first_or none name later = refl
first_or (some first) name later = refl

release_each-Ends :
    (ss ks : List Segment) (l : SegmentLedger) (before : Releasing)
    → l.owned ≡ ks ++ ss
    → HasNames (ks ++ ss)
    → AreOpen ss
    → Ends ks ss before (release_each (names_of ss) l before)
unfolding release_each
release_each-Ends [] ks l before e u o =
    (e, (sym (append-nil before.released_names), no_more before.failure))
  where
    append-nil : (xs : List Uuid) → xs ++ [] ≡ xs
    append-nil [] = refl
    append-nil (x ∷ xs) = ap (λ ys. x ∷ ys) (append-nil xs)

    no_more : (o : Option Uuid) → o ≡ or_first o none
    no_more none = refl
    no_more (some x) = refl
release_each-Ends (s ∷ ss) ks l before e u o =
    let turn = release-Turns ks s ss l e u o.0 in
    elim (Bool-cases (is_viewed s)) [
      | inl v ↦
          let a : (release s.name l).0.owned ≡ (ks ++ s ∷ []) ++ ss =
            (rw v at turn.0) ∙ sym (append_assoc ks (s ∷ []) ss) in
          let b : (release s.name l).1 ≡ still_in_use = (rw v at turn.1) in
          let r =
            release_each-Ends ss (ks ++ s ∷ []) (release s.name l).0
              (note_release s.name still_in_use before) a
              (subst HasNames (sym (append_assoc ks (s ∷ []) ss)) u) o.1 in
          rw v (
            subst
              (λ c.
                AfterViewed ks s ss before
                  (release_each (names_of ss) (release s.name l).0 (note_release s.name c before)))
              (sym b)
              (
                r.0 ∙ append_assoc ks (s ∷ []) (keep is_viewed ss),
                (r.1.0, r.1.1 ∙ first_or before.failure s.name (first_name (keep is_viewed ss))),
              ))
      | inr v ↦
          let a : (release s.name l).0.owned ≡ ks ++ ss = (rw v at turn.0) in
          let b : (release s.name l).1 ≡ released = (rw v at turn.1) in
          let (c, (d, w)) = unique-middle ks s ss u in
          let r =
            release_each-Ends ss ks (release s.name l).0 (note_release s.name released before) a w
              o.1 in
          rw v (
            subst
              (λ c.
                AfterFree ks s ss before
                  (release_each (names_of ss) (release s.name l).0 (note_release s.name c before)))
              (sym b)
              (
                r.0,
                (
                  r.1.0
                      ∙ append_assoc before.released_names (s.name ∷ [])
                          (names_of (keep (λ t. not (is_viewed t)) ss)),
                  r.1.1,
                ),
              ))
    ]

none_viewed : (ss : List Segment) → keep is_viewed ss ≡ [] → keep (λ s. not (is_viewed s)) ss ≡ ss
none_viewed [] h = refl
none_viewed (s ∷ ss) h = elim (Bool-cases (is_viewed s)) [
  | inl v ↦ absurd (nil_cons (rw v at h))
  | inr v ↦ rw v (ap (λ ts. s ∷ ts) (none_viewed ss (rw v at h)))
]
  where
    nil_cons : {ts : List Segment} → (s ∷ ts) ≢ []
    nil_cons e = absurd (cc)

-- release_all, of a ledger whose segments have different names and open handles, leaves exactly the
-- segments with an open view. If there is none it returns the names of all that were owned, in
-- their order; otherwise it returns nothing and raises the error of the first one with an open view.
pub release_all-ends :
    (l : SegmentLedger)
    → UniqueKeys (λ s. s.name) l.owned
    → All (λ s. s.open_handle ≡ true) l.owned
    → ((release_all l).0.owned ≡ keep is_viewed l.owned)
      × (((keep is_viewed l.owned ≡ []) × ((release_all l).1 ≡ returned (names_of l.owned)))
          ⊎ ((s : Segment) × (ss : List Segment) × (keep is_viewed l.owned ≡ s ∷ ss)
              × ((release_all l).1 ≡ raised_in_use s.name)))
unfolding release_all
release_all-ends l u o =
    let r =
      release_each-Ends l.owned [] l (record { released_names = []; failure = none }) refl u o in
    (r.0, ends (keep is_viewed l.owned) refl r.1.0 r.1.1)
  where
    done : SegmentLedger × Releasing
    done = release_each (names_of l.owned) l (record { released_names = []; failure = none })

    ends :
        (viewed : List Segment)
        → keep is_viewed l.owned ≡ viewed
        → done.1.released_names ≡ names_of (keep (λ s. not (is_viewed s)) l.owned)
        → done.1.failure ≡ first_name (keep is_viewed l.owned)
        → ((keep is_viewed l.owned ≡ [])
            × (all_released done.1.failure done.1.released_names ≡ returned (names_of l.owned)))
          ⊎ ((s : Segment) × (ss : List Segment) × (keep is_viewed l.owned ≡ s ∷ ss)
              × (all_released done.1.failure done.1.released_names ≡ raised_in_use s.name))
    ends [] e names failure = inl (
      e,
      ap (λ f. all_released f done.1.released_names) (failure ∙ ap first_name e)
          ∙ ap returned (names ∙ ap names_of (none_viewed l.owned e)),
    )
    ends (s ∷ ss) e names failure =
        inr (s, ss, e, ap (λ f. all_released f done.1.released_names) (failure ∙ ap first_name e))
