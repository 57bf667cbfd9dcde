-- ===== src/SharedMemory/Descriptor.antt =====
-- What a descriptor that __post_init__ accepts promises, and its round trip over the wire.
use text.Mathlib.Text.{◌==◌}
use mathlib.Core.Path.{subst}
use native.Mathlib.Nat.{mul-le-mul_right}
use face_identify.Prelude.{
  ℕ, ◌+◌, ◌*◌, ◌≤◌, ◌≡◌, ◌≢◌, refl, sym, ◌∙◌, inl, inr, String, true, false, some, List, [], ◌∷◌,
  leb, arith, Bool-cases, Option-cases,
}
use face_identify.Wire.{got, integers, read_integers}
use face_identify.SharedMemory.{
  SharedMemoryDescriptor, item_size, prod, contiguous_strides, same_numbers, all_positive,
  check_shape, check_item, post_init, to_wire, from_wire, read_descriptor,
}
use face_identify.SharedMemory.Strides.{
  strides_of, contiguous_strides-eq, IsIndex, offset, offset-le, AreApart, offset-AreApart,
}

pub record IsDescriptor (d : SharedMemoryDescriptor) : Type 0 where
  pub item : ℕ
  pub known : item_size d.dtype ≡ some item
  pub named : (d.name == "") ≡ false
  pub typed : (d.dtype == "") ≡ false
  pub ordered : (d.layout == "") ≡ false
  pub sized : leb 1 d.size_bytes ≡ true
  pub positive : all_positive d.shape ≡ true
  pub strided : d.strides ≡ strides_of d.shape item
  pub fits : prod d.shape * item ≤ d.size_bytes

same_numbers-eq : (ms ns : List ℕ) → same_numbers ms ns ≡ true → ms ≡ ns
same_numbers-eq [] [] h = refl
same_numbers-eq [] (n ∷ ns) h = absurd (cc)
same_numbers-eq (m ∷ ms) [] h = absurd (cc)
same_numbers-eq (m ∷ ms) (n ∷ ns) h = elim (Bool-cases (same_numbers ms ns)) [
  | inl e ↦ let q : m ≡ n = ground arith in let r = same_numbers-eq ms ns e in cc
  | inr e ↦ absurd (ground arith)
]

check_shape-lem :
    (d e : SharedMemoryDescriptor) (item : ℕ)
    → check_shape d item ≡ got e
    → (all_positive d.shape ≡ true)
      × ((same_numbers d.strides (contiguous_strides d.shape item) ≡ true)
          × (leb (prod d.shape * item) d.size_bytes ≡ true))
unfolding check_shape
check_shape-lem d e item h = ground arith

post_init-lem :
    (d e : SharedMemoryDescriptor)
    → post_init d ≡ got e
    → ((d.name == "") ≡ false)
      × ((leb 1 d.size_bytes ≡ true)
          × (((d.dtype == "") ≡ false)
              × (((d.layout == "") ≡ false) × (check_item d (item_size d.dtype) ≡ got e))))
unfolding post_init
post_init-lem d e h = ground arith

pub post_init-IsDescriptor : (d e : SharedMemoryDescriptor) → post_init d ≡ got e → IsDescriptor d
post_init-IsDescriptor d e h =
    let (named, (sized, (typed, (ordered, h4)))) = post_init-lem d e h in
    elim (Option-cases (item_size d.dtype)) [
      | inl n ↦ absurd (let k = (rw n at h4) in cc)
      | inr (item, s) ↦
          let (positive, (strided, fits)) = check_shape-lem d e item (rw s at h4) in
          record {
            item = item;
            known = s;
            named = named;
            typed = typed;
            ordered = ordered;
            sized = sized;
            positive = positive;
            strided = same_numbers-eq _ _ strided ∙ contiguous_strides-eq d.shape item;
            fits = ground arith;
          }
    ]

-- Of a descriptor that __post_init__ accepts: an element at an index within the shape lies whole
-- within size_bytes, and the elements at two different indices do not overlap.
pub post_init-addresses :
    (d e : SharedMemoryDescriptor) (is js : List ℕ)
    → post_init d ≡ got e
    → IsIndex is d.shape
    → IsIndex js d.shape
    → (item : ℕ) × (item_size d.dtype ≡ some item)
      × ((offset is d.strides + item ≤ d.size_bytes)
          × (is ≢ js → AreApart item (offset is d.strides) (offset js d.strides)))
post_init-addresses d e is js h i j =
    let v = post_init-IsDescriptor d e h in
    let l = offset-le is d.shape v.item i in
    (
      v.item,
      v.known,
      (
        subst (λ ss. offset is ss + v.item ≤ d.size_bytes) (sym v.strided)
            (omega (arith, l, v.fits)),
        λ n.
            subst (λ ss. AreApart v.item (offset is ss) (offset js ss)) (sym v.strided)
              (offset-AreApart is js d.shape v.item i j n),
      ),
    )

read_integers-integers :
    (ns : List ℕ) → all_positive ns ≡ true → read_integers 1 (integers ns) ≡ got ns
unfolding read_integers integers
read_integers-integers [] h = refl
read_integers-integers (n ∷ ns) h = elim (Bool-cases (leb 1 n)) [
  | inl e ↦ let r = read_integers-integers ns (rw e at h) in rw (e, r) refl
  | inr e ↦ absurd (let k = (rw e at h) in cc)
]

prod-positive : (ds : List ℕ) → all_positive ds ≡ true → 1 ≤ prod ds
unfolding prod
prod-positive [] h = omega arith
prod-positive (d ∷ ds) h = elim (Bool-cases (leb 1 d)) [
  | inl e ↦
      let r = prod-positive ds (rw e at h) in
      let l : 1 ≤ d = ground arith in let k = mul-le-mul_right (prod ds) l in omega (arith, r, k)
  | inr e ↦ absurd (let k = (rw e at h) in cc)
]

strides_of-positive :
    (ds : List ℕ) (item : ℕ)
    → 1 ≤ item
    → all_positive ds ≡ true
    → all_positive (strides_of ds item) ≡ true
unfolding strides_of
strides_of-positive [] item l h = refl
strides_of-positive (d ∷ ds) item l h = elim (Bool-cases (leb 1 d)) [
  | inl e ↦
      let k : all_positive ds ≡ true = (rw e at h) in
      let r = strides_of-positive ds item l k in
      let p = prod-positive ds k in
      let q = mul-le-mul_right item p in
      let s : 1 ≤ prod ds * item = omega (arith, l, q) in
      let t : leb 1 (prod ds * item) ≡ true = ground arith in rw t r
  | inr e ↦ absurd (let k = (rw e at h) in cc)
]

item_size-positive : (dtype : String) (item : ℕ) → item_size dtype ≡ some item → 1 ≤ item
unfolding item_size
item_size-positive dtype item h = ground arith

read-to_wire :
    (d : SharedMemoryDescriptor)
    → IsDescriptor d
    → all_positive d.strides ≡ true
    → read_descriptor (to_wire d) ≡ post_init d
unfolding read_descriptor to_wire
read-to_wire d v s =
    rw
      (
        v.named,
        v.sized,
        v.typed,
        read_integers-integers d.shape v.positive,
        read_integers-integers d.strides s,
        v.ordered,
      )
      refl

-- What a process sends as a descriptor, its peer reads back unchanged: from_wire undoes to_wire for
-- every descriptor that __post_init__ accepts.
pub from_wire-to_wire :
    (d : SharedMemoryDescriptor) → post_init d ≡ got d → from_wire (to_wire d) ≡ got d
unfolding from_wire
from_wire-to_wire d h =
    let v = post_init-IsDescriptor d d h in
    let s : all_positive d.strides ≡ true =
      rw v.strided (
        strides_of-positive d.shape v.item (item_size-positive d.dtype v.item v.known)
          v.positive) in
    rw (read-to_wire d v s, h) refl
