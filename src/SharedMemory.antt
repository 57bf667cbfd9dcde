-- ===== src/SharedMemory.antt =====
-- backend/ml/contracts/shared_memory.py: the descriptor of an array in a shared-memory segment.
-- Sizes, dimensions and strides are numbers that are not negative; the readers refuse others.
pub mod Strides
pub mod Descriptor
pub mod Ledger
pub mod Views
pub mod ReleaseAll
mod Examples
use text.Mathlib.Text.{◌==◌}
use mathlib.Core.List.{reverse}
use face_identify.Prelude.{
  ℕ, ◌+◌, ◌*◌, String, Bool, true, false, not, ◌&&◌, Option, none, some, List, [], ◌∷◌, ◌++◌, leb,
  if◌then◌else◌,
}
use face_identify.Wire.{
  MlErrorCode, shared_memory_invalid, Read, refuse, got, ◌>>=◌, ◌>>◌, need, Value, Fields, Values,
  boolean, integer, string, sequence, mapping, no_fields, field, pos, value_of, exact_keys,
  as_mapping, read_string, read_integer, read_boolean, read_sequence, read_integers, integers,
}

pub record SharedMemoryDescriptor : Type 0 where
  pub name : String
  pub size_bytes : ℕ
  pub dtype : String
  pub shape : List ℕ
  pub strides : List ℕ
  pub layout : String
  pub readonly : Bool

-- `ITEM_SIZES`.
unfoldable pub item_size : String → Option ℕ
item_size dtype =
    if dtype == "uint8"
    then some 1
    else if dtype == "float32"
    then some 4
    else if dtype == "float64"
    then some 8
    else if dtype == "int32"
    then some 4
    else if dtype == "int64"
    then some 8
    else none

-- `math.prod`.
unfoldable pub prod : List ℕ → ℕ
prod [] = 1
prod (d ∷ ds) = d * prod ds

-- The loop of `contiguous_strides`: the strides appended so far, and the step.
unfoldable pub stride_loop : List ℕ → List ℕ → ℕ → List ℕ
stride_loop [] strides step = strides
stride_loop (dim ∷ dims) strides step = stride_loop dims (strides ++ step ∷ []) (step * dim)

unfoldable pub contiguous_strides : List ℕ → ℕ → List ℕ
unfolding stride_loop
contiguous_strides shape item_size = reverse (stride_loop (reverse shape) [] item_size)

abbrev pub same_numbers : List ℕ → List ℕ → Bool
same_numbers [] [] = true
same_numbers [] (n ∷ ns) = false
same_numbers (m ∷ ms) [] = false
same_numbers (m ∷ ms) (n ∷ ns) = (leb m n && leb n m) && same_numbers ms ns

abbrev pub all_positive : List ℕ → Bool
all_positive [] = true
all_positive (d ∷ ds) = leb 1 d && all_positive ds

abbrev pub is_empty_list : List ℕ → Bool
is_empty_list [] = true
is_empty_list (d ∷ ds) = false

-- `__post_init__` once the dtype has an item size.
unfoldable pub check_shape : SharedMemoryDescriptor → ℕ → Read SharedMemoryDescriptor
unfolding contiguous_strides prod
check_shape d item =
    need (d.layout == "C") shared_memory_invalid
    >> (need (not (is_empty_list d.shape)) shared_memory_invalid
        >> (need (all_positive d.shape) shared_memory_invalid
            >> (need (same_numbers d.strides (contiguous_strides d.shape item))
                  shared_memory_invalid
                >> (need (leb (prod d.shape * item) d.size_bytes) shared_memory_invalid >> got d))))

abbrev pub check_item : SharedMemoryDescriptor → Option ℕ → Read SharedMemoryDescriptor
check_item d none = refuse shared_memory_invalid
check_item d (some item) = check_shape d item

-- `__post_init__`: the descriptor, or the error that it raises.
unfoldable pub post_init : SharedMemoryDescriptor → Read SharedMemoryDescriptor
unfolding item_size check_shape
post_init d =
    need (not (d.name == "")) shared_memory_invalid
    >> (need (leb 1 d.size_bytes) shared_memory_invalid
        >> (need (not (d.dtype == "")) shared_memory_invalid
            >> (need (not (d.layout == "")) shared_memory_invalid
                >> check_item d (item_size d.dtype))))

unfoldable pub to_wire : SharedMemoryDescriptor → Value
unfolding integers
to_wire d = mapping (
    field "name" (string d.name) (
      field "size_bytes" (integer (pos d.size_bytes)) (
        field "dtype" (string d.dtype) (
          field "shape" (sequence (integers d.shape)) (
            field "strides" (sequence (integers d.strides)) (
              field "layout" (string d.layout)
                (field "readonly" (boolean d.readonly) no_fields)))))))

abbrev pub descriptor_keys : List String
descriptor_keys = "name" ∷ "size_bytes" ∷ "dtype" ∷ "shape" ∷ "strides" ∷ "layout" ∷ "readonly" ∷ []

-- The body of `from_wire`, inside its `try`.
unfoldable pub read_descriptor : Value → Read SharedMemoryDescriptor
unfolding read_integers
read_descriptor value = do
  fs ← as_mapping value
  exact_keys fs descriptor_keys
  name ← read_string (value_of "name" fs)
  size_bytes ← read_integer 1 (value_of "size_bytes" fs)
  dtype ← read_string (value_of "dtype" fs)
  dims ← read_sequence (value_of "shape" fs)
  shape ← read_integers 1 dims
  steps ← read_sequence (value_of "strides" fs)
  strides ← read_integers 1 steps
  layout ← read_string (value_of "layout" fs)
  readonly ← read_boolean (value_of "readonly" fs)
  post_init (record {
    name = name;
    size_bytes = size_bytes;
    dtype = dtype;
    shape = shape;
    strides = strides;
    layout = layout;
    readonly = readonly;
  })

-- A malformed descriptor is a shared-memory error.
abbrev pub as_memory_error : {A : Type 0} → Read A → Read A
as_memory_error (refuse code) = refuse shared_memory_invalid
as_memory_error (got a) = got a

unfoldable pub from_wire : Value → Read SharedMemoryDescriptor
unfolding read_descriptor
from_wire value = as_memory_error (read_descriptor value)

-- `describe`: the size of the array where none is given.
abbrev pub size_or : Option ℕ → ℕ → ℕ
size_or none n = n
size_or (some size) n = size

unfoldable pub describe : String → String → List ℕ → Bool → Option ℕ → Read SharedMemoryDescriptor
unfolding post_init
describe name dtype shape readonly size_bytes = elim (item_size dtype) [
  | none ↦ refuse shared_memory_invalid
  | some item ↦ post_init (record {
    name = name;
    size_bytes = size_or size_bytes (prod shape * item);
    dtype = dtype;
    shape = shape;
    strides = contiguous_strides shape item;
    layout = "C";
    readonly = readonly;
  })
]
