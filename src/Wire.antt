-- ===== src/Wire.antt =====
-- backend/ml/contracts: protocol.py (the error codes and states) and wire.py, the strict readers of
-- a message, a value of JSON. A reader raises ContractError with a code; the text of the message
-- is left out.
use text.Mathlib.Text.{◌==◌}
use face_identify.Prelude.{
  ℕ, String, Bool, true, false, not, ◌&&◌, ◌||◌, Option, none, some, List, [], ◌∷◌, leb,
  if◌then◌else◌,
}

pub data MlErrorCode : Type 0 where
  invalid_request unsupported_protocol_version component_not_available : MlErrorCode
  component_load_failed runtime_variant_not_available runtime_initialization_failed : MlErrorCode
  invalid_input inference_failed out_of_memory shared_memory_unavailable : MlErrorCode
  shared_memory_invalid internal_worker_error : MlErrorCode

-- What a reader gives, or the code of its ContractError.
pub data Read {ℓ} (A : Type ℓ) : Type ℓ where
  refuse : MlErrorCode → Read A
  got : A → Read A

abbrev pub ◌>>=◌ {ℓ κ} : {A : Type ℓ} {B : Type κ} (first : Read A) (next : A → Read B) → Read B
refuse code >>= next = refuse code
got value >>= next = next value

abbrev pub ◌>>◌ {κ} : {B : Type κ} (first : Read (Unit {0})) (next : Read B) → Read B
refuse code >> next = refuse code
got value >> next = next

infixl 5 ◌>>=◌ ◌>>◌
-- `raise` unless the test holds.
abbrev pub need : Bool → MlErrorCode → Read (Unit {0})
need true code = got tt
need false code = refuse code

-- Python's integers.
pub data ℤ : Type 0 where
  pos : ℕ → ℤ
  negsuc : ℕ → ℤ  -- `negsuc n` is minus `n + 1`

mutual
  -- What arrives; `other` is a value of any further type (a float, an object of a class).
  pub data Value : Type 0 where
    null : Value
    boolean : Bool → Value
    integer : ℤ → Value
    string : String → Value
    sequence : Values → Value
    mapping : Fields → Value
    other : Value

  pub data Values : Type 0 where
    end : Values
    item : Value → Values → Values

  -- a dictionary in the order of its insertions
  pub data Fields : Type 0 where
    no_fields : Fields
    field : String → Value → Fields → Fields

abbrev pub has_key : String → Fields → Bool
has_key k no_fields = false
has_key k (field j v fs) = j == k || has_key k fs

-- `data[key]`, `null` for a key that is not there (`exact_keys` came before).
abbrev pub value_of : String → Fields → Value
value_of k no_fields = null
value_of k (field j v fs) = if j == k then v else value_of k fs

abbrev pub is_one_of : String → List String → Bool
is_one_of k [] = false
is_one_of k (j ∷ js) = j == k || is_one_of k js

abbrev pub all_there : List String → Fields → Bool
all_there [] fs = true
all_there (k ∷ ks) fs = has_key k fs && all_there ks fs

abbrev pub none_else : List String → Fields → Bool
none_else ks no_fields = true
none_else ks (field j v fs) = is_one_of j ks && none_else ks fs

-- `exact_keys` with no optional keys.
abbrev pub exact_keys : Fields → List String → Read (Unit {0})
exact_keys fs required = need (all_there required fs && none_else required fs) invalid_request

abbrev pub as_mapping : Value → Read Fields
as_mapping (mapping fs) = got fs
as_mapping null = refuse invalid_request
as_mapping (boolean b) = refuse invalid_request
as_mapping (integer i) = refuse invalid_request
as_mapping (string s) = refuse invalid_request
as_mapping (sequence vs) = refuse invalid_request
as_mapping other = refuse invalid_request

-- `string`: text that is not empty.
abbrev pub read_string : Value → Read String
read_string (string s) = need (not (s == "")) invalid_request >> got s
read_string null = refuse invalid_request
read_string (boolean b) = refuse invalid_request
read_string (integer i) = refuse invalid_request
read_string (sequence vs) = refuse invalid_request
read_string (mapping fs) = refuse invalid_request
read_string other = refuse invalid_request

abbrev pub at_least : ℕ → ℤ → Read ℕ
at_least minimum (pos n) = need (leb minimum n) invalid_request >> got n
at_least minimum (negsuc n) = refuse invalid_request

-- `integer` with a minimum that is not negative; a Boolean is not an integer.
abbrev pub read_integer : ℕ → Value → Read ℕ
read_integer minimum (integer i) = at_least minimum i
read_integer minimum null = refuse invalid_request
read_integer minimum (boolean b) = refuse invalid_request
read_integer minimum (string s) = refuse invalid_request
read_integer minimum (sequence vs) = refuse invalid_request
read_integer minimum (mapping fs) = refuse invalid_request
read_integer minimum other = refuse invalid_request

abbrev pub read_boolean : Value → Read Bool
read_boolean (boolean b) = got b
read_boolean null = refuse invalid_request
read_boolean (integer i) = refuse invalid_request
read_boolean (string s) = refuse invalid_request
read_boolean (sequence vs) = refuse invalid_request
read_boolean (mapping fs) = refuse invalid_request
read_boolean other = refuse invalid_request

-- `sequence`: a list or a tuple.
abbrev pub read_sequence : Value → Read Values
read_sequence (sequence vs) = got vs
read_sequence null = refuse invalid_request
read_sequence (boolean b) = refuse invalid_request
read_sequence (integer i) = refuse invalid_request
read_sequence (string s) = refuse invalid_request
read_sequence (mapping fs) = refuse invalid_request
read_sequence other = refuse invalid_request

-- `optional_string`.
abbrev pub read_optional_string : Value → Read (Option String)
read_optional_string null = got none
read_optional_string (string s) = read_string (string s) >>= λ t. got (some t)
read_optional_string (boolean b) = refuse invalid_request
read_optional_string (integer i) = refuse invalid_request
read_optional_string (sequence vs) = refuse invalid_request
read_optional_string (mapping fs) = refuse invalid_request
read_optional_string other = refuse invalid_request

-- The comprehension `integer(d, what, minimum=1) for d in …`.
unfoldable pub read_integers : ℕ → Values → Read (List ℕ)
read_integers minimum end = got []
read_integers minimum (item v vs) =
    read_integer minimum v >>= λ n. read_integers minimum vs >>= λ ns. got (n ∷ ns)

-- `list(numbers)` as it is sent.
unfoldable pub integers : List ℕ → Values
integers [] = end
integers (n ∷ ns) = item (integer (pos n)) (integers ns)
