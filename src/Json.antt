-- ===== src/Json.antt =====
-- nlohmann::json as src/workload_spec.cc uses it: the kinds of a value and the tests on them. An
-- integer is `integer n` or `negative n`, which is -1 - n; a floating-point number is kept as the
-- decimal that it was written as. An object lists its members with each key once.
use xrdhover.Prelude.Text.{Text}
use xrdhover.Prelude.Dict.{Dict}
use xrdhover.Units.{Number}
use xrdhover.Prelude.{
  ℕ, ◌+◌, ◌-◌, ◌%◌, ◌^◌, ◌≡◌, refl, ap, Bool, true, false, Option, none, some, List, [], ◌∷◌, ltb,
  if◌then◌else◌,
}

mutual
  pub data Json : Type 0 where
    null : Json
    boolean : Bool → Json
    integer : ℕ → Json
    negative : ℕ → Json
    float : Number → Json
    string : Text → Json
    array : Elems → Json
    object : Members → Json

  pub data Elems : Type 0 where
    nil : Elems
    cons : Json → Elems → Elems

  pub data Members : Type 0 where
    end : Members
    member : Text → Json → Members → Members

abbrev pub elems : Elems → List Json
elems nil = []
elems (cons v vs) = v ∷ elems vs

abbrev pub members : Members → List (Text × Json)
members end = []
members (member k v ms) = (k, v) ∷ members ms

abbrev pub from_elems : List Json → Elems
from_elems [] = nil
from_elems (v ∷ vs) = cons v (from_elems vs)

abbrev pub from_members : List (Text × Json) → Members
from_members [] = end
from_members ((k, v) ∷ ms) = member k v (from_members ms)

pub members-from_members : (ms : List (Text × Json)) → members (from_members ms) ≡ ms
members-from_members [] = refl
members-from_members (m ∷ ms) = ap (λ (t : List (Text × Json)). m ∷ t) (members-from_members ms)

-- A map of counts, as an object.
abbrev pub counts_json : Dict ℕ → List (Text × Json)
counts_json [] = []
counts_json ((k, n) ∷ m) = (k, integer n) ∷ counts_json m

abbrev pub count_map : Dict ℕ → Json
count_map m = object (from_members (counts_json m))

-- The members of an object; a value of another kind has none.
abbrev pub fields : Json → List (Text × Json)
fields (object ms) = members ms
fields _ = []

abbrev pub is_object : Json → Bool
is_object (object ms) = true
is_object _ = false

abbrev pub as_string : Json → Option Text
as_string (string s) = some s
as_string _ = none

abbrev pub as_boolean : Json → Option Bool
as_boolean (boolean b) = some b
as_boolean _ = none

abbrev pub as_array : Json → Option (List Json)
as_array (array vs) = some (elems vs)
as_array _ = none

abbrev pub is_number_integer : Json → Bool
is_number_integer (integer n) = true
is_number_integer (negative n) = true
is_number_integer _ = false

-- `get<number_integer_t>()`, where it is not negative: an unsigned number from 2 ^ 63 on wraps.
abbrev pub as_int64 : Json → Option ℕ
as_int64 (integer n) = if ltb n (2 ^ 63) then some n else none
as_int64 _ = none

-- `get<int>()` keeps the low 32 bits; none for a negative int.
abbrev pub low_int : ℕ → Option ℕ
low_int n = if ltb (n % 2 ^ 32) (2 ^ 31) then some (n % 2 ^ 32) else none

abbrev pub as_int : Json → Option ℕ
as_int (integer n) = low_int n
as_int (negative n) = low_int (2 ^ 32 - 1 - n % 2 ^ 32)
as_int _ = none

abbrev pub as_number : Json → Option Number
as_number (integer n) = some (record { negative = false; mantissa = n; decimals = 0 })
as_number (negative n) = some (record { negative = true; mantissa = n + 1; decimals = 0 })
as_number (float x) = some x
as_number _ = none
