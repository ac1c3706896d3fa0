-- ===== src/Workload/Fields.antt =====
-- src/workload_spec.cc: the issues that the validation lists, and the checks of one field. The message
-- of an issue is none where it is the text of an exception, but for those of a file list and of a
-- site map, which are written out.
use xrdhover.Prelude.Text.{Text, codes, text_eq}
use xrdhover.Prelude.Dict.{lookup}
use xrdhover.Json.{Json, fields, as_string, as_boolean, as_int64, is_number_integer, as_number}
use xrdhover.Units.{Number, parse_duration_string}
use xrdhover.RunConfig.{PatternType, sequential, random, vector, mixed}
use xrdhover.Prelude.{
  ℕ, ◌*◌, ◌^◌, Bool, true, false, ◌&&◌, ◌||◌, not, Option, none, some, List, [], ◌∷◌, ◌++◌, ltb,
  if◌then◌else◌, is_empty,
}

pub record ValidationIssue : Type 0 where
  pub field : Text
  pub message : Option Text

pub record Checked {ℓ} (A : Type ℓ) : Type ℓ where
  pub value : A
  pub issues : List ValidationIssue

-- A check of one field: `good` is what the function returns, `value` what it leaves in `out`.
pub record Field {ℓ} (A : Type ℓ) : Type ℓ where
  pub good : Bool
  pub value : A
  pub issues : List ValidationIssue

abbrev pub issue : Text → Text → List ValidationIssue
issue field message = record { field = field; message = some message } ∷ []

abbrev pub thrown : Text → List ValidationIssue
thrown field = record { field = field; message = none } ∷ []

module _ {ℓ} {A : Type ℓ} where
  abbrev pub accept : A → Field A
  accept v = record { good = true; value = v; issues = [] }

  abbrev pub refuse : Text → Text → A → Field A
  refuse path message out = record { good = false; value = out; issues = issue path message }

  -- The lists one after another.
  unfoldable pub join : List (List A) → List A
  join [] = []
  join (xs ∷ xss) = xs ++ join xss

unfoldable pub is_allowed : Text → List Text → Bool
is_allowed k [] = false
is_allowed k (a ∷ allowed) = text_eq a k || is_allowed k allowed

abbrev pub sub_path : Text → Text → Text
sub_path path key = if is_empty path then key else path ++ b'.' ∷ key

unfoldable pub unknown_fields : List (Text × Json) → List Text → Text → List ValidationIssue
unknown_fields [] allowed path = []
unknown_fields ((k, v) ∷ ms) allowed path =
    let rest = unknown_fields ms allowed path in
    if is_allowed k allowed then rest else issue (sub_path path k) (codes "unknown field") ++ rest

unfoldable pub reject_unknown : Json → List Text → Text → List ValidationIssue
reject_unknown obj allowed path = unknown_fields (fields obj) allowed path

-- `parent[key]`, none where the parent does not contain the key.
abbrev pub get : Text → Json → Option Json
get key parent = lookup key (fields parent)

abbrev pub contains_key : Text → Json → Bool
contains_key key parent = elim (get key parent) [ none ↦ false | some v ↦ true ]

abbrev pub string_field : Text → Text → Option Text → Field Text
string_field path out none = refuse path (codes "must be a string") out
string_field path out (some s) = accept s

unfoldable pub require_string : Json → Text → Text → Text → Field Text
require_string parent key path out = elim (get key parent) [
  | none ↦ refuse path (codes "required field missing") out
  | some v ↦ string_field path out (as_string v)
]

unfoldable pub optional_string : Json → Text → Text → Text → Field Text
optional_string parent key path out = elim (get key parent) [
  | none ↦ accept out
  | some v ↦ string_field path out (as_string v)
]

unfoldable pub optional_uint : Json → Text → Text → ℕ → Field ℕ
optional_uint parent key path out = elim (get key parent) [
  | none ↦ accept out
  | some v ↦ elim (as_int64 v) [
    | none ↦ refuse path (codes "must be a non-negative integer") out
    | some n ↦ accept n
  ]
]

-- For bounds that are not negative.
unfoldable pub optional_int : Json → Text → Text → ℕ → ℕ → ℕ → Field ℕ
optional_int parent key path out min_v max_v = elim (get key parent) [
  | none ↦ accept out
  | some v ↦
      if not (is_number_integer v)
      then refuse path (codes "must be an integer") out
      else elim (as_int64 v) [
        | none ↦ refuse path (codes "out of range") out
        | some n ↦
            if ltb n min_v || ltb max_v n then refuse path (codes "out of range") out else accept n
      ]
]

unfoldable pub optional_bool : Json → Text → Text → Bool → Field Bool
optional_bool parent key path out = elim (get key parent) [
  | none ↦ accept out
  | some v ↦ elim (as_boolean v) [
    | none ↦ refuse path (codes "must be a boolean") out
    | some b ↦ accept b
  ]
]

-- `a < b` for the values without their signs, and with them.
abbrev pub smaller : Number → Number → Bool
smaller a b = ltb (a.mantissa * 10 ^ b.decimals) (b.mantissa * 10 ^ a.decimals)

unfoldable pub less : Number → Number → Bool
less a b =
    if a.negative
    then (if b.negative then smaller b a else (ltb 0 a.mantissa || ltb 0 b.mantissa))
    else (if b.negative then false else smaller a b)

unfoldable pub optional_double : Json → Text → Text → Number → Number → Number → Field Number
optional_double parent key path out min_v max_v = elim (get key parent) [
  | none ↦ accept out
  | some v ↦ elim (as_number v) [
    | none ↦ refuse path (codes "must be a number") out
    | some x ↦
        if less x min_v || less max_v x then refuse path (codes "out of range") out else accept x
  ]
]

abbrev pub not_a_pattern : Text
not_a_pattern = codes "must be sequential|random|vector|mixed"

unfoldable pub parse_pattern_type : Text → Text → Checked PatternType
parse_pattern_type s path =
    if text_eq s (codes "sequential")
    then record { value = sequential; issues = [] }
    else if text_eq s (codes "random")
    then record { value = random; issues = [] }
    else if text_eq s (codes "vector")
    then record { value = vector; issues = [] }
    else if text_eq s (codes "mixed")
    then record { value = mixed; issues = [] }
    else record { value = sequential; issues = issue path not_a_pattern }

-- A duration that was read: what `rejects` holds of is an issue.
abbrev pub duration_value : Text → (Number → Bool) → Text → Number → Option Number → Checked Number
duration_value path rejects message out none = record { value = out; issues = thrown path }
duration_value path rejects message out (some d) = record {
  value = d;
  issues = if rejects d then issue path message else [];
}

-- `try { out = ParseDurationString(input); ... }` of a field that is there.
unfoldable pub check_duration : Text → (Number → Bool) → Text → Text → Number → Checked Number
check_duration path rejects message input out =
    duration_value path rejects message out (parse_duration_string input)

-- A duration that may be left out: its text and its value.
unfoldable pub optional_duration :
    Json → Text → Text → (Number → Bool) → Text → Text → Number → Checked (Text × Number)
optional_duration parent key path rejects message input out =
    let f = optional_string parent key path input in
    let d = check_duration path rejects message f.value out in
    if f.good && contains_key key parent
    then record { value = (f.value, d.value); issues = f.issues ++ d.issues }
    else record { value = (f.value, out); issues = f.issues }
