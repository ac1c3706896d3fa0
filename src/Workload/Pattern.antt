-- ===== src/Workload/Pattern.antt =====
-- src/workload_spec.cc: the pattern of a target.
use mathlib.Core.Option.{get_or}
use xrdhover.Prelude.Text.{Text, codes, text_eq}
use xrdhover.Json.{Json, is_object, as_string, as_int64}
use xrdhover.Units.{parse_size_string}
use xrdhover.RunConfig.{PatternType, sequential}
use xrdhover.Workload.Data.{whole, PatternSpec, new_pattern}
use xrdhover.Workload.Fields.{
  ValidationIssue, Checked, issue, thrown, join, reject_unknown, get, contains_key, require_string,
  optional_string, optional_double, parse_pattern_type,
}
use xrdhover.Prelude.{
  ℕ, ◌^◌, Bool, true, false, ◌&&◌, ◌||◌, not, Option, none, some, List, [], ◌∷◌, ◌++◌, ltb, leb,
  ◌==◌, if◌then◌else◌,
}

-- `base + ".key"`.
abbrev pub dotted : Text → Text → Text
dotted base key = base ++ b'.' ∷ key

abbrev pub read_size_value : Text → Option ℕ → ℕ → Checked ℕ
read_size_value path none out = record { value = out; issues = thrown path }
read_size_value path (some sz) out =
    if (sz == 0) || ltb 0xffffffff sz
    then record { value = out; issues = issue path (codes "out of range") }
    else record { value = sz; issues = [] }

-- The text of the size and the size.
unfoldable pub check_read_size : Text → Json → Checked (Text × ℕ)
check_read_size base pj =
    let path = dotted base (codes "pattern.read_size") in
    let f = optional_string pj (codes "read_size") path (codes "1MiB") in
    let size = read_size_value path (parse_size_string f.value) (2 ^ 20) in
    if f.good && contains_key (codes "read_size") pj
    then record { value = (f.value, size.value); issues = f.issues ++ size.issues }
    else record { value = (f.value, 2 ^ 20); issues = f.issues }

abbrev pub int_within : ℕ → ℕ → Option ℕ → Bool
int_within min_v max_v none = false
int_within min_v max_v (some n) = leb min_v n && leb n max_v

-- An integer from 1 to `max_v`, or the default where it is left out.
unfoldable pub counted : Json → Text → Text → ℕ → ℕ → Text → Checked ℕ
counted parent key path out max_v message = elim (get key parent) [
  | none ↦ record { value = out; issues = [] }
  | some v ↦
      if int_within 1 max_v (as_int64 v)
      then record { value = get_or (as_int64 v) out; issues = [] }
      else record { value = out; issues = issue path message }
]

pub record MaxBytes : Type 0 where
  pub input : Text
  pub bytes : ℕ
  pub auto : Bool

abbrev pub max_bytes_value : Text → Text → Option ℕ → Checked MaxBytes
max_bytes_value path input none = record {
  value = record { input = input; bytes = 0; auto = false };
  issues = thrown path;
}
max_bytes_value path input (some bytes) = record {
  value = record { input = input; bytes = bytes; auto = false };
  issues = [];
}

abbrev pub max_bytes_text : Text → Option Text → Checked MaxBytes
max_bytes_text path none = record {
  value = record { input = codes "auto"; bytes = 0; auto = true };
  issues = issue path (codes "must be a string");
}
max_bytes_text path (some input) =
    if text_eq input (codes "auto")
    then record { value = record { input = input; bytes = 0; auto = true }; issues = [] }
    else max_bytes_value path input (parse_size_string input)

unfoldable pub check_max_bytes : Text → Json → Checked MaxBytes
check_max_bytes base pj = elim (get (codes "max_bytes") pj) [
  | none ↦ record { value = record { input = codes "auto"; bytes = 0; auto = true }; issues = [] }
  | some v ↦ max_bytes_text (dotted base (codes "pattern.max_bytes")) (as_string v)
]

abbrev pub uncapped_message : Text
uncapped_message =
    codes "uncapped target_rate requires explicit positive max_bytes (not 'auto' or 0)"

-- An uncapped rate asks for an explicit cap of the bytes.
unfoldable pub check_uncapped : Text → ℕ → MaxBytes → List ValidationIssue
check_uncapped base rate m =
    if (rate == 0) && (m.auto || (m.bytes == 0))
    then issue (dotted base (codes "pattern.max_bytes")) uncapped_message
    else []

unfoldable pub check_pattern_type : Text → Json → Checked PatternType
check_pattern_type base pj =
    let path = dotted base (codes "pattern.type") in
    let f = require_string pj (codes "type") path [] in
    let t = parse_pattern_type f.value path in
    if f.good
    then record { value = t.value; issues = f.issues ++ t.issues }
    else record { value = sequential; issues = f.issues }

unfoldable pub check_pattern_fields : Text → ℕ → Json → Checked PatternSpec
check_pattern_fields base rate pj =
    let type_s = check_pattern_type base pj in
    let size = check_read_size base pj in
    let fraction =
      optional_double pj (codes "vector_fraction") (dotted base (codes "pattern.vector_fraction"))
        new_pattern.vector_fraction (whole 0) (whole 1) in
    let chunks =
      counted pj (codes "vector_chunks") (dotted base (codes "pattern.vector_chunks")) 8 65535
        (codes "must be an integer in [1, 65535]") in
    let bytes = check_max_bytes base pj in
    let allowed =
      codes "type"
      ∷ codes "read_size"
      ∷ codes "vector_fraction"
      ∷ codes "vector_chunks"
      ∷ codes "max_bytes"
      ∷ [] in
    record {
      value = record {
        pattern_type = type_s.value;
        read_size_input = size.value.0;
        chunk_size = size.value.1;
        vector_fraction = fraction.value;
        vector_chunks = chunks.value;
        max_bytes_input = bytes.value.input;
        max_bytes = bytes.value.bytes;
        max_bytes_auto = bytes.value.auto;
      };
      issues = join (
          reject_unknown pj allowed (dotted base (codes "pattern"))
          ∷ type_s.issues
          ∷ size.issues
          ∷ fraction.issues
          ∷ chunks.issues
          ∷ bytes.issues
          ∷ check_uncapped base rate bytes.value
          ∷ []);
    }

-- What stands under the key "pattern".
unfoldable pub pattern_member : Text → ℕ → Option Json → Checked PatternSpec
pattern_member base rate none = record {
  value = new_pattern;
  issues = issue (dotted base (codes "pattern")) (codes "required field missing");
}
pattern_member base rate (some pj) =
    if not (is_object pj)
    then record {
      value = new_pattern;
      issues = issue (dotted base (codes "pattern")) (codes "must be an object");
    }
    else check_pattern_fields base rate pj

unfoldable pub check_pattern : Text → ℕ → Json → Checked PatternSpec
check_pattern base rate tj = pattern_member base rate (get (codes "pattern") tj)
