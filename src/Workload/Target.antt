-- ===== src/Workload/Target.antt =====
-- src/workload_spec.cc: the targets of ValidateWorkloadJson.
use xrdhover.Prelude.Text.{Text, codes, text_eq, starts_with, decimal}
use xrdhover.Json.{Json, is_object, as_string, as_array}
use xrdhover.Units.{parse_target_rate_string}
use xrdhover.RunConfig.FileList.{load_file_list}
use xrdhover.Workload.Data.{TargetSpec}
use xrdhover.Workload.Fields.{Checked, issue, thrown, join, reject_unknown, get, require_string}
use xrdhover.Workload.Host.{Host, resolve_relative}
use xrdhover.Workload.Pattern.{dotted, counted, check_pattern}
use xrdhover.Prelude.{
  ℕ, ◌+◌, Bool, false, ◌&&◌, ◌||◌, not, Option, none, some, List, [], ◌∷◌, ◌++◌, if◌then◌else◌,
  is_empty,
}

unfoldable pub is_name_of : Text → List Text → Bool
is_name_of name [] = false
is_name_of name (n ∷ names) = text_eq n name || is_name_of name names

-- The name, and the names taken with it.
unfoldable pub check_name : Text → List Text → Json → Checked (Text × List Text)
check_name base names tj =
    let path = dotted base (codes "name") in
    let f = require_string tj (codes "name") path [] in
    if not f.good
    then record { value = (f.value, names); issues = f.issues }
    else if is_empty f.value
    then record { value = (f.value, names); issues = issue path (codes "must be non-empty") }
    else if is_name_of f.value names
    then record { value = (f.value, names); issues = issue path (codes "duplicate target name") }
    else record { value = (f.value, f.value ∷ names); issues = [] }

unfoldable pub check_endpoint : Text → Json → Checked Text
check_endpoint base tj =
    let path = dotted base (codes "endpoint") in
    let f = require_string tj (codes "endpoint") path [] in
    if f.good && not (starts_with (codes "root://") f.value)
    then record { value = f.value; issues = issue path (codes "must start with root://") }
    else record { value = f.value; issues = f.issues }

pub record FileList : Type 0 where
  pub input : Text
  pub path : Text
  pub files : List Text

-- What LoadFileList throws: the file cannot be opened, or holds no entry.
abbrev pub load_error : Text → Option (List Text) → Text
load_error path none = codes "cannot open filelist: " ++ path
load_error path (some lines) = codes "filelist is empty: " ++ path

abbrev pub loaded_files : Text → Text → Text → Text → Option (List Text) → Checked FileList
loaded_files field input path error none = record {
  value = record { input = input; path = path; files = [] };
  issues = issue field error;
}
loaded_files field input path error (some files) = record {
  value = record { input = input; path = path; files = files };
  issues = [];
}

unfoldable pub check_filelist : Host → Text → Text → Json → Checked FileList
check_filelist h workload_dir base tj =
    let field = dotted base (codes "filelist") in
    let f = require_string tj (codes "filelist") field [] in
    let path = resolve_relative h workload_dir f.value in
    if f.good
    then loaded_files field f.value path (load_error path (h.read_lines path))
        (load_file_list (h.read_lines path))
    else record { value = record { input = f.value; path = []; files = [] }; issues = f.issues }

abbrev pub rate_value : Text → Text → Option ℕ → Checked (Text × ℕ)
rate_value path input none = record { value = (input, 0); issues = thrown path }
rate_value path input (some rate) = record { value = (input, rate); issues = [] }

unfoldable pub check_target_rate : Text → Json → Checked (Text × ℕ)
check_target_rate base tj =
    let path = dotted base (codes "target_rate") in
    elim (get (codes "target_rate") tj) [
      | none ↦ record { value = ([], 0); issues = [] }
      | some v ↦ elim (as_string v) [
        | none ↦ record { value = ([], 0); issues = issue path (codes "must be a string") }
        | some input ↦ rate_value path input (parse_target_rate_string input)
      ]
    ]

-- One target that is an object, and the names taken after it.
unfoldable pub check_target :
    Host → Text → Text → List Text → Json → Checked (TargetSpec × List Text)
check_target h workload_dir base names tj =
    let name = check_name base names tj in
    let endpoint = check_endpoint base tj in
    let list = check_filelist h workload_dir base tj in
    let rate = check_target_rate base tj in
    let inflight =
      counted tj (codes "max_inflight") (dotted base (codes "max_inflight")) 16 100000
        (codes "must be an integer in [1, 100000]") in
    let pattern = check_pattern base rate.value.1 tj in
    let allowed =
      codes "name"
      ∷ codes "endpoint"
      ∷ codes "filelist"
      ∷ codes "target_rate"
      ∷ codes "max_inflight"
      ∷ codes "pattern"
      ∷ [] in
    record {
      value = (
        record {
          name = name.value.0;
          endpoint = endpoint.value;
          filelist = list.value.path;
          filelist_input = list.value.input;
          files = list.value.files;
          target_rate_input = rate.value.0;
          target_rate_bytes_per_s = rate.value.1;
          max_inflight = inflight.value;
          pattern = pattern.value;
        },
        name.value.1,
      );
      issues = join (
          reject_unknown tj allowed base
          ∷ name.issues
          ∷ endpoint.issues
          ∷ list.issues
          ∷ rate.issues
          ∷ inflight.issues
          ∷ pattern.issues
          ∷ []);
    }

abbrev pub target_path : ℕ → Text
target_path idx = codes "targets[" ++ decimal idx ++ b']' ∷ []

-- The loop over the targets, from index `idx` on.
unfoldable pub check_each : Host → Text → ℕ → List Text → List Json → Checked (List TargetSpec)
check_each h workload_dir idx names [] = record { value = []; issues = [] }
check_each h workload_dir idx names (tj ∷ tjs) =
    let t = check_target h workload_dir (target_path idx) names tj in
    let rest = check_each h workload_dir (idx + 1) t.value.1 tjs in
    let skipped = check_each h workload_dir (idx + 1) names tjs in
    if not (is_object tj)
    then record {
      value = skipped.value;
      issues = issue (target_path idx) (codes "must be an object") ++ skipped.issues;
    }
    else record { value = t.value.0 ∷ rest.value; issues = t.issues ++ rest.issues }

-- What stands under the key "targets".
unfoldable pub targets_member : Host → Text → Option Json → Checked (List TargetSpec)
targets_member h workload_dir none = record {
  value = [];
  issues = issue (codes "targets") (codes "required field missing");
}
targets_member h workload_dir (some v) = elim (as_array v) [
  | none ↦ record { value = []; issues = issue (codes "targets") (codes "must be an array") }
  | some tjs ↦
      if is_empty tjs
      then record {
        value = [];
        issues = issue (codes "targets") (codes "must contain at least one target");
      }
      else check_each h workload_dir 0 [] tjs
]

unfoldable pub check_targets : Host → Text → Json → Checked (List TargetSpec)
check_targets h workload_dir root = targets_member h workload_dir (get (codes "targets") root)
