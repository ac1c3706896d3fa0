-- ===== src/Witness/Workload.antt =====
-- Examples for the workload, its authentication and its run.
use xrdhover.Workload.Accepted.{IsCapOf, accepted_target_runs, validate_workload_json-AreTargets}
use xrdhover.Engine.{run_run_command}
use xrdhover.Workload.Canonical.{workload_to_canonical_json}
use xrdhover.Workload.Targets.{AreTargets}
use xrdhover.Workload.RoundTrip.{workload_of_json-canonical, unresolved, workload_of_json}
use xrdhover.Workload.Host.{unopened}
use xrdhover.Workload.Stable.{issue_fields, validate_workload_json-same, SameFiles}
use xrdhover.Prelude.Text.{contains, lower, Text, codes, text_eq, starts_with}
use xrdhover.Prelude.Dict.{lookup}
use xrdhover.Json.{Json, integer, string, array, object, from_elems, from_members}
use xrdhover.Units.{
  rounded, rate_multiplier, rate_of, ends_in, parse_rate_string, parse_duration_string,
  parse_size_string, parse_target_rate_string, parse_number_suffix, scanned, scan,
  duration_multiplier,
}
use xrdhover.RunConfig.FileList.{load_file_list, entries, trim, trim_front, trim_back}
use xrdhover.Workload.Fields.{
  join, reject_unknown, unknown_fields, is_allowed, require_string, optional_string, optional_uint,
  optional_double, optional_duration, optional_int, check_duration, less, parse_pattern_type,
}
use xrdhover.Workload.Host.{below, Host, resolve_relative}
use xrdhover.Workload.Sections.{
  check_schema_version, check_run_id, check_run_duration, check_auth_mode, check_auth,
  check_client_tuning,
}
use xrdhover.Workload.Sinks.{check_sinks}
use xrdhover.Workload.Pattern.{
  counted, check_read_size, check_max_bytes, check_uncapped, check_pattern_type,
  check_pattern_fields, pattern_member, check_pattern,
}
use xrdhover.Workload.Target.{
  is_name_of, check_name, check_endpoint, check_filelist, check_target_rate, check_target,
  check_each, targets_member, check_targets,
}
use xrdhover.Workload.Validate.{to_run_config, check_workload, validate_workload_json}
use xrdhover.AuthCheck.{
  System, left, certificate, check_x509_credentials, check_file, check_permissions, check_lifetime,
  remaining_seconds, is_loose, with_margin, default_x509_proxy_path,
}
use xrdhover.AuthCheck.Verdict.{IsUsable, check_x509_credentials-IsUsable}
use xrdhover.WorkloadRun.{
  WorkloadRunOptions, select_target, is_authorized, with_options, selected_config,
  run_workload_command,
}
use xrdhover.WorkloadRun.Preflight.{Ran, run_workload_command-runs}
use xrdhover.Workload.Validate.{validate_workload_file, parent_dir}
use xrdhover.SiteMap.{rfind_char}
use xrdhover.RunConfig.{random}
use xrdhover.Workload.Data.{new_workload, TargetSpec, WorkloadSpec, whole, new_pattern}
use xrdhover.Prelude.{
  ℕ, ◌≡◌, refl, ◌↔◌, inr, true, false, Option, none, some, List, [], ◌∷◌, ◌++◌, get_elem?, is_empty,
}

-- Every file lists one path, and every path is in its normal form.
abbrev host : Host
host = record {
  lexically_normal = λ path. path;
  read_lines = λ path. some (codes "/f" ∷ []);
  read_document = λ path. unopened;
  dump = λ j. [];
  sha256 = λ text. [];
}

abbrev members_of : List (Text × Json) → Json
members_of ms = object (from_members ms)

abbrev target_json : Json
target_json = members_of (
    (codes "endpoint", string (codes "root://h"))
    ∷ (codes "filelist", string (codes "f"))
    ∷ (codes "name", string (codes "a"))
    ∷ (codes "pattern", members_of ((codes "type", string (codes "random")) ∷ []))
    ∷ (codes "target_rate", string (codes "8bps"))
    ∷ [])

abbrev workload_json : Json
workload_json = members_of (
    (codes "auth", members_of ((codes "mode", string (codes "x509")) ∷ []))
    ∷ (codes "duration", string (codes "9s"))
    ∷ (codes "run_id", string (codes "r"))
    ∷ (codes "schema_version", integer 1)
    ∷ (codes "targets", array (from_elems (target_json ∷ [])))
    ∷ [])

workload_is_accepted : (validate_workload_json host workload_json []).ok ≡ true
unfolding validate_workload_json check_workload join reject_unknown unknown_fields is_allowed lookup
    text_eq require_string optional_string optional_uint optional_double check_duration
    check_schema_version check_run_id check_run_duration check_auth_mode check_auth
    check_client_tuning check_sinks counted check_read_size check_max_bytes check_uncapped
    check_pattern_type parse_pattern_type check_pattern_fields pattern_member check_pattern
    is_name_of check_name check_endpoint check_filelist check_target_rate check_target check_each
    targets_member check_targets resolve_relative load_file_list entries trim trim_front trim_back
    starts_with parse_duration_string parse_size_string parse_target_rate_string parse_number_suffix
    scanned scan less optional_duration optional_int duration_multiplier lower parse_rate_string
    ends_in rate_of contains rate_multiplier rounded
workload_is_accepted = refl

abbrev target : TargetSpec
target = record {
  name = codes "a";
  endpoint = codes "root://h";
  filelist = codes "f";
  filelist_input = codes "f";
  files = codes "/f" ∷ [];
  target_rate_input = codes "8bps";
  target_rate_bytes_per_s = 1;
  max_inflight = 16;
  pattern = record new_pattern { pattern_type = random };
}

target_is_found :
    get_elem? (validate_workload_json host workload_json []).resolved.targets 0 ≡ some target
unfolding validate_workload_json check_workload join reject_unknown unknown_fields is_allowed lookup
    text_eq require_string optional_string optional_uint optional_double check_duration
    check_schema_version check_run_id check_run_duration check_auth_mode check_auth
    check_client_tuning check_sinks counted check_read_size check_max_bytes check_uncapped
    check_pattern_type parse_pattern_type check_pattern_fields pattern_member check_pattern
    is_name_of check_name check_endpoint check_filelist check_target_rate check_target check_each
    targets_member check_targets resolve_relative load_file_list entries trim trim_front trim_back
    starts_with parse_duration_string parse_size_string parse_target_rate_string parse_number_suffix
    scanned scan less optional_duration optional_int duration_multiplier lower parse_rate_string
    ends_in rate_of contains rate_multiplier rounded below
target_is_found = refl

validate_workload_json-AreTargets_example :
    let ts = (validate_workload_json host workload_json []).resolved.targets in
    AreTargets [] ts × (is_empty ts ≡ false)
validate_workload_json-AreTargets_example =
    validate_workload_json-AreTargets host workload_json [] workload_is_accepted

accepted_target_runs_example :
    let cfg = to_run_config (validate_workload_json host workload_json []).resolved target in
    (bytes : ℕ) × IsCapOf cfg bytes × (run_run_command cfg ≡ inr (record cfg { max_bytes = bytes }))
accepted_target_runs_example =
    accepted_target_runs host workload_json [] 0 {t = target} workload_is_accepted target_is_found

-- Another host with the same files, under another directory.
abbrev other_host : Host
other_host = record host { lexically_normal = λ path. codes "/data/" ++ path }

same_files : SameFiles host other_host [] (codes "/w")
unfolding resolve_relative
same_files = record {
  lines = λ rel. refl;
  maps = λ rel. refl;
  same_dump = λ j. refl;
  same_digest = λ s. refl;
}

validate_workload_json-same_example :
    let a = validate_workload_json host workload_json [] in
    let b = validate_workload_json other_host workload_json (codes "/w") in
    (a.ok ≡ b.ok)
    × (issue_fields a.issues ≡ issue_fields b.issues)
    × (a.canonical_json ≡ b.canonical_json)
    × (a.workload_hash ≡ b.workload_hash)
validate_workload_json-same_example = validate_workload_json-same same_files workload_json

abbrev workload : WorkloadSpec
workload = record new_workload { run_id = codes "a__b"; targets = target ∷ [] }

workload_of_json-canonical_example :
    workload_of_json (workload_to_canonical_json workload) ≡ unresolved workload
workload_of_json-canonical_example = workload_of_json-canonical workload

-- A proxy that is left for a day.
abbrev system : System
system = record {
  x509_user_proxy = some (codes "/p");
  euid = 0;
  exists = λ path. true;
  is_regular_file = λ path. true;
  permissions = λ path. some 0x180;
  read_pem = λ path. certificate (some (left 1 0));
}

check_x509_credentials-IsUsable_example :
    let r = check_x509_credentials system (whole 3600) [] in
    ((r.ok ≡ true) ↔ IsUsable system (whole 3600) r.proxy_path) × ((r.ok ≡ true) ↔ (r.issues ≡ []))
check_x509_credentials-IsUsable_example =
    check_x509_credentials-IsUsable system (whole 3600) [] refl

-- The credential passes, and an hour less than it lasts would not be enough for a longer run.
proxy_is_usable :
    ((check_x509_credentials system (whole 86100) []).ok ≡ true)
    × ((check_x509_credentials system (whole 86101) []).ok ≡ false)
unfolding check_x509_credentials check_file check_permissions check_lifetime remaining_seconds
    is_loose with_margin less default_x509_proxy_path
proxy_is_usable = (refl, refl)

abbrev run_options : WorkloadRunOptions
run_options = record {
  workload_path = codes "w";
  target = [];
  dry_run = false;
  skip_auth_check = false;
  site_map_path = [];
  sitename_query = true;
}

abbrev read_file : Text → Option (Option Json)
read_file path = some (some workload_json)

-- The target with its file list beside the workload file.
abbrev local_target : TargetSpec
local_target = record target { filelist = codes "./f" }

-- The configuration that the options give.
preflight_passes :
    let validated = validate_workload_file host read_file (codes "w") in
    selected_config system run_options validated
    ≡ some (with_options run_options validated (to_run_config validated.resolved local_target))
unfolding validate_workload_json check_workload join reject_unknown unknown_fields is_allowed lookup
    text_eq require_string optional_string optional_uint optional_double check_duration
    check_schema_version check_run_id check_run_duration check_auth_mode check_auth
    check_client_tuning check_sinks counted check_read_size check_max_bytes check_uncapped
    check_pattern_type parse_pattern_type check_pattern_fields pattern_member check_pattern
    is_name_of check_name check_endpoint check_filelist check_target_rate check_target check_each
    targets_member check_targets resolve_relative load_file_list entries trim trim_front trim_back
    starts_with parse_duration_string parse_size_string parse_target_rate_string parse_number_suffix
    scanned scan less optional_duration optional_int duration_multiplier lower parse_rate_string
    ends_in rate_of contains rate_multiplier rounded below validate_workload_file parent_dir
    rfind_char selected_config select_target is_authorized check_x509_credentials check_file
    check_permissions check_lifetime remaining_seconds is_loose with_margin default_x509_proxy_path
preflight_passes = refl

run_workload_command-runs_example :
    let validated = validate_workload_file host read_file (codes "w") in
    Ran system run_options validated
      (with_options run_options validated (to_run_config validated.resolved local_target))
      (run_workload_command host read_file system none run_options)
run_workload_command-runs_example =
    run_workload_command-runs host read_file system run_options refl preflight_passes
