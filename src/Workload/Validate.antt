-- ===== src/Workload/Validate.antt =====
-- src/workload_spec.cc: ValidateWorkloadJson, ValidateWorkloadFile and ToRunConfig.
use xrdhover.Prelude.Text.{Text, codes}
use xrdhover.Json.{Json, is_object}
use xrdhover.Units.{Number}
use xrdhover.RunConfig.{RunConfig}
use xrdhover.Workload.Data.{TargetSpec, WorkloadSpec, new_workload}
use xrdhover.Workload.Fields.{
  ValidationIssue, Checked, issue, thrown, join, reject_unknown, optional_uint,
}
use xrdhover.Workload.Host.{Host, sha256_hex}
use xrdhover.SiteMap.{rfind_char}
use xrdhover.Workload.Canonical.{workload_to_canonical_json}
use xrdhover.Workload.Sections.{
  check_schema_version, check_run_id, check_run_duration, check_auth, check_client_tuning,
}
use xrdhover.Workload.Sinks.{check_sinks}
use xrdhover.Workload.Target.{check_targets}
use xrdhover.Prelude.{
  ℕ, ◌*◌, ◌/◌, ◌^◌, Bool, true, false, ◌&&◌, not, Option, none, some, List, [], ◌∷◌, ◌++◌, ◌==◌,
  if◌then◌else◌, is_empty, take,
}

pub record ValidateResult : Type 0 where
  pub ok : Bool
  pub issues : List ValidationIssue
  pub resolved : WorkloadSpec
  pub canonical_json : Text
  pub workload_hash : Text

abbrev pub invalid : List ValidationIssue → ValidateResult
invalid issues = record {
  ok = false;
  issues = issues;
  resolved = new_workload;
  canonical_json = [];
  workload_hash = [];
}

abbrev pub valid : Host → WorkloadSpec → ValidateResult
valid h wl =
    let canonical = h.dump (workload_to_canonical_json wl) ++ 10 ∷ [] in
    record {
      ok = true;
      issues = [];
      resolved = wl;
      canonical_json = canonical;
      workload_hash = sha256_hex h canonical;
    }

abbrev pub top_allowed : List Text
top_allowed =
    codes "schema_version"
    ∷ codes "run_id"
    ∷ codes "duration"
    ∷ codes "seed"
    ∷ codes "auth"
    ∷ codes "targets"
    ∷ codes "client_tuning"
    ∷ codes "sinks"
    ∷ []

-- The workload that the members of the root give, and every issue in the order of the checks.
unfoldable pub check_workload : Host → Text → Json → Checked WorkloadSpec
check_workload h workload_dir root =
    let version = check_schema_version root in
    let run_id = check_run_id root in
    let duration = check_run_duration root in
    let seed = optional_uint root (codes "seed") (codes "seed") 1 in
    let auth = check_auth root in
    let tuning = check_client_tuning root in
    let sinks = check_sinks h workload_dir root in
    let targets = check_targets h workload_dir root in
    record {
      value = record {
        schema_version = version.value;
        run_id = run_id.value;
        duration_input = duration.value.0;
        duration = duration.value.1;
        seed = seed.value;
        auth_mode = auth.value;
        targets = targets.value;
        client_tuning = tuning.value;
        sinks = sinks.value;
      };
      issues = join (
          reject_unknown root top_allowed []
          ∷ version.issues
          ∷ run_id.issues
          ∷ duration.issues
          ∷ seed.issues
          ∷ auth.issues
          ∷ tuning.issues
          ∷ sinks.issues
          ∷ targets.issues
          ∷ []);
    }

unfoldable pub validate_workload_json : Host → Json → Text → ValidateResult
validate_workload_json h root workload_dir =
    let wl = check_workload h workload_dir root in
    if not (is_object root)
    then invalid (issue [] (codes "workload root must be a JSON object"))
    else if is_empty wl.issues
    then valid h wl.value
    else invalid wl.issues

-- `fs::path(path).parent_path()`: without the last name and the slashes before it.
unfoldable pub strip_slashes : Text → Text
strip_slashes [] = []
strip_slashes (c ∷ s) =
    let rest = strip_slashes s in if is_empty rest && (c == b'/') then [] else c ∷ rest

unfoldable pub parent_dir : Text → Text
parent_dir path = elim (rfind_char b'/' path) [
  | none ↦ codes "."
  | some i ↦ let dir = strip_slashes (take i path) in if is_empty dir then codes "/" else dir
]

-- The file: none if it cannot be opened, some none if it is no JSON.
unfoldable pub validate_workload_file : Host → (Text → Option (Option Json)) → Text → ValidateResult
validate_workload_file h read_json path = elim (read_json path) [
  | none ↦ invalid (issue path (codes "cannot open workload file"))
  | some parsed ↦ elim parsed [
    | none ↦ invalid (thrown path)
    | some root ↦ validate_workload_json h root (parent_dir path)
  ]
]

-- Seconds to nanoseconds, and a fraction to per mille, rounded down.
unfoldable pub scaled : ℕ → Number → ℕ
scaled unit d = if d.negative then 0 else (d.mantissa * unit) / 10 ^ d.decimals

unfoldable pub to_run_config : WorkloadSpec → TargetSpec → RunConfig
to_run_config wl target = record {
  run_id = wl.run_id;
  duration = scaled 1000000000 wl.duration;
  endpoint = target.endpoint;
  files = target.files;
  filelist_path = target.filelist;
  target_rate_bytes_per_s = target.target_rate_bytes_per_s;
  target_rate_input = target.target_rate_input;
  max_inflight = target.max_inflight;
  pattern_type = target.pattern.pattern_type;
  chunk_size = target.pattern.chunk_size;
  vector_chunks = target.pattern.vector_chunks;
  vector_fraction = target.pattern.vector_fraction;
  max_bytes = target.pattern.max_bytes;
  max_bytes_auto = target.pattern.max_bytes_auto;
  seed = wl.seed;
  dry_run = false;
  session_timeout = scaled 1000000000 wl.client_tuning.session_timeout;
  connection_window_s = wl.client_tuning.connection_window_s;
  connection_retry = wl.client_tuning.connection_retry;
  request_timeout_s = wl.client_tuning.request_timeout_s;
  results_dir = wl.sinks.results_dir;
  snapshot_interval = scaled 1000000000 wl.sinks.snapshot_interval;
  job_id = wl.sinks.job_id;
  write_results = wl.sinks.write_results;
  target = target.name;
  pushgateway_url = wl.sinks.pushgateway.url;
  pushgateway_job = wl.sinks.pushgateway.job;
  pushgateway_keep = wl.sinks.pushgateway.keep;
  chirp_classads = wl.sinks.chirp.classads;
  chirp_prom_path = wl.sinks.chirp.prom_path;
  chirp_binary = [];
  schema_version = wl.schema_version;
  auth_mode = wl.auth_mode;
  workload_hash = [];
  workload_resolved_json = [];
  site_map_path = wl.sinks.site_map;
  sitename_query = true;
}
