-- ===== src/Workload/Sinks.antt =====
-- src/workload_spec.cc: the sinks of ValidateWorkloadJson.
use xrdhover.SiteMap.{SiteMap}
use xrdhover.Prelude.Text.{Text, codes}
use xrdhover.Json.{Json, is_object}
use xrdhover.Workload.Data.{
  whole, PushgatewaySpec, new_pushgateway, ChirpSpec, new_chirp, SinkSpec, new_sinks,
}
use xrdhover.Workload.Fields.{
  ValidationIssue, Checked, issue, join, reject_unknown, get, optional_string, optional_bool,
  optional_duration,
}
use xrdhover.Workload.Host.{Host, resolve_relative, load_site_map}
use xrdhover.Workload.Sections.{is_not_positive}
use xrdhover.Prelude.{
  List, ◌⊎◌, inr, inl, true, false, ◌||◌, not, none, some, [], ◌∷◌, if◌then◌else◌, is_empty,
}

unfoldable pub check_pushgateway : Json → Checked PushgatewaySpec
check_pushgateway sinks = elim (get (codes "pushgateway") sinks) [
  | none ↦ record { value = new_pushgateway; issues = [] }
  | some pg ↦
      let url = optional_string pg (codes "url") (codes "sinks.pushgateway.url") [] in
      let job =
        optional_string pg (codes "job") (codes "sinks.pushgateway.job") (codes "xrdhover") in
      let keep = optional_bool pg (codes "keep") (codes "sinks.pushgateway.keep") false in
      let allowed = codes "url" ∷ codes "job" ∷ codes "keep" ∷ [] in
      if not (is_object pg)
      then record {
        value = new_pushgateway;
        issues = issue (codes "sinks.pushgateway") (codes "must be an object");
      }
      else record {
        value = record { url = url.value; job = job.value; keep = keep.value };
        issues = join (
            reject_unknown pg allowed (codes "sinks.pushgateway")
            ∷ url.issues
            ∷ job.issues
            ∷ keep.issues
            ∷ []);
      }
]

unfoldable pub check_chirp : Json → Checked ChirpSpec
check_chirp sinks = elim (get (codes "chirp") sinks) [
  | none ↦ record { value = new_chirp; issues = [] }
  | some ch ↦
      let classads = optional_bool ch (codes "classads") (codes "sinks.chirp.classads") false in
      let path = optional_string ch (codes "prom_path") (codes "sinks.chirp.prom_path") [] in
      let allowed = codes "classads" ∷ codes "prom_path" ∷ [] in
      if not (is_object ch)
      then record {
        value = new_chirp;
        issues = issue (codes "sinks.chirp") (codes "must be an object");
      }
      else record {
        value = record { classads = classads.value; prom_path = path.value };
        issues =
            join (
              reject_unknown ch allowed (codes "sinks.chirp") ∷ classads.issues ∷ path.issues ∷ []);
      }
]

-- What is listed of a site map that was loaded, or of the exception.
abbrev pub map_issues : Text ⊎ SiteMap → List ValidationIssue
map_issues (inl error) = issue (codes "sinks.site_map") error
map_issues (inr m) = []

-- The path as it is written, and resolved; the map it names must load.
unfoldable pub check_site_map : Host → Text → Json → Checked (Text × Text)
check_site_map h workload_dir sinks =
    let f = optional_string sinks (codes "site_map") (codes "sinks.site_map") [] in
    let path = resolve_relative h workload_dir f.value in
    if not f.good || is_empty f.value
    then record { value = (f.value, []); issues = f.issues }
    else record { value = (f.value, path); issues = map_issues (load_site_map h path) }

unfoldable pub check_sink_fields : Host → Text → Json → Checked SinkSpec
check_sink_fields h workload_dir sinks =
    let dir =
      optional_string sinks (codes "results_dir") (codes "sinks.results_dir") (codes "results") in
    let interval =
      optional_duration sinks (codes "snapshot_interval") (codes "sinks.snapshot_interval")
        is_not_positive (codes "must be > 0") (codes "15s") (whole 15) in
    let job = optional_string sinks (codes "job_id") (codes "sinks.job_id") [] in
    let write = optional_bool sinks (codes "write_results") (codes "sinks.write_results") true in
    let map_path = check_site_map h workload_dir sinks in
    let pg = check_pushgateway sinks in
    let ch = check_chirp sinks in
    let allowed =
      codes "results_dir"
      ∷ codes "snapshot_interval"
      ∷ codes "job_id"
      ∷ codes "write_results"
      ∷ codes "pushgateway"
      ∷ codes "chirp"
      ∷ codes "site_map"
      ∷ [] in
    record {
      value = record {
        results_dir = dir.value;
        snapshot_interval_input = interval.value.0;
        snapshot_interval = interval.value.1;
        job_id = job.value;
        write_results = write.value;
        pushgateway = pg.value;
        chirp = ch.value;
        site_map = map_path.value.1;
        site_map_input = map_path.value.0;
      };
      issues = join (
          reject_unknown sinks allowed (codes "sinks")
          ∷ dir.issues
          ∷ interval.issues
          ∷ job.issues
          ∷ write.issues
          ∷ map_path.issues
          ∷ pg.issues
          ∷ ch.issues
          ∷ []);
    }

unfoldable pub check_sinks : Host → Text → Json → Checked SinkSpec
check_sinks h workload_dir root = elim (get (codes "sinks") root) [
  | none ↦ record { value = new_sinks; issues = [] }
  | some sinks ↦
      if not (is_object sinks)
      then record { value = new_sinks; issues = issue (codes "sinks") (codes "must be an object") }
      else check_sink_fields h workload_dir sinks
]
