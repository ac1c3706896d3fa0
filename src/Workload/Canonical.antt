-- ===== src/Workload/Canonical.antt =====
-- src/workload_spec.cc: the canonical JSON of a workload. The members of an object stand in the order
-- of their keys, as `std::map` keeps them.
use xrdhover.Prelude.Text.{Text, codes}
use xrdhover.Json.{Json, boolean, integer, float, string, array, object, from_elems, from_members}
use xrdhover.RunConfig.{pattern_type_name}
use xrdhover.Workload.Data.{
  PatternSpec, TargetSpec, ClientTuningSpec, PushgatewaySpec, ChirpSpec, SinkSpec, WorkloadSpec,
}
use xrdhover.Prelude.{List, [], ◌∷◌, map, length}

abbrev pub record_of : List (Text × Json) → Json
record_of ms = object (from_members ms)

unfoldable pub pattern_to_json : PatternSpec → Json
pattern_to_json p = record_of (
    (codes "max_bytes", string p.max_bytes_input)
    ∷ (codes "max_bytes_auto", boolean p.max_bytes_auto)
    ∷ (codes "max_bytes_resolved", integer p.max_bytes)
    ∷ (codes "read_size", string p.read_size_input)
    ∷ (codes "read_size_bytes", integer p.chunk_size)
    ∷ (codes "type", string (pattern_type_name p.pattern_type))
    ∷ (codes "vector_chunks", integer p.vector_chunks)
    ∷ (codes "vector_fraction", float p.vector_fraction)
    ∷ [])

unfoldable pub target_to_json : TargetSpec → Json
target_to_json t = record_of (
    (codes "endpoint", string t.endpoint)
    ∷ (codes "file_count", integer (length t.files))
    ∷ (codes "filelist", string t.filelist_input)
    ∷ (codes "files", array (from_elems (map string t.files)))
    ∷ (codes "max_inflight", integer t.max_inflight)
    ∷ (codes "name", string t.name)
    ∷ (codes "pattern", pattern_to_json t.pattern)
    ∷ (codes "target_rate", string t.target_rate_input)
    ∷ (codes "target_rate_bytes_per_s", integer t.target_rate_bytes_per_s)
    ∷ [])

unfoldable pub push_to_json : PushgatewaySpec → Json
push_to_json p = record_of (
    (codes "job", string p.job) ∷ (codes "keep", boolean p.keep) ∷ (codes "url", string p.url) ∷ [])

unfoldable pub chirp_to_json : ChirpSpec → Json
chirp_to_json c =
    record_of
      ((codes "classads", boolean c.classads) ∷ (codes "prom_path", string c.prom_path) ∷ [])

unfoldable pub sinks_to_json : SinkSpec → Json
sinks_to_json s = record_of (
    (codes "chirp", chirp_to_json s.chirp)
    ∷ (codes "job_id", string s.job_id)
    ∷ (codes "pushgateway", push_to_json s.pushgateway)
    ∷ (codes "results_dir", string s.results_dir)
    ∷ (codes "site_map", string s.site_map_input)
    ∷ (codes "snapshot_interval", string s.snapshot_interval_input)
    ∷ (codes "snapshot_interval_s", float s.snapshot_interval)
    ∷ (codes "write_results", boolean s.write_results)
    ∷ [])

unfoldable pub tuning_to_json : ClientTuningSpec → Json
tuning_to_json t = record_of (
    (codes "connection_retry", integer t.connection_retry)
    ∷ (codes "connection_window", integer t.connection_window_s)
    ∷ (codes "request_timeout", integer t.request_timeout_s)
    ∷ (codes "session_timeout", string t.session_timeout_input)
    ∷ (codes "session_timeout_s", float t.session_timeout)
    ∷ [])

unfoldable pub workload_to_canonical_json : WorkloadSpec → Json
workload_to_canonical_json wl = record_of (
    (codes "auth", record_of ((codes "mode", string wl.auth_mode) ∷ []))
    ∷ (codes "client_tuning", tuning_to_json wl.client_tuning)
    ∷ (codes "duration", string wl.duration_input)
    ∷ (codes "duration_s", float wl.duration)
    ∷ (codes "run_id", string wl.run_id)
    ∷ (codes "schema_version", integer wl.schema_version)
    ∷ (codes "seed", integer wl.seed)
    ∷ (codes "sinks", sinks_to_json wl.sinks)
    ∷ (codes "targets", array (from_elems (map target_to_json wl.targets)))
    ∷ [])
