-- ===== src/FileSink/Documents.antt =====
-- src/file_sink.cc: the JSON of a snapshot and of the result. `decimal_of` is the decimal that the
-- library prints for a double.
use xrdhover.Prelude.Text.{Text, codes}
use xrdhover.Prelude.Dict.{Dict, insert}
use xrdhover.Json.{count_map, Json, integer, float, string, array, object, from_elems, from_members}
use xrdhover.Units.{Number}
use xrdhover.Metrics.Data.{EndpointStats}
use xrdhover.Metrics.Rollup.{SiteStats}
use xrdhover.Metrics.Snapshot.{
  Fraction, integral, nano, rate_over, HistogramSnapshot, MetricsSnapshot,
}
use xrdhover.Metrics.Percentile.{histogram_percentile}
use xrdhover.Prelude.{ℕ, ◌-◌, ◌*◌, List, [], ◌∷◌, ◌++◌, map, ltb, if◌then◌else◌, is_empty}

pub record RunInfoMeta : Type 0 where
  pub version : Text
  pub arch : Text
  pub xrdcl_version : Text
  pub seed : ℕ
  pub pattern : Text
  pub schema_version : ℕ
  pub auth_mode : Text
  pub workload_hash : Text
  pub workload_resolved_json : Text

abbrev pub percent : ℕ → Fraction
percent n = record { num = n; den = 100 }

abbrev pub times : ℕ → Fraction → Fraction
times n x = record { num = x.num * n; den = x.den }

-- `bytes / (end - start)` where the CPU time has grown, else 0.
unfoldable pub bytes_per_cpu : ℕ → Fraction → Fraction → Fraction
bytes_per_cpu bytes end start =
    let delta = end.num * start.den - start.num * end.den in
    if ltb 0 delta then record { num = bytes * (end.den * start.den); den = delta } else integral 0

-- The entry of a data server.
unfoldable pub endpoint_json : EndpointStats → Json
endpoint_json ep = object (
    from_members (
      (codes "bytes_read", integer ep.bytes_read)
      ∷ (codes "sessions_ok", integer ep.sessions_ok)
      ∷ (codes "sessions_fail", integer ep.sessions_fail)
      ∷ (codes "errors", count_map ep.errors_by_class)
      ∷ (if is_empty ep.cms_site then [] else (codes "cms_site", string ep.cms_site) ∷ [])))

unfoldable pub site_json : SiteStats → Json
site_json site = object (
    from_members (
      (codes "bytes_read", integer site.bytes_read)
      ∷ (codes "sessions_ok", integer site.sessions_ok)
      ∷ (codes "sessions_fail", integer site.sessions_fail)
      ∷ (codes "errors", count_map site.errors_by_class)
      ∷ []))

-- The loops over the maps; each entry stands under the name that it holds itself.
unfoldable pub endpoint_entries : Dict EndpointStats → Dict Json → Dict Json
endpoint_entries [] by_ds = by_ds
endpoint_entries ((k, ep) ∷ m) by_ds =
    endpoint_entries m (insert ep.data_server (endpoint_json ep) by_ds)

unfoldable pub site_entries : Dict SiteStats → Dict Json → Dict Json
site_entries [] by_site = by_site
site_entries ((k, site) ∷ m) by_site =
    site_entries m (insert site.cms_site (site_json site) by_site)

-- The two last members, each only where its map is not empty.
unfoldable pub attributions : MetricsSnapshot → List (Text × Json)
attributions s =
    (if is_empty s.by_data_server
      then []
      else (codes "by_data_server", object (from_members (endpoint_entries s.by_data_server [])))
        ∷ [])
    ++ (if is_empty s.by_cms_site
        then []
        else (codes "by_cms_site", object (from_members (site_entries s.by_cms_site []))) ∷ [])

module _ (decimal_of : Fraction → Number) where
  abbrev pub double : Fraction → Json
  double x = float (decimal_of x)

  abbrev pub doubles : List ℕ → List Json
  doubles [] = []
  doubles (b ∷ bs) = double (nano b) ∷ doubles bs

  unfoldable pub histogram_to_json : HistogramSnapshot → Json
  histogram_to_json h = object (
      from_members (
        (codes "bounds", array (from_elems (doubles h.bounds)))
        ∷ (codes "counts", array (from_elems (map integer h.counts)))
        ∷ (codes "count", integer h.count)
        ∷ (codes "sum", double h.sum)
        ∷ []))

  unfoldable pub latency_percentiles : HistogramSnapshot → Json
  latency_percentiles h = object (
      from_members (
        (codes "p50", double (histogram_percentile h (percent 50)))
        ∷ (codes "p95", double (histogram_percentile h (percent 95)))
        ∷ (codes "p99", double (histogram_percentile h (percent 99)))
        ∷ (codes "count", integer h.count)
        ∷ (codes "sum", double h.sum)
        ∷ []))

  unfoldable pub snapshot_to_jsonl : MetricsSnapshot → Json
  snapshot_to_jsonl s = object (
      from_members (
        (codes "run_id", string s.run_id)
        ∷ (codes "job_id", string s.job_id)
        ∷ (codes "target", string s.target)
        ∷ (codes "endpoint", string s.endpoint)
        ∷ (codes "wall_s", double s.wall)
        ∷ (codes "xrdhover_bytes_read_total", integer s.bytes_read_total)
        ∷ (
          codes "xrdhover_sessions_total",
          object (
              from_members (
                (codes "ok", integer s.sessions_ok)
                ∷ (codes "fail", integer s.sessions_fail)
                ∷ [])),
        )
        ∷ (codes "xrdhover_read_ops_total", integer s.read_ops_total)
        ∷ (codes "xrdhover_target_rate_bytes", double s.target_rate_bytes)
        ∷ (codes "xrdhover_achieved_rate_bytes", double s.achieved_rate_bytes)
        ∷ (codes "xrdhover_open_seconds", histogram_to_json s.open_seconds)
        ∷ (codes "xrdhover_ttfb_seconds", histogram_to_json s.ttfb_seconds)
        ∷ (codes "xrdhover_read_seconds", histogram_to_json s.read_seconds)
        ∷ (codes "xrdhover_read_op_seconds", histogram_to_json s.read_op_seconds)
        ∷ (codes "xrdhover_redirects_per_open", histogram_to_json s.redirects_per_open)
        ∷ (codes "xrdhover_errors_total", count_map s.errors_by_class)
        ∷ (codes "xrdhover_soft_faults_total", count_map s.soft_faults_by_kind)
        ∷ (codes "xrdhover_inflight_reads", integer s.inflight_reads)
        ∷ (codes "xrdhover_max_inflight", integer s.max_inflight)
        ∷ (codes "xrdhover_cpu_seconds_total", double s.cpu_seconds_total)
        ∷ (codes "xrdhover_process_resident_memory_bytes", integer s.process_resident_memory_bytes)
        ∷ attributions s))

  unfoldable pub run_info_json : RunInfoMeta → Json
  run_info_json meta = object (
      from_members (
        (codes "version", string meta.version)
          ∷ (codes "arch", string meta.arch)
          ∷ (codes "xrdcl_version", string meta.xrdcl_version)
          ∷ (codes "seed", integer meta.seed)
          ∷ (codes "pattern", string meta.pattern)
          ∷ (if ltb 0 meta.schema_version
              then (codes "schema_version", integer meta.schema_version) ∷ []
              else [])
        ++ (if is_empty meta.auth_mode
            then []
            else (codes "auth_mode", string meta.auth_mode) ∷ [])))

  unfoldable pub latency_json : MetricsSnapshot → Json
  latency_json s = object (
      from_members (
        (codes "open_seconds", latency_percentiles s.open_seconds)
        ∷ (codes "ttfb_seconds", latency_percentiles s.ttfb_seconds)
        ∷ (codes "read_seconds", latency_percentiles s.read_seconds)
        ∷ (codes "read_op_seconds", latency_percentiles s.read_op_seconds)
        ∷ (codes "redirects_per_open", latency_percentiles s.redirects_per_open)
        ∷ []))

  -- The members of result.json up to `run_info`.
  unfoldable pub result_figures : RunInfoMeta → MetricsSnapshot → Fraction → List (Text × Json)
  result_figures meta snap cpu_seconds_at_start =
      let achieved = rate_over snap.bytes_read_total snap.wall in
      (codes "run_id", string snap.run_id)
      ∷ (codes "job_id", string snap.job_id)
      ∷ (codes "target", string snap.target)
      ∷ (codes "endpoint", string snap.endpoint)
      ∷ (codes "elapsed_s", double snap.wall)
      ∷ (codes "target_rate_bytes_per_s", double snap.target_rate_bytes)
      ∷ (codes "achieved_bytes_per_s", double achieved)
      ∷ (codes "target_rate_bits_per_s", double (times 8 snap.target_rate_bytes))
      ∷ (codes "achieved_bits_per_s", double (times 8 achieved))
      ∷ (codes "bytes_read", integer snap.bytes_read_total)
      ∷ (codes "sessions_ok", integer snap.sessions_ok)
      ∷ (codes "sessions_fail", integer snap.sessions_fail)
      ∷ (codes "ops", integer snap.read_ops_total)
      ∷ (codes "max_inflight", integer snap.max_inflight)
      ∷ (codes "errors", count_map snap.errors_by_class)
      ∷ (codes "soft_faults", count_map snap.soft_faults_by_kind)
      ∷ (codes "latency", latency_json snap)
      ∷ (codes "xrdhover_cpu_seconds_total", double snap.cpu_seconds_total)
      ∷ (codes "xrdhover_process_resident_memory_bytes", integer snap.process_resident_memory_bytes)
      ∷ (
        codes "xrdhover_bytes_per_cpu_second",
        double (bytes_per_cpu snap.bytes_read_total snap.cpu_seconds_total cpu_seconds_at_start),
      )
      ∷ (codes "run_info", run_info_json meta)
      ∷ []

  unfoldable pub result_json : RunInfoMeta → MetricsSnapshot → Fraction → Json
  result_json meta snap cpu_seconds_at_start = object (
      from_members (
        result_figures meta snap cpu_seconds_at_start
        ++ (if is_empty meta.workload_hash
            then []
            else (codes "workload_hash", string meta.workload_hash) ∷ [])
        ++ attributions snap))
