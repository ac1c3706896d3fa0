-- ===== src/Metrics/Snapshot.antt =====
-- src/metrics.cc, include/xrdhover/metrics.hh: the snapshot of the registry. A double that is not
-- negative is a fraction, taken exactly where the source rounds; the bounds of the buckets are in
-- 10^-9 units. The host name and the elapsed time are arguments.
use xrdhover.Prelude.Text.{Text}
use xrdhover.Prelude.Dict.{Dict, insert}
use xrdhover.ErrorClassifier.{
  no_error, error_class_name, auth, timeout, connection, server_error, not_found, client_error,
  redirect_loop, trust, expired, no_replicas, unknown_error,
}
use xrdhover.Metrics.Data.{
  Histogram, EndpointStats, MetricsRegistry, latency_bucket_bounds, soft_fault_kinds,
}
use xrdhover.Metrics.Rollup.{SiteStats, rollup}
use xrdhover.Prelude.{ℕ, ◌*◌, List, [], ◌∷◌, map, ltb, if◌then◌else◌, is_empty}

pub record Fraction : Type 0 where
  pub num : ℕ
  pub den : ℕ

abbrev pub integral : ℕ → Fraction
integral n = record { num = n; den = 1 }

abbrev pub nano : ℕ → Fraction
nano n = record { num = n; den = 1000000000 }

abbrev pub micro : ℕ → Fraction
micro n = record { num = n; den = 1000000 }

-- `bytes / wall_s`, 0 for no time.
abbrev pub rate_over : ℕ → Fraction → Fraction
rate_over bytes wall =
    if ltb 0 wall.num then record { num = bytes * wall.den; den = wall.num } else integral 0

pub record HistogramSnapshot : Type 0 where
  pub bounds : List ℕ
  pub counts : List ℕ
  pub count : ℕ
  pub sum : Fraction

unfoldable pub histogram_snapshot : Histogram → HistogramSnapshot
histogram_snapshot h = record {
  bounds = latency_bucket_bounds;
  counts = h.buckets;
  count = h.count;
  sum = micro h.sum_us;
}

pub record MetricsSnapshot : Type 0 where
  pub run_id : Text
  pub job_id : Text
  pub host : Text
  pub target : Text
  pub endpoint : Text
  pub wall : Fraction
  pub bytes_read_total : ℕ
  pub sessions_ok : ℕ
  pub sessions_fail : ℕ
  pub read_ops_total : ℕ
  pub target_rate_bytes : Fraction
  pub achieved_rate_bytes : Fraction
  pub open_seconds : HistogramSnapshot
  pub ttfb_seconds : HistogramSnapshot
  pub read_seconds : HistogramSnapshot
  pub read_op_seconds : HistogramSnapshot
  pub redirects_per_open : HistogramSnapshot
  pub errors_by_class : Dict ℕ
  pub soft_faults_by_kind : Dict ℕ
  pub by_data_server : Dict EndpointStats
  pub by_cms_site : Dict SiteStats
  pub inflight_reads : ℕ
  pub max_inflight : ℕ
  pub cpu_seconds_total : Fraction
  pub process_resident_memory_bytes : ℕ

abbrev pub error_class_names : List Text
error_class_names = map error_class_name (
    no_error ∷ auth ∷ timeout ∷ connection ∷ server_error ∷ not_found ∷ client_error ∷ redirect_loop
    ∷ trust ∷ expired ∷ no_replicas ∷ unknown_error ∷ [])

-- The counters that are not 0, under their names.
unfoldable pub named_counts : List Text → List ℕ → Dict ℕ → Dict ℕ
named_counts (k ∷ ks) (v ∷ vs) m = named_counts ks vs (if ltb 0 v then insert k v m else m)
named_counts _ _ m = m

unfoldable pub snapshot : Text → Fraction → MetricsRegistry → MetricsSnapshot
snapshot local_hostname wall m = record {
  run_id = m.run_id;
  job_id = m.job_id;
  host = if is_empty m.host then local_hostname else m.host;
  target = m.target;
  endpoint = m.endpoint;
  wall = wall;
  bytes_read_total = m.bytes_read_total;
  sessions_ok = m.sessions_ok;
  sessions_fail = m.sessions_fail;
  read_ops_total = m.read_ops_total;
  target_rate_bytes = integral m.target_rate_bytes;
  achieved_rate_bytes = rate_over m.bytes_read_total wall;
  open_seconds = histogram_snapshot m.open_seconds;
  ttfb_seconds = histogram_snapshot m.ttfb_seconds;
  read_seconds = histogram_snapshot m.read_seconds;
  read_op_seconds = histogram_snapshot m.read_op_seconds;
  redirects_per_open = histogram_snapshot m.redirects_per_open;
  errors_by_class = named_counts error_class_names m.errors_by_class [];
  soft_faults_by_kind = named_counts soft_fault_kinds m.soft_faults_by_kind [];
  by_data_server = m.by_data_server;
  by_cms_site = rollup m.by_data_server [];
  inflight_reads = m.inflight_reads;
  max_inflight = m.max_inflight;
  cpu_seconds_total = micro m.cpu_us;
  process_resident_memory_bytes = m.rss_bytes;
}
