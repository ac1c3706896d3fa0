-- ===== src/PromEncode/Encode.antt =====
-- src/prom_encode.cc: EncodePrometheusText.
use xrdhover.Prelude.Text.{Text, codes, decimal}
use xrdhover.Prelude.Dict.{Dict}
use xrdhover.Metrics.Snapshot.{Fraction, integral, rate_over, MetricsSnapshot}
use xrdhover.Metrics.Rollup.{SiteStats}
use xrdhover.PromEncode.{
  escape_label, common_labels, then_write, then_try, append_help_type, sample, append_counter,
  append_gauge, append_gauge_u64, append_histogram,
}
use xrdhover.Prelude.{ℕ, Option, some, List, [], ◌∷◌, ◌++◌, if◌then◌else◌, is_empty}

-- The parts one after another, unless one of them threw.
unfoldable pub write_all : List (Option Text) → Option Text
write_all [] = some []
write_all (part ∷ parts) = then_try part (write_all parts)

abbrev pub with_label : Text → Text → Text → Text
with_label labels name value = labels ++ b',' ∷ name ++ codes "=\"" ++ escape_label value ++ 34 ∷ []

unfoldable pub encode_sessions : Text → MetricsSnapshot → Option Text
encode_sessions labels snap =
    let name = codes "xrdhover_sessions_total" in
    then_write (append_help_type name (codes "Completed file sessions") (codes "counter")) (
      sample name (labels ++ codes ",result=\"ok\"") (decimal snap.sessions_ok)
      ++ sample name (labels ++ codes ",result=\"fail\"") (decimal snap.sessions_fail))

-- The loop over the counts of a kind.
unfoldable pub count_lines : Text → Text → Text → Dict ℕ → Text
count_lines name labels key [] = []
count_lines name labels key ((k, n) ∷ m) =
    sample name (with_label labels key k) (decimal n) ++ count_lines name labels key m

unfoldable pub encode_counts : Text → Text → Text → Text → Dict ℕ → Option Text
encode_counts name help labels key m =
    if is_empty m
    then some []
    else then_write (append_help_type name help (codes "counter")) (count_lines name labels key m)

unfoldable pub site_lines : (Fraction → Text) → Text → Fraction → Dict SiteStats → Text
site_lines print_double labels wall [] = []
site_lines print_double labels wall ((k, site) ∷ sites) =
    let sl = with_label labels (codes "cms_site") site.cms_site in
    sample (codes "xrdhover_site_bytes_total") sl (decimal site.bytes_read)
    ++ sample (codes "xrdhover_site_achieved_rate_bytes") sl
        (print_double (rate_over site.bytes_read wall))
    ++ sample (codes "xrdhover_site_sessions_total") (sl ++ codes ",result=\"ok\"")
        (decimal site.sessions_ok)
    ++ sample (codes "xrdhover_site_sessions_total") (sl ++ codes ",result=\"fail\"")
        (decimal site.sessions_fail)
    ++ site_lines print_double labels wall sites

abbrev pub site_rate_help : Text
site_rate_help =
    codes
      "Cumulative bytes/wall for this CMS site (same definition as xrdhover_achieved_rate_bytes)"

abbrev pub site_sessions_help : Text
site_sessions_help = codes "Completed FileSessions attributed to CMS site (not TCP connections)"

unfoldable pub encode_sites : (Fraction → Text) → Text → MetricsSnapshot → Option Text
encode_sites print_double labels snap =
    if is_empty snap.by_cms_site
    then some []
    else write_all (
        append_help_type (codes "xrdhover_site_bytes_total")
          (codes "Bytes read attributed to CMS site (unmapped uses cms_site=\"unmapped\")")
          (codes "counter")
        ∷ append_help_type (codes "xrdhover_site_achieved_rate_bytes") site_rate_help
            (codes "gauge")
        ∷ append_help_type (codes "xrdhover_site_sessions_total") site_sessions_help
            (codes "counter")
        ∷ some (site_lines print_double labels snap.wall snap.by_cms_site)
        ∷ [])

unfoldable pub encode_prometheus_text : (Fraction → Text) → ℕ → MetricsSnapshot → Option Text
encode_prometheus_text print_double now snap =
    let labels = common_labels snap in
    write_all (
      append_counter (codes "xrdhover_bytes_read_total") (codes "Total bytes read") labels
        snap.bytes_read_total
      ∷ append_counter (codes "xrdhover_read_ops_total") (codes "Total read/vector-read operations")
          labels snap.read_ops_total
      ∷ encode_sessions labels snap
      ∷ append_gauge print_double (codes "xrdhover_target_rate_bytes")
          (codes "Configured target rate in bytes/sec") labels snap.target_rate_bytes
      ∷ append_gauge print_double (codes "xrdhover_achieved_rate_bytes")
          (codes "Cumulative achieved read rate (bytes_read / steady_clock wall sec)") labels
          snap.achieved_rate_bytes
      ∷ append_histogram print_double (codes "xrdhover_open_seconds")
          (codes "File open latency including redirects") labels snap.open_seconds
      ∷ append_histogram print_double (codes "xrdhover_ttfb_seconds")
          (codes "Time from first Read submit to first byte (excludes token wait)") labels
          snap.ttfb_seconds
      ∷ append_histogram print_double (codes "xrdhover_read_seconds")
          (codes "Per-session sum of Read issue-to-complete times (excludes token wait)") labels
          snap.read_seconds
      ∷ append_histogram print_double (codes "xrdhover_read_op_seconds")
          (codes "Per-Read issue-to-complete latency (application RTT; excludes token wait)") labels
          snap.read_op_seconds
      ∷ append_histogram print_double (codes "xrdhover_redirects_per_open")
          (codes "Redirect hop count per open") labels snap.redirects_per_open
      ∷ encode_counts (codes "xrdhover_errors_total")
          (codes "Hard session failures by classifier class") labels (codes "class")
          snap.errors_by_class
      ∷ encode_counts (codes "xrdhover_soft_faults_total")
          (codes "XrdCl Error-level log lines (may not fail a session)") labels (codes "kind")
          snap.soft_faults_by_kind
      ∷ append_gauge_u64 (codes "xrdhover_inflight_reads")
          (codes "Currently in-flight file sessions") labels snap.inflight_reads
      ∷ append_gauge_u64 (codes "xrdhover_max_inflight") (codes "Configured max in-flight sessions")
          labels snap.max_inflight
      ∷ append_gauge print_double (codes "xrdhover_cpu_seconds_total")
          (codes "Process CPU time (utime+stime) in seconds") labels snap.cpu_seconds_total
      ∷ append_gauge_u64 (codes "xrdhover_process_resident_memory_bytes")
          (codes "Process RSS in bytes") labels snap.process_resident_memory_bytes
      ∷ append_gauge print_double (codes "xrdhover_wall_seconds")
          (codes "Elapsed wall time of the run so far") labels snap.wall
      ∷ append_gauge print_double (codes "xrdhover_push_time_seconds")
          (codes "Unix time this snapshot was encoded (drop the group if older than 300s)") labels
          (integral now)
      ∷ encode_sites print_double labels snap
      ∷ [])
