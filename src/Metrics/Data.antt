-- ===== src/Metrics/Data.antt =====
-- src/metrics.cc, include/xrdhover/metrics.hh: the histogram and the registry of counters.
use xrdhover.Prelude.Text.{Text, codes}
use xrdhover.Prelude.Dict.{Dict}
use xrdhover.SiteMap.{SiteMap}
use mathlib.Core.Option.{get_or}
use xrdhover.Prelude.{
  ℕ, zero, suc, ◌+◌, ◌/◌, ◌%◌, ◌^◌, Option, none, List, [], ◌∷◌, leb, if◌then◌else◌,
}

abbrev pub unknown_data_server : Text
unknown_data_server = codes "unknown"

abbrev pub unmapped_cms_site : Text
unmapped_cms_site = codes "unmapped"

abbrev pub soft_fault_kinds : List Text
soft_fault_kinds =
    codes "connection"
    ∷ codes "timeout"
    ∷ codes "tls_auth"
    ∷ codes "io"
    ∷ codes "redirect"
    ∷ codes "other"
    ∷ []

-- In 10^-9 units.
abbrev pub latency_bucket_bounds : List ℕ
latency_bucket_bounds =
    1000000 ∷ 2000000 ∷ 5000000 ∷ 10000000 ∷ 20000000 ∷ 50000000 ∷ 100000000 ∷ 200000000 ∷ 500000000
    ∷ 1000000000 ∷ 2000000000 ∷ 5000000000 ∷ 10000000000 ∷ 20000000000 ∷ 30000000000 ∷ []

abbrev pub histogram_buckets : ℕ
histogram_buckets = 16

-- fetch_add on a 64-bit counter.
abbrev pub add64 : ℕ → ℕ → ℕ
add64 counter n = (counter + n) % 2 ^ 64

unfoldable pub bucket_loop : ℕ → List ℕ → ℕ
bucket_loop value [] = 0
bucket_loop value (b ∷ bounds) =
    let rest = bucket_loop value bounds in if leb value b then 0 else suc rest

-- Past the last bound the loop ends at the +Inf bucket.
unfoldable pub bucket_index : ℕ → ℕ
bucket_index value = bucket_loop value latency_bucket_bounds

-- `counters[i] += n`.
unfoldable pub bump : ℕ → ℕ → List ℕ → List ℕ
bump i n [] = []
bump zero n (c ∷ cs) = add64 c n ∷ cs
bump (suc i) n (c ∷ cs) = c ∷ bump i n cs

pub record Histogram : Type 0 where
  pub buckets : List ℕ
  pub count : ℕ
  pub sum_us : ℕ

unfoldable pub zeros : ℕ → List ℕ
zeros zero = []
zeros (suc n) = 0 ∷ zeros n

abbrev pub new_histogram : Histogram
new_histogram = record { buckets = zeros histogram_buckets; count = 0; sum_us = 0 }

unfoldable pub observe : Option ℕ → Histogram → Histogram
observe value h =
    let v = get_or value 0 in
    record {
      buckets = bump (bucket_index v) 1 h.buckets;
      count = add64 h.count 1;
      sum_us = add64 h.sum_us (v / 1000);
    }

pub record EndpointStats : Type 0 where
  pub data_server : Text
  pub cms_site : Text
  pub bytes_read : ℕ
  pub sessions_ok : ℕ
  pub sessions_fail : ℕ
  pub errors_by_class : Dict ℕ

abbrev pub new_endpoint : EndpointStats
new_endpoint = record {
  data_server = [];
  cms_site = [];
  bytes_read = 0;
  sessions_ok = 0;
  sessions_fail = 0;
  errors_by_class = [];
}

pub record MetricsRegistry : Type 0 where
  pub run_id : Text
  pub job_id : Text
  pub host : Text
  pub target : Text
  pub endpoint : Text
  pub site_map : Option SiteMap
  pub bytes_read_total : ℕ
  pub sessions_ok : ℕ
  pub sessions_fail : ℕ
  pub read_ops_total : ℕ
  pub target_rate_bytes : ℕ
  pub max_inflight : ℕ
  pub inflight_reads : ℕ
  pub open_seconds : Histogram
  pub ttfb_seconds : Histogram
  pub read_seconds : Histogram
  pub read_op_seconds : Histogram
  pub redirects_per_open : Histogram
  pub errors_by_class : List ℕ
  pub soft_faults_by_kind : List ℕ
  pub cpu_us : ℕ
  pub rss_bytes : ℕ
  pub by_data_server : Dict EndpointStats

abbrev pub new_registry : MetricsRegistry
new_registry = record {
  run_id = [];
  job_id = [];
  host = [];
  target = [];
  endpoint = [];
  site_map = none;
  bytes_read_total = 0;
  sessions_ok = 0;
  sessions_fail = 0;
  read_ops_total = 0;
  target_rate_bytes = 0;
  max_inflight = 0;
  inflight_reads = 0;
  open_seconds = new_histogram;
  ttfb_seconds = new_histogram;
  read_seconds = new_histogram;
  read_op_seconds = new_histogram;
  redirects_per_open = new_histogram;
  errors_by_class = zeros 12;
  soft_faults_by_kind = zeros 6;
  cpu_us = 0;
  rss_bytes = 0;
  by_data_server = [];
}
