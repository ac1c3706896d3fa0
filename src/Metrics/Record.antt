-- ===== src/Metrics/Record.antt =====
-- src/metrics.cc: the calls that record what happened.
use xrdhover.Prelude.Text.{Text, text_eq}
use xrdhover.Prelude.Dict.{Dict, lookup, insert}
use xrdhover.ErrorClassifier.{
  ErrorClass, no_error, error_class_name, auth, timeout, connection, server_error, not_found,
  client_error, redirect_loop, trust, expired, no_replicas, unknown_error,
}
use xrdhover.SiteMap.{SiteMap, lookup_site}
use mathlib.Core.Option.{get_or}
use xrdhover.Metrics.Data.{
  unknown_data_server, soft_fault_kinds, add64, bump, observe, EndpointStats, new_endpoint,
  MetricsRegistry,
}
use xrdhover.Prelude.{
  ℕ, suc, Bool, true, false, ◌&&◌, ◌||◌, not, Option, none, some, List, [], ◌∷◌, if◌then◌else◌,
  is_empty,
}

abbrev pub error_class_index : ErrorClass → ℕ
error_class_index no_error = 0
error_class_index auth = 1
error_class_index timeout = 2
error_class_index connection = 3
error_class_index server_error = 4
error_class_index not_found = 5
error_class_index client_error = 6
error_class_index redirect_loop = 7
error_class_index trust = 8
error_class_index expired = 9
error_class_index no_replicas = 10
error_class_index unknown_error = 11

abbrev pub is_no_error : ErrorClass → Bool
is_no_error no_error = true
is_no_error _ = false

unfoldable pub site_of : Option SiteMap → Text → Text
site_of none key = []
site_of (some m) key = lookup_site key m

-- `m[k] += n`.
unfoldable pub count_key : Text → ℕ → Dict ℕ → Dict ℕ
count_key k n m = insert k (add64 (get_or (lookup k m) 0) n) m

-- What AttributeLocked makes of the entry `ep` under `key`.
unfoldable pub attribute_to :
    Option SiteMap → Text → Bool → ℕ → ErrorClass → Text → EndpointStats → EndpointStats
attribute_to site_map key ok bytes error_class cms_site ep =
    let named = record ep {
      data_server = key;
      cms_site =
          if is_empty ep.cms_site
          then (if not (is_empty cms_site) then cms_site else site_of site_map key)
          else ep.cms_site;
    } in
    if ok
    then record named {
      bytes_read = add64 ep.bytes_read bytes;
      sessions_ok = add64 ep.sessions_ok 1;
    }
    else record named {
      sessions_fail = add64 ep.sessions_fail 1;
      errors_by_class =
          if is_no_error error_class
          then ep.errors_by_class
          else count_key (error_class_name error_class) 1 ep.errors_by_class;
    }

unfoldable pub attribute_locked :
    Text → Bool → ℕ → ErrorClass → Text → MetricsRegistry → MetricsRegistry
attribute_locked data_server ok bytes error_class cms_site r =
    let key = if is_empty data_server then unknown_data_server else data_server in
    let ep = get_or (lookup key r.by_data_server) new_endpoint in
    record r {
      by_data_server =
          insert key (attribute_to r.site_map key ok bytes error_class cms_site ep)
            r.by_data_server;
    }

-- The figures of a session that ended well.
pub record SessionFigures : Type 0 where
  pub bytes : ℕ
  pub ops : ℕ
  pub open_s : Option ℕ
  pub ttfb_s : Option ℕ
  pub read_s : Option ℕ
  pub redirects : Option ℕ

unfoldable pub observe_session_ok : SessionFigures → Text → Text → MetricsRegistry → MetricsRegistry
observe_session_ok f data_server cms_site r =
    attribute_locked data_server true f.bytes no_error cms_site (record r {
      bytes_read_total = add64 r.bytes_read_total f.bytes;
      sessions_ok = add64 r.sessions_ok 1;
      read_ops_total = add64 r.read_ops_total f.ops;
      open_seconds = observe f.open_s r.open_seconds;
      ttfb_seconds = observe f.ttfb_s r.ttfb_seconds;
      read_seconds = observe f.read_s r.read_seconds;
      redirects_per_open = observe f.redirects r.redirects_per_open;
    })

unfoldable pub observe_session_fail : ErrorClass → Text → Text → MetricsRegistry → MetricsRegistry
observe_session_fail error_class data_server cms_site r =
    attribute_locked data_server false 0 error_class cms_site (record r {
      sessions_fail = add64 r.sessions_fail 1;
      errors_by_class = bump (error_class_index error_class) 1 r.errors_by_class;
    })

unfoldable pub observe_read_op : Option ℕ → MetricsRegistry → MetricsRegistry
observe_read_op seconds r = record r { read_op_seconds = observe seconds r.read_op_seconds }

-- The index of a kind; the last kind stands for every other one.
unfoldable pub kind_index : Text → List Text → ℕ
kind_index kind [] = 0
kind_index kind (last ∷ []) = 0
kind_index kind (k ∷ l ∷ ks) =
    let rest = kind_index kind (l ∷ ks) in if text_eq kind k then 0 else suc rest

unfoldable pub observe_soft_fault : Text → MetricsRegistry → MetricsRegistry
observe_soft_fault kind r = record r {
  soft_faults_by_kind = bump (kind_index kind soft_fault_kinds) 1 r.soft_faults_by_kind;
}

abbrev pub set_inflight : ℕ → MetricsRegistry → MetricsRegistry
set_inflight live r = record r { inflight_reads = live }

unfoldable pub set_cms_site : Text → Text → MetricsRegistry → MetricsRegistry
set_cms_site data_server cms_site r =
    if is_empty data_server || is_empty cms_site
    then r
    else elim (lookup data_server r.by_data_server) [
      | none ↦ r
      | some ep ↦ record r {
        by_data_server = insert data_server (record ep { cms_site = cms_site }) r.by_data_server;
      }
    ]

unfoldable pub missing_site : Dict EndpointStats → List Text
missing_site [] = []
missing_site ((key, ep) ∷ m) =
    let rest = missing_site m in
    if is_empty ep.cms_site && not (text_eq key unknown_data_server) then key ∷ rest else rest

unfoldable pub data_servers_missing_site : MetricsRegistry → List Text
data_servers_missing_site r = missing_site r.by_data_server

unfoldable pub set_labels : Text → Text → Text → Text → Text → MetricsRegistry → MetricsRegistry
set_labels local_hostname run_id job_id target endpoint r = record r {
  run_id = run_id;
  job_id = job_id;
  target = target;
  endpoint = endpoint;
  host = if is_empty r.host then local_hostname else r.host;
}

unfoldable pub set_host : Text → Text → MetricsRegistry → MetricsRegistry
set_host local_hostname host r = record r { host = if is_empty host then local_hostname else host }

abbrev pub set_config_gauges : ℕ → ℕ → MetricsRegistry → MetricsRegistry
set_config_gauges target_rate_bytes_per_s max_inflight r = record r {
  target_rate_bytes = target_rate_bytes_per_s;
  max_inflight = max_inflight;
}

abbrev pub set_site_map : Option SiteMap → MetricsRegistry → MetricsRegistry
set_site_map m r = record r { site_map = m }

abbrev pub sample_proc : ℕ → ℕ → MetricsRegistry → MetricsRegistry
sample_proc cpu_us rss r = record r { cpu_us = cpu_us; rss_bytes = rss }
