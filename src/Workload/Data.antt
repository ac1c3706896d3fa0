-- ===== src/Workload/Data.antt =====
-- include/xrdhover/workload_spec.hh: the parts of a workload, with their defaults. Doubles are decimals.
use xrdhover.Prelude.Text.{Text, codes}
use xrdhover.Units.{Number}
use xrdhover.RunConfig.{PatternType, sequential}
use xrdhover.Prelude.{ℕ, ◌^◌, Bool, true, false, List, []}

-- A whole number of seconds.
abbrev pub whole : ℕ → Number
whole n = record { negative = false; mantissa = n; decimals = 0 }

pub record PatternSpec : Type 0 where
  pub pattern_type : PatternType
  pub read_size_input : Text
  pub chunk_size : ℕ
  pub vector_fraction : Number
  pub vector_chunks : ℕ
  pub max_bytes_input : Text
  pub max_bytes : ℕ
  pub max_bytes_auto : Bool

abbrev pub new_pattern : PatternSpec
new_pattern = record {
  pattern_type = sequential;
  read_size_input = codes "1MiB";
  chunk_size = 2 ^ 20;
  vector_fraction = record { negative = false; mantissa = 4; decimals = 1 };
  vector_chunks = 8;
  max_bytes_input = codes "auto";
  max_bytes = 0;
  max_bytes_auto = true;
}

pub record TargetSpec : Type 0 where
  pub name : Text
  pub endpoint : Text
  pub filelist : Text
  pub filelist_input : Text
  pub files : List Text
  pub target_rate_input : Text
  pub target_rate_bytes_per_s : ℕ
  pub max_inflight : ℕ
  pub pattern : PatternSpec

abbrev pub new_target : TargetSpec
new_target = record {
  name = [];
  endpoint = [];
  filelist = [];
  filelist_input = [];
  files = [];
  target_rate_input = [];
  target_rate_bytes_per_s = 0;
  max_inflight = 16;
  pattern = new_pattern;
}

pub record ClientTuningSpec : Type 0 where
  pub session_timeout_input : Text
  pub session_timeout : Number
  pub connection_window_s : ℕ
  pub connection_retry : ℕ
  pub request_timeout_s : ℕ

abbrev pub new_tuning : ClientTuningSpec
new_tuning = record {
  session_timeout_input = codes "60s";
  session_timeout = whole 60;
  connection_window_s = 15;
  connection_retry = 2;
  request_timeout_s = 60;
}

pub record PushgatewaySpec : Type 0 where
  pub url : Text
  pub job : Text
  pub keep : Bool

abbrev pub new_pushgateway : PushgatewaySpec
new_pushgateway = record { url = []; job = codes "xrdhover"; keep = false }

pub record ChirpSpec : Type 0 where
  pub classads : Bool
  pub prom_path : Text

abbrev pub new_chirp : ChirpSpec
new_chirp = record { classads = false; prom_path = [] }

pub record SinkSpec : Type 0 where
  pub results_dir : Text
  pub snapshot_interval_input : Text
  pub snapshot_interval : Number
  pub job_id : Text
  pub write_results : Bool
  pub pushgateway : PushgatewaySpec
  pub chirp : ChirpSpec
  pub site_map : Text
  pub site_map_input : Text

abbrev pub new_sinks : SinkSpec
new_sinks = record {
  results_dir = codes "results";
  snapshot_interval_input = codes "15s";
  snapshot_interval = whole 15;
  job_id = [];
  write_results = true;
  pushgateway = new_pushgateway;
  chirp = new_chirp;
  site_map = [];
  site_map_input = [];
}

pub record WorkloadSpec : Type 0 where
  pub schema_version : ℕ
  pub run_id : Text
  pub duration_input : Text
  pub duration : Number
  pub seed : ℕ
  pub auth_mode : Text
  pub targets : List TargetSpec
  pub client_tuning : ClientTuningSpec
  pub sinks : SinkSpec

abbrev pub new_workload : WorkloadSpec
new_workload = record {
  schema_version = 1;
  run_id = codes "run";
  duration_input = codes "30s";
  duration = whole 30;
  seed = 1;
  auth_mode = codes "x509";
  targets = [];
  client_tuning = new_tuning;
  sinks = new_sinks;
}
