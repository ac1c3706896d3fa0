-- ===== src/Witness/Data.antt =====
-- A configuration, a session and a generator that the examples share.
use xrdhover.Prelude.Text.{codes}
use xrdhover.RunConfig.{RunConfig, sequential}
use xrdhover.Session.State.{FileSession, FileSessionOptions, FileSessionPacing, Status, Rng}
use xrdhover.Session.Opening.{new_session}
use xrdhover.Scheduler.{Draws}
use xrdhover.Prelude.{◌+◌, true, false, [], ◌∷◌}

-- 1000 bytes per second in reads of 100 bytes, two sessions at most.
abbrev pub config : RunConfig
config = record {
  run_id = codes "run";
  duration = 30000000000;
  endpoint = codes "root://a/";
  files = codes "/f" ∷ [];
  filelist_path = [];
  target_rate_bytes_per_s = 1000;
  target_rate_input = [];
  max_inflight = 2;
  pattern_type = sequential;
  chunk_size = 100;
  vector_chunks = 4;
  vector_fraction = record { negative = false; mantissa = 5; decimals = 1 };
  max_bytes = 0;
  max_bytes_auto = true;
  seed = 1;
  dry_run = false;
  session_timeout = 60000000000;
  connection_window_s = 30;
  connection_retry = 1;
  request_timeout_s = 60;
  results_dir = [];
  snapshot_interval = 15000000000;
  job_id = [];
  write_results = false;
  target = [];
  pushgateway_url = [];
  pushgateway_job = [];
  pushgateway_keep = false;
  chirp_classads = false;
  chirp_prom_path = [];
  chirp_binary = [];
  schema_version = 1;
  auth_mode = [];
  workload_hash = [];
  workload_resolved_json = [];
  site_map_path = [];
  sitename_query = false;
}

abbrev pub ok : Status
ok = record { is_ok = true; code = 0; err_no = 0; text = [] }

abbrev pub options : FileSessionOptions
options = record {
  url = codes "root://a//f";
  chunk_size = 100;
  offset = 0;
  max_bytes = 0;
  vector_chunks = 0;
  random_offset = false;
  offset_seed = 0;
  wall_timeout = 0;
}

abbrev pub pacing : FileSessionPacing
pacing = record {
  paced = true;
  prepaid_op_bytes = 100;
  on_ready = true;
  on_refund = true;
  on_read_op = false;
}

abbrev pub draws : Draws
draws = record { index = 0; below_half = false; below_fraction = false }

-- A generator that always draws the bound.
abbrev pub generator : Rng
generator = record { seeded = λ s. s; uniform = λ bound state. (bound, state + 1) }

abbrev pub fresh : FileSession
fresh = new_session options pacing
