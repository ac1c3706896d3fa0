-- ===== src/RunConfig.antt =====
-- src/run_config.cc, include/xrdhover/run_config.hh: the configuration of one run, the sizes derived
-- from it, and the URLs. Durations are in nanoseconds; the product (rate / max_inflight) * 8.0 is taken exactly, where the source rounds it to a double.
pub mod Sizes
pub mod FileList
use xrdhover.Prelude.{
  ℕ, zero, suc, ◌+◌, ◌-◌, ◌*◌, ◌/◌, ◌%◌, ◌^◌, ◌≤◌, ◌<◌, min, max, ◌≡◌, refl, sym, ap, subst, ◌∙◌,
  ◌≢◌, ◌↔◌, ◌⊎◌, inl, inr, Bool, true, false, ◌&&◌, ◌||◌, not, Option, none, some, List, [], ◌∷◌,
  ◌++◌, map, arith, ltb, leb, ◌==◌, if◌then◌else◌, ltb→lt, lt→ltb, leb→le, ==_iff, Bool-cases,
  Option-cases, length, get_elem?, is_empty, drop, take, length-append, All,
}
use xrdhover.Prelude.Text.{Text, codes, starts_with}
use xrdhover.Units.{Number}

pub data PatternType : Type 0 where
  sequential random vector mixed : PatternType

abbrev pub pattern_type_name : PatternType → Text
pattern_type_name sequential = codes "sequential"
pattern_type_name random = codes "random"
pattern_type_name vector = codes "vector"
pattern_type_name mixed = codes "mixed"

pub record RunConfig : Type 0 where
  pub run_id : Text
  pub duration : ℕ
  pub endpoint : Text
  pub files : List Text
  pub filelist_path : Text
  pub target_rate_bytes_per_s : ℕ
  pub target_rate_input : Text
  pub max_inflight : ℕ
  pub pattern_type : PatternType
  pub chunk_size : ℕ
  pub vector_chunks : ℕ
  pub vector_fraction : Number
  pub max_bytes : ℕ
  pub max_bytes_auto : Bool
  pub seed : ℕ
  pub dry_run : Bool
  pub session_timeout : ℕ
  pub connection_window_s : ℕ
  pub connection_retry : ℕ
  pub request_timeout_s : ℕ
  pub results_dir : Text
  pub snapshot_interval : ℕ
  pub job_id : Text
  pub write_results : Bool
  pub target : Text
  pub pushgateway_url : Text
  pub pushgateway_job : Text
  pub pushgateway_keep : Bool
  pub chirp_classads : Bool
  pub chirp_prom_path : Text
  pub chirp_binary : Text
  pub schema_version : ℕ
  pub auth_mode : Text
  pub workload_hash : Text
  pub workload_resolved_json : Text
  pub site_map_path : Text
  pub sitename_query : Bool

abbrev pub auto_max_amortize_sec : ℕ
auto_max_amortize_sec = 8

abbrev pub auto_max_floor_chunks : ℕ
auto_max_floor_chunks = 4

abbrev pub auto_max_hard_cap_bytes : ℕ
auto_max_hard_cap_bytes = 32000000

abbrev pub rate_headroom_sec : ℕ
rate_headroom_sec = 2

-- The cap on an automatic session budget.
unfoldable pub auto_ceiling : RunConfig → ℕ
auto_ceiling cfg = min (cfg.target_rate_bytes_per_s * rate_headroom_sec) auto_max_hard_cap_bytes

-- Rounded up to whole chunks, or down where up would pass the cap.
unfoldable pub align_to_chunk : ℕ → ℕ → ℕ → ℕ
align_to_chunk chunk ceiling bytes =
    let aligned = ((bytes + chunk - 1) / chunk) * chunk in
    max (if ltb ceiling aligned then (ceiling / chunk) * chunk else aligned) chunk

-- ComputeAutoMaxBytes; none stands for the exception.
unfoldable pub compute_auto_max_bytes : RunConfig → Option ℕ
compute_auto_max_bytes cfg =
    let chunk = max cfg.chunk_size 1 in
    let bytes = (cfg.target_rate_bytes_per_s * auto_max_amortize_sec) / max cfg.max_inflight 1 in
    let floored = max bytes (chunk * auto_max_floor_chunks) in
    if cfg.target_rate_bytes_per_s == 0
    then none
    else some (align_to_chunk chunk (auto_ceiling cfg) (min floored (auto_ceiling cfg)))

unfoldable pub compute_op_bytes : RunConfig → Bool → ℕ
compute_op_bytes cfg use_vector =
    let chunk = max cfg.chunk_size 1 in
    if use_vector then chunk * max 1 cfg.vector_chunks else chunk

abbrev pub may_vector : PatternType → Bool
may_vector vector = true
may_vector mixed = true
may_vector _ = false

unfoldable pub compute_bucket_capacity : RunConfig → ℕ
compute_bucket_capacity cfg =
    if cfg.target_rate_bytes_per_s == 0
    then 0
    else compute_op_bytes cfg (may_vector cfg.pattern_type)

-- ResolveRunConfig; none stands for the exception.
unfoldable pub resolve_run_config : RunConfig → Option RunConfig
resolve_run_config cfg =
    if cfg.target_rate_bytes_per_s == 0
    then (if cfg.max_bytes_auto || (cfg.max_bytes == 0) then none else some cfg)
    else if cfg.max_bytes_auto
    then (elim (compute_auto_max_bytes cfg) [
      | none ↦ none
      | some bytes ↦ some (record cfg { max_bytes = bytes })
    ])
    else some cfg

-- `ep.back() == '/'`.
unfoldable pub ends_with_slash : Text → Bool
ends_with_slash [] = false
ends_with_slash (c ∷ []) = c == b'/'
ends_with_slash (c ∷ cs) = ends_with_slash cs

unfoldable pub join_url : Text → Text → Text
join_url endpoint path =
    if is_empty path
    then endpoint
    else if starts_with (codes "root://") path
    then path
    else if is_empty endpoint
    then path
    else if ends_with_slash endpoint
    then endpoint ++ path
    else (endpoint ++ (b'/' ∷ [])) ++ path
