-- ===== src/Chirp.antt =====
-- src/chirp_sink.cc: the sink that publishes a run through condor_chirp. The environment, the file
-- system and printf are parameters; whether a command of condor_chirp succeeds is only logged, so
-- that the sink is described by the commands that it runs.
pub mod Remote
use xrdhover.Prelude.Text.{Text, codes, decimal}
use xrdhover.Prelude.Dict.{Dict}
use xrdhover.Metrics.Snapshot.{Fraction, integral, MetricsSnapshot}
use xrdhover.PromEncode.Encode.{encode_prometheus_text}
use xrdhover.Pushgateway.{trim_trailing_slash}
use xrdhover.Workload.Host.{below}
use mathlib.Core.Option.{get_or}
use xrdhover.Prelude.{
  ℕ, ◌+◌, ◌%◌, ◌^◌, Bool, true, false, ◌||◌, not, Option, none, some, List, [], ◌∷◌, ◌++◌, ◌==◌,
  if◌then◌else◌, is_empty,
}

-- What the sink takes from outside: two variables of the environment, none where they are not set,
-- the file system, and printf's "%.6g" and "%.9g".
pub record Surroundings : Type 0 where
  pub chirp_config : Option Text
  pub path : Option Text
  pub exists : Text → Bool
  pub canonical : Text → Text
  pub parent_path : Text → Text
  pub print_six : Fraction → Text
  pub print_nine : Fraction → Text

unfoldable pub first_existing : Surroundings → List Text → Option Text
first_existing s [] = none
first_existing s (c ∷ cs) = let rest = first_existing s cs in if s.exists c then some c else rest

-- The names between the colons, from `dir` on; the empty ones are skipped.
unfoldable pub split_path : Text → Text → List Text
split_path dir [] = if is_empty dir then [] else dir ∷ []
split_path dir (c ∷ s) = elim (c == b':') [
  | true ↦ if is_empty dir then split_path [] s else dir ∷ split_path [] s
  | false ↦ split_path (dir ++ c ∷ []) s
]

abbrev pub in_directories : List Text → List Text
in_directories [] = []
in_directories (d ∷ ds) = below d (codes "condor_chirp") ∷ in_directories ds

-- The sibling of the configuration of the starter.
unfoldable pub beside_config : Surroundings → Option Text
beside_config s =
    let dir = s.parent_path (get_or s.chirp_config []) in
    if is_empty (get_or s.chirp_config [])
    then none
    else elim (first_existing s
        (below dir (codes "condor_chirp") ∷ below dir (codes "../bin/condor_chirp") ∷ [])) [
          | none ↦ none
          | some c ↦ some (s.canonical c)
        ]

unfoldable pub discover_chirp_binary : Surroundings → Text
discover_chirp_binary s = elim (beside_config s) [
  | some c ↦ c
  | none ↦ get_or (first_existing s (in_directories (split_path [] (get_or s.path [])))) []
]

pub record ChirpSink : Type 0 where
  pub chirp_binary : Text
  pub prom_remote_path : Text
  pub classads : Bool

unfoldable pub new_sink : Surroundings → Text → Text → Bool → Text → Text → ChirpSink
new_sink s chirp_binary prom_remote_dir classads run_id job_id =
    let binary = if is_empty chirp_binary then discover_chirp_binary s else chirp_binary in
    let file = codes "/xrdhover_" ++ run_id ++ b'_' ∷ job_id ++ codes ".prom" in
    record {
      chirp_binary = binary;
      prom_remote_path =
          if is_empty binary || is_empty prom_remote_dir
          then []
          else trim_trailing_slash prom_remote_dir ++ file;
      classads = classads;
    }

-- A run of condor_chirp; `put` carries the text of the local file.
pub data Command : Type 0 where
  set_job_attr : Text → Text → Command
  put : Text → Text → Command
  remove : Text → Command

-- The sum over a map, on 64 bits.
unfoldable pub total_of : ℕ → Dict ℕ → ℕ
total_of n [] = n
total_of n ((k, v) ∷ m) = total_of ((n + v) % 2 ^ 64) m

unfoldable pub push_class_ads : Surroundings → MetricsSnapshot → List Command
push_class_ads s snap =
    set_job_attr (codes "ChirpXrdhoverAchievedRate") (s.print_six snap.achieved_rate_bytes)
    ∷ set_job_attr (codes "ChirpXrdhoverTargetRate") (s.print_six snap.target_rate_bytes)
    ∷ set_job_attr (codes "ChirpXrdhoverBytesTotal") (decimal snap.bytes_read_total)
    ∷ set_job_attr (codes "ChirpXrdhoverSessionsOk") (decimal snap.sessions_ok)
    ∷ set_job_attr (codes "ChirpXrdhoverSessionsFail") (decimal snap.sessions_fail)
    ∷ set_job_attr (codes "ChirpXrdhoverErrorsTotal") (decimal (total_of 0 snap.errors_by_class))
    ∷ set_job_attr (codes "ChirpXrdhoverSoftFaults") (decimal (total_of 0 snap.soft_faults_by_kind))
    ∷ set_job_attr (codes "ChirpXrdhoverInflight") (decimal snap.inflight_reads)
    ∷ set_job_attr (codes "ChirpXrdhoverWallS") (s.print_six snap.wall)
    ∷ set_job_attr (codes "ChirpXrdhoverCpuS") (s.print_six snap.cpu_seconds_total)
    ∷ []

-- `stored` says whether the temporary file could be made and written.
unfoldable pub push_prom_file : Surroundings → Bool → ℕ → MetricsSnapshot → ChirpSink → List Command
push_prom_file s stored now snap sink =
    if is_empty sink.prom_remote_path || not stored
    then []
    else elim (encode_prometheus_text s.print_nine now snap) [
      | none ↦ []
      | some body ↦ put body sink.prom_remote_path ∷ []
    ]

unfoldable pub push : Surroundings → Bool → ℕ → MetricsSnapshot → ChirpSink → List Command
push s stored now snap sink =
    if is_empty sink.chirp_binary
    then []
    else (if sink.classads then push_class_ads s snap else [])
      ++ push_prom_file s stored now snap sink

abbrev pub zeroed : Surroundings → List Command
zeroed s =
    set_job_attr (codes "ChirpXrdhoverAchievedRate") (s.print_six (integral 0))
    ∷ set_job_attr (codes "ChirpXrdhoverInflight") (decimal 0)
    ∷ set_job_attr (codes "ChirpXrdhoverTargetRate") (s.print_six (integral 0))
    ∷ []

unfoldable pub finish : Surroundings → Bool → ℕ → MetricsSnapshot → ChirpSink → List Command
finish s stored now snap sink =
    if is_empty sink.chirp_binary
    then []
    else (push s stored now snap sink ++ (if sink.classads then zeroed s else []))
      ++ (if is_empty sink.prom_remote_path then [] else remove sink.prom_remote_path ∷ [])
