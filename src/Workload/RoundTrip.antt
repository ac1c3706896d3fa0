-- ===== src/Workload/RoundTrip.antt =====
-- src/workload_spec.cc: the canonical JSON and the printed digest lose nothing.
use xrdhover.Prelude.Text.{Text, codes, text_eq}
use xrdhover.Json.{
  elems, as_boolean, Json, as_string, as_array, null, integer, float, string, from_elems,
}
use xrdhover.Units.{Number}
use xrdhover.RunConfig.{PatternType, sequential, random, vector, mixed, pattern_type_name}
use xrdhover.Workload.Data.{
  whole, PatternSpec, TargetSpec, ClientTuningSpec, PushgatewaySpec, ChirpSpec, SinkSpec,
  WorkloadSpec,
}
use xrdhover.Workload.Fields.{get, parse_pattern_type}
use xrdhover.Prelude.Dict.{lookup}
use xrdhover.Workload.Host.{hex_digit, to_hex}
use xrdhover.Workload.Canonical.{
  pattern_to_json, target_to_json, push_to_json, chirp_to_json, sinks_to_json, tuning_to_json,
  workload_to_canonical_json,
}
use mathlib.Core.Option.{get_or}
use xrdhover.Prelude.{
  ℕ, ◌+◌, ◌-◌, ◌*◌, ◌/◌, ◌%◌, ◌<◌, ◌≡◌, refl, ap, Bool, false, List, [], ◌∷◌, map, arith, ltb,
  if◌then◌else◌, All,
}

-- The value of a hexadecimal digit, and the bytes that digits spell.
abbrev pub hex_value : ℕ → ℕ
hex_value c = if ltb c b'a' then c - b'0' else c - b'a' + 10

unfoldable pub from_hex : Text → List ℕ
from_hex (a ∷ b ∷ s) = (hex_value a * 16 + hex_value b) ∷ from_hex s
from_hex _ = []

hex_value-hex_digit : (n : ℕ) → n < 16 → hex_value (hex_digit n) ≡ n
hex_value-hex_digit n h = ground arith

-- The hash that is printed gives the digest back: two digests never print alike.
pub from_hex-to_hex :
    (digest : List ℕ) → All (λ d. d < 256) digest → from_hex (to_hex digest) ≡ digest
unfolding from_hex to_hex
from_hex-to_hex [] h = refl
from_hex-to_hex (d ∷ digest) h =
    rw
      (
        hex_value-hex_digit (d / 16 % 16) (omega arith),
        hex_value-hex_digit (d % 16) (omega arith),
        from_hex-to_hex digest h.1,
      )
      (ap (λ (x : ℕ). x ∷ digest) (omega (arith, h.0)))

-- Readers of the canonical JSON.
abbrev text_at : Text → Json → Text
text_at key j = get_or (as_string (get_or (get key j) null)) []

abbrev flag_at : Text → Json → Bool
flag_at key j = get_or (as_boolean (get_or (get key j) null)) false

abbrev count_of : Json → ℕ
count_of (integer n) = n
count_of _ = 0

abbrev count_at : Text → Json → ℕ
count_at key j = count_of (get_or (get key j) null)

abbrev number_of : Json → Number
number_of (float x) = x
number_of _ = whole 0

abbrev number_at : Text → Json → Number
number_at key j = number_of (get_or (get key j) null)

abbrev list_at : Text → Json → List Json
list_at key j = get_or (as_array (get_or (get key j) null)) []

abbrev part_at : Text → Json → Json
part_at key j = get_or (get key j) null

unfoldable pub pattern_of_json : Json → PatternSpec
pattern_of_json j = record {
  pattern_type = (parse_pattern_type (text_at (codes "type") j) []).value;
  read_size_input = text_at (codes "read_size") j;
  chunk_size = count_at (codes "read_size_bytes") j;
  vector_fraction = number_at (codes "vector_fraction") j;
  vector_chunks = count_at (codes "vector_chunks") j;
  max_bytes_input = text_at (codes "max_bytes") j;
  max_bytes = count_at (codes "max_bytes_resolved") j;
  max_bytes_auto = flag_at (codes "max_bytes_auto") j;
}

parse-name : (t : PatternType) → (parse_pattern_type (pattern_type_name t) []).value ≡ t
unfolding parse_pattern_type text_eq
parse-name sequential = refl
parse-name random = refl
parse-name vector = refl
parse-name mixed = refl

pattern_of_json-pattern_to_json : (p : PatternSpec) → pattern_of_json (pattern_to_json p) ≡ p
unfolding pattern_of_json pattern_to_json lookup text_eq
pattern_of_json-pattern_to_json p = rw (parse-name p.pattern_type)

-- A target without the path that its file list was resolved to.
abbrev pub unresolved_target : TargetSpec → TargetSpec
unresolved_target t = record t { filelist = [] }

abbrev pub strings : List Json → List Text
strings [] = []
strings (j ∷ js) = get_or (as_string j) [] ∷ strings js

unfoldable pub target_of_json : Json → TargetSpec
target_of_json j = record {
  name = text_at (codes "name") j;
  endpoint = text_at (codes "endpoint") j;
  filelist = [];
  filelist_input = text_at (codes "filelist") j;
  files = strings (list_at (codes "files") j);
  target_rate_input = text_at (codes "target_rate") j;
  target_rate_bytes_per_s = count_at (codes "target_rate_bytes_per_s") j;
  max_inflight = count_at (codes "max_inflight") j;
  pattern = pattern_of_json (part_at (codes "pattern") j);
}

elems-from_elems : (js : List Json) → elems (from_elems js) ≡ js
elems-from_elems [] = refl
elems-from_elems (j ∷ js) = ap (λ (x : List Json). j ∷ x) (elems-from_elems js)

strings-map : (ss : List Text) → strings (elems (from_elems (map string ss))) ≡ ss
strings-map [] = refl
strings-map (s ∷ ss) = ap (λ (x : List Text). s ∷ x) (strings-map ss)

target_of_json-target_to_json :
    (t : TargetSpec) → target_of_json (target_to_json t) ≡ unresolved_target t
unfolding target_of_json target_to_json lookup text_eq
target_of_json-target_to_json t =
    rw (strings-map t.files, pattern_of_json-pattern_to_json t.pattern)

abbrev pub targets_of : List Json → List TargetSpec
targets_of [] = []
targets_of (j ∷ js) = target_of_json j ∷ targets_of js

abbrev pub unresolved_targets : List TargetSpec → List TargetSpec
unresolved_targets [] = []
unresolved_targets (t ∷ ts) = unresolved_target t ∷ unresolved_targets ts

targets_of-map :
    (ts : List TargetSpec)
    → targets_of (elems (from_elems (map target_to_json ts))) ≡ unresolved_targets ts
targets_of-map [] = refl
targets_of-map (t ∷ ts) = rw (target_of_json-target_to_json t, targets_of-map ts)

unfoldable pub push_of_json : Json → PushgatewaySpec
push_of_json j = record {
  url = text_at (codes "url") j;
  job = text_at (codes "job") j;
  keep = flag_at (codes "keep") j;
}

unfoldable pub chirp_of_json : Json → ChirpSpec
chirp_of_json j = record {
  classads = flag_at (codes "classads") j;
  prom_path = text_at (codes "prom_path") j;
}

unfoldable pub sinks_of_json : Json → SinkSpec
sinks_of_json j = record {
  results_dir = text_at (codes "results_dir") j;
  snapshot_interval_input = text_at (codes "snapshot_interval") j;
  snapshot_interval = number_at (codes "snapshot_interval_s") j;
  job_id = text_at (codes "job_id") j;
  write_results = flag_at (codes "write_results") j;
  pushgateway = push_of_json (part_at (codes "pushgateway") j);
  chirp = chirp_of_json (part_at (codes "chirp") j);
  site_map = [];
  site_map_input = text_at (codes "site_map") j;
}

unfoldable pub tuning_of_json : Json → ClientTuningSpec
tuning_of_json j = record {
  session_timeout_input = text_at (codes "session_timeout") j;
  session_timeout = number_at (codes "session_timeout_s") j;
  connection_window_s = count_at (codes "connection_window") j;
  connection_retry = count_at (codes "connection_retry") j;
  request_timeout_s = count_at (codes "request_timeout") j;
}

unfoldable pub workload_of_json : Json → WorkloadSpec
workload_of_json j = record {
  schema_version = count_at (codes "schema_version") j;
  run_id = text_at (codes "run_id") j;
  duration_input = text_at (codes "duration") j;
  duration = number_at (codes "duration_s") j;
  seed = count_at (codes "seed") j;
  auth_mode = text_at (codes "mode") (part_at (codes "auth") j);
  targets = targets_of (list_at (codes "targets") j);
  client_tuning = tuning_of_json (part_at (codes "client_tuning") j);
  sinks = sinks_of_json (part_at (codes "sinks") j);
}

-- A workload without the resolved paths, which its canonical JSON leaves out.
abbrev pub unresolved : WorkloadSpec → WorkloadSpec
unresolved wl = record wl {
  targets = unresolved_targets wl.targets;
  sinks = record wl.sinks { site_map = [] };
}

push_of_json-push_to_json : (p : PushgatewaySpec) → push_of_json (push_to_json p) ≡ p
unfolding push_of_json push_to_json lookup text_eq
push_of_json-push_to_json p = refl

chirp_of_json-chirp_to_json : (c : ChirpSpec) → chirp_of_json (chirp_to_json c) ≡ c
unfolding chirp_of_json chirp_to_json lookup text_eq
chirp_of_json-chirp_to_json c = refl

sinks_of_json-sinks_to_json :
    (s : SinkSpec) → sinks_of_json (sinks_to_json s) ≡ record s { site_map = [] }
unfolding sinks_of_json sinks_to_json lookup text_eq
sinks_of_json-sinks_to_json s =
    rw (push_of_json-push_to_json s.pushgateway, chirp_of_json-chirp_to_json s.chirp)

tuning_of_json-tuning_to_json : (t : ClientTuningSpec) → tuning_of_json (tuning_to_json t) ≡ t
unfolding tuning_of_json tuning_to_json lookup text_eq
tuning_of_json-tuning_to_json t = refl

-- The canonical JSON of a workload, which its SHA-256 is taken of, gives the workload back, all its
-- targets with their files and patterns, except the paths that the file lists and the site map were
-- resolved to: two workloads that differ elsewhere never have the same canonical JSON.
pub workload_of_json-canonical :
    (wl : WorkloadSpec) → workload_of_json (workload_to_canonical_json wl) ≡ unresolved wl
unfolding workload_of_json workload_to_canonical_json lookup text_eq
workload_of_json-canonical wl = rw (
  targets_of-map wl.targets,
  tuning_of_json-tuning_to_json wl.client_tuning,
  sinks_of_json-sinks_to_json wl.sinks,
)
