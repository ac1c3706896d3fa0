-- ===== src/Report/Aggregate.antt =====
-- src/report_command.cc: AggregateResultFiles. A std::set<std::string> is a list that ascends.
use xrdhover.Prelude.Text.{Text, codes, text_eq}
use xrdhover.Json.{Json, fields, is_object}
use xrdhover.Units.{Number}
use xrdhover.Metrics.Data.{add64}
use xrdhover.Report.Data.{
  ReportSummary, new_summary, json_u64, json_double, json_string, merge_count_map, merge_buckets,
  member_or_null,
}
use xrdhover.Report.Discover.{and_then, FileSystem, Loaded, unreadable, malformed, parsed}
use xrdhover.Prelude.{
  ℕ, ◌+◌, ◌*◌, ◌^◌, ◌⊎◌, inl, inr, Bool, true, false, ◌&&◌, ◌||◌, List, [], ◌∷◌, ◌++◌, ltb, ◌==◌,
  if◌then◌else◌, length, is_empty,
}

-- `a < b` on doubles.
unfoldable pub is_less : Number → Number → Bool
is_less a b =
    let x = a.mantissa * 10 ^ b.decimals in
    let y = b.mantissa * 10 ^ a.decimals in
    if a.negative
    then (if b.negative then ltb y x else ltb 0 (x + y))
    else if b.negative
    then false
    else ltb x y

-- `std::max(a, b)`.
abbrev pub larger : Number → Number → Number
larger a b = if is_less a b then b else a

-- `a < b` on std::string: by bytes.
unfoldable pub text_less : Text → Text → Bool
text_less s [] = false
text_less [] (b ∷ t) = true
text_less (a ∷ s) (b ∷ t) = ltb a b || ((a == b) && text_less s t)

unfoldable pub set_insert : Text → List Text → List Text
set_insert k [] = k ∷ []
set_insert k (j ∷ js) =
    if text_less k j then k ∷ j ∷ js else if text_eq k j then j ∷ js else j ∷ set_insert k js

abbrev pub insert_named : Text → List Text → List Text
insert_named name names = if is_empty name then names else set_insert name names

-- The state of the loop.
pub record Gathered : Type 0 where
  pub out : ReportSummary
  pub endpoints : List Text
  pub targets : List Text
  pub run_ids : List Text
  pub job_ids : List Text

abbrev pub nothing_gathered : List Text → Gathered
nothing_gathered paths = record {
  out = record new_summary { sources = paths };
  endpoints = [];
  targets = [];
  run_ids = [];
  job_ids = [];
}

-- The only member of a set, or nothing.
abbrev pub only : List Text → Text
only (name ∷ []) = name
only _ = []

-- The part after the loop.
unfoldable pub conclude : Gathered → Text ⊎ ReportSummary
conclude g =
    if ltb 1 (length g.run_ids)
    then inl (codes "result files disagree on run_id")
    else inr (record g.out {
      run_id = only g.run_ids;
      endpoint = only g.endpoints;
      target = only g.targets;
      job_ids = g.job_ids;
    })

module _ (beyond : Number → ℕ) where
  unfoldable pub add_result : Json → ReportSummary → ReportSummary
  add_result j out = record out {
    bytes_read = add64 out.bytes_read (json_u64 beyond j (codes "bytes_read"));
    sessions_ok = add64 out.sessions_ok (json_u64 beyond j (codes "sessions_ok"));
    sessions_fail = add64 out.sessions_fail (json_u64 beyond j (codes "sessions_fail"));
    ops = add64 out.ops (json_u64 beyond j (codes "ops"));
    elapsed_s = larger out.elapsed_s (json_double j (codes "elapsed_s"));
    errors = merge_count_map beyond out.errors (member_or_null j (codes "errors"));
    soft_faults = merge_count_map beyond out.soft_faults (member_or_null j (codes "soft_faults"));
    by_data_server =
        merge_buckets beyond (fields (member_or_null j (codes "by_data_server")))
          out.by_data_server;
    by_cms_site =
        merge_buckets beyond (fields (member_or_null j (codes "by_cms_site"))) out.by_cms_site;
  }

  unfoldable pub gather_result : Json → Gathered → Gathered
  gather_result j g = record {
    out = add_result j g.out;
    endpoints = insert_named (json_string j (codes "endpoint")) g.endpoints;
    targets = insert_named (json_string j (codes "target")) g.targets;
    run_ids = insert_named (json_string j (codes "run_id")) g.run_ids;
    job_ids = insert_named (json_string j (codes "job_id")) g.job_ids;
  }

  -- What one file does to the state.
  unfoldable pub gather_file : Text → Loaded → Gathered → Text ⊎ Gathered
  gather_file path unreadable g = inl (codes "cannot open " ++ path)
  gather_file path (malformed what) g = inl (codes "invalid JSON in " ++ path ++ codes ": " ++ what)
  gather_file path (parsed j) g =
      if is_object j
      then inr (gather_result j g)
      else inl (codes "result.json root must be object: " ++ path)

  unfoldable pub gather_files : FileSystem → List Text → Gathered → Text ⊎ Gathered
  gather_files fs [] g = inr g
  gather_files fs (path ∷ paths) g =
      and_then (gather_file path (fs.load path) g) (gather_files fs paths)

  unfoldable pub aggregate_result_files : FileSystem → List Text → Text ⊎ ReportSummary
  aggregate_result_files fs paths =
      if is_empty paths
      then inl (codes "no result files to aggregate")
      else and_then (gather_files fs paths (nothing_gathered paths)) conclude
