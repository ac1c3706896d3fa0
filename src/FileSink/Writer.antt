-- ===== src/FileSink/Writer.antt =====
-- src/file_sink.cc: the sink and its files. The printer of JSON, and which files can be made, are
-- arguments; a write to a file that is open succeeds. An exception is its message.
use xrdhover.Prelude.Text.{Text, codes}
use xrdhover.Prelude.Dict.{Dict, lookup, insert}
use xrdhover.Json.{Json}
use xrdhover.Units.{Number}
use xrdhover.Metrics.Snapshot.{Fraction, MetricsSnapshot}
use xrdhover.Report.Discover.{join, result_name}
use xrdhover.FileSink.Documents.{RunInfoMeta, snapshot_to_jsonl, result_json}
use mathlib.Core.Option.{get_or}
use xrdhover.Prelude.{
  ℕ, Bool, true, false, Option, none, some, [], ◌∷◌, ◌++◌, ◌==◌, if◌then◌else◌, is_empty,
}

-- The error of `create_directories`, none where there is none; which paths can be opened to write;
-- and nlohmann's `dump()` and `dump(2)`, over its decimals of doubles.
pub record Outside : Type 0 where
  pub create_directories : Text → Option Text
  pub can_open : Text → Bool
  pub decimal_of : Fraction → Number
  pub dump : Json → Text
  pub dump_indented : Json → Text

abbrev pub Files : Type 0
Files = Dict Text

pub record FileSink : Type 0 where
  pub results_dir : Text
  pub run_id : Text
  pub run_dir : Text
  pub meta : RunInfoMeta
  pub jsonl : Bool

unfoldable pub new_sink : Text → Text → RunInfoMeta → FileSink
new_sink results_dir run_id meta = record {
  results_dir = results_dir;
  run_id = run_id;
  run_dir = join results_dir run_id;
  meta = meta;
  jsonl = false;
}

abbrev pub last_is : ℕ → Text → Bool
last_is c [] = false
last_is c (b ∷ []) = b == c
last_is c (b ∷ s) = last_is c s

abbrev pub newline : Text
newline = 10 ∷ []

abbrev pub metrics_path : FileSink → Text
metrics_path s = join s.run_dir (codes "metrics.jsonl")

abbrev pub result_path : FileSink → Text
result_path s = join s.run_dir result_name

module _ (o : Outside) where
  -- `std::ofstream out(path)` with its check, and a write.
  unfoldable pub write_file : Text → Text → Text → Files → Option Text × Files
  write_file message path text files =
      if o.can_open path then (none, insert path text files) else (some (message ++ path), files)

  unfoldable pub write_resolved : FileSink → Files → Option Text × Files
  write_resolved s files =
      let text = s.meta.workload_resolved_json in
      if is_empty text
      then (none, files)
      else write_file (codes "cannot write ") (join s.run_dir (codes "workload_resolved.json"))
          (if last_is 10 text then text else text ++ newline) files

  unfoldable pub write_hash : FileSink → Files → Option Text × Files
  write_hash s files =
      if is_empty s.meta.workload_hash
      then (none, files)
      else write_file (codes "cannot write ") (join s.run_dir (codes "workload.hash"))
          (s.meta.workload_hash ++ newline) files

  abbrev pub after : Option Text × Files → (Files → Option Text × Files) → Option Text × Files
  after (some e, files) next = (some e, files)
  after (none, files) next = next files

  unfoldable pub start : FileSink → Files → Option Text × (FileSink × Files)
  start s files = elim (o.create_directories s.run_dir) [
    | some e ↦
        (some (codes "cannot create results dir " ++ s.run_dir ++ codes ": " ++ e), (s, files))
    | none ↦
        let (e, files') =
          after (after (write_resolved s files) (write_hash s))
            (write_file (codes "cannot open ") (metrics_path s) []) in
        elim e [
          | none ↦ (none, (record s { jsonl = true }, files'))
          | some what ↦ (some what, (s, files'))
        ]
  ]

  unfoldable pub write_snapshot : FileSink → MetricsSnapshot → Files → Files
  write_snapshot s snap files =
      let line = o.dump (snapshot_to_jsonl o.decimal_of snap) ++ newline in
      if s.jsonl
      then insert (metrics_path s) (get_or (lookup (metrics_path s) files) [] ++ line) files
      else files

  unfoldable pub write_result : FileSink → MetricsSnapshot → Fraction → Files → Option Text × Files
  write_result s snap cpu_seconds_at_start files =
      write_file (codes "cannot write ") (result_path s)
        (o.dump_indented (result_json o.decimal_of s.meta snap cpu_seconds_at_start) ++ newline)
        files
