-- ===== src/Witness/Report.antt =====
-- Examples for the file sink and the report.
use xrdhover.Prelude.Text.{Text, codes, text_eq}
use xrdhover.Prelude.Dict.{lookup}
use xrdhover.Workload.Host.{below}
use xrdhover.Json.{Json, integer, object, from_members}
use xrdhover.Units.{Number}
use xrdhover.Metrics.Data.{new_registry}
use xrdhover.Metrics.Snapshot.{Fraction, integral, MetricsSnapshot, snapshot}
use xrdhover.FileSink.Documents.{RunInfoMeta, result_json}
use xrdhover.FileSink.Writer.{Outside, new_sink, result_path, write_result}
use xrdhover.FileSink.Result.{summary_of}
use xrdhover.ErrorClassifier.{timeout}
use xrdhover.Engine.{exit_code}
use xrdhover.Metrics.Sums.{Update, labels, session_ok, session_fail, updates}
use xrdhover.FileSink.Reported.{run_report_command-updates}
use xrdhover.FileSink.Written.{file_system}
use xrdhover.Report.Data.{json_string, new_summary, ReportOptions, ReportSummary}
use xrdhover.Report.Discover.{
  discover_path, FileSystem, Loaded, parsed, discover_result_files, join,
}
use xrdhover.Report.Aggregate.{
  conclude, gather_result, aggregate_result_files, gather_files, gather_file,
}
use xrdhover.Report.Command.{human_text, run_report_command}
use xrdhover.Report.Found.{IsResult, discover_result_files-IsResult}
use xrdhover.Report.Figures.{server_bytes, shown, told}
use xrdhover.Report.Totals.{sum_over, aggregate_result_files-sums}
use xrdhover.Prelude.{
  ℕ, ◌%◌, ◌^◌, ◌≡◌, refl, ◌⊎◌, inl, inr, true, false, none, some, List, [], ◌∷◌, arith, length,
}

abbrev never : Number → ℕ
never x = 0

abbrev digits : Fraction → Number
digits x = record { negative = false; mantissa = x.num; decimals = 0 }

-- A run with a session that ended well and one that timed out.
abbrev calls : List Update
calls =
    labels (codes "h") (codes "r") (codes "j") [] []
    ∷ session_ok
        (record {
          bytes = 10;
          ops = 2;
          open_s = some 5;
          ttfb_s = none;
          read_s = none;
          redirects = none;
        })
        (codes "ds") (codes "T1")
    ∷ session_fail timeout (codes "ds") []
    ∷ []

abbrev finished : MetricsSnapshot
finished = snapshot (codes "h") (integral 2) (updates calls new_registry)

abbrev info : RunInfoMeta
info = record {
  version = codes "1";
  arch = [];
  xrdcl_version = [];
  seed = 7;
  pattern = codes "sequential";
  schema_version = 1;
  auth_mode = [];
  workload_hash = codes "ab";
  workload_resolved_json = [];
}

abbrev document : Json
document = result_json digits info finished (integral 0)

abbrev disk : Outside
disk = record {
  create_directories = λ p. none;
  can_open = λ p. true;
  decimal_of = digits;
  dump = λ j. codes "{}";
  dump_indented = λ j. codes "{}";
}

abbrev parse : Text → Loaded
parse t = parsed document

run_report_command-updates_example :
    let sink = new_sink (codes "res") (codes "r") info in
    run_report_command never digits
      (file_system
        (λ p. text_eq p (codes "res"))
        parse
        (write_result disk sink finished (integral 0) []).1)
      (record { path = []; results_dir = codes "res"; run_id = codes "r"; json = false })
    ≡ (
      exit_code (updates calls new_registry),
      human_text (summary_of digits (result_path sink) finished),
    )
unfolding text_eq
run_report_command-updates_example =
    run_report_command-updates disk never (λ p. text_eq p (codes "res")) parse (codes "res")
      (codes "r") (codes "h") info (integral 2) (integral 0) calls false [] (omega arith) (λ e. cc)
      (λ e. cc) refl refl refl

-- Two documents of one run, with a server that stands in both.
abbrev part : ℕ → Json
part n = object (
    from_members (
      (codes "bytes_read", integer n)
      ∷ (
        codes "by_data_server",
        object (
            from_members
              ((codes "ds", object (from_members ((codes "bytes_read", integer n) ∷ []))) ∷ [])),
      )
      ∷ []))

abbrev parts : FileSystem
parts = record {
  is_regular_file = λ p. text_eq p (codes "a/result.json");
  is_directory = λ p. text_eq p (codes "a");
  load = λ p. parsed (part (length p));
}

abbrev both : Text ⊎ ReportSummary
both = aggregate_result_files never parts (codes "abc" ∷ codes "ab" ∷ [])

abbrev merged_of : Text ⊎ ReportSummary → ReportSummary
merged_of (inl e) = new_summary
merged_of (inr s) = s

is_merged : both ≡ inr (merged_of both)
unfolding aggregate_result_files gather_files gather_file gather_result conclude json_string lookup
    text_eq
is_merged = refl

aggregate_result_files-sums_example :
    shown (server_bytes (codes "ds")) (merged_of both) % 2 ^ 64
    ≡ sum_over (told never (server_bytes (codes "ds"))) parts (codes "abc" ∷ codes "ab" ∷ [])
      % 2 ^ 64
aggregate_result_files-sums_example =
    aggregate_result_files-sums never (server_bytes (codes "ds")) parts
      (codes "abc" ∷ codes "ab" ∷ []) is_merged

abbrev in_a : ReportOptions
in_a = record { path = codes "a"; results_dir = []; run_id = []; json = false }

discover_result_files-IsResult_example :
    (file : Text) × ((codes "a/result.json" ∷ []) ≡ file ∷ []) × IsResult parts in_a file
unfolding discover_result_files discover_path join below text_eq
discover_result_files-IsResult_example = discover_result_files-IsResult parts in_a refl
