-- ===== src/FileSink/Written.antt =====
-- src/file_sink.cc, src/report_command.cc: the report of a run finds the result that the sink wrote.
use xrdhover.Prelude.Text.{Text, text_eq_refl}
use xrdhover.Prelude.Dict.{lookup, lookup-insert}
use xrdhover.Units.{Number}
use xrdhover.Metrics.Snapshot.{Fraction, MetricsSnapshot}
use xrdhover.FileSink.Documents.{RunInfoMeta, result_json}
use xrdhover.FileSink.Writer.{
  Outside, Files, FileSink, new_sink, newline, result_path, write_file, write_result,
}
use xrdhover.FileSink.Result.{IsStorable, summary_of, aggregate_result_files-back}
use xrdhover.Report.Data.{ReportOptions, ReportSummary}
use xrdhover.Report.Discover.{join, FileSystem, Loaded, unreadable, parsed, and_then}
use xrdhover.Report.Aggregate.{aggregate_result_files}
use xrdhover.Report.Found.{discover_result_files-found}
use xrdhover.Report.Command.{json_text, human_text, report, summary_to_json, run_report_command}
use xrdhover.Prelude.{
  ℕ, ◌≡◌, refl, ap, ◌∙◌, ◌≢◌, ◌⊎◌, Bool, true, false, ◌&&◌, Option, none, some, List, [], ◌++◌, ltb,
  ◌==◌, if◌then◌else◌,
}

-- The files as the report sees them, with the parser of JSON.
abbrev pub load_file : (Text → Loaded) → Option Text → Loaded
load_file parse none = unreadable
load_file parse (some text) = parse text

abbrev pub is_some : Option Text → Bool
is_some none = false
is_some (some text) = true

abbrev pub file_system : (Text → Bool) → (Text → Loaded) → Files → FileSystem
file_system is_directory parse files = record {
  is_regular_file = λ path. is_some (lookup path files);
  is_directory = is_directory;
  load = λ path. load_file parse (lookup path files);
}

-- The document that the sink prints.
abbrev pub written : Outside → RunInfoMeta → MetricsSnapshot → Fraction → Text
written o meta snap cpu = o.dump_indented (result_json o.decimal_of meta snap cpu) ++ newline

module _ (o : Outside) (beyond : Number → ℕ) (is_directory : Text → Bool) (parse : Text → Loaded)
    (results_dir run_id : Text) (meta : RunInfoMeta) (snap : MetricsSnapshot) (cpu : Fraction) where
  abbrev sink : FileSink
  sink = new_sink results_dir run_id meta

  lookup-write_result :
      (files : Files)
      → o.can_open (result_path sink) ≡ true
      → lookup (result_path sink) (write_result o sink snap cpu files).1
        ≡ some (written o meta snap cpu)
  unfolding write_result write_file new_sink
  lookup-write_result files can_open =
      rw (can_open, lookup-insert)
        (ap
          (λ (b : Bool).
            if b then some (written o meta snap cpu) else lookup (result_path sink) files)
          (text_eq_refl (result_path sink)))

  -- A run whose result could be written is reported by its results directory and run id, whatever
  -- files were there before: the summary has every counter, error count, data server and site of the
  -- final snapshot, and the exit code is 1 where all sessions failed, else 0. It is assumed that the
  -- parser reads the printed document back and that the snapshot's counts fit a double.
  pub run_report_command-write_result :
      (json : Bool) (files : Files)
      → results_dir ≢ []
      → run_id ≢ []
      → is_directory results_dir ≡ true
      → o.can_open (result_path sink) ≡ true
      → parse (written o meta snap cpu) ≡ parsed (result_json o.decimal_of meta snap cpu)
      → IsStorable snap
      → let files' = (write_result o sink snap cpu files).1 in
        let summary = summary_of o.decimal_of (result_path sink) snap in
        run_report_command beyond o.decimal_of
          (file_system is_directory parse files')
          (record { path = []; results_dir = results_dir; run_id = run_id; json = json })
        ≡ (
          if ltb 0 snap.sessions_fail && (snap.sessions_ok == 0) then 1 else 0,
          if json then json_text (summary_to_json o.decimal_of summary) else human_text summary,
        )
  unfolding run_report_command join new_sink
  run_report_command-write_result json files dir_given id_given is_dir can_open reads h =
      let fs = file_system is_directory parse (write_result o sink snap cpu files).1 in
      let opts : ReportOptions = record {
        path = [];
        results_dir = results_dir;
        run_id = run_id;
        json = json;
      } in
      let stored = lookup-write_result files can_open in
      let found =
        discover_result_files-found fs opts refl dir_given id_given is_dir (ap is_some stored) in
      let back =
        aggregate_result_files-back beyond o.decimal_of meta snap cpu fs (result_path sink)
          (ap (load_file parse) stored ∙ reads) h in
      ap (λ (r : Text ⊎ ReportSummary). report beyond o.decimal_of fs opts r)
        (ap (λ (r : Text ⊎ List Text). and_then r (aggregate_result_files beyond fs)) found ∙ back)
