-- ===== src/FileSink/Reported.antt =====
-- src/run_command.cc, src/file_sink.cc, src/report_command.cc: from the calls of the registry over the
-- file that the sink writes to the report.
use xrdhover.Prelude.Text.{Text}
use xrdhover.Units.{Number}
use xrdhover.Engine.{exit_code}
use xrdhover.Metrics.Data.{new_registry}
use xrdhover.Metrics.Snapshot.{Fraction, snapshot}
use xrdhover.Metrics.Sums.{Update, updates}
use xrdhover.FileSink.Documents.{RunInfoMeta, result_json}
use xrdhover.FileSink.Writer.{Outside, Files, new_sink, result_path, write_result}
use xrdhover.FileSink.Result.{summary_of}
use xrdhover.FileSink.Storable.{updates-IsStorable}
use xrdhover.FileSink.Written.{file_system, written, run_report_command-write_result}
use xrdhover.Report.Discover.{Loaded, parsed}
use xrdhover.Report.Command.{json_text, human_text, summary_to_json, run_report_command}
use xrdhover.Prelude.{ℕ, ◌^◌, ◌<◌, ◌≡◌, ◌≢◌, Bool, true, List, [], if◌then◌else◌, length}

-- Whatever fewer than 2 ^ 53 calls the registry of a run gets, and whatever files were there before: where
-- the file sink can write the result of the run's last snapshot, and the parser reads the printed
-- document back, the report of the results directory and run id gives the summary with every counter,
-- error count, soft fault, data server and site of that snapshot, and exits with the code of the run.
pub run_report_command-updates :
    (o : Outside) (beyond : Number → ℕ) (is_directory : Text → Bool) (parse : Text → Loaded)
    (results_dir run_id local_hostname : Text) (meta : RunInfoMeta) (wall cpu : Fraction)
    (us : List Update) (json : Bool) (files : Files)
    → length us < 2 ^ 53
    → results_dir ≢ []
    → run_id ≢ []
    → is_directory results_dir ≡ true
    → o.can_open (result_path (new_sink results_dir run_id meta)) ≡ true
    → let snap = snapshot local_hostname wall (updates us new_registry) in
      parse (written o meta snap cpu) ≡ parsed (result_json o.decimal_of meta snap cpu)
      → let sink = new_sink results_dir run_id meta in
        let summary = summary_of o.decimal_of (result_path sink) snap in
        run_report_command beyond o.decimal_of
          (file_system is_directory parse (write_result o sink snap cpu files).1)
          (record { path = []; results_dir = results_dir; run_id = run_id; json = json })
        ≡ (
          exit_code (updates us new_registry),
          if json then json_text (summary_to_json o.decimal_of summary) else human_text summary,
        )
unfolding snapshot
run_report_command-updates o beyond is_directory parse results_dir run_id local_hostname meta wall
      cpu us json files few dir_given id_given is_dir can_open reads =
    run_report_command-write_result o beyond is_directory parse results_dir run_id meta
      (snapshot local_hostname wall (updates us new_registry)) cpu json files dir_given id_given
      is_dir can_open reads (updates-IsStorable local_hostname wall us few)
