-- ===== src/Engine/Publish.antt =====
-- src/run_command.cc: what a run publishes, in each round of its timer and at its end. The answers of
-- the servers and the process figures are arguments; log lines are left out.
use xrdhover.Prelude.Text.{Text}
use xrdhover.Metrics.Data.{MetricsRegistry}
use xrdhover.Metrics.Record.{set_inflight, sample_proc}
use xrdhover.Metrics.Snapshot.{Fraction, integral, MetricsSnapshot, snapshot}
use xrdhover.FileSink.Writer.{Files, FileSink, write_snapshot, write_result}
use xrdhover.FileSink.Writer as Writer
use xrdhover.Pushgateway.{PushgatewaySink, push, finish}
use xrdhover.Pushgateway as Pushgateway
use xrdhover.Chirp.{ChirpSink, Command, Surroundings, push as push_chirp, finish as finish_chirp}
use xrdhover.Engine.{Engine}
use xrdhover.Prelude.{ℕ, Bool, true, false, Option, none, some, List, [], ◌++◌, if◌then◌else◌}

pub record Sinks : Type 0 where
  pub file : Option FileSink
  pub push : Option PushgatewaySink
  pub chirp : Option ChirpSink

abbrev pub has_sink : Sinks → Bool
has_sink s = elim s.file [
  | some f ↦ true
  | none ↦ elim s.push [ some p ↦ true | none ↦ elim s.chirp [ some c ↦ true | none ↦ false ] ]
]

-- What the sinks take from outside, and the CPU time at the start.
pub record Outside : Type 0 where
  pub file : Writer.Outside
  pub push : Pushgateway.Outside
  pub chirp : Surroundings
  pub local_hostname : Text
  pub cpu_seconds_at_start : Fraction

-- The sinks, the files, and the commands that the chirp sink ran.
pub record Published : Type 0 where
  pub sinks : Sinks
  pub files : Files
  pub commands : List Command

-- What one round of publishing meets: the process figures, the time of the text, the answer of the
-- server, and whether the temporary file could be stored.
pub record Round : Type 0 where
  pub cpu_us : ℕ
  pub rss_bytes : ℕ
  pub now : ℕ
  pub answer : Option ℕ
  pub stored : Bool

unfoldable pub sample : Sinks → Round → MetricsRegistry → MetricsRegistry
sample s round r = if has_sink s then sample_proc round.cpu_us round.rss_bytes r else r

abbrev pub push_one :
    Pushgateway.Outside
    → ℕ
    → MetricsSnapshot
    → Option ℕ
    → Option PushgatewaySink
    → Option PushgatewaySink
push_one o now snap answer none = none
push_one o now snap answer (some p) = some (push o now snap answer p).1

abbrev pub write_one : Writer.Outside → MetricsSnapshot → Option FileSink → Files → Files
write_one o snap none files = files
write_one o snap (some f) files = write_snapshot o f snap files

abbrev pub chirp_one : Surroundings → Round → MetricsSnapshot → Option ChirpSink → List Command
chirp_one o round snap none = []
chirp_one o round snap (some c) = push_chirp o round.stored round.now snap c

-- One round of the timer.
unfoldable pub take_snapshot : Outside → Round → Fraction → Engine → Published → Engine × Published
take_snapshot o round wall e p =
    let r = sample p.sinks round (set_inflight e.live e.registry) in
    let snap = snapshot o.local_hostname wall r in
    (
      record e { registry = r },
      record p {
        sinks = record p.sinks { push = push_one o.push round.now snap round.answer p.sinks.push };
        files = write_one o.file snap p.sinks.file p.files;
        commands = p.commands ++ chirp_one o.chirp round snap p.sinks.chirp;
      },
    )

abbrev pub idle_snapshot : MetricsSnapshot → MetricsSnapshot
idle_snapshot snap = record snap {
  achieved_rate_bytes = integral 0;
  inflight_reads = 0;
  by_data_server = [];
  by_cms_site = [];
}

-- The final push, the idle one, and Finish unless the group is kept.
unfoldable pub end_push :
    Pushgateway.Outside
    → Bool
    → Text
    → Text
    → Round
    → Round
    → Option ℕ
    → MetricsSnapshot
    → PushgatewaySink
    → PushgatewaySink
end_push o keep run_id job_id last idle answer snap p =
    let p' = (push o last.now snap last.answer p).1 in
    let p'' = (push o idle.now (idle_snapshot snap) idle.answer p').1 in
    if keep then p'' else finish o run_id job_id answer p''

abbrev pub end_pushes :
    Pushgateway.Outside
    → Bool
    → Text
    → Text
    → Round
    → Round
    → Option ℕ
    → MetricsSnapshot
    → Option PushgatewaySink
    → Option PushgatewaySink
end_pushes o keep run_id job_id last idle answer snap none = none
end_pushes o keep run_id job_id last idle answer snap (some p) =
    some (end_push o keep run_id job_id last idle answer snap p)

-- The file sink's part; an exception is logged.
unfoldable pub end_files :
    Writer.Outside → Fraction → MetricsSnapshot → Option FileSink → Files → Files
end_files o cpu_seconds_at_start snap none files = files
end_files o cpu_seconds_at_start snap (some f) files =
    (write_result o f snap cpu_seconds_at_start (write_snapshot o f snap files)).1

abbrev pub end_chirp : Surroundings → Round → MetricsSnapshot → Option ChirpSink → List Command
end_chirp o round snap none = []
end_chirp o round snap (some c) = finish_chirp o round.stored round.now snap c
