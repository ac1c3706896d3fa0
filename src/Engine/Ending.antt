-- ===== src/Engine/Ending.antt =====
-- src/run_command.cc: RunEngine around its loop: the labels of a run, the wait for the last sessions,
-- and its end. The clock readings are arguments; log lines and the printed summary are left out.
use xrdhover.Engine.Sites.{fill_cms_sites}
use xrdhover.Engine.Publish.{Outside, Published, Round, sample, end_pushes, end_files, end_chirp}
use xrdhover.Prelude.Text.{Text, codes}
use xrdhover.Prelude.Dict.{Dict}
use xrdhover.SiteMap.{SiteMap}
use xrdhover.RunConfig.{RunConfig}
use xrdhover.Metrics.Data.{new_registry}
use xrdhover.Metrics.Record.{set_inflight, set_labels, set_config_gauges}
use xrdhover.Metrics.Snapshot.{Fraction, MetricsSnapshot, snapshot}
use xrdhover.Engine.{stop_pacing, Engine, Event, new, run, exit_code}
use xrdhover.Prelude.{
  ℕ, ◌+◌, ◌*◌, min, true, false, ◌&&◌, Option, none, some, List, [], ◌∷◌, ◌++◌, ltb, if◌then◌else◌,
  is_empty,
}

-- What gethostname gives, none where it fails.
unfoldable pub default_job_id : Option Text → Text
default_job_id none = codes "local"
default_job_id (some host) = if is_empty host then codes "local" else host

unfoldable pub job_id_of : Option Text → RunConfig → Text
job_id_of hostname cfg = if is_empty cfg.job_id then default_job_id hostname else cfg.job_id

-- The engine with its labels and gauges. `local_hostname` is the registry's own.
unfoldable pub start : Option Text → Text → RunConfig → ℕ → Engine
start hostname local_hostname cfg now = record (new cfg now) {
  registry = set_config_gauges cfg.target_rate_bytes_per_s cfg.max_inflight (
      set_labels local_hostname cfg.run_id (job_id_of hostname cfg) cfg.target cfg.endpoint
        new_registry);
}

abbrev pub seconds : ℕ → ℕ
seconds n = n * 1000000000

abbrev pub drain_wait_cap : ℕ
drain_wait_cap = seconds 120

abbrev pub drain_timeout_grace : ℕ
drain_timeout_grace = seconds 15

unfoldable pub drain_cap : RunConfig → ℕ
drain_cap cfg =
    if ltb 0 cfg.session_timeout
    then min drain_wait_cap (cfg.session_timeout + drain_timeout_grace)
    else drain_wait_cap

-- A pass of the wait: the clock reading of its test, and what happens while it sleeps.
pub record Poll : Type 0 where
  pub now : ℕ
  pub during : List Event

unfoldable pub drain_loop : RunConfig → ℕ → List Poll → Engine → Engine
drain_loop cfg deadline [] e = e
drain_loop cfg deadline (p ∷ ps) e = elim (ltb 0 e.live && ltb p.now deadline) [
  | true ↦ drain_loop cfg deadline ps (run cfg p.during e)
  | false ↦ e
]

-- From the end of the wait on, with the last snapshot and the exit code.
pub record Ended : Type 0 where
  pub published : Published
  pub final : MetricsSnapshot
  pub code : ℕ

unfoldable pub end_of_run :
    Outside
    → RunConfig
    → Text
    → (Text → Text)
    → Option SiteMap
    → Dict Text
    → Round
    → Round
    → Option ℕ
    → Fraction
    → Engine
    → Published
    → Ended
end_of_run o cfg job_id query site_map cache last idle answer wall e p =
    let sampled = set_inflight e.live (sample p.sinks last e.registry) in
    let r = (fill_cms_sites cfg query site_map (cache, sampled)).1 in
    let snap = snapshot o.local_hostname wall r in
    record {
      published = record {
        sinks = record p.sinks {
          push =
              end_pushes o.push cfg.pushgateway_keep cfg.run_id job_id last idle answer snap
                p.sinks.push;
        };
        files = end_files o.file o.cpu_seconds_at_start snap p.sinks.file p.files;
        commands = p.commands ++ end_chirp o.chirp last snap p.sinks.chirp;
      };
      final = snap;
      code = exit_code r;
    }

-- What a run meets, from its first clock reading on: the events of its loop, the wait for the last
-- sessions, what the queries and the site map tell, and the last round of publishing. `published` is
-- what the rounds of the timer left.
pub record Course : Type 0 where
  pub hostname : Option Text
  pub now : ℕ
  pub events : List Event
  pub drain_start : ℕ
  pub polls : List Poll
  pub query : Text → Text
  pub site_map : Option SiteMap
  pub cache : Dict Text
  pub last : Round
  pub idle : Round
  pub answer : Option ℕ
  pub wall : Fraction
  pub published : Published

abbrev pub drained : Outside → RunConfig → Course → Engine
drained o cfg c =
    drain_loop cfg (c.drain_start + drain_cap cfg) c.polls
      (stop_pacing (run cfg c.events (start c.hostname o.local_hostname cfg c.now))).0

unfoldable pub run_engine : Outside → RunConfig → Course → Ended
run_engine o cfg c =
    end_of_run o cfg (job_id_of c.hostname cfg) c.query c.site_map c.cache c.last c.idle c.answer
      c.wall (drained o cfg c) c.published
