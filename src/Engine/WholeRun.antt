-- ===== src/Engine/WholeRun.antt =====
-- src/run_command.cc, src/pushgateway_sink.cc: what a whole run sends to the Pushgateway at its end.
use xrdhover.Engine.Closing.{Closes, end_push-Closes}
use xrdhover.Engine.Sites.{fill_cms_sites}
use xrdhover.Engine.Publish.{end_pushes, Outside, Round, Sinks, sample}
use xrdhover.Engine.Labels.{
  drain_loop-HasLabels, start-HasLabels, fill_loop-HasLabels, run-HasLabels, HasLabels,
}
use xrdhover.Engine.{set_inflight, MetricsRegistry, stop_pacing}
use xrdhover.RunConfig.{RunConfig}
use xrdhover.Prelude.Text.{Text}
use xrdhover.Metrics.Snapshot.{snapshot}
use xrdhover.Pushgateway.{Handle, PushgatewaySink, new_sink, push_key, push_replica_value}
use xrdhover.Pushgateway.Group.{fresh_url}
use xrdhover.Pushgateway.Calls.{Call, call_all}
use xrdhover.Engine.Ending.{start, end_of_run, job_id_of, Course, drained, run_engine}
use xrdhover.Prelude.{ℕ, ◌≡◌, refl, sym, subst, Bool, false, Option, none, some, List, [], arith}

-- The final registry of a run has its labels.
module _ (o : Outside) (cfg : RunConfig) (c : Course) where
  drained-HasLabels : HasLabels cfg.run_id (job_id_of c.hostname cfg) (drained o cfg c).registry
  unfolding stop_pacing
  drained-HasLabels =
      let job_id = job_id_of c.hostname cfg in
      let started = start c.hostname o.local_hostname cfg c.now in
      let looped =
        run-HasLabels cfg.run_id job_id cfg c.events started
          (start-HasLabels c.hostname o.local_hostname cfg c.now) in
      drain_loop-HasLabels cfg.run_id job_id cfg _ c.polls _
        (record { run = looped.run; job = looped.job })

  sample-HasLabels :
      (run_id job_id : Text) (s : Sinks) (round : Round) (live : ℕ) (r : MetricsRegistry)
      → HasLabels run_id job_id r
      → HasLabels run_id job_id (set_inflight live (sample s round r))
  unfolding sample
  sample-HasLabels run_id job_id s round live r h = record {
    run = ground (arith, h.run);
    job = ground (arith, h.job);
  }

  final-labels :
      let final = (run_engine o cfg c).final in
      (final.run_id ≡ cfg.run_id) × (final.job_id ≡ job_id_of c.hostname cfg)
  unfolding run_engine end_of_run snapshot fill_cms_sites
  final-labels =
      let job_id = job_id_of c.hostname cfg in
      let sampled =
        sample-HasLabels cfg.run_id job_id c.published.sinks c.last (drained o cfg c).live _
          drained-HasLabels in
      let filled =
        fill_loop-HasLabels cfg.run_id job_id cfg c.query c.site_map _ (c.cache, _) sampled in
      (filled.run, filled.job)

  final-push :
      let ended = run_engine o cfg c in
      ended.published.sinks.push
      ≡ end_pushes o.push cfg.pushgateway_keep cfg.run_id
          (job_id_of c.hostname cfg)
          c.last
          c.idle
          c.answer
          ended.final
          c.published.sinks.push
  unfolding run_engine end_of_run
  final-push = refl

-- The requests that a sink has sent.
abbrev pub sent_by : Option PushgatewaySink → List Handle
sent_by none = []
sent_by (some s) = s.sent

-- A whole run with a Pushgateway sink that is not finished, after whatever calls of the timer's rounds,
-- ends with a PUT of the final snapshot, a PUT of the idle one (no rate, nothing in flight, no data
-- server and no site) and, unless the group is kept, a DELETE, all of the same URL: that of the run
-- and job that the run was labelled with.
pub run_engine-Closes :
    (o : Outside) (cfg : RunConfig) (c : Course) (curl_ready : Bool) (base_url push_job : Text)
    (cs : List Call) {s : PushgatewaySink}
    → new_sink o.push.escape curl_ready base_url push_job ≡ some s
    → (call_all o.push cs s).finished ≡ false
    → c.published.sinks.push ≡ some (call_all o.push cs s)
    → let ended = run_engine o cfg c in
      let s' = call_all o.push cs s in
      (ended.final.run_id ≡ cfg.run_id)
      × (ended.final.job_id ≡ job_id_of c.hostname cfg)
      × Closes o.push cfg.pushgateway_keep c.last.now c.idle.now
          (fresh_url o.push s' (push_key ended.final) (push_replica_value ended.final.job_id))
          ended.final
          s'.sent
          (sent_by ended.published.sinks.push)
run_engine-Closes o cfg c curl_ready base_url push_job cs {s} e f at =
    let snap = (run_engine o cfg c).final in
    let labels = final-labels o cfg c in
    let s' = call_all o.push cs s in
    let keep = cfg.pushgateway_keep in
    let ends : Option PushgatewaySink → Type 0 = λ (q : Option PushgatewaySink).
      Closes o.push keep c.last.now c.idle.now
        (fresh_url o.push s' (push_key snap) (push_replica_value snap.job_id)) snap s'.sent
        (sent_by q) in
    let pushes : Text → Text → Option PushgatewaySink → Option PushgatewaySink =
      λ (r j : Text) (q : Option PushgatewaySink).
        end_pushes o.push keep r j c.last c.idle c.answer snap q in
    let own =
      end_push-Closes o.push c.last c.idle snap curl_ready base_url push_job cs keep c.answer
        {s = s} e f in
    let run = subst (λ (r : Text). ends (pushes r snap.job_id (some s'))) labels.0 own in
    let job = subst (λ (j : Text). ends (pushes cfg.run_id j (some s'))) labels.1 run in
    let sink =
      subst (λ (q : Option PushgatewaySink). ends (pushes cfg.run_id (job_id_of c.hostname cfg) q))
        (sym at) job in
    (labels.0, labels.1, subst ends (sym (final-push o cfg c)) sink)
