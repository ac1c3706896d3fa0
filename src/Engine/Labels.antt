-- ===== src/Engine/Labels.antt =====
-- src/run_command.cc, src/metrics.cc: the labels of a run stay what they were at its start.
use xrdhover.Prelude.Text.{Text}
use xrdhover.Prelude.Dict.{Dict}
use xrdhover.SiteMap.{SiteMap}
use xrdhover.RunConfig.{RunConfig}
use xrdhover.Scheduler.{Draws}
use xrdhover.Session.State.{FileSessionResult}
use xrdhover.Metrics.Data.{MetricsRegistry}
use xrdhover.Metrics.Record.{
  observe_session_ok, observe_session_fail, attribute_locked, observe_read_op, set_cms_site,
  set_labels,
}
use xrdhover.Engine.{
  Engine, Event, passes, asks_read, refunds, reads, ends, run, step, pass_loop, admit, back_off,
  on_ready, on_refund, on_read_op, leaves, shows, frees, leave_live, show_inflight, free_slot,
  observe_result,
}
use xrdhover.Engine.Rate.{List-cases}
use xrdhover.Engine.Slots.{served_registry}
use xrdhover.Engine.Sites.{fill_loop, fill_one, site_name}
use xrdhover.Engine.Ending.{start, job_id_of, Poll, drain_loop}
use xrdhover.Prelude.{
  ℕ, ◌≡◌, refl, sym, subst, inl, inr, ◌&&◌, Option, List, [], ◌∷◌, arith, ltb, leb, Bool-cases,
  is_empty,
}

-- The two labels that name the group of a run.
pub record HasLabels (run_id job_id : Text) (r : MetricsRegistry) : Type 0 where
  pub run : r.run_id ≡ run_id
  pub job : r.job_id ≡ job_id

module _ (run_id job_id : Text) where
  admit-HasLabels :
      (cfg : RunConfig) (draws : Draws) (now now' : ℕ) (e : Engine)
      → HasLabels run_id job_id e.registry
      → HasLabels run_id job_id (admit cfg draws now now' e).0.registry
  unfolding admit back_off
  admit-HasLabels cfg draws now now' e h = record {
    run = ground (arith, h.run);
    job = ground (arith, h.job);
  }

  observe_result-HasLabels :
      (result : FileSessionResult) (r : MetricsRegistry)
      → HasLabels run_id job_id r
      → HasLabels run_id job_id (observe_result result r)
  unfolding observe_result observe_session_ok observe_session_fail attribute_locked
  observe_result-HasLabels result r h = record {
    run = ground (arith, h.run);
    job = ground (arith, h.job);
  }

  step-HasLabels :
      (cfg : RunConfig) (ev : Event) (e : Engine)
      → HasLabels run_id job_id e.registry
      → HasLabels run_id job_id (step cfg ev e).0.registry
  unfolding step pass_loop on_ready on_refund on_read_op observe_read_op leave_live show_inflight
      free_slot
  step-HasLabels cfg (passes draws now now' sessions) e h = elim (List-cases e.ready) [
    | inl q ↦ elim (Bool-cases (leb cfg.max_inflight e.live)) [
      | inl full ↦ rw (q, full) h
      | inr free ↦ rw (q, free) (admit-HasLabels cfg draws now now' (record e { ready = [] }) h)
    ]
    | inr (id, rest, q) ↦ rw q (
        subst (λ (r : MetricsRegistry). HasLabels run_id job_id r)
          (sym (served_registry now now' id (sessions id) rest (record e { ready = id ∷ rest }))) h)
  ]
  step-HasLabels cfg (asks_read id) e h = elim (Bool-cases e.stop_pace) [
    | inl q ↦ rw q h
    | inr q ↦ rw q h
  ]
  step-HasLabels cfg (refunds now n) e h = h
  step-HasLabels cfg (reads op_s) e h = record { run = h.run; job = h.job }
  step-HasLabels cfg leaves e h = h
  step-HasLabels cfg (shows loaded) e h = record { run = h.run; job = h.job }
  step-HasLabels cfg frees e h = h
  step-HasLabels cfg (ends result) e h =
      let o = observe_result-HasLabels result e.registry h in record { run = o.run; job = o.job }

  pub run-HasLabels :
      (cfg : RunConfig) (evs : List Event) (e : Engine)
      → HasLabels run_id job_id e.registry
      → HasLabels run_id job_id (run cfg evs e).registry
  unfolding run
  run-HasLabels cfg [] e h = h
  run-HasLabels cfg (ev ∷ evs) e h =
      run-HasLabels cfg evs (step cfg ev e).0 (step-HasLabels cfg ev e h)

  pub drain_loop-HasLabels :
      (cfg : RunConfig) (deadline : ℕ) (ps : List Poll) (e : Engine)
      → HasLabels run_id job_id e.registry
      → HasLabels run_id job_id (drain_loop cfg deadline ps e).registry
  unfolding drain_loop
  drain_loop-HasLabels cfg deadline [] e h = h
  drain_loop-HasLabels cfg deadline (p ∷ ps) e h =
      let rest =
        drain_loop-HasLabels cfg deadline ps (run cfg p.during e)
          (run-HasLabels cfg p.during e h) in
      elim (Bool-cases (ltb 0 e.live && ltb p.now deadline)) [
        | inl q ↦ rw (q, drain_loop) rest
        | inr q ↦ rw (q, drain_loop) h
      ]

  set_cms_site-HasLabels :
      (ds site : Text) (r : MetricsRegistry)
      → HasLabels run_id job_id r
      → HasLabels run_id job_id (set_cms_site ds site r)
  unfolding set_cms_site
  set_cms_site-HasLabels ds site r h = record {
    run = ground (arith, h.run);
    job = ground (arith, h.job);
  }

  fill_one-HasLabels :
      (cfg : RunConfig) (query : Text → Text) (site_map : Option SiteMap) (ds : Text)
      (s : Dict Text × MetricsRegistry)
      → HasLabels run_id job_id s.1
      → HasLabels run_id job_id (fill_one cfg query site_map ds s).1
  unfolding fill_one
  fill_one-HasLabels cfg query site_map ds (cache, r) h =
      let site = (site_name cfg query site_map ds cache).1 in
      elim (Bool-cases (is_empty site)) [
        | inl q ↦ rw q h
        | inr q ↦ rw q (set_cms_site-HasLabels ds site r h)
      ]

  pub fill_loop-HasLabels :
      (cfg : RunConfig) (query : Text → Text) (site_map : Option SiteMap) (missing : List Text)
      (s : Dict Text × MetricsRegistry)
      → HasLabels run_id job_id s.1
      → HasLabels run_id job_id (fill_loop cfg query site_map missing s).1
  unfolding fill_loop
  fill_loop-HasLabels cfg query site_map [] s h = h
  fill_loop-HasLabels cfg query site_map (ds ∷ missing) s h =
      fill_loop-HasLabels cfg query site_map missing (fill_one cfg query site_map ds s)
        (fill_one-HasLabels cfg query site_map ds s h)

pub start-HasLabels :
    (hostname : Option Text) (local_hostname : Text) (cfg : RunConfig) (now : ℕ)
    → HasLabels cfg.run_id (job_id_of hostname cfg) (start hostname local_hostname cfg now).registry
unfolding start set_labels
start-HasLabels hostname local_hostname cfg now = record { run = refl; job = refl }
