-- ===== src/Engine.antt =====
-- src/run_command.cc: the admission loop of a run and the callbacks that feed it. A pass of the loop
-- gets the two clock readings it may make, the draws of the scheduler, and the sessions as they are
-- at that moment; sessions are named by numbers. What a pass does to a session is its action. The
-- waits on the condition variable and the log lines are left out.
pub mod Rate
pub mod Slots
pub mod Sites
pub mod Publish
pub mod Ending
pub mod Labels
pub mod Missing
pub mod Named
pub mod Closing
pub mod WholeRun
use xrdhover.Metrics.Record.{observe_read_op}
use xrdhover.TokenBucket.{
  TokenBucket, nano, try_acquire, nanoseconds_until, refund, new as new_bucket,
}
use xrdhover.Inflight.{InFlightSemaphore, release, try_acquire as try_slot, new as new_slots}
use xrdhover.RunConfig.{RunConfig, compute_bucket_capacity, resolve_run_config}
use xrdhover.Scheduler.{Draws, WorkItem, next_item}
use xrdhover.Session.State.{FileSession, FileSessionResult}
use xrdhover.Session.Plan.{next_op_bytes}
use xrdhover.ErrorClassifier.{classify_xrootd_error}
use xrdhover.Metrics.Data.{MetricsRegistry, new_registry}
use xrdhover.Metrics.Record.{observe_session_ok, observe_session_fail, set_inflight}
use xrdhover.Prelude.{
  ℕ, ◌+◌, ◌-◌, ◌*◌, ◌%◌, ◌^◌, ◌⊎◌, inl, inr, Bool, true, false, ◌&&◌, not, none, some, List, [],
  ◌∷◌, ◌++◌, map, ltb, leb, ◌==◌, if◌then◌else◌, is_empty,
}

-- `returning` counts the calls of session_done that have left `live` and still hold their slot.
pub record Engine : Type 0 where
  pub bucket : TokenBucket
  pub inflight : InFlightSemaphore
  pub live : ℕ
  pub returning : ℕ
  pub ready : List ℕ
  pub seq : ℕ
  pub stop_pace : Bool
  pub registry : MetricsRegistry

pub data Action : Type 0 where
  nothing : Action
  close_session : ℕ → Action
  issue : ℕ → ℕ → Action
  start_session : WorkItem → Action
  wait : ℕ → Action

-- What a run starts with.
unfoldable pub new : RunConfig → ℕ → Engine
new cfg now = record {
  bucket = new_bucket cfg.target_rate_bytes_per_s (compute_bucket_capacity cfg) now;
  inflight = new_slots cfg.max_inflight;
  live = 0;
  returning = 0;
  ready = [];
  seq = 0;
  stop_pace = false;
  registry = new_registry;
}

-- The bucket and the time to wait after a TryAcquire that failed.
unfoldable pub back_off : ℕ → ℕ → Engine → Engine × Action
back_off now n e =
    let (b, t) = nanoseconds_until now n e.bucket in (record e { bucket = b }, wait t)

-- A session that asks for its next read.
unfoldable pub serve_ready : ℕ → ℕ → ℕ → FileSession → List ℕ → Engine → Engine × Action
serve_ready now now' id s rest e =
    let n = next_op_bytes s in
    let (b, taken) = try_acquire now n e.bucket in
    let later = back_off now' n (record e { bucket = b }) in
    if s.completed
    then (record e { ready = rest }, nothing)
    else if n == 0
    then (record e { ready = rest }, close_session id)
    else if taken
    then (record e { ready = rest; bucket = b }, issue id n)
    else later

-- A new session, in a free slot.
unfoldable pub admit : RunConfig → Draws → ℕ → ℕ → Engine → Engine × Action
admit cfg draws now now' e =
    let (work, seq) = next_item cfg draws e.seq in
    let n = work.op_bytes in
    let (b, taken) = try_acquire now n e.bucket in
    let (slots, free) = try_slot e.inflight in
    let later = back_off now' n (record e { bucket = b; inflight = release slots; seq = seq }) in
    if not free
    then (e, nothing)
    else if taken
    then (
      record e {
        bucket = b;
        inflight = slots;
        seq = seq;
        live = e.live + 1;
        registry = set_inflight (e.live + 1) e.registry;
      },
      start_session work,
    )
    else later

unfoldable pub pass_loop : RunConfig → Draws → ℕ → ℕ → (ℕ → FileSession) → Engine → Engine × Action
pass_loop cfg draws now now' sessions e = elim e.ready [
  | id ∷ rest ↦ serve_ready now now' id (sessions id) rest e
  | [] ↦ if leb cfg.max_inflight e.live then (e, nothing) else admit cfg draws now now' e
]

unfoldable pub on_ready : ℕ → Engine → Engine × Action
on_ready id e =
    if e.stop_pace
    then (e, close_session id)
    else (record e { ready = e.ready ++ id ∷ [] }, nothing)

unfoldable pub on_refund : ℕ → ℕ → Engine → Engine
on_refund now n e = record e { bucket = refund now n e.bucket }

unfoldable pub on_read_op : ℕ → Engine → Engine
on_read_op op_s e = record e { registry = observe_read_op (some op_s) e.registry }

-- What session_done tells the registry.
unfoldable pub observe_result : FileSessionResult → MetricsRegistry → MetricsRegistry
observe_result result r =
    if result.ok
    then observe_session_ok
        (record {
          bytes = result.bytes_read;
          ops = result.ops;
          open_s = some result.open_ns;
          ttfb_s = some result.ttfb_ns;
          read_s = some result.read_ns;
          redirects = some (result.open_hosts * nano);
        })
        result.data_server [] r
    else observe_session_fail
        (classify_xrootd_error result.status_code result.err_code result.error) result.data_server
        [] r

-- What session_done does after that, in three steps: `live`, an atomic of 64 bits, goes down, the gauge
-- is set to a value of `live` that was loaded before, and the slot is released. Calls for other
-- sessions run at the same time, so that anything may happen between two steps.
unfoldable pub leave_live : Engine → Engine
leave_live e = record e { live = (e.live + (2 ^ 64 - 1)) % 2 ^ 64; returning = e.returning + 1 }

unfoldable pub show_inflight : ℕ → Engine → Engine
show_inflight loaded e = record e { registry = set_inflight loaded e.registry }

unfoldable pub free_slot : Engine → Engine
free_slot e = record e { returning = e.returning - 1; inflight = release e.inflight }

-- The end of the loop: every session that waits is closed.
unfoldable pub stop_pacing : Engine → Engine × List Action
stop_pacing e = (record e { stop_pace = true; ready = [] }, map close_session e.ready)

-- One event of a run: a pass of the loop, a callback of a session, or a step of session_done.
pub data Event : Type 0 where
  passes : Draws → ℕ → ℕ → (ℕ → FileSession) → Event
  asks_read : ℕ → Event
  refunds : ℕ → ℕ → Event
  reads : ℕ → Event
  ends : FileSessionResult → Event
  leaves frees : Event
  shows : ℕ → Event

unfoldable pub step : RunConfig → Event → Engine → Engine × Action
step cfg (passes draws now now' sessions) e = pass_loop cfg draws now now' sessions e
step cfg (asks_read id) e = on_ready id e
step cfg (refunds now n) e = (on_refund now n e, nothing)
step cfg (reads op_s) e = (on_read_op op_s e, nothing)
step cfg (ends result) e = (record e { registry = observe_result result e.registry }, nothing)
step cfg leaves e = (leave_live e, nothing)
step cfg (shows loaded) e = (show_inflight loaded e, nothing)
step cfg frees e = (free_slot e, nothing)

-- The steps of one call of session_done, with the value of `live` that it loads.
abbrev pub session_done : FileSessionResult → ℕ → List Event
session_done result loaded = ends result ∷ leaves ∷ shows loaded ∷ frees ∷ []

unfoldable pub run : RunConfig → List Event → Engine → Engine
run cfg [] e = e
run cfg (ev ∷ evs) e = run cfg evs (step cfg ev e).0

-- The exit code of RunEngine, from the final totals.
abbrev pub exit_code : MetricsRegistry → ℕ
exit_code r = if ltb 0 r.sessions_fail && (r.sessions_ok == 0) then 1 else 0

-- RunRunCommand up to the engine: an exit code, or the configuration to run.
unfoldable pub run_run_command : RunConfig → ℕ ⊎ RunConfig
run_run_command cfg_in = elim (resolve_run_config cfg_in) [
  | none ↦ inl 2
  | some cfg ↦
      if is_empty cfg.endpoint
      then inl 2
      else if is_empty cfg.files
      then inl 2
      else if cfg.dry_run
      then inl 0
      else inr cfg
]
