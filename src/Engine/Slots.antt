-- ===== src/Engine/Slots.antt =====
-- src/run_command.cc, src/inflight.cc, src/metrics.cc: the engine's counts. Its sessions hold the slots
-- of the semaphore, and the registry adds up.
use xrdhover.Engine.{on_read_op, reads}
use xrdhover.Metrics.Record.{observe_read_op}
use xrdhover.Metrics.Record.{observe_session_ok, observe_session_fail, attribute_locked}
use xrdhover.Metrics.Record.{attribute_locked}
use xrdhover.Inflight.{new as new_slots}
use xrdhover.Engine.Rate.{List-cases}
use xrdhover.Metrics.Sums.{
  new_registry-AddsUp, session_fail, session_ok, update-AddsUp, update, AddsUp,
}
use xrdhover.Inflight.{try_acquire as try_slot, release}
use xrdhover.RunConfig.{RunConfig}
use xrdhover.Scheduler.{Draws}
use xrdhover.Session.State.{FileSession, FileSessionResult}
use xrdhover.Engine.{
  next_item, try_acquire, refunds, asks_read, inr, inl, passes, MetricsRegistry, on_refund,
  on_ready, run, observe_result, pass_loop, new, Engine, back_off, serve_ready, admit, leaves,
  shows, frees, leave_live, show_inflight, free_slot, Event, ends, step,
}
use xrdhover.Prelude.{
  ℕ, ◌+◌, ◌%◌, ◌^◌, ◌≤◌, ◌<◌, max, ◌≡◌, inl, inr, List, [], ◌∷◌, arith, leb, Bool-cases,
}

-- Each session that is live, or whose call of session_done has not released its slot yet, holds one
-- slot of the semaphore; at most max_inflight sessions are live, and no more slots are held than
-- there are.
abbrev pub HoldsSlots : RunConfig → Engine → Type 0
HoldsSlots cfg e =
    (e.inflight.current ≡ e.live + e.returning)
    × (e.inflight.max_slots ≡ max cfg.max_inflight 1)
    × (e.live ≤ cfg.max_inflight)
    × (e.inflight.current ≤ e.inflight.max_slots)

-- A session leaves `live` only while one is in it, and a slot is released after that.
abbrev EndLives : Event → Engine → Type 0
EndLives leaves e = 0 < e.live
EndLives frees e = 0 < e.returning
EndLives _ e = Unit

unfoldable pub EndsLive : RunConfig → List Event → Engine → Type 0
EndsLive cfg [] e = Unit
EndsLive cfg (ev ∷ evs) e = EndLives ev e × EndsLive cfg evs (step cfg ev e).0

admit-HoldsSlots :
    (cfg : RunConfig) (draws : Draws) (now now' : ℕ) (e : Engine)
    → HoldsSlots cfg e
    → e.live < cfg.max_inflight
    → HoldsSlots cfg (admit cfg draws now now' e).0
unfolding admit back_off try_slot release
admit-HoldsSlots cfg draws now now' e h l = ground arith

serve_ready-HoldsSlots :
    (cfg : RunConfig) (now now' id : ℕ) (s : FileSession) (rest : List ℕ) (e : Engine)
    → HoldsSlots cfg e
    → HoldsSlots cfg (serve_ready now now' id s rest e).0
unfolding serve_ready back_off
serve_ready-HoldsSlots cfg now now' id s rest e h = ground arith

leave_live-HoldsSlots :
    (cfg : RunConfig) (e : Engine)
    → cfg.max_inflight < 2 ^ 64
    → 0 < e.live
    → HoldsSlots cfg e
    → HoldsSlots cfg (leave_live e)
unfolding leave_live
leave_live-HoldsSlots cfg e w l h = ground arith

free_slot-HoldsSlots :
    (cfg : RunConfig) (e : Engine)
    → 0 < e.returning
    → HoldsSlots cfg e
    → HoldsSlots cfg (free_slot e)
unfolding free_slot release
free_slot-HoldsSlots cfg e l h = ground arith

step-HoldsSlots :
    (cfg : RunConfig) (ev : Event) (e : Engine)
    → cfg.max_inflight < 2 ^ 64
    → EndLives ev e
    → HoldsSlots cfg e
    → HoldsSlots cfg (step cfg ev e).0
unfolding step pass_loop on_ready on_refund on_read_op observe_read_op show_inflight
step-HoldsSlots cfg (passes draws now now' sessions) e w l h = elim (List-cases e.ready) [
  | inl q ↦ elim (Bool-cases (leb cfg.max_inflight e.live)) [
    | inl full ↦ ground arith
    | inr free ↦ ground (arith, admit-HoldsSlots cfg draws now now' e h (ground arith))
  ]
  | inr (id, rest, q) ↦
      ground (arith, serve_ready-HoldsSlots cfg now now' id (sessions id) rest e h)
]
step-HoldsSlots cfg (asks_read id) e w l h = ground arith
step-HoldsSlots cfg (refunds now n) e w l h = h
step-HoldsSlots cfg (reads op_s) e w l h = h
step-HoldsSlots cfg (ends result) e w l h = h
step-HoldsSlots cfg leaves e w l h = leave_live-HoldsSlots cfg e w l h
step-HoldsSlots cfg (shows loaded) e w l h = h
step-HoldsSlots cfg frees e w l h = free_slot-HoldsSlots cfg e l h

run-keeps :
    (cfg : RunConfig) (evs : List Event) (e : Engine)
    → cfg.max_inflight < 2 ^ 64
    → EndsLive cfg evs e
    → HoldsSlots cfg e
    → HoldsSlots cfg (run cfg evs e)
unfolding run EndsLive
run-keeps cfg [] e w l h = h
run-keeps cfg (ev ∷ evs) e w l h =
    run-keeps cfg evs (step cfg ev e).0 w l.1 (step-HoldsSlots cfg ev e w l.0 h)

-- The cap on concurrency: in a run whose sessions end only after they started, whatever the order of
-- the events and however the steps of session_done for different sessions interleave, at most
-- max_inflight sessions (less than 2 ^ 64) are live, and the slots that are held are those of the live
-- sessions and of the calls of session_done that have not released theirs yet, no more than there
-- are. No slot leaks on the paths that back off.
pub run-HoldsSlots :
    (cfg : RunConfig) (start : ℕ) (evs : List Event)
    → cfg.max_inflight < 2 ^ 64
    → EndsLive cfg evs (new cfg start)
    → HoldsSlots cfg (run cfg evs (new cfg start))
unfolding new new_slots
run-HoldsSlots cfg start evs w l = run-keeps cfg evs (new cfg start) w l (ground arith)

admit-AddsUp :
    (cfg : RunConfig) (draws : Draws) (now now' : ℕ) (e : Engine)
    → AddsUp e.registry
    → AddsUp (admit cfg draws now now' e).0.registry
unfolding admit back_off
admit-AddsUp cfg draws now now' e h = elim (Bool-cases (try_slot e.inflight).1) [
  | inr q ↦ rw q h
  | inl q ↦ elim (Bool-cases (try_acquire now (next_item cfg draws e.seq).0.op_bytes e.bucket).1) [
    | inl p ↦ rw (q, p) h
    | inr p ↦ rw (q, p) h
  ]
]

pub served_registry :
    (now now' id : ℕ) (s : FileSession) (rest : List ℕ) (e : Engine)
    → (serve_ready now now' id s rest e).0.registry ≡ e.registry
unfolding serve_ready back_off
served_registry now now' id s rest e = ground arith

observe_result-AddsUp :
    (result : FileSessionResult) (r : MetricsRegistry) → AddsUp r → AddsUp (observe_result result r)
unfolding observe_result update
observe_result-AddsUp result r h = elim (Bool-cases result.ok) [
  | inl q ↦ rw q (update-AddsUp (session_ok _ result.data_server []) r h)
  | inr q ↦ rw q (update-AddsUp (session_fail _ result.data_server []) r h)
]

step-AddsUp :
    (cfg : RunConfig) (ev : Event) (e : Engine)
    → AddsUp e.registry
    → AddsUp (step cfg ev e).0.registry
unfolding step pass_loop on_ready on_refund on_read_op observe_read_op leave_live show_inflight
    free_slot
step-AddsUp cfg (passes draws now now' sessions) e h = elim (List-cases e.ready) [
  | inl q ↦ elim (Bool-cases (leb cfg.max_inflight e.live)) [
    | inl full ↦ ground arith
    | inr free ↦ ground (arith, admit-AddsUp cfg draws now now' e h)
  ]
  | inr (id, rest, q) ↦ ground (arith, served_registry now now' id (sessions id) rest e)
]
step-AddsUp cfg (asks_read id) e h = ground arith
step-AddsUp cfg (refunds now n) e h = h
step-AddsUp cfg (reads op_s) e h = h
step-AddsUp cfg (ends result) e h = observe_result-AddsUp result e.registry h
step-AddsUp cfg leaves e h = h
step-AddsUp cfg (shows loaded) e h = h
step-AddsUp cfg frees e h = h

run-adds :
    (cfg : RunConfig) (evs : List Event) (e : Engine)
    → AddsUp e.registry
    → AddsUp (run cfg evs e).registry
unfolding run
run-adds cfg [] e h = h
run-adds cfg (ev ∷ evs) e h = run-adds cfg evs (step cfg ev e).0 (step-AddsUp cfg ev e h)

abbrev ended : Event → ℕ
ended (ends result) = 1
ended _ = 0

-- The sessions that end in a sequence of events.
pub ends_in : List Event → ℕ
ends_in [] = 0
ends_in (ev ∷ evs) = ended ev + ends_in evs

abbrev sessions_in : MetricsRegistry → ℕ
sessions_in r = r.sessions_ok + r.sessions_fail

admit-sessions :
    (cfg : RunConfig) (draws : Draws) (now now' : ℕ) (e : Engine)
    → sessions_in (admit cfg draws now now' e).0.registry ≡ sessions_in e.registry
unfolding admit back_off
admit-sessions cfg draws now now' e = ground arith

step-sessions :
    (cfg : RunConfig) (ev : Event) (e : Engine)
    → sessions_in (step cfg ev e).0.registry % 2 ^ 64 ≡ (sessions_in e.registry + ended ev) % 2 ^ 64
unfolding step pass_loop on_ready on_refund on_read_op observe_read_op leave_live show_inflight
    free_slot observe_result observe_session_ok observe_session_fail attribute_locked
step-sessions cfg (passes draws now now' sessions) e = elim (List-cases e.ready) [
  | inl q ↦ elim (Bool-cases (leb cfg.max_inflight e.live)) [
    | inl full ↦ ground arith
    | inr free ↦ ground (arith, admit-sessions cfg draws now now' e)
  ]
  | inr (id, rest, q) ↦ ground (arith, served_registry now now' id (sessions id) rest e)
]
step-sessions cfg (asks_read id) e = ground arith
step-sessions cfg (refunds now n) e = ground arith
step-sessions cfg (reads op_s) e = ground arith
step-sessions cfg (ends result) e = ground arith
step-sessions cfg leaves e = ground arith
step-sessions cfg (shows loaded) e = ground arith
step-sessions cfg frees e = ground arith

run-sessions :
    (cfg : RunConfig) (evs : List Event) (e : Engine)
    → sessions_in (run cfg evs e).registry % 2 ^ 64
      ≡ (sessions_in e.registry + ends_in evs) % 2 ^ 64
unfolding run ends_in
run-sessions cfg [] e = omega arith
run-sessions cfg (ev ∷ evs) e =
    omega (arith, run-sessions cfg evs (step cfg ev e).0, step-sessions cfg ev e)

-- The totals of a run: whatever happens in it, its registry counts each session that ended once, as
-- good or as failed, and the data servers and error classes add up to the totals, modulo 2 ^ 64.
pub run-totals :
    (cfg : RunConfig) (start : ℕ) (evs : List Event)
    → let r = (run cfg evs (new cfg start)).registry in
      (sessions_in r % 2 ^ 64 ≡ ends_in evs % 2 ^ 64) × AddsUp r
unfolding new
run-totals cfg start evs = (
  omega (arith, run-sessions cfg evs (new cfg start)),
  run-adds cfg evs (new cfg start) new_registry-AddsUp,
)
