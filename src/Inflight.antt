-- ===== src/Inflight.antt =====
-- src/inflight.cc, include/xrdhover/inflight.hh: the semaphore that caps the concurrent sessions.
-- Each call holds the mutex. AcquireUntil waits for a free slot until its deadline and then does
-- what TryAcquire does, on the state in which its wait ends.
use xrdhover.Prelude.{
  ℕ, suc, ◌+◌, ◌-◌, ◌≤◌, max, ◌≡◌, Bool, true, false, List, [], ◌∷◌, arith, ltb, leb, ◌==◌,
  if◌then◌else◌,
}

pub record InFlightSemaphore : Type 0 where
  pub max_slots : ℕ
  pub current : ℕ

unfoldable pub new : ℕ → InFlightSemaphore
new max_inflight = record { max_slots = if max_inflight == 0 then 1 else max_inflight; current = 0 }

unfoldable pub try_acquire : InFlightSemaphore → InFlightSemaphore × Bool
try_acquire s =
    if leb s.max_slots s.current then (s, false) else (record s { current = s.current + 1 }, true)

unfoldable pub acquire_until : InFlightSemaphore → InFlightSemaphore × Bool
acquire_until s =
    if ltb s.current s.max_slots then (record s { current = s.current + 1 }, true) else (s, false)

unfoldable pub release : InFlightSemaphore → InFlightSemaphore
release s = if ltb 0 s.current then record s { current = s.current - 1 } else s

pub data Call : Type 0 where
  tries waits releases : Call

pub call : Call → InFlightSemaphore → InFlightSemaphore × Bool
call tries s = try_acquire s
call waits s = acquire_until s
call releases s = (release s, false)

pub run : List Call → InFlightSemaphore → InFlightSemaphore
run [] s = s
run (c ∷ cs) s = run cs (call c s).0

-- The slots handed out by a sequence of calls, and the releases in it.
pub granted : List Call → InFlightSemaphore → ℕ
granted [] s = 0
granted (c ∷ cs) s = (if (call c s).1 then 1 else 0) + granted cs (call c s).0

abbrev pub releases_in : List Call → ℕ
releases_in [] = 0
releases_in (releases ∷ cs) = suc (releases_in cs)
releases_in (_ ∷ cs) = releases_in cs

call-slots :
    (c : Call) (s : InFlightSemaphore)
    → s.current ≤ s.max_slots
    → ((call c s).0.current ≤ (call c s).0.max_slots)
      × ((call c s).0.max_slots ≡ s.max_slots)
      × ((call c s).0.current + releases_in (c ∷ [])
          ≤ s.current + (if (call c s).1 then 1 else 0) + releases_in (c ∷ []))
unfolding call try_acquire acquire_until release
call-slots tries s h = ground arith
call-slots waits s h = ground arith
call-slots releases s h = ground arith

run-slots :
    (cs : List Call) (s : InFlightSemaphore)
    → s.current ≤ s.max_slots
    → ((run cs s).current ≤ s.max_slots)
      × (s.current + granted cs s ≤ (run cs s).current + releases_in cs)
unfolding run granted call try_acquire acquire_until release
run-slots [] s h = (h, omega arith)
run-slots (tries ∷ cs) s h = ground (arith, run-slots cs (try_acquire s).0)
run-slots (waits ∷ cs) s h = ground (arith, run-slots cs (acquire_until s).0)
run-slots (releases ∷ cs) s h = ground (arith, run-slots cs (release s))

-- Whatever the calls on a new semaphore, at most max_inflight slots (one, if that is 0) are taken,
-- and as many were handed out, less the releases, at most.
pub new-slots :
    (n : ℕ) (cs : List Call)
    → ((run cs (new n)).current ≤ max n 1) × (granted cs (new n) ≤ max n 1 + releases_in cs)
unfolding new
new-slots n cs = ground (arith, run-slots cs (new n))
