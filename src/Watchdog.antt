-- ===== src/Watchdog.antt =====
-- src/file_session.cc: SessionDeadlineWatchdog, the one thread that ends the sessions past their
-- deadline. Sessions are named by numbers; whether a weak pointer still locks and whether a session
-- is completed are arguments of the call that asks. Each function is what runs under the mutex.
pub mod Unique
pub mod Due
use xrdhover.Prelude.{
  ℕ, zero, suc, ◌+◌, ◌-◌, ◌*◌, ◌/◌, ◌%◌, ◌^◌, ◌≤◌, ◌<◌, min, max, ◌≡◌, refl, sym, ap, subst, ◌∙◌,
  ◌≢◌, ◌↔◌, ◌⊎◌, inl, inr, Bool, true, false, ◌&&◌, ◌||◌, not, Option, none, some, List, [], ◌∷◌,
  ◌++◌, map, arith, ltb, leb, ◌==◌, if◌then◌else◌, ltb→lt, lt→ltb, leb→le, ==_iff, Bool-cases,
  Option-cases, length, get_elem?, is_empty, drop, take, length-append, All,
}

pub record Entry : Type 0 where
  pub deadline : ℕ
  pub session : ℕ

pub record Watchdog : Type 0 where
  pub entries : List Entry
  pub started : Bool
  pub stop : Bool

abbrev pub new : Watchdog
new = record { entries = []; started = false; stop = false }

unfoldable pub has_entry : (ℕ → Bool) → ℕ → List Entry → Bool
has_entry alive id [] = false
has_entry alive id (e ∷ es) = (alive e.session && (e.session == id)) || has_entry alive id es

unfoldable pub set_deadline : (ℕ → Bool) → ℕ → ℕ → List Entry → List Entry
set_deadline alive id deadline [] = []
set_deadline alive id deadline (e ∷ es) =
    if alive e.session && (e.session == id)
    then record e { deadline = deadline } ∷ es
    else e ∷ set_deadline alive id deadline es

unfoldable pub put : (ℕ → Bool) → ℕ → ℕ → List Entry → List Entry
put alive id deadline es =
    if has_entry alive id es
    then set_deadline alive id deadline es
    else es ++ record { deadline = deadline; session = id } ∷ []

-- EnsureThreadLocked starts the thread once.
unfoldable pub ensure_thread : Watchdog → Watchdog
ensure_thread w = if w.started then w else record w { started = true; stop = false }

unfoldable pub arm : (ℕ → Bool) → ℕ → ℕ → ℕ → Watchdog → Watchdog
arm alive now timeout id w =
    if timeout == 0
    then w
    else if w.stop
    then w
    else ensure_thread (record w { entries = put alive id (now + timeout) w.entries })

unfoldable pub without : (ℕ → Bool) → ℕ → List Entry → List Entry
without alive id [] = []
without alive id (e ∷ es) =
    let rest = without alive id es in
    if not (alive e.session) || (e.session == id) then rest else e ∷ rest

unfoldable pub disarm : (ℕ → Bool) → ℕ → Watchdog → Watchdog
disarm alive id w = record w { entries = without alive id w.entries }

-- ShutDown up to the join of the thread, and after it.
unfoldable pub begin_shut_down : Watchdog → Watchdog
begin_shut_down w = if w.stop then w else record w { stop = true; entries = [] }

unfoldable pub end_shut_down : Watchdog → Watchdog
end_shut_down w = record w { started = false; stop = false }

abbrev pub max_sleep : ℕ
max_sleep = 1000000000

pub record Pass : Type 0 where
  pub kept : List Entry
  pub expired : List ℕ
  pub next_deadline : ℕ

-- The loop over the entries.
unfoldable pub pass_loop : (ℕ → Bool) → (ℕ → Bool) → ℕ → List Entry → Pass
pass_loop alive completed now [] = record {
  kept = [];
  expired = [];
  next_deadline = now + max_sleep;
}
pass_loop alive completed now (e ∷ es) =
    let p = pass_loop alive completed now es in
    if not (alive e.session) || completed e.session
    then p
    else if leb e.deadline now
    then record p { expired = e.session ∷ p.expired }
    else record p { kept = e ∷ p.kept; next_deadline = min p.next_deadline e.deadline }

-- One pass of ThreadMain: it asks the expired sessions to time out, and then sleeps.
unfoldable pub thread_pass : (ℕ → Bool) → (ℕ → Bool) → ℕ → Watchdog → Watchdog × List ℕ
thread_pass alive completed now w =
    let p = pass_loop alive completed now w.entries in
    if w.stop then (w, []) else (record w { entries = p.kept }, p.expired)

-- The sleep after a pass, in nanoseconds.
unfoldable pub wait_for : ℕ → ℕ → ℕ
wait_for next_deadline now = min (max (next_deadline - now) 1000000) max_sleep
