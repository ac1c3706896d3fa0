-- ===== src/Session/Protocol.antt =====
-- src/file_session.cc: what a session promises to the engine, as an abstract protocol, and that every
-- execution of the session follows it.
use xrdhover.Session.Life.{Life}
use xrdhover.Session.Reach.{
  here, next, Reach, engine_closes, engine_reads, deadline_passed, close_answered, read_answered,
  stat_answered, open_answered, Step, World,
}
use xrdhover.Session.State.{Rng}
use xrdhover.Prelude.{List, [], ◌∷◌, ℕ, ◌+◌, Bool, true, false, if◌then◌else◌}

-- A session that has not reported, or has, with the number of its operations that XrdCl still has to
-- answer.
pub data Phase : Type 0 where
  running over : ℕ → Phase

-- One answer of XrdCl to an operation.
pub data Takes : Phase → Phase → Type 0 where
  is_answered : (n : ℕ) → Takes (running (n + 1)) (running n)
  drains : (n : ℕ) → Takes (over (n + 1)) (over n)

-- What a session does at one call: nothing, or it submits one operation or reports. A session that
-- has reported does neither again.
pub data Reacts : Phase → Phase → Type 0 where
  rests : (p : Phase) → Reacts p p
  submits : (n : ℕ) → Reacts (running n) (running (n + 1))
  reports : (n : ℕ) → Reacts (running n) (over n)

-- One call: an answer of XrdCl is taken if it is one, and the session reacts.
abbrev pub Handles : Bool → Phase → Phase → Type 0
Handles true p q = (m : Phase) × Takes p m × Reacts m q
Handles false p q = Reacts p q

-- A sequence of calls; the flags say which of them are answers of XrdCl, the last one first.
pub data Follows (p : Phase) : List Bool → Phase → Type 0 where
  start : Follows p [] p
  calls :
      {flags : List Bool} {q r : Phase} (flag : Bool)
      → Follows p flags q
      → Handles flag q r
      → Follows p (flag ∷ flags) r

abbrev pub phase : Life → Phase
phase c = if c.completed then over c.pending_cbs else running c.pending_cbs

phase_of : Bool → ℕ → Phase
phase_of completed n = if completed then over n else running n

-- The four calls of a response handler.
abbrev pub is_answer : {g : Rng} {v w : World} → Step g v w → Bool
is_answer (open_answered st r now hosts server p) = true
is_answer (stat_answered st info r now p) = true
is_answer (read_answered st got r now p) = true
is_answer (close_answered st now p) = true
is_answer (deadline_passed r now) = false
is_answer (engine_reads r now e) = false
is_answer (engine_closes r now e) = false

-- The calls of an execution that are answers, the last one first.
unfoldable pub answers : {g : Rng} {v w : World} → Reach g v w → List Bool
answers here = []
answers (next run st) = is_answer st ∷ answers run
