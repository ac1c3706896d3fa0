-- ===== src/Session/Refine.antt =====
-- src/file_session.cc: each method, seen through `life`, is one of the moves of Life.antt.
pub mod Responses
use xrdhover.Session.Issue.{
  stamp_issue, send_read, settle_prepaid, finish_reading, submit_next_read, issue_next,
  read_refused, prepare_read,
}
use xrdhover.Prelude.{Bool, ◌⊎◌, false, ap, ◌∙◌, true, inr, inl, Bool-cases, ℕ, ◌≡◌, arith, refl}
use xrdhover.Session.State.{Rng, Status, FileSession}
use xrdhover.Session.Life.{
  ask_stat-Moves, ask_read-Moves, ask_stat-IsSound, release-Moves, close-Moves, ask_read-IsSound,
  close-IsSound, release-IsSound, finish-Moves, finish-IsSound, Moves, IsSound, ask_stat, Life,
  ask_read, close, life, finish, release,
}
use xrdhover.Session.Ops.{
  record_failure, give_back, Stage, finish_ok, fail, request_close, set_error,
  capture_partial_counters, submit_close_op, close_refused, complete, release_if_idle,
  refund_prepaid, refund_bytes, arm_op_deadline,
}

pub complete-life : (s : FileSession) → life (complete s) ≡ finish (life s)
unfolding complete finish
complete-life s = ground arith

pub refund_bytes-life : (n : ℕ) (s : FileSession) → life (refund_bytes n s) ≡ life s
unfolding refund_bytes
refund_bytes-life n s = ground arith

pub arm_op_deadline-life : (s : FileSession) → life (arm_op_deadline s) ≡ life s
unfolding arm_op_deadline
arm_op_deadline-life s = ground arith

pub release_if_idle-life : (s : FileSession) → life (release_if_idle s) ≡ release (life s)
unfolding release_if_idle release
release_if_idle-life s = refl

pub refund_prepaid-life : (s : FileSession) → life (refund_prepaid s) ≡ life s
unfolding refund_prepaid
refund_prepaid-life s = ground (arith, refund_bytes-life s.pacing.prepaid_op_bytes s)

close_refused-life :
    (r : Status) (now : ℕ) (s : FileSession) → life (close_refused r now s) ≡ finish (life s)
unfolding close_refused capture_partial_counters set_error
close_refused-life r now s = elim (Bool-cases s.timed_out) [
  | inl e ↦ rw e (complete-life _)
  | inr e ↦ rw e (complete-life _)
]

request_close-life :
    (s : FileSession) → life (request_close s) ≡ record (life s) { close_requested = true }
unfolding request_close arm_op_deadline
request_close-life s = ground arith

pub submit_close_op-life :
    (r : Status) (now : ℕ) (s : FileSession)
    → life (submit_close_op r now s) ≡ close r.is_ok (life s)
unfolding submit_close_op close
submit_close_op-life r now s =
    ground (arith, request_close-life s, close_refused-life r now (request_close s))

give_back-life : (g : Stage) (s : FileSession) → life (give_back g s) ≡ life s
unfolding give_back
give_back-life g s = ground (arith, refund_bytes-life s.requested s, refund_prepaid-life s)

pub fail-life :
    (g : Stage) (st : Status) (now : ℕ) (s : FileSession) → life (fail g st now s) ≡ finish (life s)
unfolding fail record_failure capture_partial_counters set_error
fail-life g st now s =
    complete-life (give_back g (record_failure g st now s))
    ∙ ap finish (give_back-life g (record_failure g st now s))

pub finish_ok-life : (s : FileSession) → life (finish_ok s) ≡ finish (life s)
unfolding finish_ok
finish_ok-life s = complete-life _

prepare_read-life : (g : Rng) (now : ℕ) (s : FileSession) → life (prepare_read g now s) ≡ life s
unfolding prepare_read settle_prepaid send_read stamp_issue arm_op_deadline refund_bytes
prepare_read-life g now s = ground arith

read_refused-life :
    (r : Status) (now : ℕ) (s : FileSession) → life (read_refused r now s) ≡ finish (life s)
unfolding read_refused capture_partial_counters set_error
read_refused-life r now s = complete-life _ ∙ ap finish (refund_bytes-life s.requested _)

pub submit_next_read-life :
    (g : Rng) (r : Status) (now : ℕ) (s : FileSession)
    → life (submit_next_read g r now s) ≡ ask_read r.is_ok (life s)
unfolding submit_next_read ask_read
submit_next_read-life g r now s =
    ground (arith, prepare_read-life g now s, read_refused-life r now (prepare_read g now s))

finish_reading-life : (now : ℕ) (s : FileSession) → life (finish_reading now s) ≡ life s
unfolding finish_reading
finish_reading-life now s = refund_prepaid-life _

-- What one handler may do to the life `c`: nothing once it is over, finish, or submit one
-- operation, which XrdCl accepts or not.
abbrev pub After : Bool → Life → Life → Type 0
After ok c d =
    ((c.completed ≡ true) × (d ≡ c))
    ⊎ (d ≡ finish c)
    ⊎ ((c.completed ≡ false) × ((d ≡ close ok c) ⊎ (d ≡ ask_read ok c) ⊎ (d ≡ ask_stat ok c)))

pub After-IsSound : (ok : Bool) (c d : Life) → After ok c d → IsSound c → IsSound d
After-IsSound ok c d (inl (e, p)) h = rw p h
After-IsSound ok c d (inr (inl p)) h = rw p (finish-IsSound c h)
After-IsSound ok c d (inr (inr (e, inl p))) h = rw p (close-IsSound ok c e h)
After-IsSound ok c d (inr (inr (e, inr (inl p)))) h = rw p (ask_read-IsSound ok c e h)
After-IsSound ok c d (inr (inr (e, inr (inr p)))) h = rw p (ask_stat-IsSound ok c e h)

pub After-Moves : (ok : Bool) (c d : Life) → After ok c d → IsSound c → Moves d
After-Moves ok c d (inl (e, p)) h = inl (rw p e)
After-Moves ok c d (inr (inl p)) h = rw p (finish-Moves c)
After-Moves ok c d (inr (inr (e, inl p))) h = rw p (close-Moves ok c h)
After-Moves ok c d (inr (inr (e, inr (inl p)))) h = rw p (ask_read-Moves ok c)
After-Moves ok c d (inr (inr (e, inr (inr p)))) h = rw p (ask_stat-Moves ok c)

-- A handler that ends with `ReleaseIfIdle` keeps the session sound and moving.
pub released_handler :
    (ok : Bool) (c : Life) (s : FileSession)
    → IsSound c
    → After ok c (life s)
    → IsSound (life (release_if_idle s)) × Moves (life (release_if_idle s))
unfolding release_if_idle release
released_handler ok c s h a = (
  release-IsSound (life s) (After-IsSound ok c (life s) a h),
  release-Moves (life s) (After-Moves ok c (life s) a h),
)

pub issue_next-life :
    (g : Rng) (r : Status) (now : ℕ) (s : FileSession)
    → After r.is_ok (life s) (life (issue_next g r now s))
unfolding issue_next
issue_next-life g r now s = ground (
  arith,
  submit_next_read-life g r now s,
  finish_reading-life now s,
  submit_close_op-life r now (finish_reading now s),
)
