-- ===== src/Witness/Session.antt =====
-- Examples for the file session.
use xrdhover.Session.Ops.{
  release_if_idle, set_error, complete, refund_prepaid, arm_op_deadline, refund_bytes,
}
use xrdhover.Prelude.Text.{codes}
use xrdhover.Session.State.{FileSession, Status}
use xrdhover.Session.Opening.{open_refused, new_session, start, on_open, request_open}
use xrdhover.Session.Handlers.{
  on_read, on_close, issue_next_from_engine, bytes_got, walk_budget, random_budget, budget_of,
}
use xrdhover.Session.Ops.{refund_prepaid, complete, set_error, release_if_idle}
use xrdhover.Session.Plan.{op_bytes, next_op_bytes}
use xrdhover.Session.Issue.{plan_read}
use xrdhover.Session.Life.{dones}
use xrdhover.Session.Reach.{World, launch, here}
use xrdhover.Session.Opening.{on_open}
use xrdhover.Prelude.Text.{codes}
use xrdhover.Session.Reach.{less_open}
use xrdhover.Session.Alive.{released_has_no_callbacks, done_exactly_once, incomplete_has_a_caller}
use xrdhover.Session.Sizes.{RequestFits, plan_read_fits_buffer, plan_read_overruns_buffer}
use xrdhover.Session.InFile.{
  AsksWithin, plan_read-AsksWithin, reads, walk_in_file, random_in_file, DrawsBelow,
}
use xrdhover.Session.Tokens.{tokens, refunded}
use xrdhover.Session.Balance.{
  on_read-balanced, issue_next_from_engine-balanced, open_timeout_keeps_prepaid,
}
use xrdhover.Witness.Data.{ok, options, pacing, generator, fresh}
use xrdhover.Prelude.{
  ℕ, ◌+◌, ◌^◌, ◌≤◌, ◌<◌, ◌≡◌, refl, ◌⊎◌, true, false, some, List, [], ◌∷◌, arith, if◌then◌else◌,
}

-- A session whose Open was refused, and one whose Open is under way.
abbrev refused : Status
refused = record { is_ok = false; code = 101; err_no = 0; text = [] }

abbrev unopened : World
unopened = launch refused 1 options pacing

abbrev opening : World
opening = launch ok 1 options pacing

released_has_no_callbacks_example :
    (unopened.session.completed ≡ true)
    × (unopened.session.owed.open_cbs ≡ 0)
    × (unopened.session.owed.stat_cbs ≡ 0)
    × (unopened.session.owed.read_cbs ≡ 0)
    × (unopened.session.owed.close_cbs ≡ 0)
unfolding new_session start request_open open_refused arm_op_deadline release_if_idle set_error
    refund_bytes complete refund_prepaid
released_has_no_callbacks_example =
    released_has_no_callbacks generator refused 1 options pacing {w = unopened} here refl

done_exactly_once_example :
    dones unopened.session.log ≡ (if unopened.session.completed then 1 else 0)
done_exactly_once_example = done_exactly_once generator refused 1 options pacing {w = unopened} here

incomplete_has_a_caller_example :
    (0
      < opening.session.owed.open_cbs + opening.session.owed.stat_cbs
        + opening.session.owed.read_cbs + opening.session.owed.close_cbs)
    ⊎ (opening.parked ≡ true)
unfolding new_session start request_open arm_op_deadline
incomplete_has_a_caller_example =
    incomplete_has_a_caller generator ok 1 options pacing {w = opening} here refl

abbrev reading : FileSession
reading = record fresh {
  pacing = record pacing { prepaid_op_bytes = 0 };
  buffer_size = 100;
  file_size = 1000;
  remaining = 150;
  requested = 0;
  next_offset = 850;
  budget_set = true;
  pending_cbs = 1;
}

on_read-balanced_example :
    tokens (on_read generator ok (some 60) ok 9 (record reading { requested = 100 }))
    ≡ tokens (record reading { requested = 100 })
unfolding bytes_got new_session
on_read-balanced_example =
    on_read-balanced generator ok (some 60) ok 9 (record reading { requested = 100 }) refl refl refl
      (ground arith)

issue_next_from_engine-balanced_example :
    tokens (issue_next_from_engine generator ok 9 reading) ≡ tokens reading + next_op_bytes reading
unfolding new_session
issue_next_from_engine-balanced_example =
    issue_next_from_engine-balanced generator ok 9 reading refl (omega arith) refl refl
      (omega arith) refl refl

open_timeout_keeps_prepaid_example :
    let t = on_close ok 9 (on_open ok ok 8 1 (codes "a") (record fresh { timed_out = true })) in
    (t.completed ≡ true) × (refunded t.log ≡ refunded fresh.log)
unfolding new_session
open_timeout_keeps_prepaid_example =
    open_timeout_keeps_prepaid ok ok 8 1 (codes "a") ok 9 (record fresh { timed_out = true }) refl
      refl refl refl refl

draws_below : DrawsBelow generator
draws_below bound state = omega arith

plan_read-AsksWithin_example : AsksWithin reading.file_size (plan_read generator reading).request
unfolding new_session
plan_read-AsksWithin_example =
    plan_read-AsksWithin generator reading draws_below (λ e. omega arith, omega arith)

abbrev rounds : List (ℕ × ℕ × ℕ)
rounds = (100, 5, 6) ∷ (50, 7, 8) ∷ []

walk_in_file_example :
    let t = reads generator rounds (walk_budget 1000 fresh) in
    (t.bytes_read ≤ budget_of t.opts t.file_size)
    × AsksWithin t.file_size (plan_read generator t).request
unfolding new_session
walk_in_file_example =
    walk_in_file generator draws_below rounds 1000 fresh (refl, refl) (omega arith)

abbrev scattered : FileSession
scattered = record fresh { opts = record options { random_offset = true } }

random_in_file_example :
    let t = reads generator rounds (random_budget generator 1000 scattered) in
    (t.bytes_read ≤ budget_of t.opts t.file_size)
    × AsksWithin t.file_size (plan_read generator t).request
unfolding new_session
random_in_file_example =
    random_in_file generator draws_below rounds 1000 scattered (refl, refl) refl

plan_read_fits_buffer_example :
    RequestFits reading.buffer_size (plan_read generator reading).request
unfolding op_bytes new_session
plan_read_fits_buffer_example = plan_read_fits_buffer generator reading (omega arith) refl

-- Two chunks of 2 ^ 31 bytes.
abbrev huge : FileSession
huge = record reading {
  opts = record options { chunk_size = 2 ^ 31; vector_chunks = 2 };
  remaining = 2 ^ 33;
  buffer_size = 0;
}

plan_read_overruns_buffer_example : huge.buffer_size < (plan_read generator huge).requested
unfolding op_bytes new_session
plan_read_overruns_buffer_example =
    plan_read_overruns_buffer generator huge (omega arith) (omega arith) refl

-- The Open is answered and the Stat submitted.
abbrev opened_world : World
opened_world = record opening {
  session = on_open ok ok 2 0 (codes "d") (less_open opening.session);
}
