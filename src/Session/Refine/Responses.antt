-- ===== src/Session/Refine/Responses.antt =====
-- src/file_session.cc: the response handlers, seen through `life`.
use xrdhover.Session.Refine.{
  issue_next, release_if_idle-life, finish_ok-life, issue_next-life, submit_close_op-life,
  refund_prepaid-life, fail-life, After, complete-life,
}
use mathlib.Core.Option.{get_or}
use xrdhover.Prelude.Text.{Text}
use xrdhover.Session.Life.{newborn, ask_open, finish, life, ask_stat}
use xrdhover.Session.State.{FileSessionPacing, FileSessionOptions, Rng, Status, FileSession}
use xrdhover.Session.Ops.{
  refund_bytes, submit_close_op, close_stage, capture_partial_counters, stat_stage, open_stage,
  set_error, arm_op_deadline,
}
use xrdhover.Session.Opening.{
  new_session, start, open_refused, request_open, opened, stat_refused, request_stat, handle_open,
}
use xrdhover.Session.Handlers.{
  refund_short, hand_over, bytes_got, wall_timeout_result, handle_close, parks, handle_read,
  read_stage_of, count_read, account_read, walk_budget, random_budget, handle_stat,
  offset_beyond_file,
}
use xrdhover.Prelude.{if◌then◌else◌, ◌||◌, true, false, ap, ◌∙◌, Option, ℕ, ◌≡◌, arith}

request_stat-life : (s : FileSession) → life (request_stat s) ≡ life s
unfolding request_stat arm_op_deadline
request_stat-life s = ground arith

stat_refused-life : (r : Status) (s : FileSession) → life (stat_refused r s) ≡ finish (life s)
unfolding stat_refused set_error
stat_refused-life r s = complete-life _ ∙ ap finish (refund_prepaid-life _)

pub handle_open-life :
    (st r : Status) (now hosts : ℕ) (server : Text) (s : FileSession)
    → After r.is_ok (life s) (life (handle_open st r now hosts server s))
unfolding handle_open opened ask_stat
handle_open-life st r now hosts server s =
    let d = record (opened now hosts s) { data_server = server } in
    ground (
      arith,
      fail-life open_stage st now (opened now hosts s),
      submit_close_op-life r now d,
      request_stat-life d,
      stat_refused-life r (request_stat d),
    )

offset_beyond_file-life : (s : FileSession) → life (offset_beyond_file s) ≡ finish (life s)
unfolding offset_beyond_file
offset_beyond_file-life s = complete-life _ ∙ ap finish (refund_prepaid-life _)

pub handle_stat-life :
    (g : Rng) (st : Status) (info : Option ℕ) (r : Status) (now : ℕ) (s : FileSession)
    → After r.is_ok (life s) (life (handle_stat g st info r now s))
unfolding handle_stat random_budget walk_budget
handle_stat-life g st info r now s =
    let size = get_or info 0 in
    ground (
      arith,
      fail-life stat_stage st now s,
      issue_next-life g r now (random_budget g size s),
      issue_next-life g r now (walk_budget size s),
      offset_beyond_file-life (record s { file_size = size }),
    )

account_read-life : (got now : ℕ) (s : FileSession) → life (account_read got now s) ≡ life s
unfolding account_read count_read refund_short refund_bytes
account_read-life got now s = ground arith

pub handle_read-life :
    (g : Rng) (st : Status) (got : Option ℕ) (r : Status) (now : ℕ) (s : FileSession)
    → After r.is_ok (life s) (life (handle_read g st got r now s))
unfolding handle_read
handle_read-life g st got r now s =
    let a = account_read (bytes_got got s) now s in
    ground (
      arith,
      fail-life (read_stage_of s) st now s,
      account_read-life (bytes_got got s) now s,
      issue_next-life g r now a,
    )

pub hand_over-life :
    (st : Status) (got : Option ℕ) (now : ℕ) (s : FileSession)
    → parks st got now s ≡ true
    → (life (hand_over (account_read (bytes_got got s) now s)) ≡ life s) × (s.completed ≡ false)
unfolding parks hand_over
hand_over-life st got now s h = ground (arith, account_read-life (bytes_got got s) now s)

wall_timeout_result-life :
    (st : Status) (now : ℕ) (s : FileSession)
    → life (wall_timeout_result st now s) ≡ finish (life s)
unfolding wall_timeout_result capture_partial_counters
wall_timeout_result-life st now s = complete-life _

-- OnClose ends the session, whatever the response.
pub handle_close-life :
    (st : Status) (now : ℕ) (s : FileSession) → life (handle_close st now s) ≡ finish (life s)
unfolding handle_close finish
handle_close-life st now s =
    let e = record s { times = record s.times { end_at = now } } in
    ground
      (arith, wall_timeout_result-life st now e, fail-life close_stage st now e, finish_ok-life e)

request_open-life :
    (now : ℕ) (o : FileSessionOptions) (p : FileSessionPacing)
    → life (request_open now (new_session o p)) ≡ newborn
unfolding request_open arm_op_deadline new_session
request_open-life now o p = ground arith

open_refused-life : (r : Status) (s : FileSession) → life (open_refused r s) ≡ finish (life s)
unfolding open_refused set_error
open_refused-life r s = complete-life _ ∙ ap finish (refund_prepaid-life _)

-- Start.
pub start-life :
    (r : Status) (now : ℕ) (o : FileSessionOptions) (p : FileSessionPacing)
    → life (start r now (new_session o p)) ≡ ask_open r.is_ok newborn
unfolding start ask_open new_session
start-life r now o p =
    let sent = request_open now (new_session o p) in
    ground (
      arith,
      request_open-life now o p,
      open_refused-life r sent,
      release_if_idle-life (open_refused r sent),
    )

pub engine_reads-life :
    (g : Rng) (r : Status) (now : ℕ) (s : FileSession)
    → After r.is_ok (life s) (life (if s.completed then s else issue_next g r now s))
engine_reads-life g r now s = ground (arith, issue_next-life g r now s)

pub engine_closes-life :
    (r : Status) (now : ℕ) (s : FileSession)
    → After r.is_ok
        (life s)
        (life (if s.completed then s else submit_close_op r now (record s { remaining = 0 })))
engine_closes-life r now s = ground (arith, submit_close_op-life r now (record s { remaining = 0 }))

pub deadline-life :
    (r : Status) (now : ℕ) (s : FileSession)
    → (s.completed || s.close_requested) ≡ false
    → After r.is_ok (life s) (life (submit_close_op r now (record s { timed_out = true })))
deadline-life r now s e = ground (arith, submit_close_op-life r now (record s { timed_out = true }))
