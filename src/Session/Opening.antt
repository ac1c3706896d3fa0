-- ===== src/Session/Opening.antt =====
-- src/file_session.cc: the constructor, Start and OnOpen.
use xrdhover.Prelude.{not, ℕ, ◌+◌, ◌-◌, ◌^◌, true, false, [], ◌∷◌, ◌++◌, ltb, if◌then◌else◌}
use xrdhover.Prelude.Text.{Text, codes}
use xrdhover.Session.State.{
  submit_stat, FileSessionOptions, FileSessionPacing, FileSession, Status, submit_open,
}
use xrdhover.Session.Plan.{op_bytes}
use xrdhover.Session.Ops.{
  open_stage, fail, complete, release_if_idle, arm_op_deadline, set_error, submit_close_op,
  refund_prepaid,
}

-- The constructor.
unfoldable pub new_session : FileSessionOptions → FileSessionPacing → FileSession
new_session opts pacing = record {
  opts = opts;
  on_done = true;
  pacing = pacing;
  result = record {
    ok = false;
    timed_out = false;
    error = [];
    status_code = 0;
    err_code = 0;
    url = opts.url;
    data_server = [];
    file_size = 0;
    open_hosts = 0;
    open_ns = 0;
    ttfb_ns = 0;
    read_ns = 0;
    close_ns = 0;
    total_ns = 0;
    bytes_read = 0;
    ops = 0;
    is_vector = ltb 0 opts.vector_chunks;
    op_lat_min_ns = 0;
    op_lat_max_ns = 0;
  };
  owed = record { open_cbs = 0; stat_cbs = 0; read_cbs = 0; close_cbs = 0 };
  buffer_size = 0;
  self_keep = false;
  data_server = [];
  file_size = 0;
  remaining = 0;
  next_offset = 0;
  requested = 0;
  bytes_read = 0;
  ops = 0;
  hops = 0;
  rng = 0;
  lat_sum = 0;
  lat_min = 2 ^ 64;
  lat_max = 0;
  times = record {
    start = 0;
    open_at = 0;
    first_byte = 0;
    first_issue = 0;
    last_byte = 0;
    end_at = 0;
    issue = 0;
  };
  pending_cbs = 0;
  timed_out = false;
  close_requested = false;
  budget_set = false;
  issued_read = false;
  completed = false;
  log = [];
}

unfoldable pub request_open : ℕ → FileSession → FileSession
request_open now s =
    let p = arm_op_deadline (record s {
      self_keep = true;
      buffer_size = op_bytes s.opts;
      times = record s.times { start = now };
    }) in
    record p { log = submit_open ∷ p.log }

unfoldable pub open_refused : Status → FileSession → FileSession
open_refused reply s = complete (
    refund_prepaid
      (set_error (codes "open submission failed: " ++ reply.text) reply.code reply.err_no s))

unfoldable pub start : Status → ℕ → FileSession → FileSession
start reply now s =
    let sent = request_open now s in
    if reply.is_ok
    then record sent {
      pending_cbs = s.pending_cbs + 1;
      owed = record s.owed { open_cbs = s.owed.open_cbs + 1 };
    }
    else release_if_idle (open_refused reply sent)

-- Every handler starts with `--pending_cbs_`.
unfoldable pub answered : FileSession → FileSession
answered s = record s { pending_cbs = s.pending_cbs - 1 }

unfoldable pub opened : ℕ → ℕ → FileSession → FileSession
opened now hosts s = record s { times = record s.times { open_at = now }; hops = hosts }

unfoldable pub request_stat : FileSession → FileSession
request_stat s = let p = arm_op_deadline s in record p { log = submit_stat ∷ p.log }

unfoldable pub stat_refused : Status → FileSession → FileSession
stat_refused reply s = complete (
    refund_prepaid
      (set_error (codes "stat submission failed: " ++ reply.text) reply.code reply.err_no s))

unfoldable pub handle_open : Status → Status → ℕ → ℕ → Text → FileSession → FileSession
handle_open st reply now hosts server s =
    let o = opened now hosts s in
    let d = record o { data_server = server } in
    let sent = request_stat d in
    if s.completed
    then s
    else if not st.is_ok
    then fail open_stage st now o
    else if s.timed_out
    then submit_close_op reply now d
    else if reply.is_ok
    then record sent {
      pending_cbs = s.pending_cbs + 1;
      owed = record s.owed { stat_cbs = s.owed.stat_cbs + 1 };
    }
    else stat_refused reply sent

-- `hosts` is the length of the host list, `server` the property "DataServer".
unfoldable pub on_open : Status → Status → ℕ → ℕ → Text → FileSession → FileSession
on_open st reply now hosts server s =
    release_if_idle (handle_open st reply now hosts server (answered s))
