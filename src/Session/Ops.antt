-- ===== src/Session/Ops.antt =====
-- src/file_session.cc: the private methods that the response handlers share. Each reads the clock
-- at most once per handler, `now`, and gets XrdCl's answer to the submission it makes, `reply`.
use xrdhover.Prelude.{
  ℕ, ◌+◌, ◌-◌, Bool, true, false, ◌&&◌, ◌||◌, not, ◌∷◌, ◌++◌, ltb, ◌==◌, if◌then◌else◌,
}
use xrdhover.Prelude.Text.{Text, codes}
use xrdhover.Session.State.{
  FileSessionResult, FileSession, Status, Times, refund, done, arm, submit_close,
}

abbrev is_set : ℕ → Bool
is_set t = not (t == 0)

unfoldable pub capture_partial_counters : ℕ → FileSession → FileSession
capture_partial_counters now s = record s {
  result = record r {
    bytes_read = s.bytes_read;
    ops = s.ops;
    data_server = s.data_server;
    file_size = s.file_size;
    open_hosts = s.hops;
    open_ns = if is_set t.open_at then t.open_at - t.start else r.open_ns;
    ttfb_ns =
        if is_set t.open_at && (ltb 0 s.ops && (is_set t.first_byte && is_set t.first_issue))
        then t.first_byte - t.first_issue
        else r.ttfb_ns;
    total_ns = now - t.start;
  };
}
  where
    r : FileSessionResult
    r = s.result

    t : Times
    t = s.times

-- The first call wins; it moves `on_done_` out and calls it.
unfoldable pub complete : FileSession → FileSession
complete s = if s.completed then s else record s {
  completed = true;
  on_done = false;
  log = if s.on_done then done s.result ∷ s.log else s.log;
}

-- Drops the self-reference; the object may be destroyed.
unfoldable pub release_if_idle : FileSession → FileSession
release_if_idle s = record s {
  self_keep = if (s.pending_cbs == 0) && s.completed then false else s.self_keep;
}

unfoldable pub arm_op_deadline : FileSession → FileSession
arm_op_deadline s = record s { log = if ltb 0 s.opts.wall_timeout then arm ∷ s.log else s.log }

unfoldable pub set_error : Text → ℕ → ℕ → FileSession → FileSession
set_error error code err_no s = record s {
  result = record s.result { error = error; status_code = code; err_code = err_no };
}

-- The branch of SubmitClose for a Close that XrdCl refused while nothing else is outstanding.
unfoldable pub close_refused : Status → ℕ → FileSession → FileSession
close_refused reply now s =
    let c = capture_partial_counters now s in
    complete (
      if s.timed_out
      then record c {
        result = record c.result {
          timed_out = true;
          error = codes "session wall timeout";
          status_code = reply.code;
          err_code = 110;
        };
      }
      else set_error (codes "close submission failed: " ++ reply.text) reply.code reply.err_no c)

unfoldable pub request_close : FileSession → FileSession
request_close s =
    let p = arm_op_deadline (record s { close_requested = true }) in
    record p { log = submit_close ∷ p.log }

-- XrdCl keeps the close handler if it accepts the submission.
unfoldable pub submit_close_op : Status → ℕ → FileSession → FileSession
submit_close_op reply now s =
    let sent = request_close s in
    if s.close_requested
    then s
    else if reply.is_ok
    then record sent {
      pending_cbs = s.pending_cbs + 1;
      owed = record s.owed { close_cbs = s.owed.close_cbs + 1 };
    }
    else if ltb 0 s.pending_cbs
    then record sent { close_requested = false }
    else close_refused reply now sent

-- A refund is a call of the pacing callback, and changes nothing else.
unfoldable pub refund_bytes : ℕ → FileSession → FileSession
refund_bytes n s = record s {
  log = if (n == 0) || not s.pacing.on_refund then s.log else refund n ∷ s.log;
}

unfoldable pub refund_prepaid : FileSession → FileSession
refund_prepaid s = if s.issued_read then s else record (refund_bytes s.pacing.prepaid_op_bytes s) {
  pacing = record s.pacing { prepaid_op_bytes = 0 };
}

-- The `stage` argument of Fail.
pub data Stage : Type 0 where
  open_stage stat_stage read_stage vector_read_stage close_stage : Stage

abbrev pub stage_text : Stage → Text
stage_text open_stage = codes "open"
stage_text stat_stage = codes "stat"
stage_text read_stage = codes "read"
stage_text vector_read_stage = codes "vector_read"
stage_text close_stage = codes "close"

abbrev pub is_read_stage : Stage → Bool
is_read_stage read_stage = true
is_read_stage vector_read_stage = true
is_read_stage _ = false

unfoldable pub record_failure : Stage → Status → ℕ → FileSession → FileSession
record_failure stage st now s =
    set_error (stage_text stage ++ (codes " failed: " ++ st.text)) st.code st.err_no
      (capture_partial_counters now s)

unfoldable pub give_back : Stage → FileSession → FileSession
give_back stage s =
    if is_read_stage stage
    then record (refund_bytes s.requested s) { requested = 0 }
    else if s.issued_read
    then s
    else refund_prepaid s

unfoldable pub fail : Stage → Status → ℕ → FileSession → FileSession
fail stage st now s = complete (give_back stage (record_failure stage st now s))

unfoldable pub finish_ok : FileSession → FileSession
finish_ok s = complete (record s {
  result = record s.result {
    ok = true;
    data_server = s.data_server;
    file_size = s.file_size;
    open_hosts = s.hops;
    bytes_read = s.bytes_read;
    ops = s.ops;
    open_ns = t.open_at - t.start;
    ttfb_ns = if ltb 0 s.ops then t.first_byte - t.first_issue else 0;
    read_ns = s.lat_sum;
    close_ns = t.end_at - t.last_byte;
    total_ns = t.end_at - t.start;
    op_lat_min_ns = if ltb 0 s.ops then s.lat_min else 0;
    op_lat_max_ns = s.lat_max;
  };
})
  where
    t : Times
    t = s.times
