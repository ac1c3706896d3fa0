-- ===== src/Session/Issue.antt =====
-- src/file_session.cc: IssueNext, the submission of the next read or of the close.
use xrdhover.Prelude.{ℕ, ◌+◌, ◌-◌, min, true, ◌∷◌, ◌++◌, ltb, ◌==◌, if◌then◌else◌}
use xrdhover.Prelude.Text.{codes}
use xrdhover.Session.State.{
  read_at, ReadRequest, vector_read, FileSessionOptions, FileSession, Status, Rng, submit_read,
  submit_read,
}
use xrdhover.Session.Plan.{plan_random, plan_sequential, sample_random_read_offset}
use xrdhover.Session.Ops.{
  capture_partial_counters, complete, arm_op_deadline, set_error, submit_close_op, refund_bytes,
  refund_prepaid,
}

-- The plan of the next read: its offset, what it asks for, the engine's state and the request.
pub record ReadPlan : Type 0 where
  pub next_offset : ℕ
  pub requested : ℕ
  pub rng : ℕ
  pub request : ReadRequest

unfoldable pub plan_read : Rng → FileSession → ReadPlan
plan_read g s =
    if ltb 0 o.vector_chunks
    then (let v =
          if o.random_offset
          then plan_random g o.chunk_size s.file_size o.vector_chunks s.remaining 0 s.rng
          else plan_sequential o.chunk_size o.vector_chunks s.remaining 0 s.next_offset s.rng in
        record {
          next_offset = s.next_offset;
          requested = v.requested;
          rng = v.rng;
          request = vector_read v.chunks;
        })
    else (let requested = min o.chunk_size s.remaining in
        let (off, state) =
          if o.random_offset
          then sample_random_read_offset g s.rng s.file_size requested
          else (s.next_offset, s.rng) in
        record {
          next_offset = off;
          requested = requested;
          rng = state;
          request = read_at off requested;
        })
  where
    o : FileSessionOptions
    o = s.opts

unfoldable pub stamp_issue : ℕ → FileSession → FileSession
stamp_issue now s = arm_op_deadline (record s {
  times = record s.times {
    issue = now;
    first_issue = if s.ops == 0 then now else s.times.first_issue;
  };
})

unfoldable pub send_read : ReadPlan → FileSession → FileSession
send_read plan s = record s {
  next_offset = plan.next_offset;
  requested = plan.requested;
  rng = plan.rng;
  log = submit_read plan.request ∷ s.log;
}

-- What was prepaid beyond this read goes back.
unfoldable pub settle_prepaid : FileSession → FileSession
settle_prepaid s = record s {
  log =
      if ltb s.requested s.pacing.prepaid_op_bytes
      then (refund_bytes (s.pacing.prepaid_op_bytes - s.requested) s).log
      else s.log;
  pacing = record s.pacing { prepaid_op_bytes = 0 };
  issued_read = true;
}

unfoldable pub read_refused : Status → ℕ → FileSession → FileSession
read_refused reply now s =
    complete
      (record (refund_bytes s.requested (
        set_error (codes "read submission failed: " ++ reply.text) reply.code reply.err_no
          (capture_partial_counters now s))) { requested = 0 })

unfoldable pub prepare_read : Rng → ℕ → FileSession → FileSession
prepare_read g now s = settle_prepaid (send_read (plan_read g s) (stamp_issue now s))

-- IssueNext from `t_issue_` on: submit one read and settle what was prepaid.
unfoldable pub submit_next_read : Rng → Status → ℕ → FileSession → FileSession
submit_next_read g reply now s =
    let issued = prepare_read g now s in
    if reply.is_ok
    then record issued {
      pending_cbs = s.pending_cbs + 1;
      owed = record s.owed { read_cbs = s.owed.read_cbs + 1 };
    }
    else read_refused reply now issued

unfoldable pub finish_reading : ℕ → FileSession → FileSession
finish_reading now s =
    refund_prepaid (record s { remaining = 0; times = record s.times { last_byte = now } })

unfoldable pub issue_next : Rng → Status → ℕ → FileSession → FileSession
issue_next g reply now s =
    let left = if s.timed_out then 0 else s.remaining in
    if s.completed
    then s
    else if left == 0
    then submit_close_op reply now (finish_reading now s)
    else submit_next_read g reply now s
