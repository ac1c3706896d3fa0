-- ===== src/Session/Handlers.antt =====
-- src/file_session.cc: the handlers of Stat, Read and Close, IssueNext, and the entry points of the
-- engine and of the deadline watchdog.
use xrdhover.Session.Opening.{answered}
use xrdhover.Prelude.{
  List, leb, ◌&&◌, not, ◌||◌, Bool, max, Option, ℕ, ◌+◌, ◌-◌, min, true, ◌∷◌, ◌++◌, ltb, ◌==◌,
  if◌then◌else◌,
}
use xrdhover.Prelude.Text.{decimal, codes}
use xrdhover.Session.State.{
  Effect, disarm, ready, read_op, FileSessionOptions, FileSession, Status, Rng,
}
use mathlib.Core.Option.{get_or}
use xrdhover.Session.Issue.{issue_next}
use xrdhover.Session.Ops.{
  Stage, stat_stage, close_stage, read_stage, vector_read_stage, finish_ok, fail,
  capture_partial_counters, complete, release_if_idle, submit_close_op, refund_bytes,
  refund_prepaid,
}

-- The byte budget of OnStat: the file size, capped by `max_bytes` if that is set.
unfoldable pub budget_of : FileSessionOptions → ℕ → ℕ
budget_of o size = if ltb 0 o.max_bytes then min size o.max_bytes else size

unfoldable pub offset_beyond_file : FileSession → FileSession
offset_beyond_file s = complete (
    refund_prepaid (record s {
      result = record s.result {
        error =
            codes "offset "
            ++ (decimal s.opts.offset ++ (codes " is beyond file size " ++ decimal s.file_size));
        file_size = s.file_size;
        data_server = s.data_server;
        open_hosts = s.hops;
      };
    }))

unfoldable pub random_budget : Rng → ℕ → FileSession → FileSession
random_budget g size s = record s {
  file_size = size;
  rng = g.seeded s.opts.offset_seed;
  remaining = budget_of s.opts size;
  next_offset = 0;
  budget_set = true;
}

unfoldable pub walk_budget : ℕ → FileSession → FileSession
walk_budget size s = record s {
  file_size = size;
  remaining = min (size - s.opts.offset) (budget_of s.opts size);
  next_offset = s.opts.offset;
  budget_set = true;
}

-- `info`: StatInfo::GetSize, missing if the response holds none.
unfoldable pub handle_stat : Rng → Status → Option ℕ → Status → ℕ → FileSession → FileSession
handle_stat g st info reply now s =
    let size = get_or info 0 in
    if s.completed
    then s
    else if not st.is_ok
    then fail stat_stage st now s
    else if s.opts.random_offset
    then issue_next g reply now (random_budget g size s)
    else if leb size s.opts.offset
    then offset_beyond_file (record s { file_size = size })
    else issue_next g reply now (walk_budget size s)

unfoldable pub on_stat : Rng → Status → Option ℕ → Status → ℕ → FileSession → FileSession
on_stat g st info reply now s = release_if_idle (handle_stat g st info reply now (answered s))

-- `got`: VectorReadInfo::GetSize or ChunkInfo::GetLength, missing if the response holds neither.
unfoldable pub bytes_got : Option ℕ → FileSession → ℕ
bytes_got got s = get_or got (if ltb 0 s.opts.vector_chunks then s.requested else 0)

unfoldable pub count_read : ℕ → ℕ → FileSession → FileSession
count_read got now s =
    let lat = now - s.times.issue in
    record s {
      times = record s.times { first_byte = if s.ops == 0 then now else s.times.first_byte };
      ops = s.ops + 1;
      lat_sum = s.lat_sum + lat;
      lat_min = min s.lat_min lat;
      lat_max = max s.lat_max lat;
      bytes_read = s.bytes_read + got;
      next_offset = if s.opts.random_offset then s.next_offset else s.next_offset + got;
      remaining = if ltb got s.requested then 0 else s.remaining - got;
    }

unfoldable pub refund_short : ℕ → FileSession → List Effect
refund_short got s = if ltb got s.requested then (refund_bytes (s.requested - got) s).log else s.log

-- OnRead from the first counter to `requested_ = 0`.
unfoldable pub account_read : ℕ → ℕ → FileSession → FileSession
account_read got now s =
    let lat = now - s.times.issue in
    record (count_read got now s) {
      log = if s.pacing.on_read_op then read_op lat ∷ refund_short got s else refund_short got s;
      requested = 0;
    }

unfoldable pub hands_over : FileSession → Bool
hands_over s = s.pacing.paced && (ltb 0 s.remaining && s.pacing.on_ready)

unfoldable pub hand_over : FileSession → FileSession
hand_over s = record s { log = ready ∷ disarm ∷ s.log }

abbrev pub read_stage_of : FileSession → Stage
read_stage_of s = if ltb 0 s.opts.vector_chunks then vector_read_stage else read_stage

-- OnRead where it does not leave the session to the engine.
unfoldable pub handle_read : Rng → Status → Option ℕ → Status → ℕ → FileSession → FileSession
handle_read g st got reply now s =
    if s.completed
    then s
    else if not st.is_ok
    then fail (read_stage_of s) st now s
    else issue_next g reply now (account_read (bytes_got got s) now s)

-- A good response with bytes left, in a paced session: the next read waits for its tokens.
unfoldable pub parks : Status → Option ℕ → ℕ → FileSession → Bool
parks st got now s =
    not s.completed && (st.is_ok && hands_over (account_read (bytes_got got s) now s))

unfoldable pub on_read : Rng → Status → Option ℕ → Status → ℕ → FileSession → FileSession
on_read g st got reply now s0 =
    let s = answered s0 in
    if parks st got now s
    then hand_over (account_read (bytes_got got s) now s)
    else release_if_idle (handle_read g st got reply now s)

unfoldable pub wall_timeout_result : Status → ℕ → FileSession → FileSession
wall_timeout_result st now s =
    let c = capture_partial_counters now s in
    complete (record c {
      result = record c.result {
        timed_out = true;
        error = codes "session wall timeout";
        status_code = st.code;
        err_code = 110;
      };
    })

unfoldable pub handle_close : Status → ℕ → FileSession → FileSession
handle_close st now s =
    let e = record s { times = record s.times { end_at = now } } in
    if s.completed
    then s
    else if s.timed_out
    then wall_timeout_result st now e
    else if not st.is_ok
    then fail close_stage st now e
    else finish_ok e

unfoldable pub on_close : Status → ℕ → FileSession → FileSession
on_close st now s = release_if_idle (handle_close st now (answered s))

-- The watchdog's entry point.
unfoldable pub request_wall_timeout : Status → ℕ → FileSession → FileSession
request_wall_timeout reply now s =
    if s.completed || s.close_requested
    then s
    else release_if_idle (submit_close_op reply now (record s { timed_out = true }))

-- The engine's entry points.
unfoldable pub issue_next_from_engine : Rng → Status → ℕ → FileSession → FileSession
issue_next_from_engine g reply now s =
    release_if_idle (if s.completed then s else issue_next g reply now s)

unfoldable pub close_now : Status → ℕ → FileSession → FileSession
close_now reply now s =
    release_if_idle
      (if s.completed then s else submit_close_op reply now (record s { remaining = 0 }))
