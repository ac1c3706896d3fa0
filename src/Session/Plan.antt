-- ===== src/Session/Plan.antt =====
-- src/file_session.cc, include/xrdhover/random_io.hh: how much one read asks for, and where.
use xrdhover.Prelude.{
  ℕ, zero, suc, ◌+◌, ◌-◌, ◌*◌, ◌%◌, ◌^◌, min, max, ◌||◌, List, [], ◌∷◌, ltb, leb, ◌==◌,
  if◌then◌else◌,
}
use xrdhover.Session.State.{FileSessionOptions, FileSession, Chunk, Rng}

-- `chunk_size * vector_chunks` in uint32_t.
unfoldable pub op_bytes : FileSessionOptions → ℕ
op_bytes o =
    if ltb 0 o.vector_chunks then (o.chunk_size * o.vector_chunks) % 2 ^ 32 else o.chunk_size

unfoldable pub session_op_bytes : FileSessionOptions → ℕ
session_op_bytes o =
    let chunk = max o.chunk_size 1 in
    if ltb 0 o.vector_chunks then (chunk * o.vector_chunks) % 2 ^ 64 else chunk

unfoldable pub next_op_bytes : FileSession → ℕ
unfolding op_bytes
next_op_bytes s =
    let op = op_bytes s.opts in
    if s.budget_set then (if s.remaining == 0 then 0 else min op s.remaining) else op

unfoldable pub sample_random_read_offset : Rng → ℕ → ℕ → ℕ → ℕ × ℕ
sample_random_read_offset g state file_size len =
    if (file_size == 0) || ((len == 0) || leb file_size len)
    then (0, state)
    else g.uniform (file_size - len) state

-- The chunks, the engine's next state and the bytes asked for.
pub record Planned : Type 0 where
  pub chunks : List Chunk
  pub rng : ℕ
  pub requested : ℕ

-- The loop over `i < vector_chunks && left > 0` with a sampled offset for each chunk: `n` is the
-- number of rounds left, `pos` the position in the buffer.
unfoldable pub plan_random : Rng → ℕ → ℕ → ℕ → ℕ → ℕ → ℕ → Planned
unfolding sample_random_read_offset
plan_random g chunk file_size zero left pos state = record {
  chunks = [];
  rng = state;
  requested = 0;
}
plan_random g chunk file_size (suc n) left pos state =
    let len = min chunk left in
    let (off, state') = sample_random_read_offset g state file_size len in
    let rest = plan_random g chunk file_size n (left - len) (pos + len) state' in
    if ltb 0 left
    then record {
      chunks = record { off = off; len = len; at = pos } ∷ rest.chunks;
      rng = rest.rng;
      requested = len + rest.requested;
    }
    else record { chunks = []; rng = state; requested = 0 }

-- The same loop for consecutive chunks from `off`; the result's `requested` is `off - next_offset`.
unfoldable pub plan_sequential : ℕ → ℕ → ℕ → ℕ → ℕ → ℕ → Planned
plan_sequential chunk zero left pos off state = record { chunks = []; rng = state; requested = 0 }
plan_sequential chunk (suc n) left pos off state =
    let len = min chunk left in
    let rest = plan_sequential chunk n (left - len) (pos + len) (off + len) state in
    if ltb 0 left
    then record {
      chunks = record { off = off; len = len; at = pos } ∷ rest.chunks;
      rng = rest.rng;
      requested = len + rest.requested;
    }
    else record { chunks = []; rng = state; requested = 0 }
