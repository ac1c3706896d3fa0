-- ===== src/Session/Sizes.antt =====
-- src/file_session.cc: how much one read asks for, against what the engine pays and what the
-- buffer holds.
use xrdhover.Session.State.{vector_read, FileSession, Rng, read_at, Chunk, ReadRequest}
use xrdhover.Session.Issue.{plan_read}
use xrdhover.Session.Plan.{
  sample_random_read_offset, op_bytes, plan_sequential, next_op_bytes, plan_random,
}
use xrdhover.Prelude.{
  ◌⊎◌, inl, inr, ltb, zero, true, Bool-cases, ◌-◌, ◌^◌, All, ◌<◌, suc, ◌≤◌, ◌*◌, min, ◌+◌, ℕ, ◌≡◌,
  arith,
}

plan_sequential-requested :
    (chunk n left pos off state : ℕ)
    → (plan_sequential chunk n left pos off state).requested ≡ min (chunk * n) left
unfolding plan_sequential
plan_sequential-requested chunk zero left pos off state = omega arith
plan_sequential-requested chunk (suc n) left pos off state = ground (
  arith,
  plan_sequential-requested chunk n (left - min chunk left) (pos + min chunk left)
      (off + min chunk left) state,
)

plan_random-requested :
    (g : Rng) (chunk size n left pos state : ℕ)
    → (plan_random g chunk size n left pos state).requested ≡ min (chunk * n) left
unfolding plan_random
plan_random-requested g chunk size zero left pos state = omega arith
plan_random-requested g chunk size (suc n) left pos state =
    let len = min chunk left in
    ground (
      arith,
      plan_random-requested g chunk size n (left - len) (pos + len)
          (sample_random_read_offset g state size len).1,
    )

-- A chunk's place in the buffer.
abbrev pub EndsBy : ℕ → Chunk → Type 0
EndsBy size c = c.at + c.len ≤ size

plan_sequential-EndsBy :
    (chunk n left pos off state size : ℕ)
    → pos + min (chunk * n) left ≤ size
    → All (EndsBy size) (plan_sequential chunk n left pos off state).chunks
unfolding plan_sequential
plan_sequential-EndsBy chunk zero left pos off state size h = tt
plan_sequential-EndsBy chunk (suc n) left pos off state size h = elim (Bool-cases (ltb 0 left)) [
  | inr e ↦ rw e tt
  | inl e ↦ rw e (
    omega arith,
    plan_sequential-EndsBy chunk n (left - min chunk left) (pos + min chunk left)
        (off + min chunk left) state size (omega arith),
  )
]

plan_random-EndsBy :
    (g : Rng) (chunk file n left pos state size : ℕ)
    → pos + min (chunk * n) left ≤ size
    → All (EndsBy size) (plan_random g chunk file n left pos state).chunks
unfolding plan_random
plan_random-EndsBy g chunk file zero left pos state size h = tt
plan_random-EndsBy g chunk file (suc n) left pos state size h = elim (Bool-cases (ltb 0 left)) [
  | inr e ↦ rw e tt
  | inl e ↦ rw e (
    omega arith,
    plan_random-EndsBy g chunk file n (left - min chunk left) (pos + min chunk left)
        (sample_random_read_offset g state file (min chunk left)).1 size (omega arith),
  )
]

-- One read asks for `op_bytes`, or for what is left, if the product fits 32 bits.
pub plan_read-requested :
    (g : Rng) (s : FileSession)
    → s.opts.chunk_size * s.opts.vector_chunks < 2 ^ 32
    → (plan_read g s).requested ≡ min (op_bytes s.opts) s.remaining
unfolding plan_read op_bytes
plan_read-requested g s h = ground (
  arith,
  plan_sequential-requested s.opts.chunk_size s.opts.vector_chunks s.remaining 0 s.next_offset
      s.rng,
  plan_random-requested g s.opts.chunk_size s.file_size s.opts.vector_chunks s.remaining 0 s.rng,
)

-- No read asks for more than is left, and a walk goes on where it stands.
pub plan_read-le-remaining : (g : Rng) (s : FileSession) → (plan_read g s).requested ≤ s.remaining
unfolding plan_read
plan_read-le-remaining g s = ground (
  arith,
  plan_sequential-requested s.opts.chunk_size s.opts.vector_chunks s.remaining 0 s.next_offset
      s.rng,
  plan_random-requested g s.opts.chunk_size s.file_size s.opts.vector_chunks s.remaining 0 s.rng,
)

pub plan_read-next_offset :
    (g : Rng) (s : FileSession)
    → (s.opts.random_offset ≡ true) ⊎ ((plan_read g s).next_offset ≡ s.next_offset)
unfolding plan_read
plan_read-next_offset g s = ground arith

-- What the engine takes from the token bucket for the next read of a session with a budget is
-- what that read asks for, provided that chunk_size * vector_chunks fits 32 bits.
pub next_op_bytes-requested :
    (g : Rng) (s : FileSession)
    → s.opts.chunk_size * s.opts.vector_chunks < 2 ^ 32
    → s.budget_set ≡ true
    → next_op_bytes s ≡ (plan_read g s).requested
unfolding next_op_bytes
next_op_bytes-requested g s h b = ground (arith, plan_read-requested g s h)

abbrev pub RequestFits : ℕ → ReadRequest → Type 0
RequestFits size (read_at off len) = len ≤ size
RequestFits size (vector_read chunks) = All (EndsBy size) chunks

-- No read writes past the buffer that Start allocated, provided that chunk_size * vector_chunks
-- fits 32 bits.
pub plan_read_fits_buffer :
    (g : Rng) (s : FileSession)
    → s.opts.chunk_size * s.opts.vector_chunks < 2 ^ 32
    → s.buffer_size ≡ op_bytes s.opts
    → RequestFits s.buffer_size (plan_read g s).request
unfolding plan_read op_bytes
plan_read_fits_buffer g s h b = elim (Bool-cases (ltb 0 s.opts.vector_chunks)) [
  | inr e ↦ rw e (ground arith)
  | inl e ↦ elim (Bool-cases s.opts.random_offset) [
    | inl r ↦
        rw (e, r)
          (plan_random-EndsBy g s.opts.chunk_size s.file_size s.opts.vector_chunks s.remaining 0
            s.rng s.buffer_size (ground arith))
    | inr r ↦
        rw (e, r)
          (plan_sequential-EndsBy s.opts.chunk_size s.opts.vector_chunks s.remaining 0 s.next_offset
            s.rng s.buffer_size (ground arith))
  ]
]

-- Where the product does not fit 32 bits, OpBytes wraps, and with as many bytes left the read asks
-- for more than the buffer holds.
pub plan_read_overruns_buffer :
    (g : Rng) (s : FileSession)
    → 2 ^ 32 ≤ s.opts.chunk_size * s.opts.vector_chunks
    → s.opts.chunk_size * s.opts.vector_chunks ≤ s.remaining
    → s.buffer_size ≡ op_bytes s.opts
    → s.buffer_size < (plan_read g s).requested
unfolding plan_read op_bytes
plan_read_overruns_buffer g s h l b = ground (
  arith,
  plan_sequential-requested s.opts.chunk_size s.opts.vector_chunks s.remaining 0 s.next_offset
      s.rng,
  plan_random-requested g s.opts.chunk_size s.file_size s.opts.vector_chunks s.remaining 0 s.rng,
)
