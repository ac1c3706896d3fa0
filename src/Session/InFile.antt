-- ===== src/Session/InFile.antt =====
-- src/file_session.cc: which bytes of the file a session asks for, and its byte budget.
use xrdhover.Session.Sizes.{plan_read-le-remaining, plan_read-next_offset}
use xrdhover.Session.Ops.{arm_op_deadline}
use xrdhover.Session.Handlers.{count_read, budget_of, random_budget, account_read, walk_budget}
use xrdhover.Session.Plan.{sample_random_read_offset, plan_random, plan_sequential}
use xrdhover.Session.Issue.{stamp_issue, send_read, settle_prepaid, prepare_read, plan_read}
use xrdhover.Session.State.{vector_read, read_at, Rng, Chunk, FileSession, ReadRequest}
use xrdhover.Prelude.{
  ℕ, zero, suc, ◌+◌, ◌-◌, ◌≤◌, ◌<◌, min, ◌≡◌, ◌⊎◌, inl, inr, true, false, List, [], ◌∷◌, arith, ltb,
  Bool-cases, All,
}

-- std::uniform_int_distribution(0, bound) draws at most `bound`.
abbrev pub DrawsBelow : Rng → Type 0
DrawsBelow g = (bound state : ℕ) → (g.uniform bound state).0 ≤ bound

abbrev pub Within : ℕ → Chunk → Type 0
Within size c = c.off + c.len ≤ size

sample-Within :
    (g : Rng)
    → DrawsBelow g
    → (state size len : ℕ) → len ≤ size
    → (sample_random_read_offset g state size len).0 + len ≤ size
unfolding sample_random_read_offset
sample-Within g d state size len h = ground (arith, d (size - len) state)

plan_sequential-Within :
    (chunk n left pos off state size : ℕ)
    → off + left ≤ size
    → All (Within size) (plan_sequential chunk n left pos off state).chunks
unfolding plan_sequential
plan_sequential-Within chunk zero left pos off state size h = tt
plan_sequential-Within chunk (suc n) left pos off state size h = elim (Bool-cases (ltb 0 left)) [
  | inr e ↦ rw e tt
  | inl e ↦ rw e (
    omega arith,
    plan_sequential-Within chunk n (left - min chunk left) (pos + min chunk left)
        (off + min chunk left) state size (omega arith),
  )
]

plan_random-Within :
    (g : Rng)
    → DrawsBelow g
    → (chunk size n left pos state : ℕ) → left ≤ size
    → All (Within size) (plan_random g chunk size n left pos state).chunks
unfolding plan_random
plan_random-Within g d chunk size zero left pos state h = tt
plan_random-Within g d chunk size (suc n) left pos state h = elim (Bool-cases (ltb 0 left)) [
  | inr e ↦ rw e tt
  | inl e ↦ rw e (
    sample-Within g d state size (min chunk left) (omega arith),
    plan_random-Within g d chunk size n (left - min chunk left) (pos + min chunk left)
        (sample_random_read_offset g state size (min chunk left)).1 (omega arith),
  )
]

abbrev pub AsksWithin : ℕ → ReadRequest → Type 0
AsksWithin size (read_at off len) = off + len ≤ size
AsksWithin size (vector_read chunks) = All (Within size) chunks

-- What is left to read lies in the file: from the next offset on, or anywhere.
abbrev pub LeavesInFile : FileSession → Type 0
LeavesInFile s =
    (s.opts.random_offset ≡ false → s.next_offset + s.remaining ≤ s.file_size)
    × (s.remaining ≤ s.file_size)

-- Every byte that one read asks for lies in the file.
pub plan_read-AsksWithin :
    (g : Rng) (s : FileSession)
    → DrawsBelow g
    → LeavesInFile s
    → AsksWithin s.file_size (plan_read g s).request
unfolding plan_read
plan_read-AsksWithin g s d h = elim (Bool-cases (ltb 0 s.opts.vector_chunks)) [
  | inr e ↦ elim (Bool-cases s.opts.random_offset) [
    | inl r ↦
        rw (e, r)
          (sample-Within g d s.rng s.file_size (min s.opts.chunk_size s.remaining) (omega arith))
    | inr r ↦ rw (e, r) (ground (arith, h.0 r))
  ]
  | inl e ↦ elim (Bool-cases s.opts.random_offset) [
    | inl r ↦
        rw (e, r)
          (plan_random-Within g d s.opts.chunk_size s.file_size s.opts.vector_chunks s.remaining 0
            s.rng h.1)
    | inr r ↦
        rw (e, r)
          (plan_sequential-Within s.opts.chunk_size s.opts.vector_chunks s.remaining 0 s.next_offset
            s.rng s.file_size (h.0 r))
  ]
]

-- The bytes still allowed to a session: what it read and what is left never pass the budget.
pub record IsBudgeted (s : FileSession) : Type 0 where
  pub in_file : LeavesInFile s
  pub in_budget : s.bytes_read + s.remaining ≤ budget_of s.opts s.file_size
  pub in_request : s.requested ≤ s.remaining

random_budget-IsBudgeted :
    (g : Rng) (size : ℕ) (s : FileSession)
    → s.bytes_read ≡ 0
    → s.requested ≡ 0
    → s.opts.random_offset ≡ true
    → IsBudgeted (random_budget g size s)
unfolding random_budget budget_of
random_budget-IsBudgeted g size s b q r = ground arith

walk_budget-IsBudgeted :
    (size : ℕ) (s : FileSession)
    → s.bytes_read ≡ 0
    → s.requested ≡ 0
    → s.opts.offset < size
    → IsBudgeted (walk_budget size s)
unfolding walk_budget budget_of
walk_budget-IsBudgeted size s b q r = ground arith

account_read-IsBudgeted :
    (got now : ℕ) (s : FileSession)
    → got ≤ s.requested
    → IsBudgeted s
    → IsBudgeted (account_read got now s)
unfolding account_read count_read budget_of
account_read-IsBudgeted got now s h b = ground arith

-- Sending a read of what the plan asks for.
pub prepare_read-IsBudgeted :
    (g : Rng) (now : ℕ) (s : FileSession)
    → (s.opts.random_offset ≡ true) ⊎ ((plan_read g s).next_offset ≡ s.next_offset)
    → (plan_read g s).requested ≤ s.remaining
    → IsBudgeted s
    → IsBudgeted (prepare_read g now s)
unfolding prepare_read settle_prepaid send_read stamp_issue arm_op_deadline
prepare_read-IsBudgeted g now s r q b = ground arith

-- Any number of reads and answers: `(issued, answered, got)` for each, where the server returns
-- at most what was asked for.
pub reads : Rng → List (ℕ × ℕ × ℕ) → FileSession → FileSession
reads g [] s = s
reads g ((issued, answered, got) ∷ rounds) s =
    let sent = prepare_read g issued s in
    reads g rounds (account_read (min got sent.requested) answered sent)

round-IsBudgeted :
    (g : Rng) (issued answered got : ℕ) (s : FileSession)
    → IsBudgeted s
    → IsBudgeted (
        account_read
          (min got (prepare_read g issued s).requested)
          answered
          (prepare_read g issued s))
round-IsBudgeted g issued answered got s b =
    account_read-IsBudgeted (min got (prepare_read g issued s).requested) answered
      (prepare_read g issued s) (omega arith)
      (prepare_read-IsBudgeted g issued s (plan_read-next_offset g s) (plan_read-le-remaining g s)
        b)

reads-IsBudgeted :
    (g : Rng) (rounds : List (ℕ × ℕ × ℕ)) (s : FileSession)
    → IsBudgeted s
    → IsBudgeted (reads g rounds s)
unfolding reads
reads-IsBudgeted g [] s b = b
reads-IsBudgeted g ((issued, answered, got) ∷ rounds) s b =
    reads-IsBudgeted g rounds _ (round-IsBudgeted g issued answered got s b)

module _ (g : Rng) (d : DrawsBelow g) (rounds : List (ℕ × ℕ × ℕ)) (size : ℕ) (s : FileSession)
    (fresh : (s.bytes_read ≡ 0) × (s.requested ≡ 0)) where
  -- However many reads a walk that starts in the file makes from OnStat on, with answers no longer
  -- than asked for, it reads at most its budget, and its next read asks only for bytes of the
  -- file, if the engine draws within its bounds.
  pub walk_in_file :
      s.opts.offset < size
      → let t = reads g rounds (walk_budget size s) in
        (t.bytes_read ≤ budget_of t.opts t.file_size)
        × AsksWithin t.file_size (plan_read g t).request
  walk_in_file h =
      let b =
        reads-IsBudgeted g rounds (walk_budget size s)
          (walk_budget-IsBudgeted size s fresh.0 fresh.1 h) in
      (ground (arith, b.in_budget), plan_read-AsksWithin g _ d b.in_file)

  -- However many reads a session at random offsets makes from OnStat on, with answers no longer
  -- than asked for, it reads at most its budget, and each piece of its next read lies in the file,
  -- if the engine draws within its bounds.
  pub random_in_file :
      s.opts.random_offset ≡ true
      → let t = reads g rounds (random_budget g size s) in
        (t.bytes_read ≤ budget_of t.opts t.file_size)
        × AsksWithin t.file_size (plan_read g t).request
  random_in_file h =
      let b =
        reads-IsBudgeted g rounds (random_budget g size s)
          (random_budget-IsBudgeted g size s fresh.0 fresh.1 h) in
      (ground (arith, b.in_budget), plan_read-AsksWithin g _ d b.in_file)
