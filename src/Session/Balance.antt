-- ===== src/Session/Balance.antt =====
-- src/file_session.cc: each handler keeps the token balance of a paced session.
use xrdhover.Prelude.Text.{Text}
use xrdhover.Prelude.Text.{Text}
use xrdhover.Session.Sizes.{next_op_bytes-requested}
use xrdhover.Session.Ops.{
  complete, capture_partial_counters, release_if_idle, request_close, submit_close_op,
  arm_op_deadline,
}
use xrdhover.Session.Plan.{next_op_bytes}
use xrdhover.Session.Tokens.{
  refunded, prepare_read-tokens_paid, release_if_idle-tokens, account_read-tokens, fail-tokens,
  read_refused-tokens, finish_reading-tokens, submit_close_op-tokens, tokens,
}
use xrdhover.Session.State.{Status, FileSession, Rng}
use xrdhover.Session.Issue.{
  stamp_issue, send_read, settle_prepaid, finish_reading, prepare_read, submit_next_read,
  issue_next,
}
use xrdhover.Session.Opening.{opened, answered, handle_open, on_open}
use xrdhover.Session.Handlers.{
  wall_timeout_result, handle_close, on_close, hands_over, parks, issue_next_from_engine, on_read,
  count_read, read_stage_of, account_read, bytes_got, handle_read, hand_over,
}
use xrdhover.Prelude.{
  sym, ap, ℕ, ◌+◌, ◌*◌, ◌^◌, ◌≤◌, ◌<◌, ◌≡◌, refl, ◌∙◌, ◌⊎◌, inl, inr, true, false, Option, arith,
  if◌then◌else◌, Bool-cases,
}

hand_over-tokens : (s : FileSession) → tokens (hand_over s) ≡ tokens s
unfolding hand_over
hand_over-tokens s = refl

-- IssueNext with nothing left to read.
issue_next-tokens_done :
    (g : Rng) (r : Status) (now : ℕ) (s : FileSession)
    → s.pacing.on_refund ≡ true
    → (s.timed_out ≡ true) ⊎ (s.remaining ≡ 0)
    → tokens (issue_next g r now s) ≡ tokens s
unfolding issue_next
issue_next-tokens_done g r now s e d =
    ground
      (arith, submit_close_op-tokens r now (finish_reading now s), finish_reading-tokens now s e)

submit_next_read-tokens :
    (g : Rng) (r : Status) (now : ℕ) (s : FileSession)
    → (prepare_read g now s).pacing.on_refund ≡ true
    → tokens (submit_next_read g r now s) ≡ tokens (prepare_read g now s)
unfolding submit_next_read
submit_next_read-tokens g r now s e =
    ground (arith, read_refused-tokens r now (prepare_read g now s))

handle_read-tokens :
    (g : Rng) (st : Status) (got : Option ℕ) (r : Status) (now : ℕ) (s : FileSession)
    → s.pacing.paced ≡ true
    → s.pacing.on_ready ≡ true
    → s.pacing.on_refund ≡ true
    → bytes_got got s ≤ s.requested
    → parks st got now s ≡ false
    → tokens (handle_read g st got r now s) ≡ tokens s
unfolding handle_read parks hands_over account_read count_read
handle_read-tokens g st got r now s p q e h z =
    let a = account_read (bytes_got got s) now s in
    ground (
      arith,
      fail-tokens (read_stage_of s) st now s,
      account_read-tokens (bytes_got got s) now s,
      issue_next-tokens_done g r now a,
    )

-- The tokens of a paced session, with on_ready and on_refund set, are kept by OnRead: whatever the
-- answer, as long as it is no longer than the request, what was paid is read, refunded, or still
-- held by the session.
pub on_read-balanced :
    (g : Rng) (st : Status) (got : Option ℕ) (r : Status) (now : ℕ) (s : FileSession)
    → s.pacing.paced ≡ true
    → s.pacing.on_ready ≡ true
    → s.pacing.on_refund ≡ true
    → bytes_got got s ≤ s.requested
    → tokens (on_read g st got r now s) ≡ tokens s
unfolding on_read answered bytes_got
on_read-balanced g st got r now s p q e h = elim (Bool-cases (parks st got now (answered s))) [
  | inl z ↦ rw z (
      hand_over-tokens (account_read (bytes_got got (answered s)) now (answered s))
      ∙ account_read-tokens (bytes_got got (answered s)) now (answered s) e h)
  | inr z ↦ rw z (
      release_if_idle-tokens (handle_read g st got r now (answered s))
      ∙ handle_read-tokens g st got r now (answered s) p q e h z)
]

prepare_read-on_refund :
    (g : Rng) (now : ℕ) (s : FileSession)
    → (prepare_read g now s).pacing.on_refund ≡ s.pacing.on_refund
unfolding prepare_read settle_prepaid send_read stamp_issue arm_op_deadline
prepare_read-on_refund g now s = refl

issue_paid-tokens :
    (g : Rng) (r : Status) (now : ℕ) (s : FileSession)
    → s.pacing.on_refund ≡ true
    → s.opts.chunk_size * s.opts.vector_chunks < 2 ^ 32
    → s.budget_set ≡ true
    → s.completed ≡ false
    → s.timed_out ≡ false
    → 0 < s.remaining
    → s.requested ≡ 0
    → s.pacing.prepaid_op_bytes ≡ 0
    → tokens (issue_next g r now s) ≡ tokens s + next_op_bytes s
unfolding issue_next
issue_paid-tokens g r now s e w b c t l q p = ground (
  arith,
  submit_next_read-tokens g r now s,
  prepare_read-on_refund g now s,
  prepare_read-tokens_paid g now s,
  next_op_bytes-requested g s,
)

issue_timed_out :
    (g : Rng) (r : Status) (now : ℕ) (s : FileSession)
    → s.completed ≡ false
    → s.timed_out ≡ true
    → issue_next g r now s ≡ submit_close_op r now (finish_reading now s)
unfolding issue_next
issue_timed_out g r now s c t = ground (arith, c, t)

issue_timed_out-tokens :
    (g : Rng) (r : Status) (now : ℕ) (s : FileSession)
    → s.pacing.on_refund ≡ true
    → s.completed ≡ false
    → s.timed_out ≡ true
    → tokens (issue_next g r now s) ≡ tokens s
issue_timed_out-tokens g r now s e c t =
    ap (λ (x : FileSession). tokens x) (issue_timed_out g r now s c t)
    ∙ submit_close_op-tokens r now (finish_reading now s)
    ∙ finish_reading-tokens now s e

-- The engine's call of IssueNext, for a session that waits for its next read and holds no tokens,
-- adds to the balance exactly the `next_op_bytes` that the engine took from the token bucket, also
-- if XrdCl refuses the read; but nothing if the session has timed out, whose tokens are lost. This
-- holds provided that on_refund is set and chunk_size * vector_chunks fits 32 bits.
pub issue_next_from_engine-balanced :
    (g : Rng) (r : Status) (now : ℕ) (s : FileSession)
    → s.pacing.on_refund ≡ true
    → s.opts.chunk_size * s.opts.vector_chunks < 2 ^ 32
    → s.budget_set ≡ true
    → s.completed ≡ false
    → 0 < s.remaining
    → s.requested ≡ 0
    → s.pacing.prepaid_op_bytes ≡ 0
    → tokens (issue_next_from_engine g r now s)
      ≡ tokens s + (if s.timed_out then 0 else next_op_bytes s)
unfolding issue_next_from_engine
issue_next_from_engine-balanced g r now s e w b c l q p =
    release_if_idle-tokens (if s.completed then s else issue_next g r now s)
    ∙ ap (λ done. tokens (if done then s else issue_next g r now s)) c
    ∙ elim (Bool-cases s.timed_out) [
      | inl t ↦
          issue_timed_out-tokens g r now s e c t
          ∙ sym (ap (λ late. tokens s + (if late then 0 else next_op_bytes s)) t ∙ omega arith)
      | inr t ↦
          issue_paid-tokens g r now s e w b c t l q p
          ∙ sym (ap (λ late. tokens s + (if late then 0 else next_op_bytes s)) t)
    ]

-- OnOpen loses the prepaid tokens of a session that timed out while its Open was in flight, where the
-- Open succeeded and XrdCl accepts the Close: the answer to the Close, whatever it is, completes the
-- session, and nothing is refunded on the way.
pub open_timeout_keeps_prepaid :
    (st r : Status) (now hosts : ℕ) (server : Text) (st' : Status) (now' : ℕ) (s : FileSession)
    → s.completed ≡ false
    → s.timed_out ≡ true
    → s.close_requested ≡ false
    → st.is_ok ≡ true
    → r.is_ok ≡ true
    → let t = on_close st' now' (on_open st r now hosts server s) in
      (t.completed ≡ true) × (refunded t.log ≡ refunded s.log)
unfolding on_open handle_open opened submit_close_op request_close arm_op_deadline answered
    release_if_idle on_close handle_close wall_timeout_result capture_partial_counters complete
open_timeout_keeps_prepaid st r now hosts server st' now' s c t q o k = ground arith
