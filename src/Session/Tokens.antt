-- ===== src/Session/Tokens.antt =====
-- src/file_session.cc: the tokens that the engine paid for a session are read or refunded.
use xrdhover.Session.Ops.{
  set_error, Stage, record_failure, capture_partial_counters, refund_prepaid, close_refused,
  give_back, fail, submit_close_op, request_close, complete, release_if_idle, arm_op_deadline,
  refund_bytes,
}
use xrdhover.Session.Handlers.{refund_short, count_read, account_read}
use xrdhover.Session.State.{Status, Rng, refund, Effect, FileSession}
use xrdhover.Session.Issue.{
  finish_reading, read_refused, plan_read, stamp_issue, send_read, settle_prepaid, prepare_read,
}
use xrdhover.Prelude.{ℕ, ◌+◌, ◌≤◌, ◌≡◌, refl, ◌∙◌, inl, inr, true, List, [], ◌∷◌, arith, Bool-cases}

abbrev pub refunded : List Effect → ℕ
refunded [] = 0
refunded (refund n ∷ log) = n + refunded log
refunded (_ ∷ log) = refunded log

-- Where the tokens of a session are: refunded, spent on bytes read, on the read in flight, or still
-- prepaid for the first read.
abbrev pub tokens : FileSession → ℕ
tokens s = refunded s.log + s.bytes_read + s.requested + s.pacing.prepaid_op_bytes

-- An answered read, however short, accounts for what it asked for.
pub account_read-tokens :
    (got now : ℕ) (s : FileSession)
    → s.pacing.on_refund ≡ true
    → got ≤ s.requested
    → tokens (account_read got now s) ≡ tokens s
unfolding account_read count_read refund_short refund_bytes
account_read-tokens got now s r h = ground arith

-- The first read is paid for in advance; what it does not need comes back.
pub prepare_read-tokens_prepaid :
    (g : Rng) (now : ℕ) (s : FileSession)
    → s.pacing.on_refund ≡ true
    → s.requested ≡ 0
    → (plan_read g s).requested ≤ s.pacing.prepaid_op_bytes
    → tokens (prepare_read g now s) ≡ tokens s
unfolding prepare_read settle_prepaid send_read stamp_issue arm_op_deadline refund_bytes
prepare_read-tokens_prepaid g now s r q h = ground arith

-- A later read is paid for by the engine, which takes `next_op_bytes`.
pub prepare_read-tokens_paid :
    (g : Rng) (now : ℕ) (s : FileSession)
    → s.requested ≡ 0
    → s.pacing.prepaid_op_bytes ≡ 0
    → tokens (prepare_read g now s) ≡ tokens s + (plan_read g s).requested
unfolding prepare_read settle_prepaid send_read stamp_issue arm_op_deadline refund_bytes
prepare_read-tokens_paid g now s q h = ground arith

pub complete-tokens : (s : FileSession) → tokens (complete s) ≡ tokens s
unfolding complete
complete-tokens s = ground arith

pub release_if_idle-tokens : (s : FileSession) → tokens (release_if_idle s) ≡ tokens s
unfolding release_if_idle
release_if_idle-tokens s = refl

close_refused-tokens :
    (r : Status) (now : ℕ) (s : FileSession) → tokens (close_refused r now s) ≡ tokens s
unfolding close_refused capture_partial_counters set_error
close_refused-tokens r now s = elim (Bool-cases s.timed_out) [
  | inl e ↦ rw e (complete-tokens _)
  | inr e ↦ rw e (complete-tokens _)
]

request_close-tokens : (s : FileSession) → tokens (request_close s) ≡ tokens s
unfolding request_close arm_op_deadline
request_close-tokens s = ground arith

pub submit_close_op-tokens :
    (r : Status) (now : ℕ) (s : FileSession) → tokens (submit_close_op r now s) ≡ tokens s
unfolding submit_close_op
submit_close_op-tokens r now s =
    ground (arith, request_close-tokens s, close_refused-tokens r now (request_close s))

pub refund_prepaid-tokens :
    (s : FileSession) → s.pacing.on_refund ≡ true → tokens (refund_prepaid s) ≡ tokens s
unfolding refund_prepaid refund_bytes
refund_prepaid-tokens s r = ground arith

give_back-tokens :
    (g : Stage) (s : FileSession) → s.pacing.on_refund ≡ true → tokens (give_back g s) ≡ tokens s
unfolding give_back refund_bytes
give_back-tokens g s r = ground (arith, refund_prepaid-tokens s r)

pub fail-tokens :
    (g : Stage) (st : Status) (now : ℕ) (s : FileSession)
    → s.pacing.on_refund ≡ true
    → tokens (fail g st now s) ≡ tokens s
unfolding fail record_failure capture_partial_counters set_error
fail-tokens g st now s r =
    complete-tokens (give_back g (record_failure g st now s))
    ∙ give_back-tokens g (record_failure g st now s) r

pub finish_reading-tokens :
    (now : ℕ) (s : FileSession)
    → s.pacing.on_refund ≡ true
    → tokens (finish_reading now s) ≡ tokens s
unfolding finish_reading
finish_reading-tokens now s r = refund_prepaid-tokens _ r

pub read_refused-tokens :
    (r : Status) (now : ℕ) (s : FileSession)
    → s.pacing.on_refund ≡ true
    → tokens (read_refused r now s) ≡ tokens s
unfolding read_refused capture_partial_counters set_error refund_bytes
read_refused-tokens r now s e = complete-tokens _ ∙ ground arith
