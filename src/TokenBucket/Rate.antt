-- ===== src/TokenBucket/Rate.antt =====
-- src/token_bucket.cc: the rate that the bucket promises.
use xrdhover.TokenBucket.Rounds.{
  latest, got, IsFilled, refill-IsFilled, acquire_rounds-IsFilled, elapsed, times_mono,
  refill-balance, acquire_rounds-Held,
}
use xrdhover.TokenBucket.{
  acquire_until, TokenBucket, nano, take_tokens, try_acquire, refund, nanoseconds_until,
}
use xrdhover.Prelude.{
  ℕ, ◌+◌, ◌-◌, ◌*◌, ◌≤◌, ◌<◌, max, ◌≡◌, List, [], ◌∷◌, arith, if◌then◌else◌, All,
}

-- A call with the clock readings that it makes; AcquireUntil makes two in each of its rounds.
pub data Call : Type 0 where
  acquires : ℕ → ℕ → Call
  acquires_until : ℕ → ℕ → List (ℕ × ℕ) → Call
  refunds : ℕ → ℕ → Call
  asks : ℕ → ℕ → Call

-- The latest clock reading of a call.
abbrev pub at : Call → ℕ
at (acquires_until n deadline ts) = latest ts
at (acquires now n) = now
at (refunds now n) = now
at (asks now n) = now

unfoldable pub call : Call → TokenBucket → TokenBucket
call (acquires now n) b = (try_acquire now n b).0
call (acquires_until n deadline ts) b = (acquire_until n deadline ts b).0
call (refunds now n) b = refund now n b
call (asks now n) b = (nanoseconds_until now n b).0

unfoldable pub granted : Call → TokenBucket → ℕ
granted (acquires now n) b = if (try_acquire now n b).1 then n else 0
granted (acquires_until n deadline ts) b = got (acquire_until n deadline ts b).1 n
granted (refunds now n) b = 0
granted (asks now n) b = 0

abbrev pub returned : Call → ℕ
returned (acquires now n) = 0
returned (acquires_until n deadline ts) = 0
returned (refunds now n) = n
returned (asks now n) = 0

unfoldable pub run : List Call → TokenBucket → TokenBucket
run [] b = b
run (c ∷ cs) b = run cs (call c b)

unfoldable pub granted_by : List Call → TokenBucket → ℕ
granted_by [] b = 0
granted_by (c ∷ cs) b = granted c b + granted_by cs (call c b)

unfoldable pub returned_by : List Call → ℕ
returned_by [] = 0
returned_by (c ∷ cs) = returned c + returned_by cs

call-IsFilled : (c : Call) (b : TokenBucket) → IsFilled b → IsFilled (call c b)
unfolding call try_acquire take_tokens acquire_until refund nanoseconds_until
call-IsFilled (acquires now n) b h = ground (arith, refill-IsFilled now b h)
call-IsFilled (acquires_until n deadline ts) b h =
    ground (arith, acquire_rounds-IsFilled n deadline ts b h)
call-IsFilled (refunds now n) b h = ground (arith, refill-IsFilled now b h)
call-IsFilled (asks now n) b h = ground (arith, refill-IsFilled now b h)

-- However the calls are mixed, the bucket never holds more than its capacity.
pub run-IsFilled : (cs : List Call) (b : TokenBucket) → IsFilled b → IsFilled (run cs b)
unfolding run
run-IsFilled [] b h = h
run-IsFilled (c ∷ cs) b h = run-IsFilled cs (call c b) (call-IsFilled c b h)

-- What one call may do: the rate and the capacity stay, and the tokens that it hands out or leaves
-- came from before, from time, or from a refund.
record Accounts (c : Call) (b : TokenBucket) : Type 0 where
  same_rate : (call c b).rate_bytes_per_s ≡ b.rate_bytes_per_s
  same_capacity : (call c b).capacity ≡ b.capacity
  later : (call c b).last ≤ max b.last (at c)
  balance :
      (call c b).tokens + granted c b * nano + b.last * b.rate_bytes_per_s
      ≤ b.tokens + returned c * nano + (call c b).last * b.rate_bytes_per_s

call-Accounts : (c : Call) (b : TokenBucket) → 0 < b.rate_bytes_per_s → Accounts c b
unfolding call granted try_acquire take_tokens acquire_until refund nanoseconds_until
call-Accounts (acquires now n) b r = ground (arith, refill-balance now b)
call-Accounts (acquires_until n deadline ts) b r =
    ground (arith, acquire_rounds-Held n deadline ts b)
call-Accounts (refunds now n) b r = ground (arith, refill-balance now b)
call-Accounts (asks now n) b r = ground (arith, refill-balance now b)

run-balance :
    (cs : List Call) (b : TokenBucket)
    → 0 < b.rate_bytes_per_s
    → ((run cs b).tokens + granted_by cs b * nano + b.last * b.rate_bytes_per_s
        ≤ b.tokens + returned_by cs * nano + (run cs b).last * b.rate_bytes_per_s)
unfolding run granted_by returned_by granted call
run-balance [] b r = omega arith
run-balance (c ∷ cs) b r =
    let a = call-Accounts c b r in
    let ih = run-balance cs (call c b) (omega (arith, a.same_rate)) in
    omega (arith, a, rw a.same_rate at ih)

run-last :
    (cs : List Call) (b : TokenBucket) (end : ℕ)
    → 0 < b.rate_bytes_per_s
    → b.last ≤ end
    → All (λ c. at c ≤ end) cs
    → (run cs b).last ≤ end
unfolding run
run-last [] b end r l h = l
run-last (c ∷ cs) b end r l h =
    let a = call-Accounts c b r in
    run-last cs (call c b) end (omega (arith, a.same_rate)) (omega (arith, a.later, h.0)) h.1

-- The rate hold: of a bucket with a rate, any sequence of calls up to time `end` (TryAcquire,
-- AcquireUntil, Refund and SecondsUntil) takes at most the capacity, the rate times the time passed since the bucket's last refill, and what was refunded.
pub granted_by-le-rate :
    (cs : List Call) (b : TokenBucket) (end : ℕ)
    → 0 < b.rate_bytes_per_s
    → IsFilled b
    → b.last ≤ end
    → All (λ c. at c ≤ end) cs
    → granted_by cs b * nano
      ≤ b.capacity * nano + (end - b.last) * b.rate_bytes_per_s + returned_by cs * nano
granted_by-le-rate cs b end r f l h = omega (
  arith,
  run-balance cs b r,
  elapsed end b.last b.rate_bytes_per_s l,
  times_mono (run cs b).last end b.rate_bytes_per_s (run-last cs b end r l h),
)
