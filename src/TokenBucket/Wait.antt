-- ===== src/TokenBucket/Wait.antt =====
-- src/token_bucket.cc: how long the caller has to wait.
use xrdhover.TokenBucket.{TokenBucket, nano, refill, take_tokens, try_acquire, nanoseconds_until}
use xrdhover.TokenBucket.Rounds.{times_mono}
use xrdhover.Prelude.{ℕ, ◌+◌, ◌-◌, ◌*◌, ◌/◌, ◌≤◌, ◌<◌, ◌≡◌, true, arith}

div_rest : (d r : ℕ) → 0 < r → d < (d / r + 1) * r
div_rest d r h = grind arith

-- The take succeeds once the bucket was refilled for long enough.
refilled_enough :
    (later n : ℕ) (b : TokenBucket)
    → 0 < b.rate_bytes_per_s
    → n ≤ b.capacity
    → b.last < later
    → n * nano ≤ b.tokens + (later - b.last) * b.rate_bytes_per_s
    → (try_acquire later n b).1 ≡ true
unfolding try_acquire take_tokens refill
refilled_enough later n b r c l h = ground arith

refill-now :
    (now : ℕ) (b : TokenBucket)
    → 0 < b.rate_bytes_per_s
    → b.last ≤ now
    → ((refill now b).last ≡ now)
      × ((refill now b).rate_bytes_per_s ≡ b.rate_bytes_per_s)
      × ((refill now b).capacity ≡ b.capacity)
unfolding refill
refill-now now b r l = ground arith

wait-tokens :
    (now n : ℕ) (b : TokenBucket)
    → 0 < b.rate_bytes_per_s
    → 0 < n
    → n ≤ b.capacity
    → b.last ≤ now
    → let (c, w) = nanoseconds_until now n b in
      (c.rate_bytes_per_s ≡ b.rate_bytes_per_s)
      × (c.capacity ≡ b.capacity)
      × (c.last ≡ now)
      × (n * nano < c.tokens + (w + 1) * c.rate_bytes_per_s)
unfolding nanoseconds_until
wait-tokens now n b r p c l = ground (
  arith,
  refill-now now b r l,
  div_rest (n * nano - (refill now b).tokens) (refill now b).rate_bytes_per_s,
)

-- SecondsUntil is long enough: one nanosecond after the wait that it names, the same request of at
-- most the capacity is granted, if nobody else took tokens in between.
pub nanoseconds_until-enough :
    (now n later : ℕ) (b : TokenBucket)
    → 0 < b.rate_bytes_per_s
    → 0 < n
    → n ≤ b.capacity
    → b.last ≤ now
    → now + (nanoseconds_until now n b).1 < later
    → (try_acquire later n (nanoseconds_until now n b).0).1 ≡ true
nanoseconds_until-enough now n later b r p c l h =
    let w = wait-tokens now n b r p c l in
    let (c', wait) = nanoseconds_until now n b in
    refilled_enough later n c' (omega (arith, w.0)) (omega (arith, w.1)) (omega (arith, w.2)) (
      omega (
        arith,
        w.3,
        w.2,
        times_mono (wait + 1) (later - c'.last) c'.rate_bytes_per_s (omega (arith, w.2)),
      ))
