-- ===== src/TokenBucket.antt =====
-- src/token_bucket.cc, include/xrdhover/token_bucket.hh: the byte-rate token bucket.
-- The source keeps its tokens in a double of bytes and its times in steady_clock nanoseconds. Here
-- tokens are counted in 10^-9 bytes, so that a nanosecond at rate r adds exactly r of them: the model
-- has no rounding. A clock reading is an argument of the call that makes it; each call holds the mutex.
pub mod Rounds
pub mod Rate
pub mod Wait
use xrdhover.Prelude.{
  ℕ, zero, suc, ◌+◌, ◌-◌, ◌*◌, ◌/◌, ◌%◌, ◌^◌, ◌≤◌, ◌<◌, min, max, ◌≡◌, refl, sym, ap, subst, ◌∙◌,
  ◌≢◌, ◌↔◌, ◌⊎◌, inl, inr, Bool, true, false, ◌&&◌, ◌||◌, not, Option, none, some, List, [], ◌∷◌,
  ◌++◌, map, arith, ltb, leb, ◌==◌, if◌then◌else◌, ltb→lt, lt→ltb, leb→le, ==_iff, Bool-cases,
  Option-cases, length, get_elem?, is_empty, drop, take, length-append, All,
}

abbrev pub nano : ℕ
nano = 1000000000

pub record TokenBucket : Type 0 where
  pub rate_bytes_per_s : ℕ
  pub capacity : ℕ
  pub tokens : ℕ
  pub last : ℕ

unfoldable pub new : ℕ → ℕ → ℕ → TokenBucket
new rate capacity_bytes now =
    let capacity =
      if ltb 0 capacity_bytes then capacity_bytes else if ltb 0 rate then rate else 1 in
    record { rate_bytes_per_s = rate; capacity = capacity; tokens = capacity * nano; last = now }

unfoldable pub refill : ℕ → TokenBucket → TokenBucket
refill now b = if b.rate_bytes_per_s == 0 then b else if leb now b.last then b else record b {
  tokens = min (b.capacity * nano) (b.tokens + (now - b.last) * b.rate_bytes_per_s);
  last = now;
}

-- Take n bytes if the tokens are there.
unfoldable pub take_tokens : ℕ → TokenBucket → TokenBucket × Bool
take_tokens n b =
    if leb (n * nano) b.tokens
    then (record b { tokens = b.tokens - n * nano }, true)
    else (b, false)

unfoldable pub try_acquire : ℕ → ℕ → TokenBucket → TokenBucket × Bool
try_acquire now n b =
    if (b.rate_bytes_per_s == 0) || (n == 0)
    then (b, true)
    else if ltb b.capacity n
    then (b, false)
    else take_tokens n (refill now b)

-- One round of the loop of AcquireUntil, with its two clock readings: taken, out of time, or
-- asleep until the next round.
unfoldable pub acquire_round : ℕ → ℕ → ℕ → ℕ → TokenBucket → TokenBucket × Option Bool
acquire_round n deadline now now' b =
    let (c, taken) = take_tokens n (refill now b) in
    if taken
    then (c, some true)
    else if leb deadline now'
    then (c, some false)
    else (refill now' c, none)

-- AcquireUntil over the clock readings of its rounds; none if they end before the loop does.
unfoldable pub acquire_rounds : ℕ → ℕ → List (ℕ × ℕ) → TokenBucket → TokenBucket × Option Bool
acquire_rounds n deadline [] b = (b, none)
acquire_rounds n deadline (t ∷ ts) b =
    let (c, answer) = acquire_round n deadline t.0 t.1 b in
    let later = acquire_rounds n deadline ts c in
    elim answer [ some taken ↦ (c, some taken) | none ↦ later ]

unfoldable pub acquire_until : ℕ → ℕ → List (ℕ × ℕ) → TokenBucket → TokenBucket × Option Bool
acquire_until n deadline ts b =
    if (b.rate_bytes_per_s == 0) || (n == 0)
    then (b, some true)
    else if ltb b.capacity n
    then (b, some false)
    else acquire_rounds n deadline ts b

-- SecondsUntil, in nanoseconds as its caller's duration_cast rounds it; 1e12 seconds for never.
unfoldable pub nanoseconds_until : ℕ → ℕ → TokenBucket → TokenBucket × ℕ
nanoseconds_until now n b =
    let c = refill now b in
    if (b.rate_bytes_per_s == 0) || (n == 0)
    then (b, 0)
    else if ltb b.capacity n
    then (b, 10 ^ 21)
    else if leb (n * nano) c.tokens
    then (c, 0)
    else (c, (n * nano - c.tokens) / c.rate_bytes_per_s)

unfoldable pub refund : ℕ → ℕ → TokenBucket → TokenBucket
refund now n b =
    let c = refill now b in
    if (b.rate_bytes_per_s == 0) || (n == 0)
    then b
    else record c { tokens = min (c.capacity * nano) (c.tokens + n * nano) }
