-- ===== src/TokenBucket/Rounds.antt =====
-- src/token_bucket.cc: what Refill and the rounds of AcquireUntil do to the tokens.
use xrdhover.TokenBucket.{acquire_round, acquire_rounds, TokenBucket, nano, refill, take_tokens}
use xrdhover.Prelude.{
  ℕ, ◌+◌, ◌-◌, ◌*◌, ◌≤◌, max, ◌≡◌, ap, refl, ◌∙◌, inl, inr, Bool, Option, none, some, leb,
  Bool-cases, Option-cases, List, [], ◌∷◌, arith, if◌then◌else◌,
}

abbrev pub latest : List (ℕ × ℕ) → ℕ
latest [] = 0
latest (t ∷ ts) = max (max t.0 t.1) (latest ts)

-- The bytes that a call hands out, and that it gives back.
abbrev pub got : Option Bool → ℕ → ℕ
got none n = 0
got (some taken) n = if taken then n else 0

-- The bucket never holds more than its capacity.
abbrev pub IsFilled : TokenBucket → Type 0
IsFilled b = b.tokens ≤ b.capacity * nano

pub refill-IsFilled : (now : ℕ) (b : TokenBucket) → IsFilled b → IsFilled (refill now b)
unfolding refill
refill-IsFilled now b h = ground arith

acquire_round-IsFilled :
    (n deadline now now' : ℕ) (b : TokenBucket)
    → IsFilled b
    → IsFilled (acquire_round n deadline now now' b).0
unfolding acquire_round take_tokens
acquire_round-IsFilled n deadline now now' b h =
    let c = refill now b in
    let first = refill-IsFilled now b h in ground (arith, first, refill-IsFilled now' c first)

rounds-asleep :
    (n deadline : ℕ) (t : ℕ × ℕ) (ts : List (ℕ × ℕ)) (b : TokenBucket)
    → let o = acquire_round n deadline t.0 t.1 b in
      o.1 ≡ none → acquire_rounds n deadline (t ∷ ts) b ≡ acquire_rounds n deadline ts o.0
unfolding acquire_rounds
rounds-asleep n deadline t ts b q = rw (acquire_rounds, q) refl

rounds-answered :
    (n deadline : ℕ) (t : ℕ × ℕ) (ts : List (ℕ × ℕ)) (b : TokenBucket) {taken : Bool}
    → let o = acquire_round n deadline t.0 t.1 b in
      o.1 ≡ some taken → acquire_rounds n deadline (t ∷ ts) b ≡ (o.0, some taken)
unfolding acquire_rounds
rounds-answered n deadline t ts b q = rw (acquire_rounds, q) refl

pub acquire_rounds-IsFilled :
    (n deadline : ℕ) (ts : List (ℕ × ℕ)) (b : TokenBucket)
    → IsFilled b
    → IsFilled (acquire_rounds n deadline ts b).0
unfolding acquire_rounds
acquire_rounds-IsFilled n deadline [] b h = h
acquire_rounds-IsFilled n deadline (t ∷ ts) b h =
    let o = acquire_round n deadline t.0 t.1 b in
    let first = acquire_round-IsFilled n deadline t.0 t.1 b h in
    elim (Option-cases o.1) [
      | inl q ↦
          rw (rounds-asleep n deadline t ts b q) (acquire_rounds-IsFilled n deadline ts o.0 first)
      | inr (taken, q) ↦ rw (rounds-answered n deadline t ts b q) first
    ]

pub elapsed : (a b r : ℕ) → b ≤ a → (a - b) * r + b * r ≡ a * r
elapsed a b r h = let e : (a - b) + b ≡ a = omega arith in omega (arith, ap (λ (t : ℕ). t * r) e)

pub times_mono : (a b r : ℕ) → a ≤ b → a * r ≤ b * r
times_mono a b r h = grind arith

pub refill-balance :
    (now : ℕ) (b : TokenBucket)
    → ((refill now b).tokens + b.last * b.rate_bytes_per_s
        ≤ b.tokens + (refill now b).last * b.rate_bytes_per_s)
      × ((refill now b).rate_bytes_per_s ≡ b.rate_bytes_per_s)
      × ((refill now b).capacity ≡ b.capacity)
      × ((refill now b).last ≤ max b.last now)
unfolding refill
refill-balance now b = ground (arith, elapsed now b.last b.rate_bytes_per_s)

-- What some rounds of AcquireUntil may do to the bucket, with the bytes handed out.
pub record Held (b c : TokenBucket) (taken latest : ℕ) : Type 0 where
  pub same_rate : c.rate_bytes_per_s ≡ b.rate_bytes_per_s
  pub same_capacity : c.capacity ≡ b.capacity
  pub later : c.last ≤ max b.last latest
  pub balance :
      c.tokens + taken * nano + b.last * b.rate_bytes_per_s ≤ b.tokens + c.last * b.rate_bytes_per_s

Held-trans :
    (b c d : TokenBucket) (taken m n : ℕ)
    → Held b c 0 m
    → Held c d taken n
    → Held b d taken (max m n)
Held-trans b c d taken m n h k = record {
  same_rate = k.same_rate ∙ h.same_rate;
  same_capacity = k.same_capacity ∙ h.same_capacity;
  later = omega (arith, h.later, k.later);
  balance = let second = rw h.same_rate at k.balance in omega (arith, h.balance, second);
}

refill-Held : (now : ℕ) (b : TokenBucket) → Held b (refill now b) 0 now
refill-Held now b =
    let (balance, rate, capacity, later) = refill-balance now b in
    record {
      same_rate = rate;
      same_capacity = capacity;
      later = later;
      balance = omega (arith, balance);
    }

Held-later : (b c : TokenBucket) (taken m n : ℕ) → m ≤ n → Held b c taken m → Held b c taken n
Held-later b c taken m n l h = record {
  same_rate = h.same_rate;
  same_capacity = h.same_capacity;
  later = omega (arith, h.later);
  balance = h.balance;
}

take_tokens-Held :
    (n : ℕ) (b : TokenBucket) → Held b (take_tokens n b).0 (got (some (take_tokens n b).1) n) 0
unfolding take_tokens
take_tokens-Held n b = elim (Bool-cases (leb (n * nano) b.tokens)) [
  | inl q ↦ rw q (record {
    same_rate = refl;
    same_capacity = refl;
    later = omega arith;
    balance = ground arith;
  })
  | inr q ↦ rw q (record {
    same_rate = refl;
    same_capacity = refl;
    later = omega arith;
    balance = omega arith;
  })
]

acquire_round-Held :
    (n deadline now now' : ℕ) (b : TokenBucket)
    → let o = acquire_round n deadline now now' b in Held b o.0 (got o.1 n) (max now now')
unfolding acquire_round
acquire_round-Held n deadline now now' b =
    let filled = refill now b in
    let o = take_tokens n filled in
    let taken =
      Held-trans b filled o.0 (got (some o.1) n) now 0 (refill-Held now b)
        (take_tokens-Held n filled) in
    elim (Bool-cases o.1) [
      | inl q ↦ rw q (Held-later b o.0 n (max now 0) (max now now') (omega arith) (rw q at taken))
      | inr q ↦
          let none_taken = rw q at taken in
          elim (Bool-cases (leb deadline now')) [
            | inl z ↦
                rw (q, z) (Held-later b o.0 0 (max now 0) (max now now') (omega arith) none_taken)
            | inr z ↦
                rw (q, z)
                  (Held-later b (refill now' o.0) 0 (max (max now 0) now') (max now now')
                    (omega arith)
                    (Held-trans b o.0 (refill now' o.0) 0 (max now 0) now' none_taken
                      (refill-Held now' o.0)))
          ]
    ]

pub acquire_rounds-Held :
    (n deadline : ℕ) (ts : List (ℕ × ℕ)) (b : TokenBucket)
    → let o = acquire_rounds n deadline ts b in Held b o.0 (got o.1 n) (latest ts)
unfolding acquire_rounds
acquire_rounds-Held n deadline [] b = record {
  same_rate = refl;
  same_capacity = refl;
  later = omega arith;
  balance = omega arith;
}
acquire_rounds-Held n deadline (t ∷ ts) b =
    let o = acquire_round n deadline t.0 t.1 b in
    let first = acquire_round-Held n deadline t.0 t.1 b in
    elim (Option-cases o.1) [
      | inl q ↦
          let rest = acquire_rounds n deadline ts o.0 in
          rw (rounds-asleep n deadline t ts b q) (
            Held-trans b o.0 rest.0 (got rest.1 n) (max t.0 t.1) (latest ts) (rw q at first)
              (acquire_rounds-Held n deadline ts o.0))
      | inr (taken, q) ↦ rw (rounds-answered n deadline t ts b q) (
          Held-later b o.0 (got (some taken) n) (max t.0 t.1) (latest (t ∷ ts)) (omega arith)
            (rw q at first))
    ]
