-- ===== src/Metrics/Ranks.antt =====
-- src/metrics.cc: a percentile lies in the bucket that holds its rank.
use xrdhover.Metrics.Snapshot.{Fraction}
use xrdhover.Metrics.Percentile.{upper_of}
use xrdhover.Prelude.{ℕ, ◌+◌, ◌*◌, ◌≤◌, ◌⊎◌, List, [], ◌∷◌, drop}

-- A fraction from `lower` to `upper`, both in 10^-9 units.
pub record Between (lower upper : ℕ) (r : Fraction) : Type 0 where
  pub above : lower * r.den ≤ r.num * 1000000000
  pub below : r.num * 1000000000 ≤ upper * r.den

-- The fraction lies within the bounds of a bucket, and the rank, in units of 1 / p.den, between the
-- counts before and after that bucket.
pub Ranked : Fraction → ℕ → Fraction → ℕ → List ℕ → ℕ → List ℕ → Type 0
Ranked p rank r lower bounds cum [] = ⊥
Ranked p rank r lower bounds cum (c ∷ counts) =
    ((cum * p.den ≤ rank) × (rank ≤ (cum + c) * p.den) × Between lower (upper_of lower bounds) r)
    ⊎ Ranked p rank r (upper_of lower bounds) (drop 1 bounds) (cum + c) counts

IsAscending : ℕ → List ℕ → Type 0
IsAscending lower [] = Unit
IsAscending lower (b ∷ bounds) = (lower ≤ b) × IsAscending b bounds
