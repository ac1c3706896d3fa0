-- ===== src/Metrics/Percentile.antt =====
-- src/metrics.cc: HistogramPercentile, for a p that is not negative. The value of the result is a
-- fraction, the bounds are in 10^-9 units.
use xrdhover.Metrics.Snapshot.{Fraction, integral, nano, HistogramSnapshot}
use xrdhover.Prelude.{
  ℕ, ◌+◌, ◌-◌, ◌*◌, ◌%◌, ◌^◌, ◌||◌, List, [], ◌∷◌, ltb, ◌==◌, if◌then◌else◌, is_empty, drop,
}

-- `std::clamp(p, 0.0, 1.0)`.
abbrev pub clamp : Fraction → Fraction
clamp p = if ltb p.den p.num then integral 1 else p

-- The bound at the end of a bucket, after the bound `lower`: past the last one, twice that.
abbrev pub upper_of : ℕ → List ℕ → ℕ
upper_of lower [] = lower * 2
upper_of lower (b ∷ bounds) = b

abbrev pub back : ℕ → List ℕ → ℕ
back n [] = n
back n (b ∷ bounds) = back b bounds

-- `lower + frac * (upper - lower)`, where frac is `(target - prev) / c` for the target `rank / p.den`.
abbrev pub interpolate : Fraction → ℕ → ℕ → ℕ → ℕ → ℕ → Fraction
interpolate p rank prev c lower upper = record {
  num = lower * (p.den * c) + (rank - prev * p.den) * (upper - lower);
  den = 1000000000 * (p.den * c);
}

-- The loop from the bucket above `lower` on, with `cum` counted before it. There is at most one
-- bucket after the last bound.
unfoldable pub percentile_loop : Fraction → ℕ → ℕ → ℕ → List ℕ → ℕ → List ℕ → Fraction
percentile_loop p rank end lower bounds cum [] = nano end
percentile_loop p rank end lower bounds cum (c ∷ counts) =
    let next = (cum + c) % 2 ^ 64 in
    let upper = upper_of lower bounds in
    let rest = percentile_loop p rank end upper (drop 1 bounds) next counts in
    if ltb (next * p.den) rank
    then rest
    else if c == 0
    then nano upper
    else interpolate p rank cum c lower upper

unfoldable pub histogram_percentile : HistogramSnapshot → Fraction → Fraction
histogram_percentile h p =
    if (h.count == 0) || is_empty h.counts
    then integral 0
    else percentile_loop (clamp p) ((clamp p).num * h.count) (back 0 h.bounds) 0 h.bounds 0 h.counts
