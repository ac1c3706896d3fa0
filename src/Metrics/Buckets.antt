-- ===== src/Metrics/Buckets.antt =====
-- src/metrics.cc: the histogram. Each observation lands in the first bucket whose bound it does not
-- pass, and the buckets add up to the count.
use xrdhover.Metrics.Data.{
  bump, Histogram, new_histogram, observe, bucket_index, bucket_loop, latency_bucket_bounds, zeros,
}
use xrdhover.Metrics.Sums.{sum, sum-bump}
use mathlib.Core.Option.{get_or}
use xrdhover.Prelude.{
  ℕ, zero, suc, ◌+◌, ◌%◌, ◌^◌, ◌≤◌, ◌<◌, ◌≡◌, refl, ◌∙◌, inl, inr, Option, List, [], ◌∷◌, arith,
  leb, Bool-cases, length, drop, take, All,
}

-- The value is at most the bound at the index, and more than every bound before it.
abbrev pub Fits : ℕ → ℕ → List ℕ → Type 0
Fits value i bounds =
    All (λ b. b < value) (take i bounds) × All (λ b. value ≤ b) (take 1 (drop i bounds))

bucket_loop-Fits :
    (value : ℕ) (bounds : List ℕ)
    → Fits value (bucket_loop value bounds) bounds × (bucket_loop value bounds ≤ length bounds)
unfolding bucket_loop
bucket_loop-Fits value [] = ((tt, tt), omega arith)
bucket_loop-Fits value (b ∷ bounds) =
    let ih = bucket_loop-Fits value bounds in
    elim (Bool-cases (leb value b)) [
      | inl q ↦ rw q ((tt, (ground arith, tt)), omega arith)
      | inr q ↦ rw q (((ground arith, ih.0.0), ih.0.1), omega (arith, ih.1))
    ]

-- The bucket of a value is the first one whose bound it does not pass, or the last of the 16.
pub bucket_index-Fits :
    (value : ℕ) → Fits value (bucket_index value) latency_bucket_bounds × (bucket_index value < 16)
unfolding bucket_index
bucket_index-Fits value =
    let h = bucket_loop-Fits value latency_bucket_bounds in (h.0, omega (arith, h.1))

unfoldable pub observe_all : List (Option ℕ) → Histogram → Histogram
observe_all [] h = h
observe_all (v ∷ vs) h = observe_all vs (observe v h)

abbrev IsCounted : Histogram → Type 0
IsCounted h = (length h.buckets ≡ 16) × (sum h.buckets % 2 ^ 64 ≡ h.count)

observe-IsCounted : (v : Option ℕ) (h : Histogram) → IsCounted h → IsCounted (observe v h)
unfolding observe
observe-IsCounted v h c =
    let i = bucket_index (get_or v 0) in
    let b = sum-bump i 1 h.buckets (omega (arith, (bucket_index-Fits (get_or v 0)).1, c.0)) in
    (b.0 ∙ c.0, omega (arith, b.1, c.1))

observe_all-keeps :
    (vs : List (Option ℕ)) (h : Histogram)
    → IsCounted h
    → IsCounted (observe_all vs h)
      × ((h.count + length vs) % 2 ^ 64 ≡ (observe_all vs h).count % 2 ^ 64)
unfolding observe_all observe
observe_all-keeps [] h c = (c, omega arith)
observe_all-keeps (v ∷ vs) h c =
    let ih = observe_all-keeps vs (observe v h) (observe-IsCounted v h c) in
    (ih.0, omega (arith, ih.1))

-- After any observations, the 16 buckets of a new histogram add up to its count, and the count is
-- the number of observations, modulo 2 ^ 64.
pub observe_all-count :
    (vs : List (Option ℕ))
    → let h = observe_all vs new_histogram in
      (length h.buckets ≡ 16)
      × (sum h.buckets % 2 ^ 64 ≡ h.count)
      × (h.count % 2 ^ 64 ≡ length vs % 2 ^ 64)
unfolding zeros sum
observe_all-count vs =
    let k = observe_all-keeps vs new_histogram (refl, refl) in (k.0.0, k.0.1, omega (arith, k.1))

sum-bump_le : (i n : ℕ) (cs : List ℕ) → sum (bump i n cs) ≤ sum cs + n
unfolding sum bump
sum-bump_le i n [] = omega arith
sum-bump_le zero n (c ∷ cs) = omega arith
sum-bump_le (suc i) n (c ∷ cs) = let ih = sum-bump_le i n cs in omega (arith, ih)

pub sum-observe_all_le :
    (vs : List (Option ℕ)) (h : Histogram)
    → sum (observe_all vs h).buckets ≤ sum h.buckets + length vs
unfolding observe_all observe
sum-observe_all_le [] h = omega arith
sum-observe_all_le (v ∷ vs) h =
    let ih = sum-observe_all_le vs (observe v h) in
    omega (arith, ih, sum-bump_le (bucket_index (get_or v 0)) 1 h.buckets)
