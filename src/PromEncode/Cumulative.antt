-- ===== src/PromEncode/Cumulative.antt =====
-- src/prom_encode.cc: the cumulative buckets of a histogram.
use xrdhover.Metrics.Data.{new_histogram}
use xrdhover.Metrics.Sums.{sum}
use xrdhover.Metrics.Buckets.{sum-observe_all_le, observe_all, observe_all-count}
use xrdhover.Metrics.Snapshot.{histogram_snapshot}
use xrdhover.PromEncode.{cumulative}
use xrdhover.Metrics.Data.{zeros}
use xrdhover.Prelude.{
  ℕ, suc, ◌+◌, ◌%◌, ◌^◌, ◌≤◌, ◌<◌, ◌≡◌, refl, ap, ◌∙◌, Option, List, [], ◌∷◌, arith, length,
}

-- The last of the numbers, or the one before them.
abbrev pub last_of : ℕ → List ℕ → ℕ
last_of n [] = n
last_of n (c ∷ cs) = last_of c cs

cumulative-last :
    (cum : ℕ) (counts : List ℕ)
    → cum < 2 ^ 64
    → last_of cum (cumulative cum counts) ≡ (cum + sum counts) % 2 ^ 64
unfolding cumulative sum
cumulative-last cum [] h = omega (arith, h)
cumulative-last cum (c ∷ counts) h =
    let ih = cumulative-last ((cum + c) % 2 ^ 64) counts (omega arith) in omega (arith, ih)

length-cumulative : (cum : ℕ) (counts : List ℕ) → length (cumulative cum counts) ≡ length counts
unfolding cumulative
length-cumulative cum [] = refl
length-cumulative cum (c ∷ counts) = ap suc (length-cumulative ((cum + c) % 2 ^ 64) counts)

-- Each cumulative count is at most the next, and the first at least the count before it.
pub Ascends : ℕ → List ℕ → Type 0
Ascends n [] = Unit
Ascends n (c ∷ cs) = (n ≤ c) × Ascends c cs

cumulative-Ascends :
    (cum : ℕ) (counts : List ℕ) → cum + sum counts < 2 ^ 64 → Ascends cum (cumulative cum counts)
unfolding cumulative sum Ascends
cumulative-Ascends cum [] h = tt
cumulative-Ascends cum (c ∷ counts) h =
    let kept : (cum + c) % 2 ^ 64 ≡ cum + c = omega (arith, h) in
    (omega (arith, kept), cumulative-Ascends ((cum + c) % 2 ^ 64) counts (omega (arith, kept, h)))

-- After fewer than 2 ^ 64 observations the exported histogram is consistent: it has 16 cumulative
-- buckets, none below the one before it, and the last, the +Inf bucket, equals the exported count.
pub cumulative-observe_all :
    (vs : List (Option ℕ))
    → length vs < 2 ^ 64
    → let h = histogram_snapshot (observe_all vs new_histogram) in
      (length (cumulative 0 h.counts) ≡ 16)
      × Ascends 0 (cumulative 0 h.counts)
      × (last_of 0 (cumulative 0 h.counts) ≡ h.count)
unfolding histogram_snapshot sum zeros
cumulative-observe_all vs few =
    let h = observe_all vs new_histogram in
    let (sixteen, adds, counted) = observe_all-count vs in
    let most = sum-observe_all_le vs new_histogram in
    let last = cumulative-last 0 h.buckets (omega arith) in
    (
      length-cumulative 0 h.buckets ∙ sixteen,
      cumulative-Ascends 0 h.buckets (omega (arith, most, few)),
      omega (arith, last, adds),
    )
