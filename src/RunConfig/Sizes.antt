-- ===== src/RunConfig/Sizes.antt =====
-- src/run_config.cc: the derived sizes.
use xrdhover.RunConfig.{
  auto_max_floor_chunks, auto_max_amortize_sec, auto_ceiling, align_to_chunk, resolve_run_config,
  compute_auto_max_bytes, RunConfig,
}
use native.Mathlib.Nat.{mod_self, mul-mod_left}
use xrdhover.Prelude.{
  ℕ, ◌+◌, ◌-◌, ◌*◌, ◌/◌, ◌%◌, ◌≤◌, ◌<◌, min, max, ◌≡◌, ◌⊎◌, inl, inr, false, some, arith, leb,
  Bool-cases, Option-cases,
}

-- A multiple of `chunk`, or `chunk` itself.
multiple_mod : (k chunk : ℕ) → 0 < chunk → max (k * chunk) chunk % chunk ≡ 0
multiple_mod k chunk h = elim (Bool-cases (leb (k * chunk) chunk)) [
  | inl e ↦ let m : max (k * chunk) chunk ≡ chunk = ground arith in rw m (mod_self chunk)
  | inr e ↦ let m : max (k * chunk) chunk ≡ k * chunk = ground arith in rw m (mul-mod_left k chunk)
]

below_div : (a chunk : ℕ) → (a / chunk) * chunk ≤ a
below_div a chunk = grind arith

align-bounds :
    (chunk ceiling bytes : ℕ)
    → 0 < chunk
    → (chunk ≤ align_to_chunk chunk ceiling bytes)
      × (align_to_chunk chunk ceiling bytes % chunk ≡ 0)
      × (align_to_chunk chunk ceiling bytes ≤ max ceiling chunk)
unfolding align_to_chunk
align-bounds chunk ceiling bytes h = ground (
  arith,
  multiple_mod ((bytes + chunk - 1) / chunk) chunk h,
  multiple_mod (ceiling / chunk) chunk h,
  below_div ceiling chunk,
)

-- An automatic session budget exists exactly for a capped rate. It is a positive whole number of
-- chunks, and at most two seconds of the rate and 32 MB, unless a single chunk is more than that.
compute_auto_max_bytes_bounds :
    (cfg : RunConfig) {bytes : ℕ}
    → compute_auto_max_bytes cfg ≡ some bytes
    → let chunk = max cfg.chunk_size 1 in
      (0 < cfg.target_rate_bytes_per_s)
      × (chunk ≤ bytes)
      × (bytes % chunk ≡ 0)
      × (bytes ≤ max (min (2 * cfg.target_rate_bytes_per_s) 32000000) chunk)
unfolding compute_auto_max_bytes auto_ceiling
compute_auto_max_bytes_bounds cfg h =
    let chunk = max cfg.chunk_size 1 in
    let bytes =
      max ((cfg.target_rate_bytes_per_s * auto_max_amortize_sec) / max cfg.max_inflight 1)
        (chunk * auto_max_floor_chunks) in
    ground
      (arith, align-bounds chunk (auto_ceiling cfg) (min bytes (auto_ceiling cfg)) (omega arith))

-- A resolved configuration has a positive rate, or a positive byte cap and is the one given; and its
-- byte cap is not automatic, or both its rate and its cap are positive.
pub resolve_run_config_bounds :
    (cfg : RunConfig) {out : RunConfig}
    → resolve_run_config cfg ≡ some out
    → ((0 < out.target_rate_bytes_per_s) ⊎ ((0 < out.max_bytes) × (out ≡ cfg)))
      × ((out.max_bytes_auto ≡ false) ⊎ ((0 < out.target_rate_bytes_per_s) × (0 < out.max_bytes)))
unfolding resolve_run_config
resolve_run_config_bounds cfg h = elim (Option-cases (compute_auto_max_bytes cfg)) [
  | inl e ↦ ground arith
  | inr (bytes, e) ↦ ground (arith, compute_auto_max_bytes_bounds cfg e)
]
