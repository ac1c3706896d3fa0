-- ===== src/Scheduler.antt =====
-- src/scheduler.cc, include/xrdhover/scheduler.hh: the choice of the next session. The draws of the
-- seeded engine are arguments: an index, and for the mixed pattern its two comparisons.
use mathlib.Core.Option.{get_or}
use Prim.Native.Nat.{bit_xor}
use xrdhover.RunConfig.{
  RunConfig, PatternType, random, vector, mixed, compute_op_bytes, compute_bucket_capacity,
  join_url,
}
use xrdhover.Session.State.{FileSessionOptions}
use xrdhover.Session.Plan.{op_bytes as read_bytes}
use xrdhover.Prelude.{
  ℕ, ◌+◌, ◌*◌, ◌%◌, ◌^◌, ◌≤◌, ◌<◌, max, ◌≡◌, Bool, true, false, [], arith, if◌then◌else◌, get_elem?,
}

-- `index` is uniform below the number of files; the others are `draw < 0.5` and
-- `draw < vector_fraction`.
pub record Draws : Type 0 where
  pub index : ℕ
  pub below_half : Bool
  pub below_fraction : Bool

pub record WorkItem : Type 0 where
  pub session : FileSessionOptions
  pub op_bytes : ℕ

-- The golden-ratio increment that spreads the session seeds.
abbrev pub seed_step : ℕ
seed_step = 0x9e3779b97f4a7c15

abbrev pub picks_random : PatternType → Draws → Bool
picks_random random d = true
picks_random mixed d = d.below_half
picks_random _ d = false

abbrev pub picks_vector : PatternType → Draws → Bool
picks_vector vector d = true
picks_vector mixed d = d.below_fraction
picks_vector _ d = false

-- The item and the new value of seq_.
unfoldable pub next_item : RunConfig → Draws → ℕ → WorkItem × ℕ
next_item cfg d seq =
    let use_vector = picks_vector cfg.pattern_type d in
    (
      record {
        session = record {
          url = join_url cfg.endpoint (get_or (get_elem? cfg.files d.index) []);
          chunk_size = cfg.chunk_size;
          offset = 0;
          max_bytes = cfg.max_bytes;
          vector_chunks = if use_vector then max 1 cfg.vector_chunks else 0;
          random_offset = picks_random cfg.pattern_type d;
          offset_seed = bit_xor cfg.seed (((seq + 1) * seed_step) % 2 ^ 64);
          wall_timeout = cfg.session_timeout;
        };
        op_bytes = compute_op_bytes cfg use_vector;
      },
      (seq + 1) % 2 ^ 64,
    )

at_least_one_chunk : (c v : ℕ) → 0 < v → c ≤ c * v
at_least_one_chunk c v h = grind arith

-- With a rate, the charge of every session that the scheduler picks fits the token bucket, so that
-- it is granted once the bucket is full enough.
pub next_item_fits_bucket :
    (cfg : RunConfig) (d : Draws) (seq : ℕ)
    → 0 < cfg.target_rate_bytes_per_s
    → (0 < (next_item cfg d seq).0.op_bytes)
      × ((next_item cfg d seq).0.op_bytes ≤ compute_bucket_capacity cfg)
unfolding next_item compute_bucket_capacity compute_op_bytes
next_item_fits_bucket cfg d seq r =
    ground
      (arith, at_least_one_chunk (max cfg.chunk_size 1) (max 1 cfg.vector_chunks) (omega arith))

-- The charge covers the session's first read.
pub next_item_covers_read :
    (cfg : RunConfig) (d : Draws) (seq : ℕ)
    → read_bytes (next_item cfg d seq).0.session ≤ (next_item cfg d seq).0.op_bytes
unfolding next_item compute_op_bytes read_bytes
next_item_covers_read cfg d seq = ground arith

-- Where the chunk size is positive and the product fits 32 bits, the charge is the first read's size.
pub next_item_charges_read :
    (cfg : RunConfig) (d : Draws) (seq : ℕ)
    → 0 < cfg.chunk_size
    → cfg.chunk_size * max 1 cfg.vector_chunks < 2 ^ 32
    → (next_item cfg d seq).0.op_bytes ≡ read_bytes (next_item cfg d seq).0.session
unfolding next_item compute_op_bytes read_bytes
next_item_charges_read cfg d seq h k = ground arith
