-- ===== src/FileSink/Counts.antt =====
-- src/file_sink.cc, src/report_command.cc: maps of counts and maps of buckets, from the sink's JSON to
-- the report.
use xrdhover.Prelude.Text.{Text}
use xrdhover.Prelude.Dict.{Dict, lookup}
use xrdhover.Prelude.Distinct.{DistinctKeys, Fresh, Fresh-snoc, Fresh-nil, insert-fresh}
use xrdhover.Json.{integer, members-from_members, counts_json, count_map}
use xrdhover.Units.{Number}
use xrdhover.Metrics.Record.{count_key}
use xrdhover.Report.Data.{
  merge_count, to_double, double_loop, to_u64, count_of, merge_counts, merge_count_map,
}
use mathlib.Core.List.{append_assoc, append-nil}
use xrdhover.Prelude.{
  none, Option, ap, ℕ, suc, ◌/◌, ◌^◌, ◌<◌, ◌≡◌, sym, ◌∙◌, some, [], ◌∷◌, ◌++◌, arith, lt→ltb, All,
}

-- Distinct names with counts that a double holds exactly.
pub record IsCountMap (m : Dict ℕ) : Type 0 where
  pub distinct : DistinctKeys m
  pub small : All (λ e. e.1 < 2 ^ 53) m

double_loop-small : (f n : ℕ) → n < 2 ^ 53 → double_loop (suc f) 1 n ≡ n
unfolding double_loop
double_loop-small f n h = rw (lt→ltb (n / 1) (2 ^ 53) (omega (arith, h))) (ground arith)

to_double-small : (n : ℕ) → n < 2 ^ 53 → to_double n ≡ n
unfolding to_double
to_double-small n h = double_loop-small 10 n h

count_key-fresh :
    (k : Text) (n : ℕ) (m : Dict ℕ)
    → lookup k m ≡ none
    → n < 2 ^ 53
    → count_key k n m ≡ m ++ (k, n) ∷ []
unfolding count_key
count_key-fresh k n m f s = ground (arith, f, s, insert-fresh k n m f)

module _ (beyond : Number → ℕ) where
  count_of-small : (n : ℕ) → n < 2 ^ 53 → count_of beyond (integer n) ≡ some n
  unfolding count_of to_u64
  count_of-small n h = rw to_double-small (ground arith)

  merge_counts-back :
      (m dst : Dict ℕ)
      → DistinctKeys m
      → All (λ e. e.1 < 2 ^ 53) m
      → Fresh dst m
      → merge_counts beyond (counts_json m) dst ≡ dst ++ m
  unfolding merge_counts
  merge_counts-back [] dst d s f = sym (append-nil dst)
  merge_counts-back ((k, n) ∷ m) dst d s f =
      ap (λ (o : Option ℕ). merge_counts beyond (counts_json m) (merge_count beyond k o dst))
        (count_of-small n s.0)
      ∙ ap (merge_counts beyond (counts_json m)) (count_key-fresh k n dst f.0 s.0)
      ∙ merge_counts-back m (dst ++ (k, n) ∷ []) d.1 s.1 (Fresh-snoc k n dst m f.1 d.0)
      ∙ append_assoc dst ((k, n) ∷ []) m

  pub merge_count_map-back :
      (m : Dict ℕ) → IsCountMap m → merge_count_map beyond [] (count_map m) ≡ m
  unfolding merge_count_map
  merge_count_map-back m h =
      rw members-from_members (merge_counts-back m [] h.distinct h.small (Fresh-nil ℕ m))
