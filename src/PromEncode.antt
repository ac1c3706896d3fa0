-- ===== src/PromEncode.antt =====
-- src/prom_encode.cc: a snapshot as Prometheus text. `print_double` is printf's "%.9g", and the time
-- of the encoding is an argument; none stands for the exception of a metric's name.
pub mod Labels
pub mod Encode
pub mod Total
pub mod Cumulative
use xrdhover.Prelude.Text.{Text, codes, starts_with, decimal}
use xrdhover.Metrics.Snapshot.{Fraction, nano, HistogramSnapshot, MetricsSnapshot}
use xrdhover.Prelude.{
  ℕ, ◌+◌, ◌%◌, ◌^◌, Bool, ◌||◌, Option, none, some, List, [], ◌∷◌, ◌++◌, ◌==◌, if◌then◌else◌,
  is_empty, drop,
}

unfoldable pub escape_label : Text → Text
escape_label [] = []
escape_label (c ∷ s) =
    if (c == 92) || (c == 34)
    then 92 ∷ c ∷ escape_label s
    else if c == 10
    then 92 ∷ b'n' ∷ escape_label s
    else c ∷ escape_label s

-- The texts before and after the first "__".
unfoldable pub split_link : Text → Option (Text × Text)
split_link [] = none
split_link (c ∷ s) =
    if starts_with (codes "__") (c ∷ s)
    then some ([], drop 1 s)
    else elim (split_link s) [ none ↦ none | some ends ↦ some (c ∷ ends.0, ends.1) ]

-- `name="value"`.
abbrev pub label : Text → Text → Text
label name value = name ++ codes "=\"" ++ (escape_label value ++ 34 ∷ [])

unfoldable pub source_and_dest : Text → Text × Text
source_and_dest run_id = elim (split_link run_id) [ none ↦ ([], []) | some ends ↦ ends ]

-- The values of the labels that every series has, under their names.
unfoldable pub common_values : MetricsSnapshot → List (Text × Text)
common_values s =
    (codes "src_dst", s.run_id)
    ∷ (codes "job_id", s.job_id)
    ∷ (codes "host", if is_empty s.host then codes "unknown" else s.host)
    ∷ (codes "target", s.target)
    ∷ (codes "endpoint", s.endpoint)
    ∷ (codes "source", (source_and_dest s.run_id).0)
    ∷ (codes "dest", (source_and_dest s.run_id).1)
    ∷ []

unfoldable pub write_labels : List (Text × Text) → Text
write_labels [] = []
write_labels ((name, value) ∷ []) = label name value
write_labels ((name, value) ∷ l ∷ ls) = label name value ++ b',' ∷ write_labels (l ∷ ls)

unfoldable pub common_labels : MetricsSnapshot → Text
common_labels s = write_labels (common_values s)

unfoldable pub require_metric_prefix : Text → Bool
require_metric_prefix name = starts_with (codes "xrdhover_") name

-- What follows is written unless an exception was thrown.
abbrev pub then_write : Option Text → Text → Option Text
then_write none more = none
then_write (some text) more = some (text ++ more)

abbrev pub then_try : Option Text → Option Text → Option Text
then_try none more = none
then_try (some text) none = none
then_try (some text) (some more) = some (text ++ more)

unfoldable pub append_help_type : Text → Text → Text → Option Text
append_help_type name help type_s =
    if require_metric_prefix name
    then some (
        codes "# HELP "
        ++ name
        ++ 32 ∷ help
        ++ 10 ∷ codes "# TYPE "
        ++ name
        ++ 32 ∷ type_s
        ++ 10 ∷ [])
    else none

-- `name{labels} value`.
abbrev pub sample : Text → Text → Text → Text
sample name labels value = name ++ 123 ∷ labels ++ codes "} " ++ value ++ 10 ∷ []

unfoldable pub append_counter : Text → Text → Text → ℕ → Option Text
append_counter name help labels value =
    then_write (append_help_type name help (codes "counter")) (sample name labels (decimal value))

unfoldable pub append_gauge : (Fraction → Text) → Text → Text → Text → Fraction → Option Text
append_gauge print_double name help labels value =
    then_write (append_help_type name help (codes "gauge"))
      (sample name labels (print_double value))

unfoldable pub append_gauge_u64 : Text → Text → Text → ℕ → Option Text
append_gauge_u64 name help labels value =
    then_write (append_help_type name help (codes "gauge")) (sample name labels (decimal value))

-- `cum` after each bucket, on 64 bits.
unfoldable pub cumulative : ℕ → List ℕ → List ℕ
cumulative cum [] = []
cumulative cum (c ∷ counts) = (cum + c) % 2 ^ 64 ∷ cumulative ((cum + c) % 2 ^ 64) counts

-- A bucket with the text of its bound: +Inf past the last bound.
abbrev pub bucket : Text → Text → Text → ℕ → Text
bucket name labels le cum =
    sample (name ++ codes "_bucket") (labels ++ codes ",le=\"" ++ le ++ 34 ∷ []) (decimal cum)

unfoldable pub append_buckets : (Fraction → Text) → Text → Text → List ℕ → List ℕ → Text
append_buckets print_double name labels bounds [] = []
append_buckets print_double name labels [] (cum ∷ cums) =
    bucket name labels (codes "+Inf") cum ++ append_buckets print_double name labels [] cums
append_buckets print_double name labels (b ∷ bounds) (cum ∷ cums) =
    bucket name labels (print_double (nano b)) cum
    ++ append_buckets print_double name labels bounds cums

unfoldable pub append_histogram :
    (Fraction → Text) → Text → Text → Text → HistogramSnapshot → Option Text
append_histogram print_double name help labels h =
    let buckets =
      if is_empty h.counts
      then bucket name labels (codes "+Inf") 0
      else append_buckets print_double name labels h.bounds (cumulative 0 h.counts) in
    then_write (append_help_type name help (codes "histogram")) (
      buckets
      ++ sample (name ++ codes "_sum") labels (print_double h.sum)
      ++ sample (name ++ codes "_count") labels (decimal h.count))
