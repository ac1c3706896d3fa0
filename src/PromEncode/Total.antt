-- ===== src/PromEncode/Total.antt =====
-- src/prom_encode.cc: the exception of a metric without the prefix is never thrown.
use xrdhover.Prelude.Text.{Text, starts_with}
use xrdhover.Prelude.Dict.{Dict}
use xrdhover.Metrics.Snapshot.{Fraction, HistogramSnapshot, MetricsSnapshot}
use xrdhover.PromEncode.{
  common_labels, then_write, require_metric_prefix, append_help_type, append_counter, append_gauge,
  append_gauge_u64, append_histogram,
}
use xrdhover.PromEncode.Encode.{
  write_all, encode_sessions, encode_counts, encode_sites, encode_prometheus_text,
}
use xrdhover.Prelude.{
  none, if◌then◌else◌, Bool, ℕ, ◌≡◌, refl, inl, inr, true, Option, some, List, [], ◌∷◌, ◌++◌,
  Bool-cases, is_empty, All,
}

-- A text was written.
IsWritten : Option Text → Type 0
IsWritten part = (text : Text) × (part ≡ some text)

write_all-IsWritten :
    (parts : List (Option Text)) → All IsWritten parts → IsWritten (write_all parts)
unfolding IsWritten write_all
write_all-IsWritten [] h = ([], refl)
write_all-IsWritten (part ∷ parts) (h, hs) =
    let (text, e) = h in
    let (more, es) = write_all-IsWritten parts hs in (text ++ more, rw (e, es) refl)

IsWritten-if :
    (b : Bool) (text more : Text)
    → b ≡ true
    → IsWritten (then_write (if b then some text else none) more)
unfolding IsWritten
IsWritten-if b text more h = (text ++ more, rw h refl)

module _ (name help : Text) (prefixed : require_metric_prefix name ≡ true) where
  append_help_type-IsWritten :
      (type_s more : Text) → IsWritten (then_write (append_help_type name help type_s) more)
  unfolding append_help_type
  append_help_type-IsWritten type_s more = IsWritten-if (require_metric_prefix name) _ more prefixed

  append_counter-IsWritten :
      (labels : Text) (value : ℕ) → IsWritten (append_counter name help labels value)
  unfolding append_counter
  append_counter-IsWritten labels value = append_help_type-IsWritten _ _

  append_gauge-IsWritten :
      (print_double : Fraction → Text) (labels : Text) (value : Fraction)
      → IsWritten (append_gauge print_double name help labels value)
  unfolding append_gauge
  append_gauge-IsWritten print_double labels value = append_help_type-IsWritten _ _

  append_gauge_u64-IsWritten :
      (labels : Text) (value : ℕ) → IsWritten (append_gauge_u64 name help labels value)
  unfolding append_gauge_u64
  append_gauge_u64-IsWritten labels value = append_help_type-IsWritten _ _

  append_histogram-IsWritten :
      (print_double : Fraction → Text) (labels : Text) (h : HistogramSnapshot)
      → IsWritten (append_histogram print_double name help labels h)
  unfolding append_histogram
  append_histogram-IsWritten print_double labels h = append_help_type-IsWritten _ _

  encode_counts-IsWritten :
      (labels key : Text) (m : Dict ℕ) → IsWritten (encode_counts name help labels key m)
  unfolding encode_counts IsWritten
  encode_counts-IsWritten labels key [] = ([], refl)
  encode_counts-IsWritten labels key (n ∷ m) = append_help_type-IsWritten _ _

encode_sites-IsWritten :
    (print_double : Fraction → Text) (labels : Text) (snap : MetricsSnapshot)
    → IsWritten (encode_sites print_double labels snap)
unfolding encode_sites IsWritten append_help_type require_metric_prefix starts_with
encode_sites-IsWritten print_double labels snap = elim (Bool-cases (is_empty snap.by_cms_site)) [
  | inl q ↦ ([], rw q refl)
  | inr q ↦ rw q (write_all-IsWritten _ ((_, refl), ((_, refl), ((_, refl), ((_, refl), tt)))))
]

-- Every metric's name carries the prefix, so that no exception is thrown: a text is written for
-- every snapshot.
pub encode_prometheus_text-some :
    (print_double : Fraction → Text) (now : ℕ) (snap : MetricsSnapshot)
    → (text : Text) × (encode_prometheus_text print_double now snap ≡ some text)
unfolding encode_prometheus_text encode_sessions require_metric_prefix starts_with IsWritten
encode_prometheus_text-some print_double now snap =
    let labels = common_labels snap in
    write_all-IsWritten _ (
      append_counter-IsWritten _ _ refl labels _,
      (
        append_counter-IsWritten _ _ refl labels _,
        (
          append_help_type-IsWritten _ _ refl _ _,
          (
            append_gauge-IsWritten _ _ refl print_double labels _,
            (
              append_gauge-IsWritten _ _ refl print_double labels _,
              (
                append_histogram-IsWritten _ _ refl print_double labels _,
                (
                  append_histogram-IsWritten _ _ refl print_double labels _,
                  (
                    append_histogram-IsWritten _ _ refl print_double labels _,
                    (
                      append_histogram-IsWritten _ _ refl print_double labels _,
                      (
                        append_histogram-IsWritten _ _ refl print_double labels _,
                        (
                          encode_counts-IsWritten _ _ refl labels _ _,
                          (
                            encode_counts-IsWritten _ _ refl labels _ _,
                            (
                              append_gauge_u64-IsWritten _ _ refl labels _,
                              (
                                append_gauge_u64-IsWritten _ _ refl labels _,
                                (
                                  append_gauge-IsWritten _ _ refl print_double labels _,
                                  (
                                    append_gauge_u64-IsWritten _ _ refl labels _,
                                    (
                                      append_gauge-IsWritten _ _ refl print_double labels _,
                                      (
                                        append_gauge-IsWritten _ _ refl print_double labels _,
                                        (encode_sites-IsWritten print_double labels snap, tt),
                                      ),
                                    ),
                                  ),
                                ),
                              ),
                            ),
                          ),
                        ),
                      ),
                    ),
                  ),
                ),
              ),
            ),
          ),
        ),
      ),
    )
