-- ===== src/Report/Command.antt =====
-- src/report_command.cc: RunReportCommand, and the JSON that it prints. The text for a reader is left
-- out: what is printed is the summary. `decimal_of` is the decimal that the library prints for a
-- double.
use xrdhover.Prelude.Text.{Text, codes}
use xrdhover.Prelude.Dict.{Dict}
use xrdhover.Json.{count_map, Json, integer, float, string, array, object, from_elems, from_members}
use xrdhover.Units.{Number}
use xrdhover.Metrics.Snapshot.{Fraction, integral}
use xrdhover.Report.Data.{ReportOptions, AttributionBucket, ReportSummary, zero_number}
use xrdhover.Report.Discover.{and_then, FileSystem, discover_result_files}
use xrdhover.Report.Aggregate.{is_less, aggregate_result_files}
use xrdhover.Prelude.{
  ℕ, ◌*◌, ◌^◌, ◌⊎◌, inl, inr, Bool, true, false, ◌&&◌, not, List, [], ◌∷◌, ◌++◌, map, ltb, ◌==◌,
  if◌then◌else◌, is_empty,
}

pub data Printed : Type 0 where
  error_text : Text → Printed
  json_text : Json → Printed
  human_text : ReportSummary → Printed

abbrev pub strings_json : List Text → Json
strings_json ts = array (from_elems (map string ts))

unfoldable pub bucket_to_json : AttributionBucket → Bool → Json
bucket_to_json b include_cms_site = object (
    from_members (
      (codes "bytes_read", integer b.bytes_read)
      ∷ (codes "sessions_ok", integer b.sessions_ok)
      ∷ (codes "sessions_fail", integer b.sessions_fail)
      ∷ (codes "errors", count_map b.errors)
      ∷ (if include_cms_site && not (is_empty b.cms_site)
          then (codes "cms_site", string b.cms_site) ∷ []
          else [])))

unfoldable pub buckets_json : Bool → Dict AttributionBucket → List (Text × Json)
buckets_json with_site [] = []
buckets_json with_site ((k, b) ∷ m) = (k, bucket_to_json b with_site) ∷ buckets_json with_site m

-- `bytes / elapsed`, 0 for no time.
abbrev pub achieved : ReportSummary → Fraction
achieved s =
    if is_less zero_number s.elapsed_s
    then record { num = s.bytes_read * 10 ^ s.elapsed_s.decimals; den = s.elapsed_s.mantissa }
    else integral 0

unfoldable pub summary_to_json : (Fraction → Number) → ReportSummary → Json
summary_to_json decimal_of s =
    let rate = achieved s in
    object (
      from_members (
        (codes "run_id", string s.run_id)
        ∷ (codes "sources", strings_json s.sources)
        ∷ (codes "job_ids", strings_json s.job_ids)
        ∷ (codes "endpoint", string s.endpoint)
        ∷ (codes "target", string s.target)
        ∷ (codes "elapsed_s", float s.elapsed_s)
        ∷ (codes "bytes_read", integer s.bytes_read)
        ∷ (codes "sessions_ok", integer s.sessions_ok)
        ∷ (codes "sessions_fail", integer s.sessions_fail)
        ∷ (codes "ops", integer s.ops)
        ∷ (codes "achieved_bytes_per_s", float (decimal_of rate))
        ∷ (codes "achieved_bits_per_s", float (decimal_of (record rate { num = rate.num * 8 })))
        ∷ (codes "errors", count_map s.errors)
        ∷ (codes "soft_faults", count_map s.soft_faults)
        ∷ (codes "by_data_server", object (from_members (buckets_json true s.by_data_server)))
        ∷ (codes "by_cms_site", object (from_members (buckets_json false s.by_cms_site)))
        ∷ []))

abbrev pub failed : ReportSummary → Bool
failed s = ltb 0 s.sessions_fail && (s.sessions_ok == 0)

module _ (beyond : Number → ℕ) (decimal_of : Fraction → Number) (fs : FileSystem) where
  abbrev pub report : ReportOptions → Text ⊎ ReportSummary → ℕ × Printed
  report opts (inl e) = (2, error_text (codes "error: " ++ e))
  report opts (inr s) = (
    if failed s then 1 else 0,
    if opts.json then json_text (summary_to_json decimal_of s) else human_text s,
  )

  -- The exit code and what is printed.
  unfoldable pub run_report_command : ReportOptions → ℕ × Printed
  run_report_command opts =
      report opts (and_then (discover_result_files fs opts) (aggregate_result_files beyond fs))
