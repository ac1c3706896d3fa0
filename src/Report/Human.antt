-- ===== src/Report/Human.antt =====
-- src/report_command.cc: the text of a report for a reader.
use xrdhover.Prelude.Text.{Text, codes, decimal}
use xrdhover.Prelude.Dict.{Dict}
use xrdhover.Units.Format.{Printf, format_bytes, format_rate, format_duration}
use xrdhover.Report.Data.{AttributionBucket, ReportSummary}
use xrdhover.Report.Command.{achieved}
use xrdhover.Prelude.{
  ℕ, zero, suc, ◌-◌, ◌/◌, ◌^◌, Bool, true, false, ◌&&◌, not, List, [], ◌∷◌, ◌++◌, ◌==◌,
  if◌then◌else◌, length, is_empty,
}

-- `%s` of `c_str()` ends at the first NUL.
unfoldable pub c_str : Text → Text
c_str [] = []
c_str (c ∷ s) = let rest = c_str s in if c == 0 then [] else c ∷ rest

unfoldable pub spaces : ℕ → Text
spaces zero = []
spaces (suc n) = 32 ∷ spaces n

-- `%-Ns`.
abbrev pub padded : ℕ → Text → Text
padded width s = c_str s ++ spaces (width - length (c_str s))

unfoldable pub joined : List Text → Text
joined [] = []
joined (t ∷ ts) = t ++ joined ts

abbrev pub line : List Text → Text
line ts = joined ts ++ (10 ∷ [])

unfoldable pub count_lines : Dict ℕ → Text
count_lines [] = []
count_lines ((k, n) ∷ m) =
    line (codes "  " ∷ padded 14 k ∷ codes " " ∷ decimal n ∷ []) ++ count_lines m

abbrev pub count_table : Text → Dict ℕ → Text
count_table title m = if is_empty m then [] else line (title ∷ []) ++ count_lines m

module _ (f : Printf) where
  unfoldable pub bucket_line : Bool → Text → AttributionBucket → Text
  bucket_line show_cms_site k b =
      let site =
        if show_cms_site && not (is_empty b.cms_site)
        then codes " site=" ++ padded 24 b.cms_site
        else [] in
      line (
        codes "  "
        ∷ padded 40 k
        ∷ site
        ∷ codes " bytes="
        ∷ padded 12 (format_bytes f b.bytes_read)
        ∷ codes " ok="
        ∷ decimal b.sessions_ok
        ∷ codes " fail="
        ∷ decimal b.sessions_fail
        ∷ [])

  unfoldable pub bucket_lines : Bool → Dict AttributionBucket → Text
  bucket_lines show_cms_site [] = []
  bucket_lines show_cms_site ((k, b) ∷ m) =
      bucket_line show_cms_site k b ++ bucket_lines show_cms_site m

  unfoldable pub print_bucket_table : Text → Dict AttributionBucket → Bool → Text
  print_bucket_table title m show_cms_site =
      if is_empty m then [] else line (title ∷ codes ":" ∷ []) ++ bucket_lines show_cms_site m

  abbrev pub id_lines : List Text → Text
  id_lines [] = []
  id_lines (id ∷ ids) = line (codes "  " ∷ c_str id ∷ []) ++ id_lines ids

  abbrev pub job_lines : List Text → Text
  job_lines [] = []
  job_lines (id ∷ []) = line (codes "job_id:         " ∷ c_str id ∷ [])
  job_lines ids = line (codes "job_ids:        " ∷ decimal (length ids) ∷ []) ++ id_lines ids

  abbrev pub named_line : Text → Text → Text
  named_line title value = if is_empty value then [] else line (title ∷ c_str value ∷ [])

  abbrev pub source_line : List Text → Text
  source_line [] = []
  source_line (s ∷ ss) = line (codes "results:        " ∷ c_str s ∷ [])

  unfoldable pub print_human : ReportSummary → Text
  print_human s =
      let rate = achieved s in
      joined (
        line (codes "=== report ===" ∷ [])
        ∷ line (codes "run_id:         " ∷ c_str s.run_id ∷ [])
        ∷ job_lines s.job_ids
        ∷ named_line (codes "endpoint:       ") s.endpoint
        ∷ named_line (codes "target:         ") s.target
        ∷ source_line s.sources
        ∷ line (
            codes "elapsed:        "
            ∷ format_duration f
                (record { num = s.elapsed_s.mantissa; den = 10 ^ s.elapsed_s.decimals })
            ∷ [])
        ∷ line (
            codes "sessions:       "
            ∷ decimal s.sessions_ok
            ∷ codes " ok / "
            ∷ decimal s.sessions_fail
            ∷ codes " fail"
            ∷ [])
        ∷ line (
            codes "bytes:          "
            ∷ format_bytes f s.bytes_read
            ∷ codes " ("
            ∷ decimal s.bytes_read
            ∷ codes ")"
            ∷ [])
        ∷ line (codes "ops:            " ∷ decimal s.ops ∷ [])
        ∷ line (codes "achieved:       " ∷ format_rate f (rate.num / rate.den) ∷ [])
        ∷ count_table (codes "errors:") s.errors
        ∷ count_table (codes "soft_faults:") s.soft_faults
        ∷ print_bucket_table (codes "by_cms_site") s.by_cms_site false
        ∷ print_bucket_table (codes "by_data_server") s.by_data_server true
        ∷ [])
