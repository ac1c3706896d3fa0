-- ===== src/Units/Format.antt =====
-- src/units.cc, src/run_command.cc: sizes, rates and durations as they are printed. printf's "%.2f" and
-- "%.0f" are parameters; quotients are exact.
use xrdhover.Prelude.Text.{Text, codes, decimal}
use xrdhover.Metrics.Snapshot.{Fraction, integral}
use xrdhover.RunConfig.{RunConfig}
use xrdhover.Prelude.{ℕ, ◌*◌, ◌^◌, ◌++◌, leb, ◌==◌, if◌then◌else◌, is_empty}

pub record Printf : Type 0 where
  pub two_places : Fraction → Text
  pub no_places : Fraction → Text

abbrev over : ℕ → ℕ → Fraction
over n d = record { num = n; den = d }

unfoldable pub format_bytes : Printf → ℕ → Text
format_bytes f n =
    if leb (10 ^ 9) n
    then f.two_places (over n (10 ^ 9)) ++ codes " GB"
    else if leb (10 ^ 6) n
    then f.two_places (over n (10 ^ 6)) ++ codes " MB"
    else if leb (10 ^ 3) n
    then f.two_places (over n (10 ^ 3)) ++ codes " kB"
    else decimal n ++ codes " B"

unfoldable pub format_rate : Printf → ℕ → Text
format_rate f bytes_per_sec =
    let bits = bytes_per_sec * 8 in
    if leb (10 ^ 12) bits
    then f.two_places (over bits (10 ^ 12)) ++ codes " Tbps"
    else if leb (10 ^ 9) bits
    then f.two_places (over bits (10 ^ 9)) ++ codes " Gbps"
    else if leb (10 ^ 6) bits
    then f.two_places (over bits (10 ^ 6)) ++ codes " Mbps"
    else if leb (10 ^ 3) bits
    then f.two_places (over bits (10 ^ 3)) ++ codes " kbps"
    else f.no_places (integral bits) ++ codes " bps"

unfoldable pub format_duration : Printf → Fraction → Text
format_duration f seconds =
    if leb (3600 * seconds.den) seconds.num
    then f.two_places (over seconds.num (seconds.den * 3600)) ++ codes " h"
    else if leb (60 * seconds.den) seconds.num
    then f.two_places (over seconds.num (seconds.den * 60)) ++ codes " m"
    else f.two_places seconds ++ codes " s"

unfoldable pub describe_target_rate : Printf → RunConfig → Text
describe_target_rate f cfg =
    let rate = format_rate f cfg.target_rate_bytes_per_s in
    if cfg.target_rate_bytes_per_s == 0
    then codes "uncapped"
    else if is_empty cfg.target_rate_input
    then rate
    else rate ++ (codes " (from '" ++ (cfg.target_rate_input ++ codes "')"))
