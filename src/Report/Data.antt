-- ===== src/Report/Data.antt =====
-- src/report_command.cc, include/xrdhover/report_command.hh: the summary, and what is read of a JSON
-- value. A double is kept as a decimal; where the source converts a count to a double on the way it
-- is rounded to 53 bits as there. The conversion of a double outside 64 bits, which the source
-- leaves undefined, is the argument `beyond`.
use xrdhover.Prelude.Text.{codes, Text}
use xrdhover.Prelude.Dict.{Dict, lookup, insert}
use xrdhover.Json.{Json, null, integer, negative, float, string, fields, as_number}
use xrdhover.Units.{Number}
use xrdhover.Workload.Fields.{get}
use xrdhover.Metrics.Data.{add64}
use xrdhover.Metrics.Record.{count_key}
use mathlib.Core.Option.{get_or}
use xrdhover.Prelude.{
  ℕ, zero, suc, ◌+◌, ◌*◌, ◌/◌, ◌%◌, ◌^◌, Bool, true, false, ◌&&◌, ◌||◌, Option, none, some, List,
  [], ◌∷◌, ltb, leb, if◌then◌else◌, is_empty,
}

pub record ReportOptions : Type 0 where
  pub path : Text
  pub results_dir : Text
  pub run_id : Text
  pub json : Bool

pub record AttributionBucket : Type 0 where
  pub bytes_read : ℕ
  pub sessions_ok : ℕ
  pub sessions_fail : ℕ
  pub errors : Dict ℕ
  pub cms_site : Text

abbrev pub new_bucket : AttributionBucket
new_bucket = record {
  bytes_read = 0;
  sessions_ok = 0;
  sessions_fail = 0;
  errors = [];
  cms_site = [];
}

pub record ReportSummary : Type 0 where
  pub run_id : Text
  pub job_ids : List Text
  pub sources : List Text
  pub endpoint : Text
  pub target : Text
  pub elapsed_s : Number
  pub bytes_read : ℕ
  pub sessions_ok : ℕ
  pub sessions_fail : ℕ
  pub ops : ℕ
  pub errors : Dict ℕ
  pub soft_faults : Dict ℕ
  pub by_data_server : Dict AttributionBucket
  pub by_cms_site : Dict AttributionBucket

abbrev pub zero_number : Number
zero_number = record { negative = false; mantissa = 0; decimals = 0 }

abbrev pub new_summary : ReportSummary
new_summary = record {
  run_id = [];
  job_ids = [];
  sources = [];
  endpoint = [];
  target = [];
  elapsed_s = zero_number;
  bytes_read = 0;
  sessions_ok = 0;
  sessions_fail = 0;
  ops = 0;
  errors = [];
  soft_faults = [];
  by_data_server = [];
  by_cms_site = [];
}

-- The multiple of `unit` nearest to n, of two the one with the even quotient.
abbrev pub round_to : ℕ → ℕ → ℕ
round_to unit n =
    let q = n / unit in
    let r = n % unit in
    if ltb (2 * r) unit
    then q * unit
    else if ltb unit (2 * r)
    then (q + 1) * unit
    else (q + q % 2) * unit

-- The double nearest to a count. A count of 64 bits needs a unit of at most 2 ^ 11.
unfoldable pub double_loop : ℕ → ℕ → ℕ → ℕ
double_loop zero unit n = round_to unit n
double_loop (suc f) unit n =
    let rest = double_loop f (2 * unit) n in
    if ltb (n / unit) (2 ^ 53) then round_to unit n else rest

unfoldable pub to_double : ℕ → ℕ
to_double n = double_loop 11 1 n

module _ (beyond : Number → ℕ) where
  -- `static_cast<uint64_t>` of a double.
  unfoldable pub to_u64 : Number → ℕ
  to_u64 x =
      let whole = x.mantissa / 10 ^ x.decimals in
      if (x.negative && ltb 0 whole) || leb (2 ^ 64) whole then beyond x else whole

  abbrev pub u64_of : Json → ℕ
  u64_of (integer n) = n
  u64_of (float x) = to_u64 x
  u64_of _ = 0

  unfoldable pub json_u64 : Json → Text → ℕ
  json_u64 j key = elim (get key j) [ none ↦ 0 | some v ↦ u64_of v ]

  -- What a member adds to a map of counts: every number is read as a double.
  unfoldable pub count_of : Json → Option ℕ
  count_of (integer n) =
      some (to_u64 (record { negative = false; mantissa = to_double n; decimals = 0 }))
  count_of (negative n) =
      some (to_u64 (record { negative = true; mantissa = to_double (n + 1); decimals = 0 }))
  count_of (float x) = some (to_u64 x)
  count_of _ = none

  abbrev pub merge_count : Text → Option ℕ → Dict ℕ → Dict ℕ
  merge_count k none dst = dst
  merge_count k (some n) dst = count_key k n dst

  unfoldable pub merge_counts : List (Text × Json) → Dict ℕ → Dict ℕ
  merge_counts [] dst = dst
  merge_counts ((k, v) ∷ ms) dst = merge_counts ms (merge_count k (count_of v) dst)

  -- A value that is no object has no members.
  unfoldable pub merge_count_map : Dict ℕ → Json → Dict ℕ
  merge_count_map dst obj = merge_counts (fields obj) dst

unfoldable pub json_double : Json → Text → Number
json_double j key = elim (get key j) [
  | none ↦ zero_number
  | some v ↦ get_or (as_number v) zero_number
]

abbrev pub string_of : Json → Text
string_of (string s) = s
string_of _ = []

unfoldable pub json_string : Json → Text → Text
json_string j key = elim (get key j) [ none ↦ [] | some v ↦ string_of v ]

-- `j[key]` where `j` contains the key; a value without members where it does not.
abbrev pub member_or_null : Json → Text → Json
member_or_null j key = get_or (get key j) null

module _ (beyond : Number → ℕ) where
  unfoldable pub merge_bucket : AttributionBucket → Json → AttributionBucket
  merge_bucket dst entry = record {
    bytes_read = add64 dst.bytes_read (json_u64 beyond entry (codes "bytes_read"));
    sessions_ok = add64 dst.sessions_ok (json_u64 beyond entry (codes "sessions_ok"));
    sessions_fail = add64 dst.sessions_fail (json_u64 beyond entry (codes "sessions_fail"));
    errors = merge_count_map beyond dst.errors (member_or_null entry (codes "errors"));
    cms_site = if is_empty dst.cms_site then json_string entry (codes "cms_site") else dst.cms_site;
  }

  unfoldable pub merge_buckets :
      List (Text × Json) → Dict AttributionBucket → Dict AttributionBucket
  merge_buckets [] dst = dst
  merge_buckets ((k, entry) ∷ ms) dst =
      merge_buckets ms (insert k (merge_bucket (get_or (lookup k dst) new_bucket) entry) dst)
