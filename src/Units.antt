-- ===== src/Units.antt =====
-- src/units.cc: parsing of durations, rates and sizes. A parsed number is kept exactly, as a sign, a
-- mantissa and its count of decimals, where the source has a double; none stands for the exception.
-- A result past 64 bits, which the source leaves undefined, is not cut here.
pub mod ByteRates
pub mod Format
use xrdhover.Prelude.Text.{Text, codes, text_eq, contains, lower}
use xrdhover.Prelude.{
  ℕ, zero, suc, ◌+◌, ◌-◌, ◌*◌, ◌/◌, ◌%◌, ◌^◌, ◌≤◌, ◌<◌, min, max, ◌≡◌, refl, sym, ap, subst, ◌∙◌,
  ◌≢◌, ◌↔◌, ◌⊎◌, inl, inr, Bool, true, false, ◌&&◌, ◌||◌, not, Option, none, some, List, [], ◌∷◌,
  ◌++◌, map, arith, ltb, leb, ◌==◌, if◌then◌else◌, ltb→lt, lt→ltb, leb→le, ==_iff, Bool-cases,
  Option-cases, length, get_elem?, is_empty, drop, take, length-append, All,
}

pub record Number : Type 0 where
  pub negative : Bool
  pub mantissa : ℕ
  pub decimals : ℕ

-- What the scan has read so far, and the rest of the text.
pub record Scan : Type 0 where
  pub mantissa : ℕ
  pub decimals : ℕ
  pub saw_digit : Bool
  pub saw_dot : Bool

abbrev pub is_digit : ℕ → Bool
is_digit c = leb b'0' c && leb c b'9'

abbrev pub read_digit : ℕ → Scan → Scan
read_digit c n = record n {
  mantissa = n.mantissa * 10 + (c - b'0');
  decimals = if n.saw_dot then n.decimals + 1 else n.decimals;
  saw_digit = true;
}

unfoldable pub scan : Text → Scan → Scan × Text
scan [] n = (n, [])
scan (c ∷ s) n =
    let digit = scan s (read_digit c n) in
    let dot = scan s (record n { saw_dot = true }) in
    if is_digit c then digit else if (c == b'.') && not n.saw_dot then dot else (n, c ∷ s)

abbrev pub no_digits : Scan
no_digits = record { mantissa = 0; decimals = 0; saw_digit = false; saw_dot = false }

unfoldable pub scanned : Bool → Scan × Text → Option (Number × Text)
scanned negative (n, unit) =
    if not n.saw_digit
    then none
    else some (record { negative = negative; mantissa = n.mantissa; decimals = n.decimals }, unit)

abbrev pub is_sign : ℕ → Bool
is_sign c = (c == b'+') || (c == b'-')

unfoldable pub parse_number_suffix : Text → Option (Number × Text)
parse_number_suffix [] = none
parse_number_suffix (c ∷ s) =
    if is_sign c
    then scanned (c == b'-') (scan s no_digits)
    else scanned false (scan (c ∷ s) no_digits)

-- `value < 0`: a negative zero is not.
abbrev pub is_negative : Number → Bool
is_negative n = n.negative && not (n.mantissa == 0)

-- `static_cast<uint64_t>(value * mul / div + 0.5)`.
unfoldable pub rounded : ℕ → ℕ → Number → ℕ
rounded mul div n = (2 * n.mantissa * mul + div * 10 ^ n.decimals) / (2 * div * 10 ^ n.decimals)

abbrev pub is_one_of : Text → List Text → Bool
is_one_of u [] = false
is_one_of u (t ∷ ts) = text_eq u t || is_one_of u ts

unfoldable pub size_multiplier : Text → Option ℕ
size_multiplier u =
    if is_one_of u ([] ∷ codes "b" ∷ codes "byte" ∷ codes "bytes" ∷ [])
    then some 1
    else if text_eq u (codes "kib")
    then some 1024
    else if text_eq u (codes "mib")
    then some (1024 ^ 2)
    else if text_eq u (codes "gib")
    then some (1024 ^ 3)
    else if text_eq u (codes "tib")
    then some (1024 ^ 4)
    else if is_one_of u (codes "k" ∷ codes "kb" ∷ [])
    then some (10 ^ 3)
    else if is_one_of u (codes "m" ∷ codes "mb" ∷ [])
    then some (10 ^ 6)
    else if is_one_of u (codes "g" ∷ codes "gb" ∷ [])
    then some (10 ^ 9)
    else if is_one_of u (codes "t" ∷ codes "tb" ∷ [])
    then some (10 ^ 12)
    else none

unfoldable pub scale_bytes : Number → Text → Option ℕ
scale_bytes value unit_in = elim (size_multiplier (lower unit_in)) [
  | none ↦ none
  | some mul ↦ if is_negative value then none else some (rounded mul 1 value)
]

unfoldable pub parse_size_string : Text → Option ℕ
parse_size_string s = elim (parse_number_suffix s) [ none ↦ none | some p ↦ scale_bytes p.0 p.1 ]

unfoldable pub duration_multiplier : Text → Option ℕ
duration_multiplier u =
    if is_one_of u ([] ∷ codes "s" ∷ codes "sec" ∷ codes "secs" ∷ codes "seconds" ∷ [])
    then some 1
    else if is_one_of u (codes "m" ∷ codes "min" ∷ codes "mins" ∷ codes "minutes" ∷ [])
    then some 60
    else if is_one_of u (codes "h" ∷ codes "hr" ∷ codes "hrs" ∷ codes "hour" ∷ codes "hours" ∷ [])
    then some 3600
    else none

-- In seconds, as a number.
unfoldable pub parse_duration_string : Text → Option Number
parse_duration_string s = elim (parse_number_suffix s) [
  | none ↦ none
  | some p ↦ if is_negative p.0 then none else elim (duration_multiplier (lower p.1)) [
    | none ↦ none
    | some mul ↦ some (record p.0 { mantissa = p.0.mantissa * mul })
  ]
]

-- The suffix test on the last characters of a string.
unfoldable pub ends_in : Text → Text → Bool
ends_in suffix [] = text_eq suffix []
ends_in suffix (c ∷ s) = text_eq suffix (c ∷ s) || ends_in suffix s

-- Of a text that ends in "bps", what stands before that.
abbrev pub rate_prefix : Text → Text
rate_prefix u = take (length u - 3) u

unfoldable pub rate_multiplier : Text → Option ℕ
rate_multiplier prefix =
    if is_one_of prefix ([] ∷ codes "b" ∷ [])
    then some 1
    else if is_one_of prefix (codes "k" ∷ codes "kb" ∷ [])
    then some (10 ^ 3)
    else if is_one_of prefix (codes "m" ∷ codes "mb" ∷ [])
    then some (10 ^ 6)
    else if is_one_of prefix (codes "g" ∷ codes "gb" ∷ [])
    then some (10 ^ 9)
    else if is_one_of prefix (codes "t" ∷ codes "tb" ∷ [])
    then some (10 ^ 12)
    else none

-- ParseRateString after the number is read.
unfoldable pub rate_of : Number → Text → Option ℕ
rate_of value unit =
    let u = lower unit in
    if is_negative value
    then none
    else if is_empty unit
    then some (rounded 1 8 value)
    else if contains (codes "ibps") u || ends_in (codes "Bps") unit
    then none
    else if not (ends_in (codes "bps") u)
    then none
    else elim (rate_multiplier (rate_prefix u)) [
      | none ↦ none
      | some mul ↦ some (rounded mul 8 value)
    ]

unfoldable pub parse_rate_string : Text → Option ℕ
parse_rate_string s =
    if ends_in (codes "/s") s || ends_in (codes "/S") s
    then none
    else elim (parse_number_suffix s) [ none ↦ none | some p ↦ rate_of p.0 p.1 ]

abbrev pub is_uncapped_rate_token : Text → Bool
is_uncapped_rate_token s = is_empty s || text_eq (lower s) (codes "uncapped")

unfoldable pub parse_target_rate_string : Text → Option ℕ
parse_target_rate_string s = if is_uncapped_rate_token s then some 0 else parse_rate_string s
