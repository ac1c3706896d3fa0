-- ===== src/Units/ByteRates.antt =====
-- src/units.cc: a rate in bytes is never read as a rate in bits.
use xrdhover.Prelude.Text.{Text, codes, text_eq}
use xrdhover.Units.{
  Number, Scan, read_digit, scan, no_digits, scanned, parse_number_suffix, ends_in, rate_of,
  parse_rate_string,
}
use xrdhover.Prelude.{
  ℕ, ◌≡◌, refl, ◌≢◌, inl, inr, true, false, none, some, [], ◌∷◌, arith, Option-cases, is_empty,
}

abbrev byte_rate : Text
byte_rate = codes "Bps"

ends_in-step : (c : ℕ) (s : Text) → c ≢ b'B' → ends_in byte_rate (c ∷ s) ≡ ends_in byte_rate s
unfolding ends_in text_eq
ends_in-step c s h = ground arith

-- The number in front does not change how the text ends.
scan-ends_in : (s : Text) (n : Scan) → ends_in byte_rate (scan s n).1 ≡ ends_in byte_rate s
unfolding scan
scan-ends_in [] n = refl
scan-ends_in (c ∷ s) n = ground (
  arith,
  ends_in-step c s,
  scan-ends_in s (read_digit c n),
  scan-ends_in s (record n { saw_dot = true }),
)

unit_ends :
    (s : Text) (value : Number) (unit : Text)
    → parse_number_suffix s ≡ some (value, unit)
    → ends_in byte_rate unit ≡ ends_in byte_rate s
unfolding parse_number_suffix scanned
unit_ends [] value unit e = cc
unit_ends (c ∷ s) value unit e =
    ground (arith, ends_in-step c s, scan-ends_in s no_digits, scan-ends_in (c ∷ s) no_digits)

ends_in-is_empty : (unit : Text) → ends_in byte_rate unit ≡ true → is_empty unit ≡ false
unfolding ends_in text_eq
ends_in-is_empty [] h = cc
ends_in-is_empty (c ∷ unit) h = refl

rate_of-none :
    (value : Number) (unit : Text) → ends_in byte_rate unit ≡ true → rate_of value unit ≡ none
unfolding rate_of
rate_of-none value unit h = ground (arith, ends_in-is_empty unit h)

-- A rate string that ends in "Bps" is rejected, whatever stands before: bytes per second are never
-- taken for bits per second.
pub parse_rate_string-none :
    (s : Text) → ends_in (codes "Bps") s ≡ true → parse_rate_string s ≡ none
unfolding parse_rate_string
parse_rate_string-none s h = elim (Option-cases (parse_number_suffix s)) [
  | inl e ↦ ground arith
  | inr (p, e) ↦ ground (arith, rate_of-none p.0 p.1, unit_ends s p.0 p.1)
]
