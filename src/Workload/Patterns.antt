-- ===== src/Workload/Patterns.antt =====
-- src/workload_spec.cc: what a pattern guarantees for which no issue is listed.
use xrdhover.Prelude.Text.{Text, codes}
use xrdhover.Json.{Json, is_object, as_int64}
use xrdhover.Units.{parse_size_string}
use xrdhover.Workload.Data.{PatternSpec}
use xrdhover.Workload.Fields.{ValidationIssue, join, get, optional_string}
use xrdhover.Workload.Pattern.{
  check_read_size, read_size_value, int_within, counted, MaxBytes, check_max_bytes, check_uncapped,
  check_pattern_fields, pattern_member, dotted,
}
use mathlib.Core.Option.{get_or}
use xrdhover.Prelude.{
  ◌==◌, ◌⊎◌, ℕ, zero, suc, ◌^◌, ◌≤◌, ◌<◌, ◌≡◌, refl, inl, inr, true, false, Option, none, some,
  List, [], ◌∷◌, ◌++◌, arith, Bool-cases, Option-cases, get_elem?,
}

abbrev pub Issues : Type 0
Issues = List ValidationIssue

pub nothing-append : (xs ys : Issues) → xs ++ ys ≡ [] → (xs ≡ []) × (ys ≡ [])
nothing-append [] ys h = (refl, h)
nothing-append (x ∷ xs) ys h = cc

-- Where nothing was listed, no part listed anything.
pub nothing-join : (xss : List Issues) (i : ℕ) → join xss ≡ [] → get_or (get_elem? xss i) [] ≡ []
unfolding join
nothing-join [] i h = refl
nothing-join (xs ∷ xss) zero h = (nothing-append xs (join xss) h).0
nothing-join (xs ∷ xss) (suc i) h = nothing-join xss i (nothing-append xs (join xss) h).1

abbrev pub InRange : ℕ → ℕ → ℕ → Type 0
InRange lo hi n = (lo ≤ n) × (n ≤ hi)

-- What a pattern that was accepted at a rate satisfies.
pub record IsPattern (rate : ℕ) (p : PatternSpec) : Type 0 where
  pub chunk : InRange 1 0xffffffff p.chunk_size
  pub chunks : InRange 1 65535 p.vector_chunks
  pub capped : (0 < rate) ⊎ ((p.max_bytes_auto ≡ false) × (0 < p.max_bytes))

read_size_value-InRange :
    (path : Text) (size : Option ℕ) (out : ℕ)
    → InRange 1 0xffffffff out
    → InRange 1 0xffffffff (read_size_value path size out).value
read_size_value-InRange path none out h = h
read_size_value-InRange path (some sz) out h = ground arith

check_read_size-InRange :
    (base : Text) (pj : Json) → InRange 1 0xffffffff (check_read_size base pj).value.1
unfolding check_read_size
check_read_size-InRange base pj =
    let path = dotted base (codes "pattern.read_size") in
    let f = optional_string pj (codes "read_size") path (codes "1MiB") in
    ground (
      arith,
      read_size_value-InRange path (parse_size_string f.value) (2 ^ 20) (omega arith, omega arith),
    )

int_within-InRange :
    (lo hi out : ℕ) (n : Option ℕ) → int_within lo hi n ≡ true → InRange lo hi (get_or n out)
int_within-InRange lo hi out none h = cc
int_within-InRange lo hi out (some n) h = ground arith

pub counted-InRange :
    (parent : Json) (key path : Text) (out max_v : ℕ) (message : Text)
    → InRange 1 max_v out
    → InRange 1 max_v (counted parent key path out max_v message).value
unfolding counted
counted-InRange parent key path out max_v message h = elim (Option-cases (get key parent)) [
  | inl e ↦ rw (e, counted) h
  | inr (v, e) ↦ elim (Bool-cases (int_within 1 max_v (as_int64 v))) [
    | inl q ↦ rw (e, counted, q) (int_within-InRange 1 max_v out (as_int64 v) q)
    | inr q ↦ rw (e, counted, q) h
  ]
]

check_uncapped-capped :
    (base : Text) (rate : ℕ) (m : MaxBytes)
    → check_uncapped base rate m ≡ []
    → (0 < rate) ⊎ ((m.auto ≡ false) × (0 < m.bytes))
unfolding check_uncapped
check_uncapped-capped base rate m h = elim (Bool-cases (rate == 0)) [
  | inr q ↦ inl (ground arith)
  | inl q ↦ inr (ground arith)
]

check_pattern_fields-IsPattern :
    (base : Text) (rate : ℕ) (pj : Json)
    → (check_pattern_fields base rate pj).issues ≡ []
    → IsPattern rate (check_pattern_fields base rate pj).value
unfolding check_pattern_fields
check_pattern_fields-IsPattern base rate pj h = record {
  chunk = check_read_size-InRange base pj;
  chunks = counted-InRange pj _ _ 8 65535 _ (omega arith, omega arith);
  capped = check_uncapped-capped base rate (check_max_bytes base pj).value (nothing-join _ 6 h);
}

pub pattern_member-IsPattern :
    (base : Text) (rate : ℕ) (o : Option Json)
    → (pattern_member base rate o).issues ≡ []
    → IsPattern rate (pattern_member base rate o).value
unfolding pattern_member
pattern_member-IsPattern base rate none h = cc
pattern_member-IsPattern base rate (some pj) h = elim (Bool-cases (is_object pj)) [
  | inl q ↦ rw q (check_pattern_fields-IsPattern base rate pj (rw q at h))
  | inr q ↦ absurd (ground arith)
]
