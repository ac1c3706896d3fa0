-- ===== src/SiteMap/Longest.antt =====
-- src/site_map.cc: of the wildcard rules that match a host, the longest one decides.
use mathlib.Core.Option.{some-injective}
use xrdhover.Prelude.Text.{Text, text_eq}
use xrdhover.SiteMap.{
  SiteMap, empty_map, replace_site, insert_by_length, has_suffix_rule, add_suffix, add, load,
  ends_with, first_match, is_pattern, normalize_key,
}
use xrdhover.Prelude.{
  ◌⊎◌, refl, false, ℕ, zero, suc, ◌≤◌, ◌≡◌, subst, inl, inr, true, ◌||◌, Option, none, some, List,
  [], ◌∷◌, arith, ltb, Bool-cases, length, get_elem?, is_empty, drop, All,
}

abbrev Rules : Type 0
Rules = List (Text × Text)

abbrev NoLonger : ℕ → Rules → Type 0
NoLonger n es = All (λ e. length e.0 ≤ n) es

-- Longer suffixes stand first.
abbrev pub IsSorted : Rules → Type 0
IsSorted [] = Unit
IsSorted (e ∷ es) = NoLonger (length e.0) es × IsSorted es

replace-NoLonger :
    (s t : Text) (n : ℕ) (es : Rules) → NoLonger n es → NoLonger n (replace_site s t es)
unfolding replace_site
replace-NoLonger s t n [] h = h
replace-NoLonger s t n (e ∷ es) h = elim (Bool-cases (text_eq e.0 s)) [
  | inl q ↦ rw q (h)
  | inr q ↦ rw q (h.0, replace-NoLonger s t n es h.1)
]

replace-IsSorted : (s t : Text) (es : Rules) → IsSorted es → IsSorted (replace_site s t es)
unfolding replace_site
replace-IsSorted s t [] h = h
replace-IsSorted s t (e ∷ es) h = elim (Bool-cases (text_eq e.0 s)) [
  | inl q ↦ rw q (h)
  | inr q ↦ rw q (replace-NoLonger s t (length e.0) es h.0, replace-IsSorted s t es h.1)
]

NoLonger-weaken : (n m : ℕ) (es : Rules) → n ≤ m → NoLonger n es → NoLonger m es
NoLonger-weaken n m [] q h = h
NoLonger-weaken n m (e ∷ es) q h = (omega (arith, h.0), NoLonger-weaken n m es q h.1)

insert-NoLonger :
    (s t : Text) (n : ℕ) (es : Rules)
    → length s ≤ n
    → NoLonger n es
    → NoLonger n (insert_by_length s t es)
unfolding insert_by_length
insert-NoLonger s t n [] l h = (l, h)
insert-NoLonger s t n (e ∷ es) l h = elim (Bool-cases (ltb (length e.0) (length s))) [
  | inl q ↦ rw q (l, h)
  | inr q ↦ rw q (h.0, insert-NoLonger s t n es l h.1)
]

insert-IsSorted : (s t : Text) (es : Rules) → IsSorted es → IsSorted (insert_by_length s t es)
unfolding insert_by_length
insert-IsSorted s t [] h = (tt, tt)
insert-IsSorted s t (e ∷ es) h = elim (Bool-cases (ltb (length e.0) (length s))) [
  | inl q ↦
      rw q (((ground arith, NoLonger-weaken (length e.0) (length s) es (ground arith) h.0), h))
  | inr q ↦
      rw q ((insert-NoLonger s t (length e.0) es (ground arith) h.0, insert-IsSorted s t es h.1))
]

add_suffix-IsSorted :
    (s t : Text) (m : SiteMap) → IsSorted m.suffixes → IsSorted (add_suffix s t m).suffixes
unfolding add_suffix
add_suffix-IsSorted s t m h = elim (Bool-cases (has_suffix_rule s m.suffixes)) [
  | inl q ↦ rw q (replace-IsSorted s t m.suffixes h)
  | inr q ↦ rw q (insert-IsSorted s t m.suffixes h)
]

add-IsSorted : (k v : Text) (m : SiteMap) → IsSorted m.suffixes → IsSorted (add k v m).suffixes
unfolding add
add-IsSorted k v m h = elim (Bool-cases (is_empty k || is_empty v)) [
  | inl q ↦ rw q (h)
  | inr q ↦ elim (Bool-cases (is_pattern (normalize_key k))) [
    | inl p ↦ rw (q, p) (add_suffix-IsSorted (drop 1 (normalize_key k)) v m h)
    | inr p ↦ rw (q, p) (h)
  ]
]

load-IsSorted :
    (doc : List (Text × Option Text)) (m : SiteMap) {out : SiteMap}
    → load doc m ≡ some out
    → IsSorted m.suffixes
    → IsSorted out.suffixes
unfolding load
load-IsSorted [] m e h = subst (λ (o : SiteMap). IsSorted o.suffixes) (some-injective _ _ e) h
load-IsSorted ((k, none) ∷ doc) m e h = cc
load-IsSorted ((k, some v) ∷ doc) m e h = load-IsSorted doc (add k v m) e (add-IsSorted k v m h)

-- One of the rules decides the host: it stands in the list and matches, and every rule of the list
-- does not match the host or is no longer.
abbrev pub LongestWins : Text → Rules → Type 0
LongestWins host es =
    (f : Text × Text) × ((j : ℕ) × (get_elem? es j ≡ some f))
    × (ends_with f.0 host ≡ true)
    × All (λ e. (ends_with e.0 host ≡ false) ⊎ (length e.0 ≤ length f.0)) es
    × (first_match host es ≡ f.1)

NoLonger-unless :
    (host : Text) (n : ℕ) (es : Rules)
    → NoLonger n es
    → All (λ e. (ends_with e.0 host ≡ false) ⊎ (length e.0 ≤ n)) es
NoLonger-unless host n [] h = tt
NoLonger-unless host n (e ∷ es) h = (inr h.0, NoLonger-unless host n es h.1)

first_match-LongestWins :
    (host : Text) (es : Rules) (i : ℕ) (e : Text × Text)
    → IsSorted es
    → get_elem? es i ≡ some e
    → ends_with e.0 host ≡ true
    → LongestWins host es
unfolding first_match
first_match-LongestWins host [] i e h q w = cc
first_match-LongestWins host (x ∷ es) zero e h q w =
    let same : ends_with x.0 host ≡ true = ground arith in
    (
      x,
      (0, refl),
      same,
      (inr (omega arith), NoLonger-unless host (length x.0) es h.0),
      rw same refl,
    )
first_match-LongestWins host (x ∷ es) (suc i) e h q w = elim (Bool-cases (ends_with x.0 host)) [
  | inl p ↦
      (x, (0, refl), p, (inr (omega arith), NoLonger-unless host (length x.0) es h.0), rw p refl)
  | inr p ↦
      let ih = first_match-LongestWins host es i e h.1 q w in
      let (f, (j, at), matches, longest, wins) = ih in
      (f, (suc j, at), matches, (inl p, longest), rw p wins)
]

-- In a site map loaded from any document, if a wildcard rule matches a host then a rule of the map
-- decides it that matches the host, and no rule that matches the host is longer.
pub load-LongestWins :
    (doc : List (Text × Option Text)) {m : SiteMap} (host : Text) (i : ℕ) (e : Text × Text)
    → load doc empty_map ≡ some m
    → get_elem? m.suffixes i ≡ some e
    → ends_with e.0 host ≡ true
    → LongestWins host m.suffixes
load-LongestWins doc {m} host i e l q w =
    first_match-LongestWins host m.suffixes i e (load-IsSorted doc empty_map l tt) q w
