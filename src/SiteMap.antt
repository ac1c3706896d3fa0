-- ===== src/SiteMap.antt =====
-- src/site_map.cc, include/xrdhover/site_map.hh: the map from host names to CMS sites. The hash map of
-- exact names is an association list; `std::sort` of a sorted list with one entry added is one
-- insertion into it. The JSON object of LoadFile is its list of members.
pub mod Longest
use xrdhover.Prelude.Text.{Text, text_eq}
use xrdhover.Prelude.Dict.{Dict, lookup, insert}
use xrdhover.Prelude.{
  ℕ, suc, ◌+◌, ◌-◌, Bool, false, ◌&&◌, ◌||◌, Option, none, some, List, [], ◌∷◌, ltb, leb, ◌==◌,
  if◌then◌else◌, length, is_empty, drop, take,
}

pub record SiteMap : Type 0 where
  pub exact : Dict Text
  pub suffixes : List (Text × Text)

abbrev pub empty_map : SiteMap
empty_map = record { exact = []; suffixes = [] }

abbrev pub is_empty_map : SiteMap → Bool
is_empty_map m = is_empty m.exact && is_empty m.suffixes

abbrev pub lower_letter : ℕ → ℕ
lower_letter c = if leb b'A' c && leb c b'Z' then c - b'A' + b'a' else c

unfoldable pub normalize_key : Text → Text
normalize_key [] = []
normalize_key (c ∷ s) = lower_letter c ∷ normalize_key s

-- `s.find(c)` and `s.rfind(c)`; none stands for npos.
unfoldable pub find_char : ℕ → Text → Option ℕ
find_char c [] = none
find_char c (x ∷ s) =
    if x == c then some 0 else elim (find_char c s) [ none ↦ none | some i ↦ some (suc i) ]

unfoldable pub rfind_char : ℕ → Text → Option ℕ
rfind_char c [] = none
rfind_char c (x ∷ s) = elim (rfind_char c s) [
  | none ↦ if x == c then some 0 else none
  | some i ↦ some (suc i)
]

unfoldable pub before_colon : Text → Text
before_colon data_server = elim (rfind_char b':' data_server) [
  | none ↦ data_server
  | some colon ↦ elim (find_char b':' data_server) [
    | none ↦ data_server
    | some first ↦ if first == colon then take colon data_server else data_server
  ]
]

unfoldable pub hostname_only : Text → Text
hostname_only [] = []
hostname_only (c ∷ s) =
    if c == b'['
    then elim (find_char b']' (c ∷ s)) [ none ↦ c ∷ s | some end ↦ take (end + 1) (c ∷ s) ]
    else before_colon (c ∷ s)

unfoldable pub has_suffix_rule : Text → List (Text × Text) → Bool
has_suffix_rule suffix [] = false
has_suffix_rule suffix (e ∷ es) = text_eq e.0 suffix || has_suffix_rule suffix es

unfoldable pub replace_site : Text → Text → List (Text × Text) → List (Text × Text)
replace_site suffix site [] = []
replace_site suffix site (e ∷ es) =
    if text_eq e.0 suffix then (e.0, site) ∷ es else e ∷ replace_site suffix site es

unfoldable pub insert_by_length : Text → Text → List (Text × Text) → List (Text × Text)
insert_by_length suffix site [] = (suffix, site) ∷ []
insert_by_length suffix site (e ∷ es) =
    if ltb (length e.0) (length suffix)
    then (suffix, site) ∷ e ∷ es
    else e ∷ insert_by_length suffix site es

unfoldable pub add_suffix : Text → Text → SiteMap → SiteMap
add_suffix suffix site m = record m {
  suffixes =
      if has_suffix_rule suffix m.suffixes
      then replace_site suffix site m.suffixes
      else insert_by_length suffix site m.suffixes;
}

-- `key.size() >= 2 && key[0] == '*' && key[1] == '.'`.
abbrev pub is_pattern : Text → Bool
is_pattern (a ∷ b ∷ s) = (a == b'*') && (b == b'.')
is_pattern _ = false

unfoldable pub add : Text → Text → SiteMap → SiteMap
add host_or_pattern cms_site m =
    let key = normalize_key host_or_pattern in
    if is_empty host_or_pattern || is_empty cms_site
    then m
    else if is_pattern key
    then add_suffix (drop 1 key) cms_site m
    else record m { exact = insert key cms_site m.exact }

-- `host.size() > suffix.size()`, and the host ends with the suffix.
unfoldable pub ends_with : Text → Text → Bool
ends_with suffix host =
    ltb (length suffix) (length host) && text_eq (drop (length host - length suffix) host) suffix

unfoldable pub first_match : Text → List (Text × Text) → Text
first_match host [] = []
first_match host (e ∷ es) = if ends_with e.0 host then e.1 else first_match host es

unfoldable pub lookup_host : Text → SiteMap → Text
lookup_host host m =
    if is_empty host
    then []
    else elim (lookup host m.exact) [ some site ↦ site | none ↦ first_match host m.suffixes ]

unfoldable pub lookup_site : Text → SiteMap → Text
lookup_site data_server m =
    if is_empty data_server || is_empty_map m
    then []
    else elim (lookup (normalize_key data_server) m.exact) [
      | some site ↦ site
      | none ↦ lookup_host (normalize_key (hostname_only data_server)) m
    ]

-- LoadFile on a parsed document: none is the exception for a value that is no string.
unfoldable pub load : List (Text × Option Text) → SiteMap → Option SiteMap
load [] m = some m
load ((key, none) ∷ rest) m = none
load ((key, some site) ∷ rest) m = load rest (add key site m)
