-- ===== src/Workload/Host.antt =====
-- src/workload_spec.cc: what the validation takes from its surroundings, and the paths and the digest
-- that it makes of it.
use xrdhover.Prelude.Text.{Text, codes}
use xrdhover.Json.{Json}
use xrdhover.SiteMap.{SiteMap, empty_map, load}
use xrdhover.Prelude.{
  ◌⊎◌, inl, inr, ◌++◌, ℕ, ◌+◌, ◌-◌, ◌/◌, ◌%◌, Bool, false, Option, none, some, List, [], ◌∷◌, ltb,
  ◌==◌, if◌then◌else◌,
}

-- What nlohmann makes of a file: the file cannot be opened, the text of its parse error, a value that
-- is no object, or the members of an object, with the strings among their values.
pub data Document : Type 0 where
  unopened not_object : Document
  unparsed : Text → Document
  members : List (Text × Option Text) → Document

-- std::filesystem's normal form of a path; the lines of a file, none where it cannot be opened; the
-- JSON document in a file; nlohmann's `dump(2)`; OpenSSL's SHA-256.
pub record Host : Type 0 where
  pub lexically_normal : Text → Text
  pub read_lines : Text → Option (List Text)
  pub read_document : Text → Document
  pub dump : Json → Text
  pub sha256 : Text → List ℕ

abbrev pub is_absolute : Text → Bool
is_absolute [] = false
is_absolute (c ∷ s) = c == b'/'

-- `base / rel` for a relative path.
unfoldable pub below : Text → Text → Text
below [] rel = rel
below (c ∷ []) rel = if c == b'/' then c ∷ rel else c ∷ b'/' ∷ rel
below (c ∷ base) rel = c ∷ below base rel

unfoldable pub resolve_relative : Host → Text → Text → Text
resolve_relative h base_dir rel =
    if is_absolute rel then h.lexically_normal rel else h.lexically_normal (below base_dir rel)

-- The exception for a value that is no string: it names the first such key.
unfoldable pub not_string_error : List (Text × Option Text) → Text
not_string_error [] = []
not_string_error ((key, none) ∷ rest) =
    codes "site map: value for '" ++ (key ++ codes "' must be a string")
not_string_error ((key, some site) ∷ rest) = not_string_error rest

-- SiteMap::LoadFile: the text of the exception, or the map.
unfoldable pub load_document : Text → Document → Text ⊎ SiteMap
load_document path unopened = inl (codes "cannot open site map: " ++ path)
load_document path (unparsed what) = inl (codes "site map JSON parse error: " ++ what)
load_document path not_object =
    inl
      (codes "site map: root must be a JSON object of host" ++ (226 ∷ 134 ∷ 146 ∷ codes "cms_site"))
load_document path (members doc) = elim (load doc empty_map) [
  | none ↦ inl (not_string_error doc)
  | some m ↦ inr m
]

unfoldable pub load_site_map : Host → Text → Text ⊎ SiteMap
load_site_map h path = load_document path (h.read_document path)

abbrev pub hex_digit : ℕ → ℕ
hex_digit n = if ltb n 10 then b'0' + n else b'a' + (n - 10)

-- `hex[(d >> 4) & 0xf]` and `hex[d & 0xf]` of each byte.
unfoldable pub to_hex : List ℕ → Text
to_hex [] = []
to_hex (d ∷ digest) = hex_digit (d / 16 % 16) ∷ hex_digit (d % 16) ∷ to_hex digest

unfoldable pub sha256_hex : Host → Text → Text
sha256_hex h text = to_hex (h.sha256 text)
