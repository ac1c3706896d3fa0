-- ===== src/PromEncode/Labels.antt =====
-- src/prom_encode.cc: what is written in the labels can be read back.
use xrdhover.Prelude.Text.{codes, Text}
use xrdhover.PromEncode.{
  source_and_dest, common_values, MetricsSnapshot, common_labels, label, write_labels, escape_label,
}
use mathlib.Core.List.{append-nil, append_assoc}
use xrdhover.Prelude.{
  ℕ, ◌≡◌, refl, sym, ap, ◌∙◌, ◌⊎◌, inl, inr, Bool, true, false, ◌||◌, Option, none, some, List, [],
  ◌∷◌, ◌++◌, arith, ◌==◌, if◌then◌else◌, ==_iff, Bool-cases, is_empty,
}

abbrev before : ℕ → Option (Text × Text) → Option (Text × Text)
before c none = none
before c (some (value, rest)) = some (c ∷ value, rest)

-- The byte that stands behind a backslash.
abbrev unescaped : ℕ → ℕ
unescaped c = if c == b'n' then 10 else c

-- A quoted value of the exposition format, after its first quote: the value and the text after the
-- quote that ends it. The flag says whether a backslash stands before.
unfoldable pub read_quoted : Bool → Text → Option (Text × Text)
read_quoted escaped [] = none
read_quoted true (c ∷ s) = before (unescaped c) (read_quoted false s)
read_quoted false (c ∷ s) = elim (c == 34) [
  | true ↦ some ([], s)
  | false ↦ elim (c == 92) [ true ↦ read_quoted true s | false ↦ before c (read_quoted false s) ]
]

-- A byte is written after a backslash, or as it is when it is neither a quote nor a backslash.
Written : ℕ → Text → Type 0
Written c s =
    ((d : ℕ) × (escape_label (c ∷ s) ≡ 92 ∷ d ∷ escape_label s) × (unescaped d ≡ c))
    ⊎ ((escape_label (c ∷ s) ≡ c ∷ escape_label s) × ((c == 34) ≡ false) × ((c == 92) ≡ false))

escape_label-Written : (c : ℕ) (s : Text) → Written c s
unfolding escape_label Written
escape_label-Written c s = elim (Bool-cases ((c == 92) || (c == 34))) [
  | inl q ↦ inl (c, rw q refl, ground arith)
  | inr q ↦ elim (Bool-cases (c == 10)) [
    | inl z ↦ inl (b'n', rw (q, z) refl, ground arith)
    | inr z ↦ inr (rw (q, z) refl, ground arith, ground arith)
  ]
]

escape_label-nil : escape_label [] ≡ []
unfolding escape_label
escape_label-nil = refl

-- Reading a quoted label gives its value back, and ends where the value ends.
read_quoted-escape_label :
    (s rest : Text) → read_quoted false (escape_label s ++ 34 ∷ rest) ≡ some (s, rest)
unfolding read_quoted Written
read_quoted-escape_label [] rest = rw escape_label-nil refl
read_quoted-escape_label (c ∷ s) rest =
    let ih = read_quoted-escape_label s rest in
    elim (escape_label-Written c s) [
      | inl (d, e, back) ↦ rw (e, ih, back) refl
      | inr (e, quote, slash) ↦ rw (e, read_quoted, quote, slash, ih) refl
    ]

-- The text after a beginning that it must have.
unfoldable pub strip : Text → Text → Option Text
strip [] s = some s
strip (p ∷ ps) [] = none
strip (p ∷ ps) (c ∷ s) = elim (p == c) [ true ↦ strip ps s | false ↦ none ]

strip-append : (p s : Text) → strip p (p ++ s) ≡ some s
unfolding strip
strip-append [] s = refl
strip-append (p ∷ ps) s = rw (strip, (==_iff p p).1 refl) (strip-append ps s)

unfoldable pub read_label : Text → Text → Option (Text × Text)
read_label name text = elim (strip (name ++ codes "=\"") text) [
  | none ↦ none
  | some s ↦ read_quoted false s
]

-- After a label: a comma where another label is expected.
abbrev after_label : List Text → Text → Option Text
after_label [] rest = some rest
after_label (name ∷ names) rest = strip (b',' ∷ []) rest

-- The labels with these names, a comma between them and nothing after them.
unfoldable pub read_labels : List Text → Text → Option (List (Text × Text))
read_labels [] [] = some []
read_labels [] (c ∷ text) = none
read_labels (name ∷ names) text = elim (read_label name text) [
  | none ↦ none
  | some found ↦ elim (after_label names found.1) [
    | none ↦ none
    | some rest ↦ elim (read_labels names rest) [
      | none ↦ none
      | some ls ↦ some ((name, found.0) ∷ ls)
    ]
  ]
]

read_label-label :
    (name value rest : Text) → read_label name (label name value ++ rest) ≡ some (value, rest)
unfolding read_label
read_label-label name value rest =
    let start = name ++ codes "=\"" in
    let quoted = escape_label value ++ 34 ∷ rest in
    let apart : label name value ++ rest ≡ start ++ quoted =
      append_assoc start (escape_label value ++ 34 ∷ []) rest
      ∙ ap (λ (t : Text). start ++ t) (append_assoc (escape_label value) (34 ∷ []) rest) in
    rw (apart, read_label, strip-append start quoted, read_quoted-escape_label value rest) refl

abbrev pub names_of : List (Text × Text) → List Text
names_of [] = []
names_of ((name, value) ∷ ls) = name ∷ names_of ls

read_labels-write_labels :
    (ls : List (Text × Text)) → read_labels (names_of ls) (write_labels ls) ≡ some ls
unfolding read_labels write_labels
read_labels-write_labels [] = refl
read_labels-write_labels ((name, value) ∷ []) =
    let read =
      ap (read_label name) (sym (append-nil (label name value))) ∙ read_label-label name value [] in
    rw (read_labels, read) refl
read_labels-write_labels ((name, value) ∷ l ∷ ls) =
    rw
      (
        read_labels,
        read_label-label name value (b',' ∷ write_labels (l ∷ ls)),
        strip-append (b',' ∷ []) (write_labels (l ∷ ls)),
        read_labels-write_labels (l ∷ ls),
      )
      refl

-- The names of the labels that every series has.
abbrev pub label_names : List Text
label_names =
    codes "src_dst"
    ∷ codes "job_id"
    ∷ codes "host"
    ∷ codes "target"
    ∷ codes "endpoint"
    ∷ codes "source"
    ∷ codes "dest"
    ∷ []

-- The labels that every series has are read back from its text as they were, whatever bytes a value
-- has: they are the seven labels below in this order, and the text holds nothing else.
pub read_labels-common_labels :
    (s : MetricsSnapshot)
    → read_labels label_names (common_labels s)
      ≡ some (
          (codes "src_dst", s.run_id)
          ∷ (codes "job_id", s.job_id)
          ∷ (codes "host", if is_empty s.host then codes "unknown" else s.host)
          ∷ (codes "target", s.target)
          ∷ (codes "endpoint", s.endpoint)
          ∷ (codes "source", (source_and_dest s.run_id).0)
          ∷ (codes "dest", (source_and_dest s.run_id).1)
          ∷ [])
unfolding common_labels common_values
read_labels-common_labels s = read_labels-write_labels (common_values s)
