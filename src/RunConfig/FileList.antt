-- ===== src/RunConfig/FileList.antt =====
-- src/run_config.cc: LoadFileList, over the lines of the file.
use xrdhover.Prelude.Text.{Text}
use xrdhover.Prelude.{
  ℕ, ◌≡◌, refl, subst, inl, inr, Bool, false, ◌&&◌, ◌||◌, Option, none, some, List, [], ◌∷◌, arith,
  ◌==◌, if◌then◌else◌, Bool-cases, is_empty, All,
}

abbrev pub is_blank : ℕ → Bool
is_blank c = (c == b' ') || ((c == 9) || (c == 13))

unfoldable pub trim_front : Text → Text
trim_front [] = []
trim_front (c ∷ cs) = if is_blank c then trim_front cs else c ∷ cs

-- `b > a && blank(line[b - 1])`: the blanks at the end.
unfoldable pub trim_back : Text → Text
trim_back [] = []
trim_back (c ∷ cs) = let rest = trim_back cs in if is_blank c && is_empty rest then [] else c ∷ rest

unfoldable pub trim : Text → Text
trim line = trim_back (trim_front line)

abbrev pub is_comment : Text → Bool
is_comment [] = false
is_comment (c ∷ cs) = c == b'#'

unfoldable pub entries : List Text → List Text
entries [] = []
entries (line ∷ lines) =
    let rest = entries lines in
    let entry = trim line in if is_empty entry || is_comment entry then rest else entry ∷ rest

-- `none` for a file that cannot be opened or has no entry; the argument is the file's lines.
unfoldable pub load_file_list : Option (List Text) → Option (List Text)
load_file_list none = none
load_file_list (some lines) = if is_empty (entries lines) then none else some (entries lines)

trim_back_idem : (s : Text) → trim_back (trim_back s) ≡ trim_back s
unfolding trim_back
trim_back_idem [] = refl
trim_back_idem (c ∷ cs) = ground (arith, trim_back_idem cs)

trim_front-trim_back :
    (c : ℕ) (cs : Text) → is_blank c ≡ false → trim_front (trim_back (c ∷ cs)) ≡ trim_back (c ∷ cs)
unfolding trim_front trim_back
trim_front-trim_back c cs h = ground arith

trim_front-keeps : (s : Text) → trim_front (trim_back (trim_front s)) ≡ trim_back (trim_front s)
unfolding trim_front
trim_front-keeps [] = unfold trim_back in refl
trim_front-keeps (c ∷ cs) = elim (Bool-cases (is_blank c)) [
  | inl e ↦ rw e (trim_front-keeps cs)
  | inr e ↦ rw e (trim_front-trim_back c cs e)
]

trim_idem : (s : Text) → trim (trim s) ≡ trim s
unfolding trim
trim_idem s = rw (trim_front-keeps s) (trim_back_idem (trim_front s))

-- What a list of files may hold: no blanks at either end, not empty, no comment.
abbrev IsEntry : Text → Type 0
IsEntry s = (trim s ≡ s) × (is_empty s ≡ false) × (is_comment s ≡ false)

entries-IsEntry : (lines : List Text) → All IsEntry (entries lines)
unfolding entries
entries-IsEntry [] = tt
entries-IsEntry (line ∷ lines) =
    elim (Bool-cases (is_empty (trim line) || is_comment (trim line))) [
      | inl e ↦ rw e (entries-IsEntry lines)
      | inr e ↦ rw e ((trim_idem line, ground arith, ground arith), entries-IsEntry lines)
    ]

-- A file list that loads is not empty, and each entry is a trimmed, non-empty line that is no
-- comment.
load_file_list-IsEntry :
    (lines : Option (List Text)) {files : List Text}
    → load_file_list lines ≡ some files
    → (is_empty files ≡ false) × All IsEntry files
unfolding load_file_list
load_file_list-IsEntry none h = cc
load_file_list-IsEntry (some lines) h = elim (Bool-cases (is_empty (entries lines))) [
  | inl e ↦ absurd (ground arith)
  | inr e ↦
      let p : entries lines ≡ _ = ground arith in
      (subst (λ fs. is_empty fs ≡ false) p e, subst (All IsEntry) p (entries-IsEntry lines))
]
