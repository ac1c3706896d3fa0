-- ===== src/Report/Found.antt =====
-- src/report_command.cc: which file DiscoverResultFiles names, and what the exit code says.
use xrdhover.Prelude.Text.{text_eq_iff, text_eq, Text}
use xrdhover.Report.Data.{ReportOptions}
use xrdhover.Report.Discover.{
  discover_path, and_then, filename, FileSystem, join, result_name, require_run_id, below_root,
  in_results_dir, discover_result_files,
}
use xrdhover.Prelude.{
  ap, Bool-cases, subst, inl, List, ◌⊎◌, ◌≡◌, refl, ◌≢◌, inr, true, false, [], ◌∷◌, arith, is_empty,
}

is_empty_not : (t : Text) → t ≢ [] → is_empty t ≡ false
is_empty_not [] h = absurd (h refl)
is_empty_not (c ∷ t) h = refl

-- A results directory with a run that has a result.
pub discover_result_files-found :
    (fs : FileSystem) (opts : ReportOptions)
    → opts.path ≡ []
    → opts.results_dir ≢ []
    → opts.run_id ≢ []
    → fs.is_directory opts.results_dir ≡ true
    → fs.is_regular_file (join (join opts.results_dir opts.run_id) result_name) ≡ true
    → discover_result_files fs opts
      ≡ inr (join (join opts.results_dir opts.run_id) result_name ∷ [])
unfolding discover_result_files in_results_dir require_run_id below_root
discover_result_files-found fs opts no_path dir id is_dir is_file =
    ground (arith, no_path, is_empty_not _ dir, is_empty_not _ id, is_dir, is_file)

-- Where a result may lie: PATH itself, in PATH, or in the run's directory below PATH or below the
-- results directory.
pub data LiesAt (opts : ReportOptions) : Text → Type 0 where
  itself : filename opts.path ≡ result_name → LiesAt opts opts.path
  in_path : LiesAt opts (join opts.path result_name)
  below_path : opts.run_id ≢ [] → LiesAt opts (join (join opts.path opts.run_id) result_name)
  below_results_dir :
      opts.path ≡ []
      → opts.run_id ≢ []
      → LiesAt opts (join (join opts.results_dir opts.run_id) result_name)

-- A file that is there, at one of these places.
pub record IsResult (fs : FileSystem) (opts : ReportOptions) (file : Text) : Type 0 where
  pub lies : LiesAt opts file
  pub exists : fs.is_regular_file file ≡ true

abbrev Names : FileSystem → ReportOptions → Text ⊎ List Text → Type 0
Names fs opts (inl e) = Unit
Names fs opts (inr files) = (file : Text) × (files ≡ file ∷ []) × IsResult fs opts file

not_is_empty : (t : Text) → is_empty t ≡ false → t ≢ []
not_is_empty [] h = cc
not_is_empty (c ∷ t) h = λ e. cc

Text-cases : (t : Text) → (t ≡ []) ⊎ (is_empty t ≡ false)
Text-cases [] = inl refl
Text-cases (c ∷ t) = inr refl

module _ (fs : FileSystem) (opts : ReportOptions) where
  below_root-Names :
      (root shown run_id : Text)
      → LiesAt opts (join (join root run_id) result_name)
      → Names fs opts (below_root fs root shown run_id)
  unfolding below_root
  below_root-Names root shown run_id at =
      elim (Bool-cases (fs.is_regular_file (join (join root run_id) result_name))) [
        | inl q ↦ rw q (_, refl, record { lies = at; exists = q })
        | inr q ↦ rw q tt
      ]

  -- The run id is required where `next` needs it.
  require_run_id-Names :
      (why : Text) (next : Text → Text ⊎ List Text)
      → (opts.run_id ≢ [] → Names fs opts (next opts.run_id))
      → Names fs opts (and_then (require_run_id opts why) next)
  unfolding require_run_id
  require_run_id-Names why next h = elim (Bool-cases (is_empty opts.run_id)) [
    | inl q ↦ rw q tt
    | inr q ↦ rw q (h (not_is_empty opts.run_id q))
  ]

  path-Names : Names fs opts (discover_path fs opts)
  unfolding discover_path
  path-Names = elim (Bool-cases (fs.is_regular_file opts.path)) [
    | inl file ↦ elim (Bool-cases (text_eq (filename opts.path) result_name)) [
      | inl q ↦
          rw (file, q) (_, refl, record { lies = itself ((text_eq_iff _ _).0 q); exists = file })
      | inr q ↦ rw (file, q) tt
    ]
    | inr no_file ↦ elim (Bool-cases (fs.is_directory opts.path)) [
      | inr q ↦ rw (no_file, q) tt
      | inl dir ↦ elim (Bool-cases (fs.is_regular_file (join opts.path result_name))) [
        | inl q ↦ rw (no_file, dir, q) (_, refl, record { lies = in_path; exists = q })
        | inr q ↦
            rw (no_file, dir, q)
              (require_run_id-Names _ _ λ id. below_root-Names _ _ _ (below_path id))
      ]
    ]
  ]

  results_dir-Names :
      opts.path ≡ [] → opts.run_id ≢ [] → Names fs opts (in_results_dir fs opts opts.run_id)
  unfolding in_results_dir
  results_dir-Names no_path id = elim (Bool-cases (fs.is_directory opts.results_dir)) [
    | inl q ↦ rw q (below_root-Names _ _ _ (below_results_dir no_path id))
    | inr q ↦ rw q tt
  ]

  discover-Names : Names fs opts (discover_result_files fs opts)
  unfolding discover_result_files
  discover-Names = elim (Text-cases opts.path) [
    | inl p ↦ elim (Bool-cases (is_empty opts.results_dir)) [
      | inl q ↦ rw (p, q) tt
      | inr q ↦
          let empty = ap (λ (s : Text). is_empty s) p in
          rw (empty, q) (require_run_id-Names _ (in_results_dir fs opts) (results_dir-Names p))
    ]
    | inr p ↦ elim (Bool-cases (is_empty opts.results_dir)) [
      | inl q ↦ rw (p, q) path-Names
      | inr q ↦ rw (p, q) tt
    ]
  ]

-- A result that is found is one file, which is there, at one of the places where it may lie.
pub discover_result_files-IsResult :
    (fs : FileSystem) (opts : ReportOptions) {files : List Text}
    → discover_result_files fs opts ≡ inr files
    → (file : Text) × (files ≡ file ∷ []) × IsResult fs opts file
discover_result_files-IsResult fs opts e = subst (Names fs opts) e (discover-Names fs opts)
