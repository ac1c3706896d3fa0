-- ===== src/Report/Discover.antt =====
-- src/report_command.cc: DiscoverResultFiles. The file system is an argument; an exception is its
-- message.
use xrdhover.Prelude.Text.{Text, codes, text_eq}
use xrdhover.Json.{Json}
use xrdhover.Workload.Host.{below, is_absolute}
use xrdhover.Report.Data.{ReportOptions}
use xrdhover.Prelude.{
  ◌⊎◌, inl, inr, Bool, ◌&&◌, not, List, [], ◌∷◌, ◌++◌, ◌==◌, if◌then◌else◌, is_empty,
}

-- A file that is opened and parsed: it cannot be opened, it is no JSON, with the parser's message, or
-- it is a value.
pub data Loaded : Type 0 where
  unreadable : Loaded
  malformed : Text → Loaded
  parsed : Json → Loaded

pub record FileSystem : Type 0 where
  pub is_regular_file : Text → Bool
  pub is_directory : Text → Bool
  pub load : Text → Loaded

-- What follows a call that may throw.
abbrev pub and_then {ℓ κ} : {A : Type ℓ} {B : Type κ} → Text ⊎ A → (A → Text ⊎ B) → Text ⊎ B
and_then (inl e) next = inl e
and_then (inr a) next = next a

-- `p / q` of std::filesystem: an absolute `q` replaces `p`.
unfoldable pub join : Text → Text → Text
join p q = if is_absolute q then q else below p q

-- What follows the last slash.
unfoldable pub filename_loop : Text → Text → Text
filename_loop name [] = name
filename_loop name (c ∷ s) = filename_loop (if c == b'/' then [] else name ++ c ∷ []) s

abbrev pub filename : Text → Text
filename p = filename_loop [] p

abbrev pub result_name : Text
result_name = codes "result.json"

unfoldable pub require_run_id : ReportOptions → Text → Text ⊎ Text
require_run_id opts why =
    if is_empty opts.run_id then inl (why ++ codes " (pass --run-id)") else inr opts.run_id

module _ (fs : FileSystem) where
  -- The result of a run below a results directory, named `shown` in the message.
  unfoldable pub below_root : Text → Text → Text → Text ⊎ List Text
  below_root root shown run_id =
      let single = join (join root run_id) result_name in
      if fs.is_regular_file single
      then inr (single ∷ [])
      else inl (codes "no result.json for run_id=" ++ run_id ++ codes " under " ++ shown)

  unfoldable pub discover_path : ReportOptions → Text ⊎ List Text
  discover_path opts =
      let p = opts.path in
      let direct = join p result_name in
      if fs.is_regular_file p
      then (if text_eq (filename p) result_name
          then inr (p ∷ [])
          else inl (codes "file PATH must be result.json"))
      else if not (fs.is_directory p)
      then inl (codes "PATH not found: " ++ p)
      else if fs.is_regular_file direct
      then inr (direct ∷ [])
      else and_then (require_run_id opts (codes "PATH has no result.json; treat as results root"))
          (below_root p p)

  unfoldable pub in_results_dir : ReportOptions → Text → Text ⊎ List Text
  in_results_dir opts run_id =
      if not (fs.is_directory opts.results_dir)
      then inl (codes "results dir not found: " ++ opts.results_dir)
      else below_root opts.results_dir opts.results_dir run_id

  unfoldable pub discover_result_files : ReportOptions → Text ⊎ List Text
  discover_result_files opts =
      let have_path = not (is_empty opts.path) in
      let have_results = not (is_empty opts.results_dir) in
      if not have_path && not have_results
      then inl (codes "pass a PATH (run dir or result.json) or --results-dir")
      else if have_path && have_results
      then inl (codes "pass PATH or --results-dir, not both")
      else if have_path
      then discover_path opts
      else and_then (require_run_id opts (codes "--results-dir needs --run-id"))
          (in_results_dir opts)
