-- ===== src/WorkloadRun.antt =====
-- src/workload_run_command.cc, include/xrdhover/workload_run_command.hh: running one target of a
-- workload file. What is printed is left out.
pub mod Selection
pub mod Preflight
use xrdhover.Prelude.{
  [], is_empty, inl, false, some, ◌⊎◌, true, not, if◌then◌else◌, none, ℕ, ◌∷◌, Option, List, Bool,
}
use xrdhover.Prelude.Text.{Text, codes, text_eq}
use xrdhover.Json.{Json}
use xrdhover.RunConfig.{RunConfig}
use xrdhover.Engine.{Action, run_run_command}
use xrdhover.AuthCheck.{System, check_x509_credentials}
use xrdhover.Workload.Data.{TargetSpec, WorkloadSpec}
use xrdhover.Workload.Host.{Host}
use xrdhover.Workload.Validate.{ValidateResult, validate_workload_file, to_run_config}

-- The options without the hook, which `run_workload_command` takes as an argument.
pub record WorkloadRunOptions : Type 0 where
  pub workload_path : Text
  pub target : Text
  pub dry_run : Bool
  pub skip_auth_check : Bool
  pub site_map_path : Text
  pub sitename_query : Bool

-- The first target of that name.
unfoldable pub find_target : Text → List TargetSpec → Option TargetSpec
find_target name [] = none
find_target name (t ∷ ts) =
    let rest = find_target name ts in if text_eq t.name name then some t else rest

abbrev pub only_target : List TargetSpec → Option TargetSpec
only_target (t ∷ []) = some t
only_target _ = none

unfoldable pub select_target : Text → List TargetSpec → Option TargetSpec
select_target name ts = if not (is_empty name) then find_target name ts else only_target ts

-- The authentication of the workload, unless it is skipped.
unfoldable pub is_authorized : System → WorkloadRunOptions → WorkloadSpec → Bool
is_authorized s opts wl =
    if opts.skip_auth_check
    then true
    else if not (text_eq wl.auth_mode (codes "x509"))
    then false
    else (check_x509_credentials s wl.duration []).ok

unfoldable pub with_options : WorkloadRunOptions → ValidateResult → RunConfig → RunConfig
with_options opts validated cfg = record cfg {
  dry_run = opts.dry_run;
  workload_hash = validated.workload_hash;
  workload_resolved_json = validated.canonical_json;
  site_map_path =
      if not (is_empty opts.site_map_path) then opts.site_map_path else cfg.site_map_path;
  sitename_query = opts.sitename_query;
}

-- The steps up to the engine: none is the exit code 2.
unfoldable pub selected_config : System → WorkloadRunOptions → ValidateResult → Option RunConfig
selected_config s opts validated =
    if not validated.ok then none else elim (select_target opts.target validated.resolved.targets) [
      | none ↦ none
      | some t ↦
          if is_authorized s opts validated.resolved
          then some (with_options opts validated (to_run_config validated.resolved t))
          else none
    ]

unfoldable pub run_workload_command :
    Host
    → (Text → Option (Option Json))
    → System
    → Option (RunConfig → ℕ)
    → WorkloadRunOptions
    → ℕ ⊎ RunConfig
run_workload_command h read_json s run_hook opts =
    elim (selected_config s opts (validate_workload_file h read_json opts.workload_path)) [
      | none ↦ inl 2
      | some cfg ↦ elim run_hook [ none ↦ run_run_command cfg | some hook ↦ inl (hook cfg) ]
    ]
