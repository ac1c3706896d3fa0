-- ===== src/WorkloadRun/Preflight.antt =====
-- src/workload_run_command.cc: what is run, and when.
use xrdhover.Prelude.{
  ℕ, ◌∙◌, subst, arith, inr, inl, sym, Option-cases, [], false, Bool-cases, true, ◌≡◌,
}
use xrdhover.Prelude.Text.{Text}
use xrdhover.AuthCheck.Verdict.{IsUsable, check_x509_credentials-IsUsable}
use mathlib.Core.Logic.{◌⊎◌}
use mathlib.Core.Path.{refl}
use xrdhover.Workload.Sections.{is_not_positive}
use xrdhover.Json.{Json}
use xrdhover.Workload.Data.{WorkloadSpec, TargetSpec}
use xrdhover.Workload.Host.{Host}
use xrdhover.Workload.Validate.{
  to_run_config, ValidateResult, validate_workload_file, validate_workload_json,
}
use xrdhover.Workload.Targets.{IsTarget, AreTargets}
use mathlib.Core.Option.{none, some, Option, some-injective}
use xrdhover.Workload.Validate.{parent_dir}
use xrdhover.Workload.Accepted.{
  starts_with-is_empty, resolve_run_config-Resolves, runs, IsCapOf, accepted-positive, IsTarget-at,
  validate_workload_json-AreTargets,
}
use xrdhover.Engine.{run_run_command}
use xrdhover.AuthCheck.{check_x509_credentials, System}
use xrdhover.RunConfig.{RunConfig}
use xrdhover.WorkloadRun.{
  run_workload_command, with_options, WorkloadRunOptions, is_authorized, selected_config,
  select_target,
}
use xrdhover.WorkloadRun.Selection.{select_target-at}

-- A workload file that is accepted was read as a JSON value that is accepted.
abbrev IsRead : Host → (Text → Option (Option Json)) → Text → Json → Type 0
IsRead h read_json path root =
    validate_workload_file h read_json path ≡ validate_workload_json h root (parent_dir path)

validate_workload_file-IsRead :
    (h : Host) (read_json : Text → Option (Option Json)) (path : Text)
    → (validate_workload_file h read_json path).ok ≡ true
    → (root : Json) × IsRead h read_json path root
unfolding validate_workload_file
validate_workload_file-IsRead h read_json path e = elim (Option-cases (read_json path)) [
  | inl q ↦ absurd (ground arith)
  | inr (parsed, q) ↦ elim (Option-cases parsed) [
    | inl r ↦ absurd (ground arith)
    | inr (root, r) ↦ (root, ground (arith, q, r))
  ]
]

-- The three gates of a configuration that is run.
abbrev Passed : System → WorkloadRunOptions → ValidateResult → RunConfig → TargetSpec → Type 0
Passed s opts validated cfg t =
    (validated.ok ≡ true)
    × (select_target opts.target validated.resolved.targets ≡ some t)
    × (is_authorized s opts validated.resolved ≡ true)
    × (cfg ≡ with_options opts validated (to_run_config validated.resolved t))

selected_config-Passed :
    (s : System) (opts : WorkloadRunOptions) (validated : ValidateResult) (cfg : RunConfig)
    → selected_config s opts validated ≡ some cfg
    → (t : TargetSpec) × Passed s opts validated cfg t
unfolding selected_config
selected_config-Passed s opts validated cfg e = elim (Bool-cases validated.ok) [
  | inr q ↦ absurd (ground arith)
  | inl q ↦ elim (Option-cases (select_target opts.target validated.resolved.targets)) [
    | inl r ↦ absurd (ground arith)
    | inr (t, r) ↦ elim (Bool-cases (is_authorized s opts validated.resolved)) [
      | inr z ↦ absurd (ground arith)
      | inl z ↦ (t, (q, r, z, some-injective _ _ (sym (rw (q, r, z) at e))))
    ]
  ]
]

-- What an accepted workload guarantees here.
abbrev Sound : WorkloadSpec → Type 0
Sound wl = AreTargets [] wl.targets × (is_not_positive wl.duration ≡ false)

validate_workload_file-Sound :
    (h : Host) (read_json : Text → Option (Option Json)) (path : Text)
    → (validate_workload_file h read_json path).ok ≡ true
    → Sound (validate_workload_file h read_json path).resolved
validate_workload_file-Sound h read_json path e =
    let (root, same) = validate_workload_file-IsRead h read_json path e in
    let ok = subst (λ (r : ValidateResult). r.ok ≡ true) same e in
    let dir = parent_dir path in
    subst
      (λ (r : ValidateResult).
        AreTargets [] r.resolved.targets × (is_not_positive r.resolved.duration ≡ false))
      (sym same)
      ((validate_workload_json-AreTargets h root dir ok).0, accepted-positive h root dir ok)

config_runs :
    (opts : WorkloadRunOptions) (validated : ValidateResult) (t : TargetSpec)
    → opts.dry_run ≡ false
    → IsTarget t
    → let cfg = with_options opts validated (to_run_config validated.resolved t) in
      (bytes : ℕ) × IsCapOf cfg bytes
      × (run_run_command cfg ≡ inr (record cfg { max_bytes = bytes }))
unfolding with_options to_run_config
config_runs opts validated t dry ok =
    let cfg = with_options opts validated (to_run_config validated.resolved t) in
    runs cfg (resolve_run_config-Resolves cfg ok.pattern.capped)
      (starts_with-is_empty t.endpoint ok.endpoint) ok.files dry

-- What was run.
pub record Ran (s : System) (opts : WorkloadRunOptions) (validated : ValidateResult)
    (cfg : RunConfig) (outcome : ℕ ⊎ RunConfig) : Type 0 where
  pub target : TargetSpec
  pub selected : select_target opts.target validated.resolved.targets ≡ some target
  pub config : cfg ≡ with_options opts validated (to_run_config validated.resolved target)
  pub usable :
      let required = validated.resolved.duration in
      (opts.skip_auth_check ≡ true)
      ⊎ IsUsable s required (check_x509_credentials s required []).proxy_path
  pub bytes : ℕ
  pub cap : IsCapOf cfg bytes
  pub runs : outcome ≡ inr (record cfg { max_bytes = bytes })

is_authorized-IsUsable :
    (s : System) (opts : WorkloadRunOptions) (wl : WorkloadSpec)
    → wl.duration.negative ≡ false
    → is_authorized s opts wl ≡ true
    → (opts.skip_auth_check ≡ true)
      ⊎ IsUsable s wl.duration (check_x509_credentials s wl.duration []).proxy_path
unfolding is_authorized
is_authorized-IsUsable s opts wl positive e = elim (Bool-cases opts.skip_auth_check) [
  | inl skip ↦ inl skip
  | inr skip ↦ inr ((check_x509_credentials-IsUsable s wl.duration [] positive).0.0 (ground arith))
]

reaches_run_command :
    (h : Host) (read_json : Text → Option (Option Json)) (s : System) (opts : WorkloadRunOptions)
    (cfg : RunConfig)
    → selected_config s opts (validate_workload_file h read_json opts.workload_path) ≡ some cfg
    → run_workload_command h read_json s none opts ≡ run_run_command cfg
unfolding run_workload_command
reaches_run_command h read_json s opts cfg e = rw (e, run_workload_command) refl

-- Where the preflight of a workload passes and no dry run is asked for, the engine runs: the
-- configuration is that of the selected target with the options laid over it, the credential of a
-- run that does not skip the check is usable for the duration, and the run command changes nothing
-- of the configuration but the bytes of a session, which are the computed cap if it is automatic and
-- otherwise stay what they were.
pub run_workload_command-runs :
    (h : Host) (read_json : Text → Option (Option Json)) (s : System) (opts : WorkloadRunOptions)
    {cfg : RunConfig}
    → opts.dry_run ≡ false
    → let validated = validate_workload_file h read_json opts.workload_path in
      selected_config s opts validated ≡ some cfg
      → Ran s opts validated cfg (run_workload_command h read_json s none opts)
run_workload_command-runs h read_json s opts {cfg} dry e =
    let validated = validate_workload_file h read_json opts.workload_path in
    let (t, (ok, selected, authorized, config)) = selected_config-Passed s opts validated cfg e in
    let sound : Sound validated.resolved =
      validate_workload_file-Sound h read_json opts.workload_path ok in
    let (i, stands) = select_target-at opts.target validated.resolved.targets t selected in
    let (bytes, cap, runs) =
      config_runs opts validated t dry
        (IsTarget-at validated.resolved.targets i t sound.0.0 stands) in
    record {
      target = t;
      selected = selected;
      config = config;
      usable =
          is_authorized-IsUsable s opts validated.resolved (ground (arith, sound.1)) authorized;
      bytes = bytes;
      cap = subst (λ (c : RunConfig). IsCapOf c bytes) (sym config) cap;
      runs =
          reaches_run_command h read_json s opts cfg e
          ∙ subst (λ (c : RunConfig). run_run_command c ≡ inr (record c { max_bytes = bytes }))
              (sym config) runs;
    }
