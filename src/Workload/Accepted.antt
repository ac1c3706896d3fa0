-- ===== src/Workload/Accepted.antt =====
-- src/workload_spec.cc, src/run_command.cc: an accepted workload can be run.
use xrdhover.Workload.Data.{TargetSpec}
use xrdhover.Engine.{run_run_command}
use mathlib.Core.Option.{some-injective}
use xrdhover.Prelude.Text.{codes, starts_with, Text}
use xrdhover.Json.{Json, as_array}
use xrdhover.RunConfig.{RunConfig}
use xrdhover.Workload.Host.{Host}
use xrdhover.Workload.Target.{targets_member, check_targets}
use xrdhover.Workload.Patterns.{nothing-join}
use xrdhover.Workload.Targets.{IsTarget, AreTargets, check_each-AreTargets}
use xrdhover.Workload.Validate.{to_run_config, check_workload, validate_workload_json}
use xrdhover.RunConfig.{resolve_run_config, compute_auto_max_bytes}
use xrdhover.Units.{Number, parse_duration_string}
use xrdhover.Workload.Fields.{duration_value, check_duration, require_string}
use xrdhover.Workload.Sections.{is_not_positive, check_run_duration}
use xrdhover.Prelude.{
  ◌⊎◌, ℕ, zero, suc, ◌<◌, ◌≡◌, refl, subst, inl, inr, true, false, Option, none, some, List, [],
  ◌∷◌, arith, ◌==◌, Bool-cases, Option-cases, get_elem?, is_empty, All,
}

targets_member-AreTargets :
    (h : Host) (dir : Text) (o : Option Json)
    → (targets_member h dir o).issues ≡ []
    → AreTargets [] (targets_member h dir o).value
      × (is_empty (targets_member h dir o).value ≡ false)
unfolding targets_member
targets_member-AreTargets h dir none e = cc
targets_member-AreTargets h dir (some v) e = elim (Option-cases (as_array v)) [
  | inl q ↦ absurd (ground arith)
  | inr (tjs, q) ↦ elim (Bool-cases (is_empty tjs)) [
    | inl r ↦ absurd (ground arith)
    | inr r ↦
        let (all, counted) =
          check_each-AreTargets h dir 0 [] tjs (rw (q, targets_member, r) at e) in
        rw (q, targets_member, r) (all, ground (arith, counted))
  ]
]

-- A workload is accepted exactly when its root is an object and no issue is listed, and it is then
-- the one that was checked.
pub accepted :
    (h : Host) (root : Json) (dir : Text)
    → (validate_workload_json h root dir).ok ≡ true
    → ((check_workload h dir root).issues ≡ [])
      × ((validate_workload_json h root dir).resolved ≡ (check_workload h dir root).value)
unfolding validate_workload_json
accepted h root dir e = ground arith

-- The targets of an accepted workload: there is one, no two share a name, and each has a name, an
-- endpoint under root://, files, 1 to 100000 sessions, reads of 1 to 2 ^ 32 - 1 bytes in 1 to 65535
-- chunks, and a positive cap of the bytes where the rate has none.
pub validate_workload_json-AreTargets :
    (h : Host) (root : Json) (dir : Text)
    → (validate_workload_json h root dir).ok ≡ true
    → let ts = (validate_workload_json h root dir).resolved.targets in
      AreTargets [] ts × (is_empty ts ≡ false)
unfolding check_workload check_targets
validate_workload_json-AreTargets h root dir e =
    let (none_listed, same) = accepted h root dir e in
    rw same (targets_member-AreTargets h dir _ (nothing-join _ 8 none_listed))

duration_value-positive :
    (path message : Text) (out : Number) (read : Option Number)
    → (duration_value path is_not_positive message out read).issues ≡ []
    → is_not_positive (duration_value path is_not_positive message out read).value ≡ false
duration_value-positive path message out none e = cc
duration_value-positive path message out (some d) e = ground arith

check_run_duration-positive :
    (root : Json)
    → (check_run_duration root).issues ≡ []
    → is_not_positive (check_run_duration root).value.1 ≡ false
unfolding check_run_duration check_duration
check_run_duration-positive root e =
    let f = require_string root (codes "duration") (codes "duration") (codes "30s") in
    elim (Bool-cases f.good) [
      | inl g ↦ rw g (duration_value-positive _ _ _ (parse_duration_string f.value) (rw g at e))
      | inr g ↦ rw g refl
    ]

-- The duration of an accepted workload is positive.
pub accepted-positive :
    (h : Host) (root : Json) (dir : Text)
    → (validate_workload_json h root dir).ok ≡ true
    → is_not_positive (validate_workload_json h root dir).resolved.duration ≡ false
unfolding check_workload
accepted-positive h root dir e =
    let (none_listed, same) = accepted h root dir e in
    rw same (check_run_duration-positive root (nothing-join _ 3 none_listed))

compute_auto_max_bytes-some :
    (cfg : RunConfig)
    → 0 < cfg.target_rate_bytes_per_s
    → (bytes : ℕ) × (compute_auto_max_bytes cfg ≡ some bytes)
unfolding compute_auto_max_bytes
compute_auto_max_bytes-some cfg h = elim (Option-cases (compute_auto_max_bytes cfg)) [
  | inl e ↦ absurd (ground arith)
  | inr found ↦ found
]

-- The resolution of a run configuration succeeds unless the rate is uncapped with no byte cap, and
-- changes nothing but the cap.
-- The bytes of a session in the configuration that is run: an automatic cap is the one computed from
-- the rate, and any other is the one that was asked for.
abbrev pub IsCapOf : RunConfig → ℕ → Type 0
IsCapOf cfg bytes =
    ((cfg.max_bytes_auto ≡ true) × (compute_auto_max_bytes cfg ≡ some bytes))
    ⊎ ((cfg.max_bytes_auto ≡ false) × (bytes ≡ cfg.max_bytes))

pub Resolves : RunConfig → Type 0
Resolves cfg =
    (bytes : ℕ) × IsCapOf cfg bytes
    × (resolve_run_config cfg ≡ some (record cfg { max_bytes = bytes }))

pub resolve_run_config-Resolves :
    (cfg : RunConfig)
    → (0 < cfg.target_rate_bytes_per_s) ⊎ ((cfg.max_bytes_auto ≡ false) × (0 < cfg.max_bytes))
    → Resolves cfg
unfolding resolve_run_config Resolves
resolve_run_config-Resolves cfg h = elim (Bool-cases (cfg.target_rate_bytes_per_s == 0)) [
  | inl z ↦ elim h [
    | inl paced ↦ absurd (ground arith)
    | inr capped ↦ (cfg.max_bytes, inr (capped.0, refl), rw (z, capped.0) (ground arith))
  ]
  | inr z ↦ elim (Bool-cases cfg.max_bytes_auto) [
    | inr a ↦ (cfg.max_bytes, inr (a, refl), ground arith)
    | inl a ↦
        let (bytes, e) = compute_auto_max_bytes-some cfg (ground arith) in
        (bytes, inl (a, e), ground arith)
  ]
]

pub IsTarget-at :
    (ts : List TargetSpec) (i : ℕ) (t : TargetSpec)
    → All IsTarget ts
    → get_elem? ts i ≡ some t
    → IsTarget t
IsTarget-at [] i t h e = cc
IsTarget-at (x ∷ ts) zero t h e = subst IsTarget (some-injective _ _ e) h.0
IsTarget-at (x ∷ ts) (suc i) t h e = IsTarget-at ts i t h.1 e

pub starts_with-is_empty : (s : Text) → starts_with (codes "root://") s ≡ true → is_empty s ≡ false
unfolding starts_with
starts_with-is_empty [] h = cc
starts_with-is_empty (c ∷ s) h = refl

pub runs :
    (cfg : RunConfig)
    → Resolves cfg
    → is_empty cfg.endpoint ≡ false
    → is_empty cfg.files ≡ false
    → cfg.dry_run ≡ false
    → (bytes : ℕ) × IsCapOf cfg bytes
      × (run_run_command cfg ≡ inr (record cfg { max_bytes = bytes }))
unfolding run_run_command Resolves
runs cfg (bytes, cap, r) e f d = (bytes, cap, rw (r, run_run_command, e, f, d) refl)

-- The chain from the workload file to the engine: for every target of an accepted workload, the run
-- command neither rejects the configuration made of it nor ends before the engine; it runs that
-- configuration with nothing changed but the bytes of a session, which are the computed cap if it is
-- automatic and otherwise stay what they were.
pub accepted_target_runs :
    (h : Host) (root : Json) (dir : Text) (i : ℕ) {t : TargetSpec}
    → (validate_workload_json h root dir).ok ≡ true
    → get_elem? (validate_workload_json h root dir).resolved.targets i ≡ some t
    → let cfg = to_run_config (validate_workload_json h root dir).resolved t in
      (bytes : ℕ) × IsCapOf cfg bytes
      × (run_run_command cfg ≡ inr (record cfg { max_bytes = bytes }))
unfolding to_run_config
accepted_target_runs h root dir i {t} e found =
    let wl = (validate_workload_json h root dir).resolved in
    let all = (validate_workload_json-AreTargets h root dir e).0.0 in
    let ok = IsTarget-at wl.targets i t all found in
    runs (to_run_config wl t) (resolve_run_config-Resolves (to_run_config wl t) ok.pattern.capped)
      (starts_with-is_empty t.endpoint ok.endpoint) ok.files refl
