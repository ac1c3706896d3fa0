-- ===== src/WorkloadRun/Selection.antt =====
-- src/workload_run_command.cc: which target is selected.
use xrdhover.Prelude.{
  ℕ, List, ap, zero, arith, inr, inl, is_empty, suc, sym, ◌∷◌, [], false, Bool-cases, true, ◌≡◌,
  get_elem?,
}
use xrdhover.Prelude.Text.{Text, text_eq, text_eq_refl}
use xrdhover.Json.{Json}
use xrdhover.Workload.Data.{TargetSpec}
use xrdhover.Workload.Host.{Host}
use xrdhover.Workload.Validate.{validate_workload_json}
use xrdhover.Workload.Targets.{HaveNames}
use xrdhover.Workload.Target.{is_name_of}
use mathlib.Core.Option.{some, some-injective}
use xrdhover.Workload.Accepted.{IsTarget-at, validate_workload_json-AreTargets}
use xrdhover.WorkloadRun.{find_target, only_target, select_target}

-- A target whose name comes later is not found under a name that is taken.
HaveNames-later :
    (taken : List Text) (ts : List TargetSpec) (i : ℕ) (t : TargetSpec)
    → HaveNames taken ts
    → get_elem? ts i ≡ some t
    → is_name_of t.name taken ≡ false
unfolding is_name_of
HaveNames-later taken [] i t h e = cc
HaveNames-later taken (x ∷ ts) zero t h e = rw (sym (some-injective _ _ e)) h.0
HaveNames-later taken (x ∷ ts) (suc i) t h e =
    let later = HaveNames-later (x.name ∷ taken) ts i t h.1 e in ground (arith, later)

find_target_unique :
    (taken : List Text) (ts : List TargetSpec) (i : ℕ) (t : TargetSpec)
    → HaveNames taken ts
    → get_elem? ts i ≡ some t
    → find_target t.name ts ≡ some t
unfolding find_target is_name_of
find_target_unique taken [] i t h e = cc
find_target_unique taken (x ∷ ts) zero t h e =
    let same = some-injective _ _ e in
    ground (arith, same, text_eq_refl t.name, ap (λ (u : TargetSpec). u.name) same)
find_target_unique taken (x ∷ ts) (suc i) t h e =
    let later = HaveNames-later (x.name ∷ taken) ts i t h.1 e in
    let differs : text_eq x.name t.name ≡ false = ground (arith, later) in
    rw differs (find_target_unique (x.name ∷ taken) ts i t h.1 e)

-- In an accepted workload every target can be selected by its name: the selection finds that target
-- and no other.
select_target-finds :
    (h : Host) (root : Json) (dir : Text) (i : ℕ) {t : TargetSpec}
    → (validate_workload_json h root dir).ok ≡ true
    → get_elem? (validate_workload_json h root dir).resolved.targets i ≡ some t
    → select_target t.name (validate_workload_json h root dir).resolved.targets ≡ some t
unfolding select_target
select_target-finds h root dir i {t} e found =
    let ts = (validate_workload_json h root dir).resolved.targets in
    let are = (validate_workload_json-AreTargets h root dir e).0 in
    let named = (IsTarget-at ts i t are.0 found).named in
    rw named (find_target_unique [] ts i t are.1 found)

-- A selected target stands in the list.
find_target-at :
    (name : Text) (ts : List TargetSpec) (t : TargetSpec)
    → find_target name ts ≡ some t
    → (i : ℕ) × (get_elem? ts i ≡ some t)
unfolding find_target
find_target-at name [] t e = cc
find_target-at name (x ∷ ts) t e = elim (Bool-cases (text_eq x.name name)) [
  | inl q ↦ (0, rw q at e)
  | inr q ↦ let (i, at_i) = find_target-at name ts t (rw q at e) in (suc i, at_i)
]

only_target-at :
    (ts : List TargetSpec) (t : TargetSpec)
    → only_target ts ≡ some t
    → (i : ℕ) × (get_elem? ts i ≡ some t)
only_target-at [] t e = cc
only_target-at (x ∷ []) t e = (0, e)
only_target-at (x ∷ y ∷ ts) t e = cc

pub select_target-at :
    (name : Text) (ts : List TargetSpec) (t : TargetSpec)
    → select_target name ts ≡ some t
    → (i : ℕ) × (get_elem? ts i ≡ some t)
unfolding select_target
select_target-at name ts t e = elim (Bool-cases (is_empty name)) [
  | inl q ↦ only_target-at ts t (rw q at e)
  | inr q ↦ find_target-at name ts t (rw q at e)
]
