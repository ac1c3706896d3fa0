-- ===== src/Workload/Targets.antt =====
-- src/workload_spec.cc: what a target guarantees for which no issue is listed.
use xrdhover.Prelude.Text.{Text, codes, starts_with}
use xrdhover.Json.{Json, is_object, as_string}
use xrdhover.RunConfig.FileList.{load_file_list}
use xrdhover.Workload.Data.{TargetSpec}
use xrdhover.Workload.Fields.{Field, get, string_field, require_string}
use xrdhover.Workload.Host.{Host, resolve_relative}
use xrdhover.Workload.Pattern.{counted, check_pattern, dotted}
use xrdhover.Workload.Target.{
  load_error, check_name, is_name_of, check_endpoint, check_filelist, loaded_files, check_target,
  check_each, target_path,
}
use xrdhover.Workload.Patterns.{
  nothing-append, nothing-join, InRange, counted-InRange, IsPattern, pattern_member-IsPattern,
}
use xrdhover.Prelude.{
  ℕ, ◌+◌, ◌≡◌, refl, subst, inl, inr, true, false, Option, none, some, List, [], ◌∷◌, arith,
  if◌then◌else◌, Bool-cases, Option-cases, length, is_empty, All,
}

-- What a target that was accepted satisfies.
pub record IsTarget (t : TargetSpec) : Type 0 where
  pub named : is_empty t.name ≡ false
  pub endpoint : starts_with (codes "root://") t.endpoint ≡ true
  pub files : is_empty t.files ≡ false
  pub inflight : InRange 1 100000 t.max_inflight
  pub pattern : IsPattern t.target_rate_bytes_per_s t.pattern

-- A field that is good lists nothing, and one that is not lists an issue.
abbrev Agrees {ℓ} : {A : Type ℓ} → Field A → Type 0
Agrees f = if f.good then f.issues ≡ [] else is_empty f.issues ≡ false

string_field-Agrees : (path out : Text) (o : Option Text) → Agrees (string_field path out o)
string_field-Agrees path out none = refl
string_field-Agrees path out (some s) = refl

require_string-Agrees :
    (parent : Json) (key path out : Text) → Agrees (require_string parent key path out)
unfolding require_string
require_string-Agrees parent key path out = elim (Option-cases (get key parent)) [
  | inl e ↦ rw (e, require_string) refl
  | inr (v, e) ↦ rw (e, require_string) (string_field-Agrees path out (as_string v))
]

check_name-named :
    (base : Text) (names : List Text) (tj : Json)
    → (check_name base names tj).issues ≡ []
    → is_empty (check_name base names tj).value.0 ≡ false
unfolding check_name
check_name-named base names tj h =
    let f = require_string tj (codes "name") (dotted base (codes "name")) [] in
    let a = require_string-Agrees tj (codes "name") (dotted base (codes "name")) [] in
    elim (Bool-cases f.good) [ inl g ↦ ground arith | inr g ↦ ground (arith, rw g at a) ]

check_endpoint-root :
    (base : Text) (tj : Json)
    → (check_endpoint base tj).issues ≡ []
    → starts_with (codes "root://") (check_endpoint base tj).value ≡ true
unfolding check_endpoint
check_endpoint-root base tj h =
    let f = require_string tj (codes "endpoint") (dotted base (codes "endpoint")) [] in
    let a = require_string-Agrees tj (codes "endpoint") (dotted base (codes "endpoint")) [] in
    elim (Bool-cases f.good) [ inl g ↦ ground arith | inr g ↦ ground (arith, rw g at a) ]

loaded_files-files :
    (field input path error : Text) (o : Option (List Text))
    → (loaded_files field input path error (load_file_list o)).issues ≡ []
    → is_empty (loaded_files field input path error (load_file_list o)).value.files ≡ false
unfolding load_file_list
loaded_files-files field input path error none h = cc
loaded_files-files field input path error (some lines) h = ground arith

check_filelist-files :
    (h : Host) (dir base : Text) (tj : Json)
    → (check_filelist h dir base tj).issues ≡ []
    → is_empty (check_filelist h dir base tj).value.files ≡ false
unfolding check_filelist
check_filelist-files h dir base tj e =
    let field = dotted base (codes "filelist") in
    let f = require_string tj (codes "filelist") field [] in
    let path = resolve_relative h dir f.value in
    let a = require_string-Agrees tj (codes "filelist") field [] in
    elim (Bool-cases f.good) [
      | inl g ↦ rw g (
          loaded_files-files field f.value path (load_error path (h.read_lines path))
            (h.read_lines path) (rw g at e))
      | inr g ↦ ground (arith, rw g at a)
    ]

check_target-IsTarget :
    (h : Host) (dir base : Text) (names : List Text) (tj : Json)
    → (check_target h dir base names tj).issues ≡ []
    → IsTarget (check_target h dir base names tj).value.0
unfolding check_target check_pattern
check_target-IsTarget h dir base names tj e = record {
  named = check_name-named base names tj (nothing-join _ 1 e);
  endpoint = check_endpoint-root base tj (nothing-join _ 2 e);
  files = check_filelist-files h dir base tj (nothing-join _ 3 e);
  inflight = counted-InRange tj _ _ 16 100000 _ (omega arith, omega arith);
  pattern = pattern_member-IsPattern base _ (get (codes "pattern") tj) (nothing-join _ 6 e);
}

-- No two targets share a name, nor has one a name that is taken.
abbrev pub HaveNames : List Text → List TargetSpec → Type 0
HaveNames taken [] = Unit
HaveNames taken (t ∷ ts) = (is_name_of t.name taken ≡ false) × HaveNames (t.name ∷ taken) ts

check_name-taken :
    (base : Text) (names : List Text) (tj : Json)
    → (check_name base names tj).issues ≡ []
    → let v = (check_name base names tj).value in
      (is_name_of v.0 names ≡ false) × (v.1 ≡ v.0 ∷ names)
unfolding check_name
check_name-taken base names tj h =
    let f = require_string tj (codes "name") (dotted base (codes "name")) [] in
    let a = require_string-Agrees tj (codes "name") (dotted base (codes "name")) [] in
    elim (Bool-cases f.good) [ inl g ↦ ground arith | inr g ↦ ground (arith, rw g at a) ]

check_target-taken :
    (h : Host) (dir base : Text) (names : List Text) (tj : Json)
    → (check_target h dir base names tj).issues ≡ []
    → let v = (check_target h dir base names tj).value in
      (is_name_of v.0.name names ≡ false) × (v.1 ≡ v.0.name ∷ names)
unfolding check_target
check_target-taken h dir base names tj e = check_name-taken base names tj (nothing-join _ 1 e)

abbrev pub AreTargets : List Text → List TargetSpec → Type 0
AreTargets names ts = All IsTarget ts × HaveNames names ts

pub check_each-AreTargets :
    (h : Host) (dir : Text) (idx : ℕ) (names : List Text) (tjs : List Json)
    → (check_each h dir idx names tjs).issues ≡ []
    → AreTargets names (check_each h dir idx names tjs).value
      × (length (check_each h dir idx names tjs).value ≡ length tjs)
unfolding check_each
check_each-AreTargets h dir idx names [] e = ((tt, tt), refl)
check_each-AreTargets h dir idx names (tj ∷ tjs) e = elim (Bool-cases (is_object tj)) [
  | inr q ↦ absurd (ground arith)
  | inl q ↦
      let base = target_path idx in
      let t = check_target h dir base names tj in
      let parts = nothing-append t.issues _ (rw q at e) in
      let rest = (check_each h dir (idx + 1) t.value.1 tjs).value in
      let (all, counted) = check_each-AreTargets h dir (idx + 1) t.value.1 tjs parts.1 in
      let taken = check_target-taken h dir base names tj parts.0 in
      rw q (
        (
          (check_target-IsTarget h dir base names tj parts.0, all.0),
          (taken.0, subst (λ (ns : List Text). HaveNames ns rest) taken.1 all.1),
        ),
        omega (arith, counted),
      )
]
