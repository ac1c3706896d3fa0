-- ===== src/Workload/Stable.antt =====
-- src/workload_spec.cc: the hash of a workload does not depend on where its files lie.
use xrdhover.Workload.Validate.{validate_workload_json, check_workload}
use xrdhover.Workload.Sinks.{check_sink_fields, check_site_map, check_sinks}
use xrdhover.Prelude.Text.{Text, codes}
use xrdhover.Json.{Json, is_object, as_array}
use xrdhover.RunConfig.FileList.{load_file_list}
use xrdhover.Workload.Fields.{get, optional_string, require_string}
use xrdhover.Workload.Host.{sha256_hex, load_site_map, Host, resolve_relative}
use xrdhover.Workload.Canonical.{sinks_to_json, workload_to_canonical_json, target_to_json}
use xrdhover.Workload.Pattern.{dotted}
use xrdhover.Workload.Target.{
  check_targets, check_filelist, loaded_files, check_target, check_each, targets_member,
  target_path,
}
use xrdhover.Workload.Fields.{ValidationIssue, issue, join}
use xrdhover.Workload.Host.{Document, unopened, not_object, unparsed, members, load_document}
use xrdhover.Workload.Target.{load_error}
use xrdhover.Workload.Sinks.{map_issues}
use xrdhover.Prelude.{
  ◌++◌, ap, sym, ◌∙◌, ℕ, ◌+◌, ◌≡◌, refl, inl, inr, ◌||◌, not, Option, none, some, List, [], ◌∷◌,
  map, Bool-cases, Option-cases, is_empty,
}

-- The fields that the issues are about.
pub issue_fields : List ValidationIssue → List Text
issue_fields [] = []
issue_fields (i ∷ is) = i.field ∷ issue_fields is

issue_fields-append :
    (xs ys : List ValidationIssue) → issue_fields (xs ++ ys) ≡ issue_fields xs ++ issue_fields ys
unfolding issue_fields
issue_fields-append [] ys = refl
issue_fields-append (x ∷ xs) ys = ap (λ (is : List Text). x.field ∷ is) (issue_fields-append xs ys)

issue_fields-join :
    (xss : List (List ValidationIssue)) → issue_fields (join xss) ≡ join (map issue_fields xss)
unfolding join issue_fields
issue_fields-join [] = refl
issue_fields-join (xs ∷ xss) =
    issue_fields-append xs (join xss)
    ∙ ap (λ (is : List Text). issue_fields xs ++ is) (issue_fields-join xss)

same_append :
    (xs xs' ys ys' : List ValidationIssue)
    → issue_fields xs ≡ issue_fields xs'
    → issue_fields ys ≡ issue_fields ys'
    → issue_fields (xs ++ ys) ≡ issue_fields (xs' ++ ys')
same_append xs xs' ys ys' e h =
    issue_fields-append xs ys ∙ rw (e, h) (sym (issue_fields-append xs' ys'))

same_join :
    (xss yss : List (List ValidationIssue))
    → map issue_fields xss ≡ map issue_fields yss
    → issue_fields (join xss) ≡ issue_fields (join yss)
same_join xss yss e =
    issue_fields-join xss ∙ ap (λ (is : List (List Text)). join is) e ∙ sym (issue_fields-join yss)

issue_fields-is_empty : (is : List ValidationIssue) → is_empty is ≡ is_empty (issue_fields is)
unfolding issue_fields
issue_fields-is_empty [] = refl
issue_fields-is_empty (i ∷ is) = refl

-- Two hosts and directories from which every path names a file with the same content, though the
-- paths that it resolves to may differ.
pub record SameFiles (h h' : Host) (dir dir' : Text) : Type 0 where
  pub lines :
      (rel : Text)
      → h.read_lines (resolve_relative h dir rel) ≡ h'.read_lines (resolve_relative h' dir' rel)
  pub maps :
      (rel : Text)
      → h.read_document (resolve_relative h dir rel)
        ≡ h'.read_document (resolve_relative h' dir' rel)
  pub same_dump : (j : Json) → h.dump j ≡ h'.dump j
  pub same_digest : (s : Text) → h.sha256 s ≡ h'.sha256 s

-- The path of a document is only in the text of what is listed of it.
load_document-same :
    (path path' : Text) (d : Document)
    → issue_fields (map_issues (load_document path d))
      ≡ issue_fields (map_issues (load_document path' d))
unfolding load_document issue_fields
load_document-same path path' unopened = refl
load_document-same path path' not_object = refl
load_document-same path path' (unparsed what) = refl
load_document-same path path' (members doc) = refl

module _ {h h' : Host} {dir dir' : Text} (same : SameFiles h h' dir dir') where
  loaded_files-same :
      (field input path path' error error' : Text) (o : Option (List Text))
      → let a = loaded_files field input path error o in
        let b = loaded_files field input path' error' o in
        (issue_fields a.issues ≡ issue_fields b.issues)
        × (a.value.files ≡ b.value.files)
        × (a.value.input ≡ b.value.input)
  unfolding issue_fields
  loaded_files-same field input path path' error error' none = (refl, refl, refl)
  loaded_files-same field input path path' error error' (some files) = (refl, refl, refl)

  check_filelist-same :
      (base : Text) (tj : Json)
      → let a = check_filelist h dir base tj in
        let b = check_filelist h' dir' base tj in
        (issue_fields a.issues ≡ issue_fields b.issues)
        × (a.value.files ≡ b.value.files)
        × (a.value.input ≡ b.value.input)
  unfolding check_filelist
  check_filelist-same base tj =
      let field = dotted base (codes "filelist") in
      let f = require_string tj (codes "filelist") field [] in
      let path = resolve_relative h dir f.value in
      let path' = resolve_relative h' dir' f.value in
      elim (Bool-cases f.good) [
        | inr g ↦ rw g (refl, refl, refl)
        | inl g ↦
            rw (g, same.lines f.value)
              (loaded_files-same field f.value path path' (load_error path (h'.read_lines path'))
                (load_error path' (h'.read_lines path')) (load_file_list (h'.read_lines path')))
      ]

  check_target-same :
      (base : Text) (names : List Text) (tj : Json)
      → let a = check_target h dir base names tj in
        let b = check_target h' dir' base names tj in
        (issue_fields a.issues ≡ issue_fields b.issues)
        × (target_to_json a.value.0 ≡ target_to_json b.value.0)
        × (a.value.1 ≡ b.value.1)
  unfolding check_target target_to_json
  check_target-same base names tj =
      let list = check_filelist-same base tj in
      (same_join _ _ (rw list.0 refl), rw (list.1, list.2), refl)

  check_each-same :
      (idx : ℕ) (names : List Text) (tjs : List Json)
      → let a = check_each h dir idx names tjs in
        let b = check_each h' dir' idx names tjs in
        (issue_fields a.issues ≡ issue_fields b.issues)
        × (map target_to_json a.value ≡ map target_to_json b.value)
  unfolding check_each
  check_each-same idx names [] = (refl, refl)
  check_each-same idx names (tj ∷ tjs) =
      let a = check_target h dir (target_path idx) names tj in
      let b = check_target h' dir' (target_path idx) names tj in
      let t = check_target-same (target_path idx) names tj in
      let rest = check_each-same (idx + 1) b.value.1 tjs in
      let skipped = check_each-same (idx + 1) names tjs in
      let listed = issue (target_path idx) (codes "must be an object") in
      let more = check_each h dir (idx + 1) in
      let more' = check_each h' dir' (idx + 1) in
      elim (Bool-cases (is_object tj)) [
        | inl q ↦
            rw (q, t.2)
              (
                same_append a.issues b.issues (more b.value.1 tjs).issues
                    (more' b.value.1 tjs).issues t.0 rest.0,
                rw (t.1, rest.1),
              )
        | inr q ↦ rw q (
          same_append listed listed (more names tjs).issues (more' names tjs).issues refl skipped.0,
          skipped.1,
        )
      ]

  targets_member-same :
      (o : Option Json)
      → let a = targets_member h dir o in
        let b = targets_member h' dir' o in
        (issue_fields a.issues ≡ issue_fields b.issues)
        × (map target_to_json a.value ≡ map target_to_json b.value)
  unfolding targets_member
  targets_member-same none = (refl, refl)
  targets_member-same (some v) = elim (Option-cases (as_array v)) [
    | inl q ↦ rw (q, targets_member) (refl, refl)
    | inr (tjs, q) ↦ elim (Bool-cases (is_empty tjs)) [
      | inl r ↦ rw (q, targets_member, r) (refl, refl)
      | inr r ↦ rw (q, targets_member, r) (check_each-same 0 [] tjs)
    ]
  ]

  check_site_map-same :
      (sinks : Json)
      → let a = check_site_map h dir sinks in
        let b = check_site_map h' dir' sinks in
        (issue_fields a.issues ≡ issue_fields b.issues) × (a.value.0 ≡ b.value.0)
  unfolding check_site_map load_site_map issue_fields
  check_site_map-same sinks =
      let f = optional_string sinks (codes "site_map") (codes "sinks.site_map") [] in
      let path = resolve_relative h dir f.value in
      let path' = resolve_relative h' dir' f.value in
      elim (Bool-cases (not f.good || is_empty f.value)) [
        | inl q ↦ rw q (refl, refl)
        | inr q ↦
            rw (q, same.maps f.value) (load_document-same path path' (h'.read_document path'), refl)
      ]

  check_sinks-same :
      (root : Json)
      → let a = check_sinks h dir root in
        let b = check_sinks h' dir' root in
        (issue_fields a.issues ≡ issue_fields b.issues)
        × (sinks_to_json a.value ≡ sinks_to_json b.value)
  unfolding check_sinks check_sink_fields sinks_to_json
  check_sinks-same root = elim (Option-cases (get (codes "sinks") root)) [
    | inl e ↦ rw (e, check_sinks) (refl, refl)
    | inr (sinks, e) ↦ elim (Bool-cases (is_object sinks)) [
      | inr q ↦ rw (e, check_sinks, q) (refl, refl)
      | inl q ↦
          let m = check_site_map-same sinks in
          rw (e, check_sinks, q) (same_join _ _ (rw m.0 refl), rw m.1)
    ]
  ]

  check_workload-same :
      (root : Json)
      → let a = check_workload h dir root in
        let b = check_workload h' dir' root in
        (issue_fields a.issues ≡ issue_fields b.issues)
        × (workload_to_canonical_json a.value ≡ workload_to_canonical_json b.value)
  unfolding check_workload workload_to_canonical_json check_targets
  check_workload-same root =
      let s = check_sinks-same root in
      let t = targets_member-same (get (codes "targets") root) in
      (same_join _ _ (rw (s.0, t.0) refl), rw (s.1, t.1))

  -- The verdict on a workload, the fields that its issues are about, its canonical JSON and its hash
  -- are the same on two hosts whose paths name files with the same content, wherever these files lie;
  -- only the texts of the issues may name the paths.
  pub validate_workload_json-same :
      (root : Json)
      → let a = validate_workload_json h root dir in
        let b = validate_workload_json h' root dir' in
        (a.ok ≡ b.ok)
        × (issue_fields a.issues ≡ issue_fields b.issues)
        × (a.canonical_json ≡ b.canonical_json)
        × (a.workload_hash ≡ b.workload_hash)
  unfolding validate_workload_json sha256_hex
  validate_workload_json-same root =
      let w = check_workload-same root in
      let issues = (check_workload h dir root).issues in
      let issues' = (check_workload h' dir' root).issues in
      let verdict : is_empty issues ≡ is_empty issues' =
        issue_fields-is_empty issues
        ∙ ap (λ (is : List Text). is_empty is) w.0
        ∙ sym (issue_fields-is_empty issues') in
      elim (Bool-cases (is_object root)) [
        | inr q ↦ rw q (refl, refl, refl, refl)
        | inl q ↦ elim (Bool-cases (is_empty issues')) [
          | inl r ↦
              rw (q, verdict, r)
                (
                  refl,
                  refl,
                  rw (w.1, same.same_dump _),
                  rw (w.1, same.same_dump _, same.same_digest _),
                )
          | inr r ↦ rw (q, verdict, r) (refl, w.0, refl, refl)
        ]
      ]
