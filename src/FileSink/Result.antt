-- ===== src/FileSink/Result.antt =====
-- src/file_sink.cc, src/report_command.cc: what the report reads in a result.json.
use xrdhover.Report.Discover.{and_then, Loaded, parsed, FileSystem}
use xrdhover.Prelude.Text.{Text, codes, text_eq}
use xrdhover.Prelude.Dict.{Dict, lookup}
use xrdhover.Json.{Json, string, object, from_members, members-from_members, fields}
use xrdhover.Units.{Number}
use xrdhover.Metrics.Data.{EndpointStats}
use xrdhover.Metrics.Rollup.{SiteStats}
use xrdhover.Metrics.Snapshot.{Fraction, MetricsSnapshot}
use xrdhover.FileSink.Documents.{
  RunInfoMeta, endpoint_entries, site_entries, attributions, result_figures, result_json,
}
use xrdhover.FileSink.Counts.{IsCountMap, merge_count_map-back}
use xrdhover.FileSink.Buckets.{
  AreEndpoints, AreSites, endpoint_bucket, site_bucket, map_values, endpoint_entries-merge,
  site_entries-merge, add64-zero,
}
use xrdhover.Report.Data.{
  json_string, ReportSummary, merge_buckets, json_u64, json_double, member_or_null, zero_number,
}
use xrdhover.Report.Aggregate.{
  gather_result, Gathered, gather_files, gather_file, conclude, aggregate_result_files, larger,
  set_insert, insert_named, nothing_gathered, only, add_result,
}
use xrdhover.Prelude.{
  ◌⊎◌, inr, ℕ, ◌^◌, ◌<◌, ◌≡◌, refl, ap, ◌∙◌, false, List, [], ◌∷◌, ◌++◌, ltb, if◌then◌else◌, length,
  is_empty,
}

-- A snapshot whose counters have 64 bits, whose counts a double holds exactly, and whose maps have
-- distinct keys.
pub record IsStorable (snap : MetricsSnapshot) : Type 0 where
  pub bytes_fit : snap.bytes_read_total < 2 ^ 64
  pub ok_fit : snap.sessions_ok < 2 ^ 64
  pub fail_fit : snap.sessions_fail < 2 ^ 64
  pub ops_fit : snap.read_ops_total < 2 ^ 64
  pub errors_fit : IsCountMap snap.errors_by_class
  pub soft_faults_fit : IsCountMap snap.soft_faults_by_kind
  pub endpoints_fit : AreEndpoints snap.by_data_server
  pub sites_fit : AreSites snap.by_cms_site

-- The summary of one snapshot, as it stands in one file.
abbrev pub summary_of : (Fraction → Number) → Text → MetricsSnapshot → ReportSummary
summary_of decimal_of path snap = record {
  run_id = snap.run_id;
  job_ids = if is_empty snap.job_id then [] else snap.job_id ∷ [];
  sources = path ∷ [];
  endpoint = snap.endpoint;
  target = snap.target;
  elapsed_s = larger zero_number (decimal_of snap.wall);
  bytes_read = snap.bytes_read_total;
  sessions_ok = snap.sessions_ok;
  sessions_fail = snap.sessions_fail;
  ops = snap.read_ops_total;
  errors = snap.errors_by_class;
  soft_faults = snap.soft_faults_by_kind;
  by_data_server = map_values endpoint_bucket snap.by_data_server;
  by_cms_site = map_values site_bucket snap.by_cms_site;
}

-- The end of the document.
abbrev tail : Text → Dict EndpointStats → Dict SiteStats → List (Text × Json)
tail hash m n =
    (if is_empty hash then [] else (codes "workload_hash", string hash) ∷ [])
    ++ ((if is_empty m
          then []
          else (codes "by_data_server", object (from_members (endpoint_entries m []))) ∷ [])
        ++ (if is_empty n
            then []
            else (codes "by_cms_site", object (from_members (site_entries n []))) ∷ []))

tail_endpoints :
    (hash : Text) (m : Dict EndpointStats) (n : Dict SiteStats)
    → fields (member_or_null (object (from_members (tail hash m n))) (codes "by_data_server"))
      ≡ endpoint_entries m []
unfolding lookup text_eq endpoint_entries
tail_endpoints [] [] [] = refl
tail_endpoints [] [] (x ∷ n) = refl
tail_endpoints (c ∷ hash) [] [] = refl
tail_endpoints (c ∷ hash) [] (x ∷ n) = refl
tail_endpoints [] (e ∷ m) n = members-from_members (endpoint_entries (e ∷ m) [])
tail_endpoints (c ∷ hash) (e ∷ m) n = members-from_members (endpoint_entries (e ∷ m) [])

tail_sites :
    (hash : Text) (m : Dict EndpointStats) (n : Dict SiteStats)
    → fields (member_or_null (object (from_members (tail hash m n))) (codes "by_cms_site"))
      ≡ site_entries n []
unfolding lookup text_eq site_entries
tail_sites [] [] [] = refl
tail_sites [] (e ∷ m) [] = refl
tail_sites (c ∷ hash) [] [] = refl
tail_sites (c ∷ hash) (e ∷ m) [] = refl
tail_sites [] [] (x ∷ n) = members-from_members (site_entries (x ∷ n) [])
tail_sites [] (e ∷ m) (x ∷ n) = members-from_members (site_entries (x ∷ n) [])
tail_sites (c ∷ hash) [] (x ∷ n) = members-from_members (site_entries (x ∷ n) [])
tail_sites (c ∷ hash) (e ∷ m) (x ∷ n) = members-from_members (site_entries (x ∷ n) [])

only-insert_named : (name : Text) → only (insert_named name []) ≡ name
unfolding set_insert
only-insert_named [] = refl
only-insert_named (c ∷ name) = refl

single-insert_named : (name : Text) → ltb 1 (length (insert_named name [])) ≡ false
unfolding set_insert
single-insert_named [] = refl
single-insert_named (c ∷ name) = refl

module _ (beyond : Number → ℕ) (decimal_of : Fraction → Number) (meta : RunInfoMeta)
    (snap : MetricsSnapshot) (cpu : Fraction) where
  abbrev document : Json
  document = result_json decimal_of meta snap cpu

  result_endpoints :
      fields (member_or_null document (codes "by_data_server"))
      ≡ endpoint_entries snap.by_data_server []
  unfolding result_json result_figures attributions lookup text_eq
  result_endpoints = tail_endpoints meta.workload_hash snap.by_data_server snap.by_cms_site

  result_sites :
      fields (member_or_null document (codes "by_cms_site")) ≡ site_entries snap.by_cms_site []
  unfolding result_json result_figures attributions lookup text_eq
  result_sites = tail_sites meta.workload_hash snap.by_data_server snap.by_cms_site

  add_result-back :
      (path : Text)
      → IsStorable snap
      → add_result beyond document (nothing_gathered (path ∷ [])).out
        ≡ record (summary_of decimal_of path snap) {
          run_id = [];
          job_ids = [];
          endpoint = [];
          target = [];
        }
  unfolding add_result result_json result_figures json_u64 json_double lookup text_eq
  add_result-back path h =
      let errors = merge_count_map-back beyond snap.errors_by_class h.errors_fit in
      let soft_faults = merge_count_map-back beyond snap.soft_faults_by_kind h.soft_faults_fit in
      let endpoints =
        ap (λ (es : Dict Json). merge_buckets beyond es []) result_endpoints
        ∙ endpoint_entries-merge beyond snap.by_data_server h.endpoints_fit in
      let sites =
        ap (λ (es : Dict Json). merge_buckets beyond es []) result_sites
        ∙ site_entries-merge beyond snap.by_cms_site h.sites_fit in
      λ i. record {
        run_id = [];
        job_ids = [];
        sources = path ∷ [];
        endpoint = [];
        target = [];
        elapsed_s = larger zero_number (decimal_of snap.wall);
        bytes_read = add64-zero _ _ refl h.bytes_fit i;
        sessions_ok = add64-zero _ _ refl h.ok_fit i;
        sessions_fail = add64-zero _ _ refl h.fail_fit i;
        ops = add64-zero _ _ refl h.ops_fit i;
        errors = errors i;
        soft_faults = soft_faults i;
        by_data_server = endpoints i;
        by_cms_site = sites i;
      }

  gather_file-result :
      (path : Text) (g : Gathered)
      → gather_file beyond path (parsed document) g ≡ inr (gather_result beyond document g)
  unfolding gather_file result_json
  gather_file-result path g = refl

  gather_files-result :
      (fs : FileSystem) (path : Text) (g : Gathered)
      → fs.load path ≡ parsed document
      → gather_files beyond fs (path ∷ []) g ≡ inr (gather_result beyond document g)
  unfolding gather_files
  gather_files-result fs path g loaded =
      let step =
        ap (λ (l : Loaded). gather_file beyond path l g) loaded ∙ gather_file-result path g in
      ap (λ (r : Text ⊎ Gathered). and_then r (gather_files beyond fs [])) step

  conclude-result :
      (path : Text)
      → IsStorable snap
      → conclude (gather_result beyond document (nothing_gathered (path ∷ [])))
        ≡ inr (summary_of decimal_of path snap)
  unfolding conclude gather_result result_json result_figures json_string lookup text_eq set_insert
  conclude-result path h =
      let e = add_result-back path h in
      rw (single-insert_named snap.run_id) (λ i. inr (record (e i) {
        run_id = only-insert_named snap.run_id i;
        endpoint = only-insert_named snap.endpoint i;
        target = only-insert_named snap.target i;
        job_ids = if is_empty snap.job_id then [] else snap.job_id ∷ [];
      }))

  -- A file that parses as the result of a snapshot gives the summary of the snapshot.
  pub aggregate_result_files-back :
      (fs : FileSystem) (path : Text)
      → fs.load path ≡ parsed document
      → IsStorable snap
      → aggregate_result_files beyond fs (path ∷ []) ≡ inr (summary_of decimal_of path snap)
  unfolding aggregate_result_files
  aggregate_result_files-back fs path loaded h =
      ap (λ (r : Text ⊎ Gathered). and_then r conclude)
        (gather_files-result fs path (nothing_gathered (path ∷ [])) loaded)
      ∙ conclude-result path h
