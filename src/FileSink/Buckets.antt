-- ===== src/FileSink/Buckets.antt =====
-- src/file_sink.cc, src/report_command.cc: the split by data server and by site, from the sink's JSON
-- to the buckets of the report.
use xrdhover.Prelude.Text.{Text, codes, text_eq}
use xrdhover.Prelude.Dict.{Dict, lookup, insert}
use xrdhover.Prelude.Distinct.{DistinctKeys, Fresh, Fresh-snoc, Fresh-nil, insert-fresh}
use xrdhover.Json.{Json, string, object, from_members, count_map}
use xrdhover.Units.{Number}
use xrdhover.Metrics.Data.{EndpointStats, add64}
use xrdhover.Metrics.Rollup.{SiteStats}
use xrdhover.FileSink.Documents.{endpoint_json, site_json, endpoint_entries, site_entries}
use xrdhover.FileSink.Counts.{IsCountMap, merge_count_map-back}
use xrdhover.Report.Data.{
  AttributionBucket, new_bucket, merge_count_map, merge_bucket, merge_buckets, json_u64,
  json_string, member_or_null,
}
use mathlib.Core.Option.{get_or}
use mathlib.Core.List.{append_assoc, append-nil}
use xrdhover.Prelude.{
  ℕ, ◌^◌, ◌<◌, ◌≡◌, refl, sym, ap, ◌∙◌, Option, [], ◌∷◌, ◌++◌, arith, if◌then◌else◌, is_empty, All,
}

-- Counters of 64 bits, and error counts that a double holds.
pub record AreFigures (bytes ok fail : ℕ) (errors : Dict ℕ) : Type 0 where
  pub bytes_fit : bytes < 2 ^ 64
  pub ok_fit : ok < 2 ^ 64
  pub fail_fit : fail < 2 ^ 64
  pub errors_fit : IsCountMap errors

abbrev pub endpoint_bucket : EndpointStats → AttributionBucket
endpoint_bucket ep = record {
  bytes_read = ep.bytes_read;
  sessions_ok = ep.sessions_ok;
  sessions_fail = ep.sessions_fail;
  errors = ep.errors_by_class;
  cms_site = ep.cms_site;
}

-- The report does not read the name of a site from its entry.
abbrev pub site_bucket : SiteStats → AttributionBucket
site_bucket site = record {
  bytes_read = site.bytes_read;
  sessions_ok = site.sessions_ok;
  sessions_fail = site.sessions_fail;
  errors = site.errors_by_class;
  cms_site = [];
}

abbrev pub map_values {ℓ κ} : {V : Type ℓ} {W : Type κ} → (V → W) → Dict V → Dict W
map_values f [] = []
map_values f ((k, v) ∷ m) = (k, f v) ∷ map_values f m

-- An entry whose members are read as the fields of a bucket becomes that bucket.
record Tells (beyond : Number → ℕ) (entry : Json) (b : AttributionBucket) : Type 0 where
  bytes_told : json_u64 beyond entry (codes "bytes_read") ≡ b.bytes_read
  ok_told : json_u64 beyond entry (codes "sessions_ok") ≡ b.sessions_ok
  fail_told : json_u64 beyond entry (codes "sessions_fail") ≡ b.sessions_fail
  errors_told : member_or_null entry (codes "errors") ≡ count_map b.errors
  site_told : json_string entry (codes "cms_site") ≡ b.cms_site

pub add64-zero : (n m : ℕ) → n ≡ m → m < 2 ^ 64 → add64 0 n ≡ m
add64-zero n m e h = rw e (omega (arith, h))

site_member-back :
    (site : Text)
    → json_string
        (object (from_members (if is_empty site then [] else (codes "cms_site", string site) ∷ [])))
        (codes "cms_site")
      ≡ site
unfolding json_string lookup text_eq
site_member-back [] = refl
site_member-back (c ∷ site) = refl

-- Entries under distinct keys that are the names they hold, with figures that fit.
pub record AreEndpoints (m : Dict EndpointStats) : Type 0 where
  pub distinct : DistinctKeys m
  pub named : All (λ e. e.0 ≡ e.1.data_server) m
  pub fit :
      All (λ e. AreFigures e.1.bytes_read e.1.sessions_ok e.1.sessions_fail e.1.errors_by_class) m

pub record AreSites (m : Dict SiteStats) : Type 0 where
  pub distinct : DistinctKeys m
  pub named : All (λ e. e.0 ≡ e.1.cms_site) m
  pub fit :
      All (λ e. AreFigures e.1.bytes_read e.1.sessions_ok e.1.sessions_fail e.1.errors_by_class) m

endpoint_entries-back :
    (m : Dict EndpointStats) (by_ds : Dict Json)
    → DistinctKeys m
    → All (λ e. e.0 ≡ e.1.data_server) m
    → Fresh by_ds m
    → endpoint_entries m by_ds ≡ by_ds ++ map_values endpoint_json m
unfolding endpoint_entries
endpoint_entries-back [] by_ds d n f = sym (append-nil by_ds)
endpoint_entries-back ((k, ep) ∷ m) by_ds d n f =
    ap (λ (j : Text). endpoint_entries m (insert j (endpoint_json ep) by_ds)) (sym n.0)
    ∙ ap (endpoint_entries m) (insert-fresh k (endpoint_json ep) by_ds f.0)
    ∙ endpoint_entries-back m (by_ds ++ (k, endpoint_json ep) ∷ []) d.1 n.1
        (Fresh-snoc k (endpoint_json ep) by_ds m f.1 d.0)
    ∙ append_assoc by_ds ((k, endpoint_json ep) ∷ []) (map_values endpoint_json m)

site_entries-back :
    (m : Dict SiteStats) (by_site : Dict Json)
    → DistinctKeys m
    → All (λ e. e.0 ≡ e.1.cms_site) m
    → Fresh by_site m
    → site_entries m by_site ≡ by_site ++ map_values site_json m
unfolding site_entries
site_entries-back [] by_site d n f = sym (append-nil by_site)
site_entries-back ((k, site) ∷ m) by_site d n f =
    ap (λ (j : Text). site_entries m (insert j (site_json site) by_site)) (sym n.0)
    ∙ ap (site_entries m) (insert-fresh k (site_json site) by_site f.0)
    ∙ site_entries-back m (by_site ++ (k, site_json site) ∷ []) d.1 n.1
        (Fresh-snoc k (site_json site) by_site m f.1 d.0)
    ∙ append_assoc by_site ((k, site_json site) ∷ []) (map_values site_json m)

module _ (beyond : Number → ℕ) where
  merge_bucket-Tells :
      (entry : Json) (b : AttributionBucket)
      → Tells beyond entry b
      → AreFigures b.bytes_read b.sessions_ok b.sessions_fail b.errors
      → merge_bucket beyond new_bucket entry ≡ b
  unfolding merge_bucket
  merge_bucket-Tells entry b t h =
      let bytes = add64-zero _ _ t.bytes_told h.bytes_fit in
      let ok = add64-zero _ _ t.ok_told h.ok_fit in
      let fail = add64-zero _ _ t.fail_told h.fail_fit in
      let errors =
        ap (merge_count_map beyond []) t.errors_told
        ∙ merge_count_map-back beyond b.errors h.errors_fit in
      λ i. record {
        bytes_read = bytes i;
        sessions_ok = ok i;
        sessions_fail = fail i;
        errors = errors i;
        cms_site = t.site_told i;
      }

  endpoint-Tells : (ep : EndpointStats) → Tells beyond (endpoint_json ep) (endpoint_bucket ep)
  unfolding endpoint_json json_u64 json_string lookup text_eq
  endpoint-Tells ep = record {
    bytes_told = refl;
    ok_told = refl;
    fail_told = refl;
    errors_told = refl;
    site_told = site_member-back ep.cms_site;
  }

  site-Tells : (site : SiteStats) → Tells beyond (site_json site) (site_bucket site)
  unfolding site_json json_u64 json_string lookup text_eq
  site-Tells site = record {
    bytes_told = refl;
    ok_told = refl;
    fail_told = refl;
    errors_told = refl;
    site_told = refl;
  }

  -- Entries under distinct names, merged one after the other.
  merge_buckets-back {ℓ} :
      {V : Type ℓ} (json : V → Json) (bucket : V → AttributionBucket) (m : Dict V)
      (dst : Dict AttributionBucket)
      → All (λ e. merge_bucket beyond new_bucket (json e.1) ≡ bucket e.1) m
      → DistinctKeys m
      → Fresh dst m
      → merge_buckets beyond (map_values json m) dst ≡ dst ++ map_values bucket m
  unfolding merge_buckets
  merge_buckets-back json bucket [] dst h d f = sym (append-nil dst)
  merge_buckets-back json bucket ((k, v) ∷ m) dst h d f =
      ap
        (λ (o : Option AttributionBucket).
          merge_buckets beyond (map_values json m)
            (insert k (merge_bucket beyond (get_or o new_bucket) (json v)) dst))
        f.0
      ∙ ap (λ (b : AttributionBucket). merge_buckets beyond (map_values json m) (insert k b dst))
          h.0
      ∙ ap (merge_buckets beyond (map_values json m)) (insert-fresh k (bucket v) dst f.0)
      ∙ merge_buckets-back json bucket m (dst ++ (k, bucket v) ∷ []) h.1 d.1
          (Fresh-snoc k (bucket v) dst m f.1 d.0)
      ∙ append_assoc dst ((k, bucket v) ∷ []) (map_values bucket m)

  told_endpoints :
      (m : Dict EndpointStats)
      → All (λ e. AreFigures e.1.bytes_read e.1.sessions_ok e.1.sessions_fail e.1.errors_by_class) m
      → All (λ e. merge_bucket beyond new_bucket (endpoint_json e.1) ≡ endpoint_bucket e.1) m
  told_endpoints [] h = tt
  told_endpoints ((k, ep) ∷ m) h =
      (merge_bucket-Tells _ _ (endpoint-Tells ep) h.0, told_endpoints m h.1)

  told_sites :
      (m : Dict SiteStats)
      → All (λ e. AreFigures e.1.bytes_read e.1.sessions_ok e.1.sessions_fail e.1.errors_by_class) m
      → All (λ e. merge_bucket beyond new_bucket (site_json e.1) ≡ site_bucket e.1) m
  told_sites [] h = tt
  told_sites ((k, site) ∷ m) h = (merge_bucket-Tells _ _ (site-Tells site) h.0, told_sites m h.1)

  -- The entries that the sink writes become the buckets of the report.
  pub endpoint_entries-merge :
      (m : Dict EndpointStats)
      → AreEndpoints m
      → merge_buckets beyond (endpoint_entries m []) [] ≡ map_values endpoint_bucket m
  endpoint_entries-merge m h =
      ap (λ (es : Dict Json). merge_buckets beyond es [])
        (endpoint_entries-back m [] h.distinct h.named (Fresh-nil Json m))
      ∙ merge_buckets-back endpoint_json endpoint_bucket m [] (told_endpoints m h.fit) h.distinct
          (Fresh-nil AttributionBucket m)

  pub site_entries-merge :
      (m : Dict SiteStats)
      → AreSites m
      → merge_buckets beyond (site_entries m []) [] ≡ map_values site_bucket m
  site_entries-merge m h =
      ap (λ (es : Dict Json). merge_buckets beyond es [])
        (site_entries-back m [] h.distinct h.named (Fresh-nil Json m))
      ∙ merge_buckets-back site_json site_bucket m [] (told_sites m h.fit) h.distinct
          (Fresh-nil AttributionBucket m)
