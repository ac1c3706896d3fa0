-- ===== src/Report/Figures.antt =====
-- src/report_command.cc: the figures of a report, and what one result file adds to them, modulo
-- 2 ^ 64.
use xrdhover.Prelude.Text.{Text, codes, text_eq, text_eq_iff, text_eq_refl}
use xrdhover.Prelude.Dict.{Dict, lookup, insert, lookup-insert}
use xrdhover.Json.{Json, fields}
use xrdhover.Units.{Number}
use xrdhover.Metrics.Data.{add64}
use xrdhover.Metrics.Record.{count_key}
use xrdhover.Report.Data.{
  AttributionBucket, new_bucket, ReportSummary, json_u64, count_of, merge_count, merge_counts,
  merge_count_map, merge_bucket, merge_buckets, member_or_null,
}
use xrdhover.Report.Aggregate.{add_result}
use mathlib.Core.Option.{get_or}
use xrdhover.Prelude.{
  ℕ, ◌+◌, ◌%◌, ◌^◌, ◌≡◌, refl, subst, inl, inr, Option, none, some, List, [], ◌∷◌, arith,
  if◌then◌else◌, Bool-cases,
}

-- The sum of a figure over the members under one key.
pub sum_members : Text → (Json → ℕ) → List (Text × Json) → ℕ
sum_members k f [] = 0
sum_members k f ((j, v) ∷ ms) = (if text_eq j k then f v else 0) + sum_members k f ms

module _ (beyond : Number → ℕ) where
  abbrev pub counted : Json → ℕ
  counted v = get_or (count_of beyond v) 0

  -- The count under a key in a member that is a map of counts.
  abbrev pub count_in : Text → Text → Json → ℕ
  count_in member k j = sum_members k counted (fields (member_or_null j member))

  -- A figure of the entry of a data server or site.
  abbrev pub figure_in : Text → Text → Text → Json → ℕ
  figure_in member k name j =
      sum_members k (λ entry. json_u64 beyond entry name) (fields (member_or_null j member))

  merge_count-adds :
      (k j : Text) (o : Option ℕ) (dst : Dict ℕ)
      → get_or (lookup k (merge_count beyond j o dst)) 0 % 2 ^ 64
        ≡ (get_or (lookup k dst) 0 + (if text_eq j k then get_or o 0 else 0)) % 2 ^ 64
  unfolding count_key
  merge_count-adds k j none dst = ground arith
  merge_count-adds k j (some n) dst = rw lookup-insert (elim (Bool-cases (text_eq j k)) [
    | inl q ↦
        subst
          (λ (i : Text).
            get_or (if text_eq j i then some (add64 (get_or (lookup j dst) 0) n) else lookup i dst)
                0
              % 2 ^ 64
            ≡ (get_or (lookup i dst) 0 + (if text_eq j i then n else 0)) % 2 ^ 64)
          ((text_eq_iff j k).0 q) (rw text_eq_refl (omega arith))
    | inr q ↦ rw q (omega arith)
  ])

  merge_counts-adds :
      (k : Text) (ms : List (Text × Json)) (dst : Dict ℕ)
      → get_or (lookup k (merge_counts beyond ms dst)) 0 % 2 ^ 64
        ≡ (get_or (lookup k dst) 0 + sum_members k counted ms) % 2 ^ 64
  unfolding merge_counts sum_members
  merge_counts-adds k [] dst = omega arith
  merge_counts-adds k ((j, v) ∷ ms) dst = omega (
    arith,
    merge_counts-adds k ms (merge_count beyond j (count_of beyond v) dst),
    merge_count-adds k j (count_of beyond v) dst,
  )

  -- A figure of a bucket that merging adds to.
  Adds : (AttributionBucket → ℕ) → Text → Type 0
  Adds figure name =
      (dst : AttributionBucket) (entry : Json)
      → figure (merge_bucket beyond dst entry) ≡ (figure dst + json_u64 beyond entry name) % 2 ^ 64

  insert_bucket-Adds :
      (figure : AttributionBucket → ℕ) (name k j : Text) (v : Json) (dst : Dict AttributionBucket)
      → Adds figure name
      → figure (
            get_or
              (lookup k (insert j (merge_bucket beyond (get_or (lookup j dst) new_bucket) v) dst))
              new_bucket)
          % 2 ^ 64
        ≡ (figure (get_or (lookup k dst) new_bucket)
            + (if text_eq j k then json_u64 beyond v name else 0))
          % 2 ^ 64
  unfolding Adds
  insert_bucket-Adds figure name k j v dst adds =
      let b = merge_bucket beyond (get_or (lookup j dst) new_bucket) v in
      rw lookup-insert (elim (Bool-cases (text_eq j k)) [
        | inl q ↦
            subst
              (λ (i : Text).
                figure (get_or (if text_eq j i then some b else lookup i dst) new_bucket) % 2 ^ 64
                ≡ (figure (get_or (lookup i dst) new_bucket)
                    + (if text_eq j i then json_u64 beyond v name else 0))
                  % 2 ^ 64)
              ((text_eq_iff j k).0 q)
              (rw text_eq_refl (omega (arith, adds (get_or (lookup j dst) new_bucket) v)))
        | inr q ↦ rw q (omega arith)
      ])

  merge_buckets-Adds :
      (figure : AttributionBucket → ℕ) (name k : Text) (ms : List (Text × Json))
      (dst : Dict AttributionBucket)
      → Adds figure name
      → figure (get_or (lookup k (merge_buckets beyond ms dst)) new_bucket) % 2 ^ 64
        ≡ (figure (get_or (lookup k dst) new_bucket)
            + sum_members k (λ entry. json_u64 beyond entry name) ms)
          % 2 ^ 64
  unfolding merge_buckets sum_members Adds
  merge_buckets-Adds figure name k [] dst adds = omega arith
  merge_buckets-Adds figure name k ((j, v) ∷ ms) dst adds =
      let b = merge_bucket beyond (get_or (lookup j dst) new_bucket) v in
      omega (
        arith,
        merge_buckets-Adds figure name k ms (insert j b dst) adds,
        insert_bucket-Adds figure name k j v dst adds,
      )

-- The figures of a report.
pub data Figure : Type 0 where
  bytes_read sessions_ok sessions_fail ops : Figure
  error soft_fault : Text → Figure
  server_bytes server_ok server_fail : Text → Figure
  site_bytes site_ok site_fail : Text → Figure

abbrev bucket_at : Text → Dict AttributionBucket → AttributionBucket
bucket_at k m = get_or (lookup k m) new_bucket

-- A figure as the summary has it; what is not in a map counts as 0.
abbrev pub shown : Figure → ReportSummary → ℕ
shown bytes_read s = s.bytes_read
shown sessions_ok s = s.sessions_ok
shown sessions_fail s = s.sessions_fail
shown ops s = s.ops
shown (error k) s = get_or (lookup k s.errors) 0
shown (soft_fault k) s = get_or (lookup k s.soft_faults) 0
shown (server_bytes k) s = (bucket_at k s.by_data_server).bytes_read
shown (server_ok k) s = (bucket_at k s.by_data_server).sessions_ok
shown (server_fail k) s = (bucket_at k s.by_data_server).sessions_fail
shown (site_bytes k) s = (bucket_at k s.by_cms_site).bytes_read
shown (site_ok k) s = (bucket_at k s.by_cms_site).sessions_ok
shown (site_fail k) s = (bucket_at k s.by_cms_site).sessions_fail

module _ (beyond : Number → ℕ) where
  -- A figure as one document has it.
  abbrev pub told : Figure → Json → ℕ
  told bytes_read j = json_u64 beyond j (codes "bytes_read")
  told sessions_ok j = json_u64 beyond j (codes "sessions_ok")
  told sessions_fail j = json_u64 beyond j (codes "sessions_fail")
  told ops j = json_u64 beyond j (codes "ops")
  told (error k) j = count_in beyond (codes "errors") k j
  told (soft_fault k) j = count_in beyond (codes "soft_faults") k j
  told (server_bytes k) j = figure_in beyond (codes "by_data_server") k (codes "bytes_read") j
  told (server_ok k) j = figure_in beyond (codes "by_data_server") k (codes "sessions_ok") j
  told (server_fail k) j = figure_in beyond (codes "by_data_server") k (codes "sessions_fail") j
  told (site_bytes k) j = figure_in beyond (codes "by_cms_site") k (codes "bytes_read") j
  told (site_ok k) j = figure_in beyond (codes "by_cms_site") k (codes "sessions_ok") j
  told (site_fail k) j = figure_in beyond (codes "by_cms_site") k (codes "sessions_fail") j

  merge_bucket-bytes : Adds beyond (λ b. b.bytes_read) (codes "bytes_read")
  unfolding Adds merge_bucket
  merge_bucket-bytes dst entry = refl

  merge_bucket-ok : Adds beyond (λ b. b.sessions_ok) (codes "sessions_ok")
  unfolding Adds merge_bucket
  merge_bucket-ok dst entry = refl

  merge_bucket-fail : Adds beyond (λ b. b.sessions_fail) (codes "sessions_fail")
  unfolding Adds merge_bucket
  merge_bucket-fail dst entry = refl

  pub add_result-adds :
      (f : Figure) (j : Json) (out : ReportSummary)
      → shown f (add_result beyond j out) % 2 ^ 64 ≡ (shown f out + told f j) % 2 ^ 64
  unfolding add_result merge_count_map
  add_result-adds bytes_read j out = omega arith
  add_result-adds sessions_ok j out = omega arith
  add_result-adds sessions_fail j out = omega arith
  add_result-adds ops j out = omega arith
  add_result-adds (error k) j out = merge_counts-adds beyond k _ out.errors
  add_result-adds (soft_fault k) j out = merge_counts-adds beyond k _ out.soft_faults
  add_result-adds (server_bytes k) j out =
      merge_buckets-Adds beyond _ _ k _ out.by_data_server merge_bucket-bytes
  add_result-adds (server_ok k) j out =
      merge_buckets-Adds beyond _ _ k _ out.by_data_server merge_bucket-ok
  add_result-adds (server_fail k) j out =
      merge_buckets-Adds beyond _ _ k _ out.by_data_server merge_bucket-fail
  add_result-adds (site_bytes k) j out =
      merge_buckets-Adds beyond _ _ k _ out.by_cms_site merge_bucket-bytes
  add_result-adds (site_ok k) j out =
      merge_buckets-Adds beyond _ _ k _ out.by_cms_site merge_bucket-ok
  add_result-adds (site_fail k) j out =
      merge_buckets-Adds beyond _ _ k _ out.by_cms_site merge_bucket-fail
