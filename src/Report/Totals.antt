-- ===== src/Report/Totals.antt =====
-- src/report_command.cc: AggregateResultFiles adds up its files, in any order.
use xrdhover.Prelude.Text.{Text}
use xrdhover.Json.{Json, null, is_object}
use xrdhover.Units.{Number}
use xrdhover.Report.Data.{ReportSummary}
use xrdhover.Report.Discover.{FileSystem, Loaded, unreadable, malformed, parsed}
use xrdhover.Report.Aggregate.{
  Gathered, nothing_gathered, gather_result, gather_file, gather_files, conclude,
  aggregate_result_files,
}
use xrdhover.Prelude.Dict.{lookup}
use xrdhover.Report.Figures.{
  bytes_read, sessions_ok, sessions_fail, ops, error, soft_fault, server_bytes, server_ok,
  server_fail, site_bytes, site_ok, site_fail, Figure, shown, told, add_result-adds,
}
use xrdhover.Prelude.{
  ℕ, ◌+◌, ◌%◌, ◌^◌, ◌≡◌, refl, ap, subst, ◌⊎◌, inl, inr, List, [], ◌∷◌, arith, ltb, Bool-cases,
  length,
}

-- The document of a file; null where there is none.
abbrev document_of : Loaded → Json
document_of (parsed j) = j
document_of _ = null

-- The sum of a figure over the documents of the files.
pub sum_over : (Json → ℕ) → FileSystem → List Text → ℕ
sum_over f fs [] = 0
sum_over f fs (path ∷ paths) = f (document_of (fs.load path)) + sum_over f fs paths

Outcome-cases {ℓ} :
    {A : Type ℓ} (r : Text ⊎ A) → ((e : Text) × (r ≡ inl e)) ⊎ ((a : A) × (r ≡ inr a))
Outcome-cases (inl e) = inl (e, refl)
Outcome-cases (inr a) = inr (a, refl)

-- What the part after the loop sets is no figure.
shown-same :
    (f : Figure) (out : ReportSummary) (a b c : Text) (ids : List Text)
    → shown f (record out { run_id = a; endpoint = b; target = c; job_ids = ids }) ≡ shown f out
shown-same bytes_read out a b c ids = refl
shown-same sessions_ok out a b c ids = refl
shown-same sessions_fail out a b c ids = refl
shown-same ops out a b c ids = refl
shown-same (error k) out a b c ids = refl
shown-same (soft_fault k) out a b c ids = refl
shown-same (server_bytes k) out a b c ids = refl
shown-same (server_ok k) out a b c ids = refl
shown-same (server_fail k) out a b c ids = refl
shown-same (site_bytes k) out a b c ids = refl
shown-same (site_ok k) out a b c ids = refl
shown-same (site_fail k) out a b c ids = refl

shown-nothing : (f : Figure) (paths : List Text) → shown f (nothing_gathered paths).out ≡ 0
unfolding lookup
shown-nothing bytes_read paths = refl
shown-nothing sessions_ok paths = refl
shown-nothing sessions_fail paths = refl
shown-nothing ops paths = refl
shown-nothing (error k) paths = refl
shown-nothing (soft_fault k) paths = refl
shown-nothing (server_bytes k) paths = refl
shown-nothing (server_ok k) paths = refl
shown-nothing (server_fail k) paths = refl
shown-nothing (site_bytes k) paths = refl
shown-nothing (site_ok k) paths = refl
shown-nothing (site_fail k) paths = refl

module _ (beyond : Number → ℕ) where
  -- What a result that is not an error shows beside an earlier state.
  abbrev Grows : Figure → ℕ → Gathered → Text ⊎ Gathered → Type 0
  Grows f n g (inl e) = Unit
  Grows f n g (inr g') = shown f g'.out % 2 ^ 64 ≡ (shown f g.out + n) % 2 ^ 64

  gather_file-Grows :
      (f : Figure) (path : Text) (l : Loaded) (g : Gathered)
      → Grows f (told beyond f (document_of l)) g (gather_file beyond path l g)
  unfolding gather_file gather_result
  gather_file-Grows f path unreadable g = tt
  gather_file-Grows f path (malformed what) g = tt
  gather_file-Grows f path (parsed j) g = elim (Bool-cases (is_object j)) [
    | inl q ↦ rw q (add_result-adds beyond f j g.out)
    | inr q ↦ rw q tt
  ]

  Grows-then :
      (f : Figure) (n m : ℕ) (g g' : Gathered) (r : Text ⊎ Gathered)
      → Grows f n g (inr g')
      → Grows f m g' r
      → Grows f (n + m) g r
  Grows-then f n m g g' (inl e) h k = tt
  Grows-then f n m g g' (inr a) h k = omega (arith, h, k)

  gather_files-Grows :
      (f : Figure) (fs : FileSystem) (paths : List Text) (g : Gathered)
      → Grows f (sum_over (told beyond f) fs paths) g (gather_files beyond fs paths g)
  unfolding gather_files sum_over
  gather_files-Grows f fs [] g = omega arith
  gather_files-Grows f fs (path ∷ paths) g =
      let step = gather_file-Grows f path (fs.load path) g in
      elim (Outcome-cases (gather_file beyond path (fs.load path) g)) [
        | inl (e, q) ↦ rw q tt
        | inr (g', q) ↦
            rw q (Grows-then f _ _ g g' _ (rw q at step) (gather_files-Grows f fs paths g'))
      ]

  -- A summary shows what the state of the loop shows.
  abbrev Shows : Figure → ℕ → Text ⊎ ReportSummary → Type 0
  Shows f n (inl e) = Unit
  Shows f n (inr s) = shown f s % 2 ^ 64 ≡ n % 2 ^ 64

  conclude-Shows : (f : Figure) (g : Gathered) → Shows f (shown f g.out) (conclude g)
  unfolding conclude
  conclude-Shows f g = elim (Bool-cases (ltb 1 (length g.run_ids))) [
    | inl q ↦ rw q tt
    | inr q ↦ rw q (ap (λ (n : ℕ). n % 2 ^ 64) (shown-same f g.out _ _ _ _))
  ]

  -- An aggregation that succeeds shows, of every figure (bytes, sessions, ops, each error class and
  -- soft fault, and the bytes and sessions of each data server and site), the sum over the result
  -- files, modulo 2 ^ 64.
  pub aggregate_result_files-sums :
      (f : Figure) (fs : FileSystem) (paths : List Text) {s : ReportSummary}
      → aggregate_result_files beyond fs paths ≡ inr s
      → shown f s % 2 ^ 64 ≡ sum_over (told beyond f) fs paths % 2 ^ 64
  unfolding aggregate_result_files
  aggregate_result_files-sums f fs [] e = cc
  aggregate_result_files-sums f fs (path ∷ paths) {s} e =
      let start = nothing_gathered (path ∷ paths) in
      let sums = gather_files-Grows f fs (path ∷ paths) start in
      elim (Outcome-cases (gather_files beyond fs (path ∷ paths) start)) [
        | inl (what, q) ↦ absurd (ground (arith, e, q))
        | inr (g, q) ↦
            let total = rw q at sums in
            let shows = subst (Shows f (shown f g.out)) (rw q at e) (conclude-Shows f g) in
            omega (arith, shows, total, shown-nothing f (path ∷ paths))
      ]
