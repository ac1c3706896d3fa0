-- ===== src/FileSink/Rolled.antt =====
-- src/metrics.cc: the rollup by site keeps distinct names, and its error counts add up to at most those
-- of the servers.
use xrdhover.Prelude.Text.{Text}
use xrdhover.Prelude.Dict.{Dict, lookup, insert}
use xrdhover.Prelude.Distinct.{DistinctKeys, All-insert, All-lookup, DistinctKeys-insert}
use xrdhover.Metrics.Data.{EndpointStats, unmapped_cms_site}
use xrdhover.Metrics.Record.{count_key}
use xrdhover.Metrics.Rollup.{SiteStats, new_site, add_errors, add_endpoint, rollup}
use xrdhover.Metrics.Sums.{total, total-insert}
use xrdhover.FileSink.Buckets.{AreFigures, AreSites}
use xrdhover.FileSink.Servers.{
  count_total, count_key-total, count_key-DistinctKeys, IsCountMap-of_total, error_total,
}
use mathlib.Core.Option.{get_or}
use xrdhover.Prelude.{
  ℕ, ◌+◌, ◌^◌, ◌≤◌, ◌<◌, ◌≡◌, refl, subst, inl, inr, [], ◌∷◌, arith, if◌then◌else◌, Option-cases,
  is_empty, All,
}

-- The sites, with the errors of the servers that were added up.
abbrev IsSite : Text × SiteStats → Type 0
IsSite e =
    (e.0 ≡ e.1.cms_site)
    × (e.1.bytes_read < 2 ^ 64)
    × (e.1.sessions_ok < 2 ^ 64)
    × (e.1.sessions_fail < 2 ^ 64)
    × DistinctKeys e.1.errors_by_class

abbrev site_errors : SiteStats → ℕ
site_errors s = count_total s.errors_by_class

record AreRolled (n : ℕ) (sites : Dict SiteStats) : Type 0 where
  distinct : DistinctKeys sites
  each : All IsSite sites
  errors_bound : total site_errors sites ≤ n

add_errors-total :
    (es m : Dict ℕ)
    → DistinctKeys m
    → (count_total (add_errors es m) ≤ count_total m + count_total es)
      × DistinctKeys (add_errors es m)
unfolding add_errors total
add_errors-total [] m d = (omega arith, d)
add_errors-total ((k, n) ∷ es) m d =
    let ih = add_errors-total es (count_key k n m) (count_key-DistinctKeys k n m d) in
    (omega (arith, ih.0, count_key-total k n m), ih.1)

found-distinct :
    (k : Text) (n : ℕ) (sites : Dict SiteStats)
    → AreRolled n sites
    → DistinctKeys (get_or (lookup k sites) new_site).errors_by_class
found-distinct k n sites h = elim (Option-cases (lookup k sites)) [
  | inl e ↦ rw e tt
  | inr (site, e) ↦
      rw e
        (All-lookup
          (λ e.
            (e.0 ≡ e.1.cms_site)
            × (e.1.bytes_read < 2 ^ 64)
            × (e.1.sessions_ok < 2 ^ 64)
            × (e.1.sessions_fail < 2 ^ 64)
            × DistinctKeys e.1.errors_by_class)
          k site sites h.each e).4
]

add_endpoint-AreRolled :
    (ep : EndpointStats) (key : Text) (n : ℕ) (sites : Dict SiteStats)
    → AreRolled n sites
    → AreRolled
        (n + error_total ep)
        (insert key (add_endpoint ep key (get_or (lookup key sites) new_site)) sites)
unfolding add_endpoint total
add_endpoint-AreRolled ep key n sites h =
    let old = get_or (lookup key sites) new_site in
    let site = add_endpoint ep key old in
    let merged =
      add_errors-total ep.errors_by_class old.errors_by_class (found-distinct key n sites h) in
    record {
      distinct = DistinctKeys-insert key site sites h.distinct;
      each =
          All-insert IsSite key site sites (refl, omega arith, omega arith, omega arith, merged.1)
            h.each;
      errors_bound =
          omega (
            arith,
            total-insert site_errors key site new_site sites refl,
            merged.0,
            h.errors_bound,
          );
    }

rollup-AreRolled :
    (m : Dict EndpointStats) (n : ℕ) (sites : Dict SiteStats)
    → AreRolled n sites
    → AreRolled (n + total error_total m) (rollup m sites)
unfolding rollup total
rollup-AreRolled [] n sites h = subst (λ (k : ℕ). AreRolled k sites) (omega arith) h
rollup-AreRolled ((k, ep) ∷ m) n sites h =
    let key = if is_empty ep.cms_site then unmapped_cms_site else ep.cms_site in
    let site = add_endpoint ep key (get_or (lookup key sites) new_site) in
    let sites' = insert key site sites in
    subst (λ (j : ℕ). AreRolled j (rollup m sites')) (omega arith)
      (rollup-AreRolled m (n + error_total ep) sites' (add_endpoint-AreRolled ep key n sites h))

rolled_figures :
    (sites : Dict SiteStats)
    → All IsSite sites
    → total site_errors sites < 2 ^ 53
    → All (λ e. e.0 ≡ e.1.cms_site) sites
      × All
          (λ e. AreFigures e.1.bytes_read e.1.sessions_ok e.1.sessions_fail e.1.errors_by_class)
          sites
unfolding total
rolled_figures [] h b = (tt, tt)
rolled_figures ((k, site) ∷ sites) h b =
    let rest = rolled_figures sites h.1 (omega (arith, b)) in
    let (named, bytes, ok, fail, distinct) = h.0 in
    (
      (named, rest.0),
      (
        record {
          bytes_fit = bytes;
          ok_fit = ok;
          fail_fit = fail;
          errors_fit = IsCountMap-of_total site.errors_by_class distinct (omega (arith, b));
        },
        rest.1,
      ),
    )

pub rollup-AreSites :
    (m : Dict EndpointStats) → total error_total m < 2 ^ 53 → AreSites (rollup m [])
unfolding total
rollup-AreSites m b =
    let h =
      rollup-AreRolled m 0 [] (record { distinct = tt; each = tt; errors_bound = omega arith }) in
    let parts = rolled_figures (rollup m []) h.each (omega (arith, h.errors_bound, b)) in
    record { distinct = h.distinct; named = parts.0; fit = parts.1 }
