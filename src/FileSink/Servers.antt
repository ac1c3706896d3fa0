-- ===== src/FileSink/Servers.antt =====
-- src/metrics.cc: the maps of a registry hold distinct names, and their error counts are at most the
-- number of calls.
use xrdhover.SiteMap.{SiteMap}
use xrdhover.ErrorClassifier.{error_class_name, ErrorClass}
use xrdhover.Prelude.Text.{Text}
use xrdhover.Prelude.Dict.{Dict, lookup, insert}
use xrdhover.Prelude.Distinct.{All-lookup, DistinctKeys, All-insert, DistinctKeys-insert}
use xrdhover.Metrics.Data.{MetricsRegistry, unknown_data_server, EndpointStats, new_endpoint, add64}
use xrdhover.Metrics.Record.{is_no_error, attribute_to, attribute_locked, set_cms_site, count_key}
use xrdhover.Metrics.Sums.{total, total-insert}
use xrdhover.FileSink.Counts.{IsCountMap}
use xrdhover.FileSink.Buckets.{AreFigures, AreEndpoints}
use mathlib.Core.Option.{get_or}
use xrdhover.Prelude.{
  ℕ, ◌+◌, ◌^◌, ◌≤◌, ◌<◌, ◌≡◌, refl, ap, subst, inl, inr, Bool, true, false, ◌||◌, Option, [], ◌∷◌,
  arith, if◌then◌else◌, Bool-cases, Option-cases, is_empty, All,
}

abbrev pub count_total : Dict ℕ → ℕ
count_total = total (λ n. n)

pub count_key-total :
    (k : Text) (n : ℕ) (m : Dict ℕ) → count_total (count_key k n m) ≤ count_total m + n
unfolding count_key
count_key-total k n m =
    omega (arith, total-insert (λ (c : ℕ). c) k (add64 (get_or (lookup k m) 0) n) 0 m refl)

pub count_key-DistinctKeys :
    (k : Text) (n : ℕ) (m : Dict ℕ) → DistinctKeys m → DistinctKeys (count_key k n m)
unfolding count_key
count_key-DistinctKeys k n m d = DistinctKeys-insert k _ m d

-- A count is at most the sum.
counts_below : (bound : ℕ) (m : Dict ℕ) → count_total m < bound → All (λ e. e.1 < bound) m
unfolding total
counts_below bound [] h = tt
counts_below bound ((k, n) ∷ m) h = (omega (arith, h), counts_below bound m (omega (arith, h)))

pub IsCountMap-of_total : (m : Dict ℕ) → DistinctKeys m → count_total m < 2 ^ 53 → IsCountMap m
IsCountMap-of_total m d h = record { distinct = d; small = counts_below (2 ^ 53) m h }

-- Counters of 64 bits, and distinct classes.
pub record Fits (ep : EndpointStats) : Type 0 where
  pub bytes_fit : ep.bytes_read < 2 ^ 64
  pub ok_fit : ep.sessions_ok < 2 ^ 64
  pub fail_fit : ep.sessions_fail < 2 ^ 64
  pub errors_distinct : DistinctKeys ep.errors_by_class

-- An entry under its own name that fits.
pub record IsServer (e : Text × EndpointStats) : Type 0 where
  pub named : e.0 ≡ e.1.data_server
  pub fits : Fits e.1

abbrev pub error_total : EndpointStats → ℕ
error_total ep = count_total ep.errors_by_class

pub record AreServers (n : ℕ) (m : Dict EndpointStats) : Type 0 where
  pub distinct : DistinctKeys m
  pub each : All IsServer m
  pub errors_bound : total error_total m ≤ n

figures_of :
    (n : ℕ) (m : Dict EndpointStats)
    → n < 2 ^ 53
    → All IsServer m
    → total error_total m ≤ n
    → All (λ e. e.0 ≡ e.1.data_server) m
      × All (λ e. AreFigures e.1.bytes_read e.1.sessions_ok e.1.sessions_fail e.1.errors_by_class) m
unfolding total
figures_of n [] s h b = (tt, tt)
figures_of n ((k, ep) ∷ m) s h b =
    let rest = figures_of n m s h.1 (omega (arith, b)) in
    let own = h.0 in
    (
      (own.named, rest.0),
      (
        record {
          bytes_fit = own.fits.bytes_fit;
          ok_fit = own.fits.ok_fit;
          fail_fit = own.fits.fail_fit;
          errors_fit =
              IsCountMap-of_total ep.errors_by_class own.fits.errors_distinct (omega (arith, b, s));
        },
        rest.1,
      ),
    )

pub AreServers-endpoints :
    (n : ℕ) (m : Dict EndpointStats) → n < 2 ^ 53 → AreServers n m → AreEndpoints m
AreServers-endpoints n m s h =
    let parts = figures_of n m s h.each h.errors_bound in
    record { distinct = h.distinct; named = parts.0; fit = parts.1 }

-- An entry that takes the place of another, with at most  errors more.
pub insert-AreServers :
    (n more : ℕ) (k : Text) (ep : EndpointStats) (m : Dict EndpointStats)
    → AreServers n m
    → IsServer (k, ep)
    → error_total ep ≤ error_total (get_or (lookup k m) new_endpoint) + more
    → AreServers (n + more) (insert k ep m)
unfolding total
insert-AreServers n more k ep m h s b = record {
  distinct = DistinctKeys-insert k ep m h.distinct;
  each = All-insert IsServer k ep m s h.each;
  errors_bound =
      omega (arith, total-insert error_total k ep new_endpoint m refl, b, h.errors_bound);
}

pub new_endpoint-Fits : Fits new_endpoint
new_endpoint-Fits = record {
  bytes_fit = omega arith;
  ok_fit = omega arith;
  fail_fit = omega arith;
  errors_distinct = tt;
}

-- The entry that a call finds or makes.
found-Fits :
    (k : Text) (m : Dict EndpointStats) → All IsServer m → Fits (get_or (lookup k m) new_endpoint)
found-Fits k m h = elim (Option-cases (lookup k m)) [
  | inl e ↦ rw e new_endpoint-Fits
  | inr (ep, e) ↦ rw e (All-lookup IsServer k ep m h e).fits
]

attribute_to-Fits :
    (sites : Option SiteMap) (key : Text) (ok : Bool) (bytes : ℕ) (c : ErrorClass) (site : Text)
    (ep : EndpointStats)
    → Fits ep
    → Fits (attribute_to sites key ok bytes c site ep)
unfolding attribute_to
attribute_to-Fits sites key true bytes c site ep h = record {
  bytes_fit = omega arith;
  ok_fit = omega arith;
  fail_fit = h.fail_fit;
  errors_distinct = h.errors_distinct;
}
attribute_to-Fits sites key false bytes c site ep h = record {
  bytes_fit = h.bytes_fit;
  ok_fit = h.ok_fit;
  fail_fit = omega arith;
  errors_distinct = elim (Bool-cases (is_no_error c)) [
    | inl q ↦ rw q h.errors_distinct
    | inr q ↦ rw q (count_key-DistinctKeys _ _ ep.errors_by_class h.errors_distinct)
  ];
}

attribute_to-total :
    (sites : Option SiteMap) (key : Text) (ok : Bool) (bytes : ℕ) (c : ErrorClass) (site : Text)
    (ep : EndpointStats)
    → error_total (attribute_to sites key ok bytes c site ep) ≤ error_total ep + 1
unfolding attribute_to
attribute_to-total sites key true bytes c site ep = omega arith
attribute_to-total sites key false bytes c site ep = elim (Bool-cases (is_no_error c)) [
  | inl q ↦ rw q (omega arith)
  | inr q ↦ rw q (count_key-total (error_class_name c) 1 ep.errors_by_class)
]

attribute_to-named :
    (sites : Option SiteMap) (key : Text) (ok : Bool) (bytes : ℕ) (c : ErrorClass) (site : Text)
    (ep : EndpointStats)
    → key ≡ (attribute_to sites key ok bytes c site ep).data_server
unfolding attribute_to
attribute_to-named sites key true bytes c site ep = refl
attribute_to-named sites key false bytes c site ep = refl

pub attribute_locked-AreServers :
    (ds : Text) (ok : Bool) (bytes : ℕ) (c : ErrorClass) (site : Text) (n : ℕ) (r : MetricsRegistry)
    → AreServers n r.by_data_server
    → AreServers (n + 1) (attribute_locked ds ok bytes c site r).by_data_server
unfolding attribute_locked
attribute_locked-AreServers ds ok bytes c site n r h =
    let key = if is_empty ds then unknown_data_server else ds in
    let ep = get_or (lookup key r.by_data_server) new_endpoint in
    insert-AreServers n 1 key (attribute_to r.site_map key ok bytes c site ep) r.by_data_server h
      (record {
        named = attribute_to-named r.site_map key ok bytes c site ep;
        fits =
            attribute_to-Fits r.site_map key ok bytes c site ep
              (found-Fits key r.by_data_server h.each);
      })
      (attribute_to-total r.site_map key ok bytes c site ep)

pub set_cms_site-AreServers :
    (ds site : Text) (n : ℕ) (r : MetricsRegistry)
    → AreServers n r.by_data_server
    → AreServers n (set_cms_site ds site r).by_data_server
unfolding set_cms_site
set_cms_site-AreServers ds site n r h = elim (Bool-cases (is_empty ds || is_empty site)) [
  | inl q ↦ rw q h
  | inr q ↦ elim (Option-cases (lookup ds r.by_data_server)) [
    | inl e ↦ rw (q, e) h
    | inr (ep, e) ↦
        let named = All-lookup IsServer ds ep r.by_data_server h.each e in
        let put = record ep { cms_site = site } in
        let same = ap (λ (o : Option EndpointStats). error_total (get_or o new_endpoint) + 0) e in
        rw (q, e)
          (subst (λ (k : ℕ). AreServers k (insert ds put r.by_data_server)) (omega arith)
            (insert-AreServers n 0 ds put r.by_data_server h
              (record {
                named = named.named;
                fits = record {
                  bytes_fit = named.fits.bytes_fit;
                  ok_fit = named.fits.ok_fit;
                  fail_fit = named.fits.fail_fit;
                  errors_distinct = named.fits.errors_distinct;
                };
              })
              (omega (arith, same))))
  ]
]
