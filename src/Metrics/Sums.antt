-- ===== src/Metrics/Sums.antt =====
-- src/metrics.cc: the split by data server, the rollup by site and the error classes add up to the
-- totals of the run, modulo 2 ^ 64.
use xrdhover.Prelude.Text.{Text, text_eq}
use xrdhover.Prelude.Dict.{Dict, lookup, insert}
use xrdhover.ErrorClassifier.{ErrorClass, no_error}
use xrdhover.SiteMap.{SiteMap}
use xrdhover.Metrics.Data.{
  unmapped_cms_site, zeros, bump, EndpointStats, new_endpoint, MetricsRegistry, new_registry, zeros,
}
use xrdhover.Metrics.Record.{
  SessionFigures, attribute_to, attribute_locked, observe_session_ok, observe_session_fail,
  observe_read_op, observe_soft_fault, set_inflight, set_cms_site, set_labels, set_host,
  set_config_gauges, set_site_map, sample_proc, error_class_index,
}
use xrdhover.Metrics.Rollup.{SiteStats, new_site, add_endpoint, rollup}
use mathlib.Core.Option.{get_or}
use xrdhover.Prelude.{
  ℕ, zero, suc, ◌+◌, ◌%◌, ◌^◌, ◌<◌, ◌≡◌, refl, ◌∙◌, inl, inr, Bool, true, false, ◌||◌, Option, some,
  List, [], ◌∷◌, arith, if◌then◌else◌, Bool-cases, Option-cases, length, is_empty,
}

-- A call of the registry.
pub data Update : Type 0 where
  session_ok : SessionFigures → Text → Text → Update
  session_fail : ErrorClass → Text → Text → Update
  read_op : Option ℕ → Update
  soft_fault : Text → Update
  inflight : ℕ → Update
  cms_site : Text → Text → Update
  labels : Text → Text → Text → Text → Text → Update
  host : Text → Text → Update
  gauges : ℕ → ℕ → Update
  site_map : Option SiteMap → Update
  process : ℕ → ℕ → Update

unfoldable pub update : Update → MetricsRegistry → MetricsRegistry
update (session_ok f ds site) r = observe_session_ok f ds site r
update (session_fail c ds site) r = observe_session_fail c ds site r
update (read_op s) r = observe_read_op s r
update (soft_fault k) r = observe_soft_fault k r
update (inflight n) r = set_inflight n r
update (cms_site ds site) r = set_cms_site ds site r
update (labels l a b c d) r = set_labels l a b c d r
update (host l h) r = set_host l h r
update (gauges a b) r = set_config_gauges a b r
update (site_map m) r = set_site_map m r
update (process a b) r = sample_proc a b r

unfoldable pub updates : List Update → MetricsRegistry → MetricsRegistry
updates [] r = r
updates (u ∷ us) r = updates us (update u r)

unfoldable pub total {ℓ} : {V : Type ℓ} → (V → ℕ) → Dict V → ℕ
total f [] = 0
total f ((k, v) ∷ m) = f v + total f m

pub total-insert {ℓ} :
    {V : Type ℓ} (f : V → ℕ) (k : Text) (v d : V) (m : Dict V)
    → f d ≡ 0
    → total f (insert k v m) + f (get_or (lookup k m) d) ≡ total f m + f v
unfolding total insert lookup
total-insert f k v d [] z = omega (arith, z)
total-insert f k v d ((j, w) ∷ m) z = elim (Bool-cases (text_eq j k)) [
  | inl q ↦ rw q (omega arith)
  | inr q ↦ rw q (omega (arith, total-insert f k v d m z))
]

adds {ℓ} :
    {V : Type ℓ} (f : V → ℕ) (k : Text) (v d : V) (m : Dict V) (n : ℕ)
    → f d ≡ 0
    → f v % 2 ^ 64 ≡ (f (get_or (lookup k m) d) + n) % 2 ^ 64
    → total f (insert k v m) % 2 ^ 64 ≡ (total f m + n) % 2 ^ 64
adds f k v d m n z h = omega (arith, total-insert f k v d m z)

-- The sums over the data servers.
abbrev bytes_of : MetricsRegistry → ℕ
bytes_of r = total (λ e. e.bytes_read) r.by_data_server

abbrev ok_of : MetricsRegistry → ℕ
ok_of r = total (λ e. e.sessions_ok) r.by_data_server

abbrev fail_of : MetricsRegistry → ℕ
fail_of r = total (λ e. e.sessions_fail) r.by_data_server

record Adds (ok : Bool) (n : ℕ) (r out : MetricsRegistry) : Type 0 where
  bytes : bytes_of out % 2 ^ 64 ≡ (bytes_of r + (if ok then n else 0)) % 2 ^ 64
  oks : ok_of out % 2 ^ 64 ≡ (ok_of r + (if ok then 1 else 0)) % 2 ^ 64
  fails : fail_of out % 2 ^ 64 ≡ (fail_of r + (if ok then 0 else 1)) % 2 ^ 64

attribute_locked-Adds :
    (ds : Text) (ok : Bool) (n : ℕ) (c : ErrorClass) (site : Text) (r : MetricsRegistry)
    → Adds ok n r (attribute_locked ds ok n c site r)
unfolding attribute_locked attribute_to
attribute_locked-Adds ds true n c site r = record {
  bytes = adds (λ e. e.bytes_read) _ _ new_endpoint r.by_data_server n refl (omega arith);
  oks = adds (λ e. e.sessions_ok) _ _ new_endpoint r.by_data_server 1 refl (omega arith);
  fails = adds (λ e. e.sessions_fail) _ _ new_endpoint r.by_data_server 0 refl (omega arith);
}
attribute_locked-Adds ds false n c site r = record {
  bytes = adds (λ e. e.bytes_read) _ _ new_endpoint r.by_data_server 0 refl (omega arith);
  oks = adds (λ e. e.sessions_ok) _ _ new_endpoint r.by_data_server 0 refl (omega arith);
  fails = adds (λ e. e.sessions_fail) _ _ new_endpoint r.by_data_server 1 refl (omega arith);
}

unfoldable pub sum : List ℕ → ℕ
sum [] = 0
sum (n ∷ ns) = n + sum ns

pub sum-bump :
    (i n : ℕ) (cs : List ℕ)
    → i < length cs
    → (length (bump i n cs) ≡ length cs) × (sum (bump i n cs) % 2 ^ 64 ≡ (sum cs + n) % 2 ^ 64)
unfolding sum bump
sum-bump i n [] h = omega arith
sum-bump zero n (c ∷ cs) h = (refl, omega arith)
sum-bump (suc i) n (c ∷ cs) h =
    let ih = sum-bump i n cs (omega arith) in (omega (arith, ih.0), omega (arith, ih.1))

error_class_index-lt : (c : ErrorClass) → error_class_index c < 12
error_class_index-lt c = ground arith

-- The parts add up to the counters of the run: the bytes, the good and the failed sessions of the
-- data servers, and the failures of each class.
abbrev pub AddsUp : MetricsRegistry → Type 0
AddsUp r =
    (bytes_of r % 2 ^ 64 ≡ r.bytes_read_total)
    × (ok_of r % 2 ^ 64 ≡ r.sessions_ok)
    × (fail_of r % 2 ^ 64 ≡ r.sessions_fail)
    × (length r.errors_by_class ≡ 12)
    × (sum r.errors_by_class % 2 ^ 64 ≡ r.sessions_fail)

named-total :
    (f : EndpointStats → ℕ) (ds site : Text) (ep : EndpointStats) (m : Dict EndpointStats)
    → lookup ds m ≡ some ep
    → f new_endpoint ≡ 0
    → f (record ep { cms_site = site }) ≡ f ep
    → total f (insert ds (record ep { cms_site = site }) m) % 2 ^ 64 ≡ total f m % 2 ^ 64
named-total f ds site ep m q z h =
    omega (
      arith,
      adds f ds (record ep { cms_site = site }) new_endpoint m 0 z (rw q (omega (arith, h))),
    )

set_cms_site-AddsUp :
    (ds site : Text) (r : MetricsRegistry) → AddsUp r → AddsUp (set_cms_site ds site r)
unfolding set_cms_site
set_cms_site-AddsUp ds site r h = elim (Bool-cases (is_empty ds || is_empty site)) [
  | inl q ↦ rw q h
  | inr q ↦ elim (Option-cases (lookup ds r.by_data_server)) [
    | inl e ↦ rw (q, e) h
    | inr (ep, e) ↦
        rw (q, e)
          (
            named-total (λ e. e.bytes_read) ds site ep r.by_data_server e refl refl ∙ h.0,
            named-total (λ e. e.sessions_ok) ds site ep r.by_data_server e refl refl ∙ h.1,
            named-total (λ e. e.sessions_fail) ds site ep r.by_data_server e refl refl ∙ h.2,
            h.3,
            h.4,
          )
  ]
]

pub update-AddsUp : (u : Update) (r : MetricsRegistry) → AddsUp r → AddsUp (update u r)
unfolding update observe_session_ok observe_session_fail observe_read_op observe_soft_fault
    set_labels set_host attribute_locked
update-AddsUp (session_ok f ds site) r h =
    let a = attribute_locked-Adds ds true f.bytes no_error site r in
    (omega (arith, a.bytes, h.0), omega (arith, a.oks, h.1), omega (arith, a.fails, h.2), h.3, h.4)
update-AddsUp (session_fail c ds site) r h =
    let a = attribute_locked-Adds ds false 0 c site r in
    let b =
      sum-bump (error_class_index c) 1 r.errors_by_class
        (omega (arith, error_class_index-lt c, h.3)) in
    (
      omega (arith, a.bytes, h.0),
      omega (arith, a.oks, h.1),
      omega (arith, a.fails, h.2),
      b.0 ∙ h.3,
      omega (arith, b.1, h.4),
    )
update-AddsUp (cms_site ds site) r h = set_cms_site-AddsUp ds site r h
update-AddsUp (read_op s) r h = h
update-AddsUp (soft_fault k) r h = h
update-AddsUp (inflight n) r h = h
update-AddsUp (labels l a b c d) r h = h
update-AddsUp (host l n) r h = h
update-AddsUp (gauges a b) r h = h
update-AddsUp (site_map m) r h = h
update-AddsUp (process a b) r h = h

updates-keep : (us : List Update) (r : MetricsRegistry) → AddsUp r → AddsUp (updates us r)
unfolding updates
updates-keep [] r h = h
updates-keep (u ∷ us) r h = updates-keep us (update u r) (update-AddsUp u r h)

pub new_registry-AddsUp : AddsUp new_registry
unfolding total sum zeros
new_registry-AddsUp = (refl, refl, refl, refl, refl)

-- After any sequence of calls of a new registry, the bytes read and the sessions that ended well or
-- failed add up over the data servers to the totals of the run, and so do the failures over the
-- error classes, all modulo 2 ^ 64.
updates-AddsUp : (us : List Update) → AddsUp (updates us new_registry)
updates-AddsUp us = updates-keep us new_registry new_registry-AddsUp

abbrev pub site_total : (SiteStats → ℕ) → MetricsRegistry → ℕ
site_total f r = total f (rollup r.by_data_server [])

rollup-total :
    (f : EndpointStats → ℕ) (g : SiteStats → ℕ)
    → g new_site ≡ 0
    → ((ep : EndpointStats) (k : Text) (s : SiteStats)
        → g (add_endpoint ep k s) ≡ (g s + f ep) % 2 ^ 64)
    → (m : Dict EndpointStats) (sites : Dict SiteStats)
    → total g (rollup m sites) % 2 ^ 64 ≡ (total f m + total g sites) % 2 ^ 64
unfolding rollup total
rollup-total f g z a [] sites = omega arith
rollup-total f g z a ((k, ep) ∷ m) sites =
    let key = if is_empty ep.cms_site then unmapped_cms_site else ep.cms_site in
    let old = get_or (lookup key sites) new_site in
    let v = add_endpoint ep key old in
    omega (
      arith,
      rollup-total f g z a m (insert key v sites),
      adds g key v new_site sites (f ep) z (omega (arith, a ep key old)),
    )

-- In the snapshot after any sequence of calls of a new registry, the sites add up to the totals of
-- the run, modulo 2 ^ 64: no session is lost or counted twice by the rollup.
pub rollup-AddsUp :
    (us : List Update)
    → let r = updates us new_registry in
      (site_total (λ s. s.bytes_read) r % 2 ^ 64 ≡ r.bytes_read_total)
      × (site_total (λ s. s.sessions_ok) r % 2 ^ 64 ≡ r.sessions_ok)
      × (site_total (λ s. s.sessions_fail) r % 2 ^ 64 ≡ r.sessions_fail)
unfolding add_endpoint total
rollup-AddsUp us =
    let r = updates us new_registry in
    let h = updates-AddsUp us in
    (
      omega (
        arith,
        rollup-total (λ e. e.bytes_read) (λ s. s.bytes_read) refl (λ _ _ _. refl) r.by_data_server
            [],
        h.0,
      ),
      omega (
        arith,
        rollup-total (λ e. e.sessions_ok) (λ s. s.sessions_ok) refl (λ _ _ _. refl) r.by_data_server
            [],
        h.1,
      ),
      omega (
        arith,
        rollup-total (λ e. e.sessions_fail) (λ s. s.sessions_fail) refl (λ _ _ _. refl)
            r.by_data_server [],
        h.2,
      ),
    )
