-- ===== src/FileSink/Storable.antt =====
-- src/metrics.cc, src/file_sink.cc: every snapshot of a run with fewer than 2 ^ 53 calls can be stored and
-- read back.
use xrdhover.ErrorClassifier.{no_error}
use xrdhover.Prelude.Text.{Text}
use xrdhover.Prelude.Dict.{Dict, lookup, insert}
use xrdhover.Prelude.Distinct.{All-insert, DistinctKeys-insert}
use xrdhover.Metrics.Data.{
  EndpointStats, MetricsRegistry, new_registry, bump, zeros, soft_fault_kinds,
}
use xrdhover.Metrics.Record.{
  observe_session_ok, observe_session_fail, observe_read_op, observe_soft_fault, set_labels,
  set_host, set_cms_site, attribute_locked,
}
use xrdhover.Metrics.Snapshot.{named_counts, Fraction, error_class_names, snapshot}
use xrdhover.Metrics.Sums.{
  update, updates, update, total, Update, session_ok, session_fail, read_op, soft_fault, inflight,
  cms_site, labels, host, gauges, site_map, process,
}
use xrdhover.FileSink.Counts.{IsCountMap}
use xrdhover.FileSink.Servers.{
  AreServers, AreServers-endpoints, attribute_locked-AreServers, set_cms_site-AreServers,
}
use xrdhover.FileSink.Rolled.{rollup-AreSites}
use xrdhover.FileSink.Result.{IsStorable}
use xrdhover.Prelude.{
  ℕ, zero, suc, ◌+◌, ◌^◌, ◌≤◌, ◌<◌, subst, inl, inr, true, false, ◌||◌, List, [], ◌∷◌, arith, ltb,
  Bool-cases, Option-cases, length, is_empty, All,
}

-- The counters that are not 0, under their names.
named_counts-IsCountMap :
    (ks : List Text) (vs : List ℕ) (m : Dict ℕ)
    → All (λ v. v < 2 ^ 53) vs
    → IsCountMap m
    → IsCountMap (named_counts ks vs m)
unfolding named_counts
named_counts-IsCountMap [] vs m h c = c
named_counts-IsCountMap (k ∷ ks) [] m h c = c
named_counts-IsCountMap (k ∷ ks) (v ∷ vs) m h c = elim (Bool-cases (ltb 0 v)) [
  | inl q ↦ rw q (
      named_counts-IsCountMap ks vs (insert k v m) h.1 (record {
        distinct = DistinctKeys-insert k v m c.distinct;
        small = All-insert (λ e. e.1 < 2 ^ 53) k v m h.0 c.small;
      }))
  | inr q ↦ rw q (named_counts-IsCountMap ks vs m h.1 c)
]

-- The counters of a registry after n calls.
record AreCounted (n bytes ok fail ops : ℕ) (error_counts fault_counts : List ℕ)
    (m : Dict EndpointStats) : Type 0 where
  bytes_fit : bytes < 2 ^ 64
  ok_fit : ok < 2 ^ 64
  fail_fit : fail < 2 ^ 64
  ops_fit : ops < 2 ^ 64
  errors : All (λ c. c ≤ n) error_counts
  soft_faults : All (λ c. c ≤ n) fault_counts
  servers : AreServers n m

abbrev IsCounted : ℕ → MetricsRegistry → Type 0
IsCounted n r =
    AreCounted n r.bytes_read_total r.sessions_ok r.sessions_fail r.read_ops_total r.errors_by_class
      r.soft_faults_by_kind r.by_data_server

counts_more : (n : ℕ) (cs : List ℕ) → All (λ c. c ≤ n) cs → All (λ c. c ≤ n + 1) cs
counts_more n [] h = tt
counts_more n (c ∷ cs) h = (omega (arith, h.0), counts_more n cs h.1)

counts-bump : (i n : ℕ) (cs : List ℕ) → All (λ c. c ≤ n) cs → All (λ c. c ≤ n + 1) (bump i 1 cs)
unfolding bump
counts-bump i n [] h = tt
counts-bump zero n (c ∷ cs) h = (omega (arith, h.0), counts_more n cs h.1)
counts-bump (suc i) n (c ∷ cs) h = (omega (arith, h.0), counts-bump i n cs h.1)

servers_more : (n : ℕ) (m : Dict EndpointStats) → AreServers n m → AreServers (n + 1) m
servers_more n m h = record {
  distinct = h.distinct;
  each = h.each;
  errors_bound = omega (arith, h.errors_bound);
}

-- A call that counts nothing.
idle-IsCounted : (n : ℕ) (r : MetricsRegistry) → IsCounted n r → IsCounted (n + 1) r
idle-IsCounted n r h = record {
  bytes_fit = h.bytes_fit;
  ok_fit = h.ok_fit;
  fail_fit = h.fail_fit;
  ops_fit = h.ops_fit;
  errors = counts_more n r.errors_by_class h.errors;
  soft_faults = counts_more n r.soft_faults_by_kind h.soft_faults;
  servers = servers_more n r.by_data_server h.servers;
}

set_cms_site-IsCounted :
    (ds site : Text) (n : ℕ) (r : MetricsRegistry)
    → IsCounted n r
    → IsCounted (n + 1) (set_cms_site ds site r)
unfolding set_cms_site
set_cms_site-IsCounted ds site n r h =
    let servers = set_cms_site-AreServers ds site n r h.servers in
    elim (Bool-cases (is_empty ds || is_empty site)) [
      | inl q ↦ rw q (idle-IsCounted n r h)
      | inr q ↦ elim (Option-cases (lookup ds r.by_data_server)) [
        | inl e ↦ rw (q, e) (idle-IsCounted n r h)
        | inr (ep, e) ↦
            rw (q, e)
              (idle-IsCounted n
                (record r {
                  by_data_server = insert ds (record ep { cms_site = site }) r.by_data_server;
                })
                (record {
                  bytes_fit = h.bytes_fit;
                  ok_fit = h.ok_fit;
                  fail_fit = h.fail_fit;
                  ops_fit = h.ops_fit;
                  errors = h.errors;
                  soft_faults = h.soft_faults;
                  servers = rw (q, e) at servers;
                }))
      ]
    ]

update-IsCounted :
    (u : Update) (n : ℕ) (r : MetricsRegistry) → IsCounted n r → IsCounted (n + 1) (update u r)
unfolding update observe_session_ok observe_session_fail observe_read_op observe_soft_fault
    set_labels set_host attribute_locked
update-IsCounted (session_ok f ds site) n r h = record {
  bytes_fit = omega arith;
  ok_fit = omega arith;
  fail_fit = h.fail_fit;
  ops_fit = omega arith;
  errors = counts_more n r.errors_by_class h.errors;
  soft_faults = counts_more n r.soft_faults_by_kind h.soft_faults;
  servers = attribute_locked-AreServers ds true f.bytes no_error site n r h.servers;
}
update-IsCounted (session_fail c ds site) n r h = record {
  bytes_fit = h.bytes_fit;
  ok_fit = h.ok_fit;
  fail_fit = omega arith;
  ops_fit = h.ops_fit;
  errors = counts-bump _ n r.errors_by_class h.errors;
  soft_faults = counts_more n r.soft_faults_by_kind h.soft_faults;
  servers = attribute_locked-AreServers ds false 0 c site n r h.servers;
}
update-IsCounted (read_op s) n r h = idle-IsCounted n r h
update-IsCounted (soft_fault k) n r h =
    let same = idle-IsCounted n r h in
    record {
      bytes_fit = h.bytes_fit;
      ok_fit = h.ok_fit;
      fail_fit = h.fail_fit;
      ops_fit = h.ops_fit;
      errors = same.errors;
      soft_faults = counts-bump _ n r.soft_faults_by_kind h.soft_faults;
      servers = same.servers;
    }
update-IsCounted (inflight k) n r h = idle-IsCounted n r h
update-IsCounted (cms_site ds site) n r h = set_cms_site-IsCounted ds site n r h
update-IsCounted (labels l a b c d) n r h = idle-IsCounted n r h
update-IsCounted (host l a) n r h = idle-IsCounted n r h
update-IsCounted (gauges a b) n r h = idle-IsCounted n r h
update-IsCounted (site_map m) n r h = idle-IsCounted n r h
update-IsCounted (process a b) n r h = idle-IsCounted n r h

updates-IsCounted :
    (us : List Update) (n : ℕ) (r : MetricsRegistry)
    → IsCounted n r
    → IsCounted (n + length us) (updates us r)
unfolding updates
updates-IsCounted [] n r h = subst (λ (k : ℕ). IsCounted k r) (omega arith) h
updates-IsCounted (u ∷ us) n r h =
    let rest = updates-IsCounted us (n + 1) (update u r) (update-IsCounted u n r h) in
    subst (λ (k : ℕ). IsCounted k (updates us (update u r))) (omega arith) rest

zeros-counted : (n : ℕ) → All (λ c. c ≤ 0) (zeros n)
unfolding zeros
zeros-counted zero = tt
zeros-counted (suc n) = (omega arith, zeros-counted n)

new_registry-IsCounted : IsCounted 0 new_registry
unfolding total
new_registry-IsCounted = record {
  bytes_fit = omega arith;
  ok_fit = omega arith;
  fail_fit = omega arith;
  ops_fit = omega arith;
  errors = zeros-counted 12;
  soft_faults = zeros-counted 6;
  servers = record { distinct = tt; each = tt; errors_bound = omega arith };
}

small_counts : (n : ℕ) (cs : List ℕ) → n < 2 ^ 53 → All (λ c. c ≤ n) cs → All (λ c. c < 2 ^ 53) cs
small_counts n [] b h = tt
small_counts n (c ∷ cs) b h = (omega (arith, h.0, b), small_counts n cs b h.1)

counted-IsStorable :
    (local_hostname : Text) (wall : Fraction) (n : ℕ) (r : MetricsRegistry)
    → n < 2 ^ 53
    → IsCounted n r
    → IsStorable (snapshot local_hostname wall r)
unfolding snapshot
counted-IsStorable local_hostname wall n r b h =
    let none_yet : IsCountMap [] = record { distinct = tt; small = tt } in
    record {
      bytes_fit = h.bytes_fit;
      ok_fit = h.ok_fit;
      fail_fit = h.fail_fit;
      ops_fit = h.ops_fit;
      errors_fit =
          named_counts-IsCountMap error_class_names r.errors_by_class []
            (small_counts n r.errors_by_class b h.errors) none_yet;
      soft_faults_fit =
          named_counts-IsCountMap soft_fault_kinds r.soft_faults_by_kind []
            (small_counts n r.soft_faults_by_kind b h.soft_faults) none_yet;
      endpoints_fit = AreServers-endpoints n r.by_data_server b h.servers;
      sites_fit = rollup-AreSites r.by_data_server (omega (arith, b, h.servers.errors_bound));
    }

-- Whatever fewer than 2 ^ 53 calls a new registry gets, its snapshot can be stored: its counters have 64
-- bits, its counts are held exactly by doubles, and the keys of its maps are distinct.
pub updates-IsStorable :
    (local_hostname : Text) (wall : Fraction) (us : List Update)
    → length us < 2 ^ 53
    → IsStorable (snapshot local_hostname wall (updates us new_registry))
updates-IsStorable local_hostname wall us b =
    let counted = updates-IsCounted us 0 new_registry new_registry-IsCounted in
    counted-IsStorable local_hostname wall (0 + length us) (updates us new_registry)
      (omega (arith, b)) counted
