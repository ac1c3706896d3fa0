-- ===== src/Metrics/Rollup.antt =====
-- src/metrics.cc: the part of Snapshot that adds the data servers up by site.
use xrdhover.Prelude.Text.{Text}
use xrdhover.Prelude.Dict.{Dict, lookup, insert}
use mathlib.Core.Option.{get_or}
use xrdhover.Metrics.Data.{unmapped_cms_site, add64, EndpointStats}
use xrdhover.Metrics.Record.{count_key}
use xrdhover.Prelude.{ℕ, [], ◌∷◌, if◌then◌else◌, is_empty}

pub record SiteStats : Type 0 where
  pub cms_site : Text
  pub bytes_read : ℕ
  pub sessions_ok : ℕ
  pub sessions_fail : ℕ
  pub errors_by_class : Dict ℕ

abbrev pub new_site : SiteStats
new_site = record {
  cms_site = [];
  bytes_read = 0;
  sessions_ok = 0;
  sessions_fail = 0;
  errors_by_class = [];
}

unfoldable pub add_errors : Dict ℕ → Dict ℕ → Dict ℕ
add_errors [] m = m
add_errors ((k, n) ∷ es) m = add_errors es (count_key k n m)

unfoldable pub add_endpoint : EndpointStats → Text → SiteStats → SiteStats
add_endpoint ep site_key site = record {
  cms_site = site_key;
  bytes_read = add64 site.bytes_read ep.bytes_read;
  sessions_ok = add64 site.sessions_ok ep.sessions_ok;
  sessions_fail = add64 site.sessions_fail ep.sessions_fail;
  errors_by_class = add_errors ep.errors_by_class site.errors_by_class;
}

unfoldable pub rollup : Dict EndpointStats → Dict SiteStats → Dict SiteStats
rollup [] sites = sites
rollup ((k, ep) ∷ m) sites =
    let site_key = if is_empty ep.cms_site then unmapped_cms_site else ep.cms_site in
    let site = get_or (lookup site_key sites) new_site in
    rollup m (insert site_key (add_endpoint ep site_key site) sites)
