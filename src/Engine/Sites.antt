-- ===== src/Engine/Sites.antt =====
-- src/run_command.cc: the names of sites that a run fills in, from the query of a data server and the
-- site map. The sitename resolver is used by one thread at a time.
use xrdhover.Prelude.Text.{Text}
use xrdhover.Prelude.Dict.{Dict}
use xrdhover.SiteMap.{SiteMap, lookup_site}
use xrdhover.SitenameResolver.{resolve}
use xrdhover.RunConfig.{RunConfig}
use xrdhover.Metrics.Data.{MetricsRegistry}
use xrdhover.Metrics.Record.{set_cms_site, data_servers_missing_site}
use xrdhover.Prelude.{Option, none, some, List, [], ◌∷◌, if◌then◌else◌, is_empty}

-- What the site map tells of a server.
abbrev pub mapped_site : Option SiteMap → Text → Text
mapped_site none ds = []
mapped_site (some m) ds = lookup_site ds m

-- The name of one data server: the query, then the site map.
unfoldable pub site_name :
    RunConfig → (Text → Text) → Option SiteMap → Text → Dict Text → Dict Text × Text
site_name cfg query site_map ds cache =
    let (cache', found) =
      if cfg.sitename_query then resolve query (λ c. c) ds cache else (cache, []) in
    (cache', if is_empty found then mapped_site site_map ds else found)

unfoldable pub fill_one :
    RunConfig
    → (Text → Text)
    → Option SiteMap
    → Text
    → Dict Text × MetricsRegistry
    → Dict Text × MetricsRegistry
fill_one cfg query site_map ds (cache, r) =
    let (cache', site) = site_name cfg query site_map ds cache in
    (cache', if is_empty site then r else set_cms_site ds site r)

unfoldable pub fill_loop :
    RunConfig
    → (Text → Text)
    → Option SiteMap
    → List Text
    → Dict Text × MetricsRegistry
    → Dict Text × MetricsRegistry
fill_loop cfg query site_map [] s = s
fill_loop cfg query site_map (ds ∷ missing) s =
    fill_loop cfg query site_map missing (fill_one cfg query site_map ds s)

unfoldable pub fill_cms_sites :
    RunConfig
    → (Text → Text)
    → Option SiteMap
    → Dict Text × MetricsRegistry
    → Dict Text × MetricsRegistry
fill_cms_sites cfg query site_map s = fill_loop cfg query site_map (data_servers_missing_site s.1) s
