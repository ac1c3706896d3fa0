-- ===== src/Engine/Named.antt =====
-- src/run_command.cc, src/sitename_resolver.cc, src/metrics.cc: after the sites are filled in, only
-- servers that no source names are without one.
use xrdhover.Engine.Missing.{
  IsUnnamed, HasNames, IsMissing, Among, missing_site-Among, empty_text, resolve-unnamed,
  resolve-HasNames,
}
use xrdhover.Engine.Sites.{fill_cms_sites, fill_loop, mapped_site, site_name, fill_one}
use xrdhover.Prelude.Text.{Text, text_eq, text_eq_iff}
use xrdhover.Prelude.Dict.{Dict, lookup, lookup-insert}
use xrdhover.SiteMap.{SiteMap, lookup_site}
use xrdhover.SitenameResolver.{resolve}
use xrdhover.RunConfig.{RunConfig}
use xrdhover.Metrics.Data.{EndpointStats, MetricsRegistry}
use xrdhover.Metrics.Record.{data_servers_missing_site, set_cms_site}
use mathlib.Core.Option.{some-injective}
use xrdhover.Prelude.{
  ◌≡◌, refl, ap, subst, ◌∙◌, ◌⊎◌, inl, inr, true, false, Option, none, some, List, [], ◌∷◌, arith,
  Bool-cases, Option-cases, is_empty,
}

module _ (cfg : RunConfig) (query : Text → Text) (site_map : Option SiteMap) where
  site_name-IsUnnamed :
      (ds : Text) (cache : Dict Text)
      → HasNames cache
      → is_empty (site_name cfg query site_map ds cache).1 ≡ true
      → IsUnnamed cfg query site_map ds
  unfolding site_name
  site_name-IsUnnamed ds cache h q = elim (Bool-cases cfg.sitename_query) [
    | inl asks ↦ elim (Bool-cases (is_empty (resolve query (λ c. c) ds cache).1)) [
      | inl none_found ↦ (
        inr (resolve-unnamed query ds cache h none_found),
        empty_text _ (rw (asks, none_found) at q),
      )
      | inr some_found ↦ absurd (ground (arith, asks, some_found, q))
    ]
    | inr silent ↦ (inl silent, empty_text _ (rw silent at q))
  ]

  site_name-HasNames :
      (ds : Text) (cache : Dict Text)
      → HasNames cache
      → HasNames (site_name cfg query site_map ds cache).0
  unfolding site_name
  site_name-HasNames ds cache h = elim (Bool-cases cfg.sitename_query) [
    | inl q ↦ rw q (resolve-HasNames query ds cache h)
    | inr q ↦ rw q h
  ]

  no_name-IsUnnamed : IsUnnamed cfg query site_map []
  unfolding lookup_site
  no_name-IsUnnamed = (
    inr (inl refl),
    elim site_map as (λ s. mapped_site s [] ≡ []) [ none ↦ refl | some m ↦ refl ],
  )

  set_cms_site-IsMissing :
      (ds site k : Text) (r : MetricsRegistry)
      → is_empty site ≡ false
      → IsMissing k (set_cms_site ds site r)
      → IsMissing k r × ((text_eq ds k ≡ false) ⊎ IsUnnamed cfg query site_map k)
  unfolding set_cms_site
  set_cms_site-IsMissing [] site k r i m = (
    m,
    elim (Bool-cases (text_eq [] k)) [
      | inl same ↦
          inr (subst (IsUnnamed cfg query site_map) ((text_eq_iff [] k).0 same) no_name-IsUnnamed)
      | inr differs ↦ inl differs
    ],
  )
  set_cms_site-IsMissing (b ∷ ds) site k r i m =
      let as_missing : lookup k r.by_data_server ≡ some m.entry → IsMissing k r =
        λ found. record { entry = m.entry; found = found; no_site = m.no_site; known = m.known } in
      elim (Option-cases (lookup (b ∷ ds) r.by_data_server)) [
        | inl e ↦
            let found = rw (i, e) at m.found in
            (
              as_missing found,
              elim (Bool-cases (text_eq (b ∷ ds) k)) [
                | inl same ↦
                    let none_found = rw ((text_eq_iff (b ∷ ds) k).0 same) at e in
                    absurd (cc (found, none_found))
                | inr differs ↦ inl differs
              ],
            )
        | inr (ep, e) ↦ elim (Bool-cases (text_eq (b ∷ ds) k)) [
          | inl same ↦
              let entry = some-injective _ _ (rw (i, e, lookup-insert, same) at m.found) in
              let named = ap (λ (x : EndpointStats). is_empty x.cms_site) entry ∙ m.no_site in
              absurd (cc (named, i))
          | inr differs ↦ (as_missing (rw (i, e, lookup-insert, differs) at m.found), inl differs)
        ]
      ]

  kept :
      (ds : Text) (cache : Dict Text) (r : MetricsRegistry)
      → is_empty (site_name cfg query site_map ds cache).1 ≡ true
      → (fill_one cfg query site_map ds (cache, r)).1 ≡ r
  unfolding fill_one
  kept ds cache r i = rw i refl

  named :
      (ds : Text) (cache : Dict Text) (r : MetricsRegistry)
      → is_empty (site_name cfg query site_map ds cache).1 ≡ false
      → (fill_one cfg query site_map ds (cache, r)).1
        ≡ set_cms_site ds (site_name cfg query site_map ds cache).1 r
  unfolding fill_one
  named ds cache r i = rw i refl

  -- One server, filled in: it is missing no more, or no source names it; the others stay.
  fill_one-IsMissing :
      (ds k : Text) (cache : Dict Text) (r : MetricsRegistry)
      → HasNames cache
      → IsMissing k (fill_one cfg query site_map ds (cache, r)).1
      → IsMissing k r × ((text_eq ds k ≡ false) ⊎ IsUnnamed cfg query site_map k)
  fill_one-IsMissing ds k cache r h m =
      let site = (site_name cfg query site_map ds cache).1 in
      elim (Bool-cases (is_empty site)) [
        | inl i ↦ (
          subst (λ (x : MetricsRegistry). IsMissing k x) (kept ds cache r i) m,
          elim (Bool-cases (text_eq ds k)) [
            | inl same ↦ inr (
                subst (IsUnnamed cfg query site_map) ((text_eq_iff ds k).0 same)
                  (site_name-IsUnnamed ds cache h i))
            | inr differs ↦ inl differs
          ],
        )
        | inr i ↦
            set_cms_site-IsMissing ds site k r i
              (subst (λ (x : MetricsRegistry). IsMissing k x) (named ds cache r i) m)
      ]

  fill_one-HasNames :
      (ds : Text) (cache : Dict Text) (r : MetricsRegistry)
      → HasNames cache
      → HasNames (fill_one cfg query site_map ds (cache, r)).0
  unfolding fill_one
  fill_one-HasNames ds cache r h = site_name-HasNames ds cache h

  fill_loop-IsMissing :
      (missing : List Text) (k : Text) (cache : Dict Text) (r : MetricsRegistry)
      → HasNames cache
      → IsMissing k (fill_loop cfg query site_map missing (cache, r)).1
      → IsMissing k r × ((Among k missing → ⊥) ⊎ IsUnnamed cfg query site_map k)
  unfolding fill_loop
  fill_loop-IsMissing [] k cache r h m = (m, inl (λ among. among))
  fill_loop-IsMissing (ds ∷ missing) k cache r h m =
      let s = fill_one cfg query site_map ds (cache, r) in
      let later = fill_loop-IsMissing missing k s.0 s.1 (fill_one-HasNames ds cache r h) m in
      let now = fill_one-IsMissing ds k cache r h later.0 in
      (
        now.0,
        elim now.1 [
          | inr unnamed ↦ inr unnamed
          | inl differs ↦ elim later.1 [
            | inr unnamed ↦ inr unnamed
            | inl not_later ↦ inl (λ among. elim among [
              | inl same ↦ absurd (cc (same, differs))
              | inr found ↦ not_later found
            ])
          ]
        ],
      )

-- After the sites are filled in, with a cache that holds no empty name, a data server is without a site
-- only if it was before and neither the query nor the site map that the run uses names it.
pub fill_cms_sites-names :
    (cfg : RunConfig) (query : Text → Text) (site_map : Option SiteMap) (cache : Dict Text)
    (r : MetricsRegistry) (ds : Text)
    → HasNames cache
    → IsMissing ds (fill_cms_sites cfg query site_map (cache, r)).1
    → IsMissing ds r × IsUnnamed cfg query site_map ds
unfolding fill_cms_sites data_servers_missing_site
fill_cms_sites-names cfg query site_map cache r ds h m =
    let (before, why) =
      fill_loop-IsMissing cfg query site_map (data_servers_missing_site r) ds cache r h m in
    (
      before,
      elim why [
        | inr unnamed ↦ unnamed
        | inl not_listed ↦ absurd (
            not_listed (
              missing_site-Among ds before.entry r.by_data_server before.found before.no_site
                before.known))
      ],
    )
