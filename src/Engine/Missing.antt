-- ===== src/Engine/Missing.antt =====
-- src/run_command.cc, src/sitename_resolver.cc, src/metrics.cc: the servers without a site, and what the
-- query of a site name tells of one.
use xrdhover.Engine.Sites.{mapped_site}
use xrdhover.Prelude.Text.{Text, text_eq, text_eq_iff}
use xrdhover.Prelude.Dict.{insert, Dict, lookup, lookup-insert}
use xrdhover.SiteMap.{SiteMap}
use xrdhover.SitenameResolver.{resolve, store, no_server}
use xrdhover.RunConfig.{RunConfig}
use xrdhover.Metrics.Data.{EndpointStats, MetricsRegistry, unknown_data_server}
use xrdhover.Metrics.Record.{missing_site}
use mathlib.Core.Option.{some-injective}
use xrdhover.Prelude.{
  ◌≡◌, refl, sym, ap, ◌∙◌, ◌⊎◌, inl, inr, true, false, ◌&&◌, not, Option, none, some, List, [], ◌∷◌,
  arith, Bool-cases, Option-cases, is_empty,
}

-- No source that the run uses names the server.
abbrev pub IsUnnamed : RunConfig → (Text → Text) → Option SiteMap → Text → Type 0
IsUnnamed cfg query site_map ds =
    ((cfg.sitename_query ≡ false) ⊎ (no_server ds ≡ true) ⊎ (query ds ≡ []))
    × (mapped_site site_map ds ≡ [])

-- A cache without empty names.
unfoldable pub HasNames : Dict Text → Type 0
HasNames cache = (ds site : Text) → lookup ds cache ≡ some site → is_empty site ≡ false

-- The server has an entry without a site.
pub record IsMissing (ds : Text) (r : MetricsRegistry) : Type 0 where
  pub entry : EndpointStats
  pub found : lookup ds r.by_data_server ≡ some entry
  pub no_site : is_empty entry.cms_site ≡ true
  pub known : text_eq ds unknown_data_server ≡ false

abbrev pub Among : Text → List Text → Type 0
Among ds [] = ⊥
Among ds (d ∷ missing) = (text_eq d ds ≡ true) ⊎ Among ds missing

pub missing_site-Among :
    (ds : Text) (ep : EndpointStats) (m : Dict EndpointStats)
    → lookup ds m ≡ some ep
    → is_empty ep.cms_site ≡ true
    → text_eq ds unknown_data_server ≡ false
    → Among ds (missing_site m)
unfolding lookup missing_site
missing_site-Among ds ep [] e q k = cc
missing_site-Among ds ep ((key, old) ∷ m) e q k = elim (Bool-cases (text_eq key ds)) [
  | inl same ↦
      let entry = some-injective _ _ (rw same at e) in
      let empty = ap (λ (x : EndpointStats). is_empty x.cms_site) entry ∙ q in
      let other =
        ap (λ (x : Text). text_eq x unknown_data_server) ((text_eq_iff key ds).0 same) ∙ k in
      rw (empty, other) (inl same)
  | inr differs ↦
      let later = missing_site-Among ds ep m (rw differs at e) q k in
      elim (Bool-cases (is_empty old.cms_site && not (text_eq key unknown_data_server))) [
        | inl c ↦ rw c (inr later)
        | inr c ↦ rw c later
      ]
]

pub empty_text : (t : Text) → is_empty t ≡ true → t ≡ []
empty_text [] h = refl
empty_text (c ∷ t) h = cc

pub resolve-unnamed :
    (query : Text → Text) (ds : Text) (cache : Dict Text)
    → HasNames cache
    → is_empty (resolve query (λ c. c) ds cache).1 ≡ true
    → (no_server ds ≡ true) ⊎ (query ds ≡ [])
unfolding resolve store HasNames
resolve-unnamed query ds cache h q = elim (Bool-cases (no_server ds)) [
  | inl n ↦ inl n
  | inr n ↦ elim (Option-cases (lookup ds cache)) [
    | inr (old, e) ↦ absurd (ground (arith, h ds old e, q, n, e))
    | inl e ↦ elim (Bool-cases (is_empty (query ds))) [
      | inl i ↦ inr (empty_text (query ds) i)
      | inr i ↦ absurd (ground (arith, q, n, e, i))
    ]
  ]
]

store-new :
    (ds site : Text) (cache : Dict Text)
    → lookup ds cache ≡ none
    → store ds site cache ≡ (insert ds site cache, site)
unfolding store
store-new ds site cache o = ground (arith, o)

pub resolve-HasNames :
    (query : Text → Text) (ds : Text) (cache : Dict Text)
    → HasNames cache
    → HasNames (resolve query (λ c. c) ds cache).0
unfolding resolve HasNames
resolve-HasNames query ds cache h j site e = elim (Bool-cases (no_server ds)) [
  | inl n ↦ h j site (rw n at e)
  | inr n ↦ elim (Option-cases (lookup ds cache)) [
    | inr (old, o) ↦ h j site (rw (n, o) at e)
    | inl o ↦ elim (Bool-cases (is_empty (query ds))) [
      | inl i ↦ h j site (rw (n, o, i) at e)
      | inr i ↦ elim (Bool-cases (text_eq ds j)) [
        | inl same ↦
            let named =
              some-injective _ _
                (rw (n, o, i, store-new ds (query ds) cache o, lookup-insert, same) at e) in
            ap (λ (s : Text). is_empty s) (sym named) ∙ i
        | inr differs ↦
            h j site (rw (n, o, i, store-new ds (query ds) cache o, lookup-insert, differs) at e)
      ]
    ]
  ]
]
