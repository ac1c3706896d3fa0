-- ===== src/SitenameResolver.antt =====
-- src/sitename_resolver.cc, include/xrdhover/sitename_resolver.hh: the cache of site names. The query
-- of a data server is an argument. Resolve locks the mutex twice; another thread may fill the cache
-- between the two, which is the argument `meanwhile`.
use xrdhover.Prelude.Text.{text_eq_refl, text_eq_iff}
use xrdhover.Prelude.Text.{Text, codes, text_eq}
use xrdhover.Prelude.Dict.{Dict, lookup, insert, lookup-insert}
use xrdhover.Prelude.{
  ℕ, ◌≡◌, inl, inr, Bool, false, ◌&&◌, ◌||◌, Option, none, some, List, [], ◌∷◌, arith, leb, ◌==◌,
  if◌then◌else◌, Bool-cases, Option-cases, is_empty,
}

abbrev pub is_space : ℕ → Bool
is_space c = (c == 32) || (leb 9 c && leb c 13)

unfoldable pub trim_front : Text → Text
trim_front [] = []
trim_front (c ∷ s) = let rest = trim_front s in if is_space c then rest else c ∷ s

-- The loop over `raw.back()`; a character is dropped when all after it were.
unfoldable pub trim_back : Text → Text
trim_back [] = []
trim_back (c ∷ s) =
    let rest = trim_back s in if is_empty rest && ((c == 0) || is_space c) then [] else c ∷ rest

unfoldable pub normalize_sitename : Text → Text
normalize_sitename raw = trim_front (trim_back raw)

-- QueryXrdClSitename after the query: none for a status that is not OK or no response.
unfoldable pub sitename_of_response : Option Text → Text
sitename_of_response none = []
sitename_of_response (some response) =
    let out = normalize_sitename response in
    if is_empty out
      || text_eq out (codes "sitename")
      || text_eq out (codes "...")
      || text_eq out (codes "n/a")
      || text_eq out (codes "N/A")
    then []
    else out

abbrev pub no_server : Text → Bool
no_server data_server = is_empty data_server || text_eq data_server (codes "unknown")

unfoldable pub query_sitename : (Text → Option Text) → Text → Text
query_sitename query data_server =
    if no_server data_server then [] else sitename_of_response (query data_server)

-- The second critical section: `emplace` keeps an entry that is there.
unfoldable pub store : Text → Text → Dict Text → Dict Text × Text
store data_server site cache = elim (lookup data_server cache) [
  | some old ↦ (cache, old)
  | none ↦ (insert data_server site cache, site)
]

unfoldable pub resolve :
    (Text → Text) → (Dict Text → Dict Text) → Text → Dict Text → Dict Text × Text
resolve query meanwhile data_server cache =
    let site = query data_server in
    if no_server data_server then (cache, []) else elim (lookup data_server cache) [
      | some old ↦ (cache, old)
      | none ↦
          if is_empty site then (meanwhile cache, []) else store data_server site (meanwhile cache)
    ]

abbrev Stays : Text → Dict Text × Text → Type 0
Stays data_server out = lookup data_server out.0 ≡ some out.1

store-Stays :
    (data_server site : Text) (cache : Dict Text) → Stays data_server (store data_server site cache)
unfolding store
store-Stays data_server site cache = elim (Option-cases (lookup data_server cache)) [
  | inl e ↦
      ground (arith, lookup-insert data_server data_server site cache, text_eq_refl data_server)
  | inr (old, e) ↦ ground arith
]

resolve-Stays :
    (query : Text → Text) (meanwhile : Dict Text → Dict Text) (data_server : Text)
    (cache : Dict Text)
    → is_empty (resolve query meanwhile data_server cache).1 ≡ false
    → (no_server data_server ≡ false)
      × Stays data_server (resolve query meanwhile data_server cache)
unfolding resolve
resolve-Stays query meanwhile data_server cache h = elim (Bool-cases (no_server data_server)) [
  | inl n ↦ ground arith
  | inr n ↦ elim (Option-cases (lookup data_server cache)) [
    | inr (old, e) ↦ (n, rw (n, e) e)
    | inl e ↦ elim (Bool-cases (is_empty (query data_server))) [
      | inl q ↦ ground arith
      | inr q ↦ (n, rw (n, e, q) (store-Stays data_server (query data_server) (meanwhile cache)))
    ]
  ]
]

cached :
    (query : Text → Text) (meanwhile : Dict Text → Dict Text) (data_server site : Text)
    (cache : Dict Text)
    → no_server data_server ≡ false
    → lookup data_server cache ≡ some site
    → resolve query meanwhile data_server cache ≡ (cache, site)
unfolding resolve
cached query meanwhile data_server site cache n e = rw (n, e)

-- What other threads do between the two critical sections of a call: their second sections.
unfoldable pub stored : List (Text × Text) → Dict Text → Dict Text
stored [] cache = cache
stored ((data_server, site) ∷ stores) cache = stored stores (store data_server site cache).0

-- A call of Resolve for a server, with its query and what other threads store meanwhile.
pub record Call : Type 0 where
  pub query : Text → Text
  pub meanwhile : List (Text × Text)
  pub data_server : Text

unfoldable pub called : List Call → Dict Text → Dict Text
called [] cache = cache
called (c ∷ cs) cache = called cs (resolve c.query (stored c.meanwhile) c.data_server cache).0

store-keeps :
    (d site d' site' : Text) (cache : Dict Text)
    → lookup d cache ≡ some site
    → lookup d (store d' site' cache).0 ≡ some site
unfolding store
store-keeps d site d' site' cache e = elim (Option-cases (lookup d' cache)) [
  | inr (old, q) ↦ rw (store, q) e
  | inl q ↦ elim (Bool-cases (text_eq d' d)) [
    | inl same ↦ absurd (cc (q, e, (text_eq_iff d' d).0 same))
    | inr other ↦ rw (store, q, lookup-insert, other) e
  ]
]

stored-keeps :
    (d site : Text) (stores : List (Text × Text)) (cache : Dict Text)
    → lookup d cache ≡ some site
    → lookup d (stored stores cache) ≡ some site
unfolding stored
stored-keeps d site [] cache e = e
stored-keeps d site ((d', site') ∷ stores) cache e =
    stored-keeps d site stores (store d' site' cache).0 (store-keeps d site d' site' cache e)

resolve-keeps :
    (d site : Text) (c : Call) (cache : Dict Text)
    → lookup d cache ≡ some site
    → lookup d (resolve c.query (stored c.meanwhile) c.data_server cache).0 ≡ some site
unfolding resolve
resolve-keeps d site c cache e =
    let between = stored-keeps d site c.meanwhile cache e in
    let name = c.query c.data_server in
    elim (Bool-cases (no_server c.data_server)) [
      | inl n ↦ rw n e
      | inr n ↦ elim (Option-cases (lookup c.data_server cache)) [
        | inr (old, q) ↦ rw (n, q) e
        | inl q ↦ elim (Bool-cases (is_empty name)) [
          | inl none_found ↦ rw (n, q, none_found) between
          | inr found ↦
              rw (n, q, found)
                (store-keeps d site c.data_server name (stored c.meanwhile cache) between)
        ]
      ]
    ]

called-keeps :
    (d site : Text) (cs : List Call) (cache : Dict Text)
    → lookup d cache ≡ some site
    → lookup d (called cs cache) ≡ some site
unfolding called
called-keeps d site [] cache e = e
called-keeps d site (c ∷ cs) cache e =
    called-keeps d site cs (resolve c.query (stored c.meanwhile) c.data_server cache).0
      (resolve-keeps d site c cache e)

-- A site name, once resolved, stays: when a call returns a name, that name is in the cache after it,
-- and after whatever further calls, for any servers and with other threads storing in between, a call
-- for the server returns that name with no query and leaves the cache alone.
pub resolve-is_cached :
    (query query' : Text → Text) (meanwhile meanwhile' : Dict Text → Dict Text) (data_server : Text)
    (cache : Dict Text) (cs : List Call)
    → is_empty (resolve query meanwhile data_server cache).1 ≡ false
    → let (after, site) = resolve query meanwhile data_server cache in
      (lookup data_server after ≡ some site)
      × (resolve query' meanwhile' data_server (called cs after) ≡ (called cs after, site))
resolve-is_cached query query' meanwhile meanwhile' data_server cache cs h =
    let (n, s) = resolve-Stays query meanwhile data_server cache h in
    let (after, site) = resolve query meanwhile data_server cache in
    (
      s,
      cached query' meanwhile' data_server site (called cs after) n
          (called-keeps data_server site cs after s),
    )
