-- ===== src/Witness/Parts.antt =====
-- Examples for the engine and its parts.
use xrdhover.Engine.{
  show_inflight, leave_live, session_done, step as step_engine, pass_loop as pass_engine, admit,
}
use xrdhover.Inflight.{try_acquire as try_slot}
use xrdhover.RunConfig.{compute_op_bytes}
use xrdhover.TokenBucket.{new as new_bucket, take_tokens, refill}
use xrdhover.Session.Opening.{new_session}
use xrdhover.Prelude.Text.{Text, codes, text_eq}
use xrdhover.Prelude.Dict.{Dict, lookup, insert}
use xrdhover.TokenBucket.{TokenBucket, nano, try_acquire, refill, nanoseconds_until}
use xrdhover.TokenBucket.Rate.{
  Call, acquires, acquires_until, refunds as gives_back, asks, granted_by, returned_by,
  granted_by-le-rate,
}
use xrdhover.TokenBucket.Wait.{nanoseconds_until-enough}
use xrdhover.Inflight.{new as new_slots}
use xrdhover.RunConfig.{RunConfig, compute_bucket_capacity}
use xrdhover.Scheduler.{next_item, next_item_fits_bucket, next_item_covers_read}
use xrdhover.Session.Plan.{op_bytes as read_bytes}
use xrdhover.ErrorClassifier.{auth}
use xrdhover.SiteMap.{
  load, add, add_suffix, ends_with, insert_by_length, has_suffix_rule, normalize_key, SiteMap,
}
use xrdhover.SiteMap.Longest.{load-LongestWins, LongestWins}
use xrdhover.Metrics.Sums.{
  Update, session_ok, session_fail, cms_site, updates, AddsUp, rollup-AddsUp, site_total,
}
use xrdhover.Metrics.Record.{SessionFigures}
use xrdhover.Metrics.Data.{new_registry}
use xrdhover.Engine.{Event, passes, asks_read, refunds, new, run}
use xrdhover.Engine.Rate.{charges, refunds_in, charges-le-rate}
use xrdhover.Engine.Slots.{run-HoldsSlots, HoldsSlots, run-totals, ends_in, EndsLive}
use xrdhover.Watchdog.{arm, Entry, pass_loop, disarm, new as new_watchdog}
use xrdhover.Watchdog.{ensure_thread, arm}
use xrdhover.Watchdog.Unique.{
  arms, run_unique, step as watchdog_step, run as run_watchdog, count, deadlines,
}
use xrdhover.Watchdog.Due.{pass_loop-expired, any_due, has}
use xrdhover.SitenameResolver.{resolve, resolve-is_cached, store, called, Call as Lookup}
use xrdhover.Witness.Data.{config, draws, fresh}
use xrdhover.Prelude.{
  ℕ, ◌+◌, ◌-◌, ◌*◌, ◌%◌, ◌^◌, ◌≤◌, ◌<◌, ◌≡◌, refl, Bool, true, false, Option, none, some, List, [],
  ◌∷◌, ◌++◌, arith,
}

-- A pass that starts a session, a refund of half its tokens, and a session that asks for more.
abbrev events : List Event
events =
    passes draws 5 6 (λ id. fresh)
    ∷ refunds 7 50
    ∷ asks_read 0
    ∷ passes draws 8 9 (λ id. fresh)
    ∷ []

charges-le-rate_example :
    charges config events (new config 0) * nano
    ≤ compute_bucket_capacity config * nano + (9 - 0) * 1000 + refunds_in events * nano
charges-le-rate_example =
    charges-le-rate config 0 9 events (omega arith) (omega arith)
      ((omega arith, omega arith), (omega arith, (tt, ((omega arith, omega arith), tt))))

-- A session that starts and ends, and one that starts when it has.
abbrev ending : List Event
ending =
    passes draws 5 6 (λ id. fresh) ∷ session_done fresh.result 0
    ++ passes draws 200000000 200000001 (λ id. fresh) ∷ []

run-HoldsSlots_example : HoldsSlots config (run config ending (new config 0))
unfolding EndsLive step_engine pass_engine admit new new_bucket new_slots next_item compute_op_bytes
    compute_bucket_capacity try_acquire take_tokens refill try_slot new_session leave_live
    show_inflight
run-HoldsSlots_example =
    run-HoldsSlots config 0 ending (omega arith)
      (tt, (tt, (omega arith, (tt, (omega arith, (tt, tt))))))

run-totals_example :
    let r = (run config ending (new config 0)).registry in
    ((r.sessions_ok + r.sessions_fail) % 2 ^ 64 ≡ ends_in ending % 2 ^ 64) × AddsUp r
run-totals_example = run-totals config 0 ending

abbrev bucket : TokenBucket
bucket = record { rate_bytes_per_s = 1000; capacity = 100; tokens = 0; last = 0 }

abbrev bucket_calls : List Call
bucket_calls =
    acquires 200000000 100
    ∷ acquires_until 50 220000000 ((200000000, 210000000) ∷ (220000000, 230000000) ∷ [])
    ∷ asks 240000000 100
    ∷ gives_back 250000000 30
    ∷ []

granted_by-le-rate_example :
    granted_by bucket_calls bucket * nano
    ≤ 100 * nano + (300000000 - 0) * 1000 + returned_by bucket_calls * nano
granted_by-le-rate_example =
    granted_by-le-rate bucket_calls bucket 300000000 (omega arith) (omega arith) (omega arith)
      (omega arith, (omega arith, (omega arith, (omega arith, tt))))

nanoseconds_until-enough_example :
    (try_acquire 200000000 100 (nanoseconds_until 1000000 100 bucket).0).1 ≡ true
unfolding nanoseconds_until refill
nanoseconds_until-enough_example =
    nanoseconds_until-enough 1000000 100 200000000 bucket (omega arith) (omega arith) (omega arith)
      (omega arith) (omega arith)

abbrev resolved : RunConfig
resolved = record config { max_bytes = 2000 }

next_item_fits_bucket_example :
    (0 < (next_item config draws 0).0.op_bytes)
    × ((next_item config draws 0).0.op_bytes ≤ compute_bucket_capacity config)
next_item_fits_bucket_example = next_item_fits_bucket config draws 0 (omega arith)

next_item_covers_read_example :
    read_bytes (next_item config draws 0).0.session ≤ (next_item config draws 0).0.op_bytes
next_item_covers_read_example = next_item_covers_read config draws 0

abbrev sites : List (Text × Option Text)
sites = (codes "*.org", some (codes "T2")) ∷ (codes "*.b.org", some (codes "T1")) ∷ []

abbrev loaded : SiteMap
loaded = record {
  exact = [];
  suffixes = (codes ".b.org", codes "T1") ∷ (codes ".org", codes "T2") ∷ [];
}

load-LongestWins_example : LongestWins (codes "a.b.org") loaded.suffixes
unfolding load add add_suffix ends_with insert_by_length has_suffix_rule normalize_key text_eq
load-LongestWins_example =
    load-LongestWins sites {m = loaded} (codes "a.b.org") 1 (codes ".org", codes "T2") refl refl
      refl

abbrev figures : SessionFigures
figures = record {
  bytes = 100;
  ops = 1;
  open_s = some 5;
  ttfb_s = some 6;
  read_s = some 7;
  redirects = none;
}

abbrev session_updates : List Update
session_updates =
    session_ok figures (codes "a:1094") []
    ∷ session_fail auth [] []
    ∷ cms_site (codes "a:1094") (codes "T1")
    ∷ []

rollup-AddsUp_example :
    let r = updates session_updates new_registry in
    (site_total (λ s. s.bytes_read) r % 2 ^ 64 ≡ r.bytes_read_total)
    × (site_total (λ s. s.sessions_ok) r % 2 ^ 64 ≡ r.sessions_ok)
    × (site_total (λ s. s.sessions_fail) r % 2 ^ 64 ≡ r.sessions_fail)
rollup-AddsUp_example = rollup-AddsUp session_updates

abbrev always : ℕ → Bool
always id = true

abbrev never : ℕ → Bool
never id = false

run_unique_example :
    let w = run_watchdog (arms always 1 5 7 ∷ []) new_watchdog in
    (count 7 w.entries ≤ 1)
    × (deadlines 7 (arm always 2 5 7 w).entries ≡ 7 ∷ [])
    × (deadlines 7 (disarm always 7 w).entries ≡ [])
unfolding run_watchdog watchdog_step arm ensure_thread
run_unique_example = run_unique (arms always 1 5 7 ∷ []) always 2 5 7 (refl, tt) refl

abbrev armed : List Entry
armed = record { deadline = 3; session = 7 } ∷ record { deadline = 2000000000; session = 8 } ∷ []

pass_loop-expired_example :
    has 7 (pass_loop always never 5 armed).expired ≡ any_due always never 5 7 armed
pass_loop-expired_example = pass_loop-expired always never 5 7 armed

abbrev site_query : Text → Text
site_query data_server = codes "T1"

abbrev unchanged : Dict Text → Dict Text
unchanged cache = cache

-- Another server is asked for, and another thread stores a name meanwhile.
abbrev other_calls : List Lookup
other_calls =
    record {
      query = λ data_server. codes "T2";
      meanwhile = (codes "a", codes "T3") ∷ [];
      data_server = codes "b";
    }
    ∷ []

resolve-is_cached_example :
    let (after, site) = resolve site_query unchanged (codes "a") [] in
    (lookup (codes "a") after ≡ some site)
    × (resolve site_query unchanged (codes "a") (called other_calls after)
        ≡ (called other_calls after, site))
unfolding resolve store lookup insert text_eq
resolve-is_cached_example =
    resolve-is_cached site_query site_query unchanged unchanged (codes "a") [] other_calls refl
