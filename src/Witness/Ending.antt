-- ===== src/Witness/Ending.antt =====
-- Examples for the end of a run.
use xrdhover.Prelude.Text.{codes}
use xrdhover.Metrics.Snapshot.{integral}
use xrdhover.Pushgateway.{
  PushgatewaySink, new_sink, new_handle, push_key, push_replica_value, trim_trailing_slash,
}
use xrdhover.Pushgateway.Group.{fresh_url}
use xrdhover.Pushgateway.Calls.{call_all}
use xrdhover.Engine.Publish.{Outside, Round}
use xrdhover.Engine.Ending.{Course, job_id_of, run_engine}
use xrdhover.Engine.Closing.{Closes}
use xrdhover.Engine.WholeRun.{sent_by, run_engine-Closes}
use xrdhover.Prelude.Text.{text_eq}
use xrdhover.Prelude.Dict.{lookup}
use xrdhover.RunConfig.{RunConfig}
use xrdhover.SitenameResolver.{resolve}
use xrdhover.Metrics.Data.{MetricsRegistry, new_registry, new_endpoint}
use xrdhover.Metrics.Record.{data_servers_missing_site, missing_site}
use xrdhover.Engine.Sites.{fill_cms_sites, fill_loop, fill_one, site_name}
use xrdhover.Engine.Missing.{HasNames, IsMissing, IsUnnamed}
use xrdhover.Engine.Named.{fill_cms_sites-names}
use xrdhover.Witness.Data.{config}
use xrdhover.Prelude.{◌≡◌, refl, true, false, none, some, [], ◌∷◌}

abbrev gateway : PushgatewaySink
gateway = record {
  base_url = codes "http://g";
  encoded_job = codes "xrdhover";
  last_src_dst = [];
  last_replica = [];
  cached_group_url = [];
  finished = false;
  handle = new_handle;
  sent = [];
}

abbrev around : Outside
around = record {
  file = record {
    create_directories = λ p. none;
    can_open = λ p. true;
    decimal_of = λ x. record { negative = false; mantissa = x.num; decimals = 0 };
    dump = λ j. codes "{}";
    dump_indented = λ j. codes "{}";
  };
  push = record { escape = λ s. some s; print_double = λ x. codes "0" };
  chirp = record {
    chirp_config = none;
    path = none;
    exists = λ path. false;
    canonical = λ path. path;
    parent_path = λ path. path;
    print_six = λ x. codes "0";
    print_nine = λ x. codes "0";
  };
  local_hostname = codes "h";
  cpu_seconds_at_start = integral 0;
}

is_gateway : new_sink around.push.escape true (codes "http://g/") [] ≡ some gateway
unfolding new_sink trim_trailing_slash
is_gateway = refl

abbrev quiet_round : Round
quiet_round = record { cpu_us = 1; rss_bytes = 2; now = 3; answer = some 202; stored = true }

-- A run whose last session does not end before the wait is over.
abbrev course : Course
course = record {
  hostname = some (codes "h");
  now = 0;
  events = [];
  drain_start = 10;
  polls = record { now = 11; during = [] } ∷ [];
  query = λ ds. codes "T2";
  site_map = none;
  cache = [];
  last = quiet_round;
  idle = quiet_round;
  answer = none;
  wall = integral 2;
  published = record {
    sinks = record { file = none; push = some gateway; chirp = none };
    files = [];
    commands = [];
  };
}

run_engine-Closes_example :
    let ended = run_engine around config course in
    let s' = call_all around.push [] gateway in
    (ended.final.run_id ≡ config.run_id)
    × (ended.final.job_id ≡ job_id_of (some (codes "h")) config)
    × Closes around.push config.pushgateway_keep 3 3
        (fresh_url around.push s' (push_key ended.final) (push_replica_value ended.final.job_id))
        ended.final
        s'.sent
        (sent_by ended.published.sinks.push)
unfolding call_all
run_engine-Closes_example =
    run_engine-Closes around config course true (codes "http://g/") [] [] {s = gateway} is_gateway
      refl refl

-- A server that the query does not name.
abbrev nameless : MetricsRegistry
nameless = record new_registry { by_data_server = (codes "ds", new_endpoint) ∷ [] }

abbrev asking : RunConfig
asking = record config { sitename_query = true }

no_names : HasNames []
unfolding HasNames lookup
no_names ds site e = cc

is_missing : IsMissing (codes "ds") (fill_cms_sites asking (λ ds. []) none ([], nameless)).1
unfolding fill_cms_sites fill_loop fill_one site_name resolve data_servers_missing_site missing_site
    lookup text_eq
is_missing = record { entry = new_endpoint; found = refl; no_site = refl; known = refl }

fill_cms_sites-names_example :
    IsMissing (codes "ds") nameless × IsUnnamed asking (λ ds. []) none (codes "ds")
fill_cms_sites-names_example =
    fill_cms_sites-names asking (λ ds. []) none [] nameless (codes "ds") no_names is_missing
