-- ===== src/Witness/Export.antt =====
-- Examples for the Prometheus text and the Pushgateway.
use xrdhover.Prelude.Text.{Text, codes}
use xrdhover.Metrics.Data.{new_registry, new_histogram}
use xrdhover.Metrics.Buckets.{observe_all}
use xrdhover.Metrics.Snapshot.{integral, MetricsSnapshot, snapshot, histogram_snapshot}
use xrdhover.PromEncode.{common_labels, cumulative}
use xrdhover.PromEncode.Encode.{encode_prometheus_text}
use xrdhover.PromEncode.{source_and_dest, split_link}
use xrdhover.Prelude.Text.{starts_with}
use xrdhover.PromEncode.Labels.{read_labels, label_names, read_labels-common_labels}
use xrdhover.PromEncode.Cumulative.{Ascends, last_of, cumulative-observe_all}
use xrdhover.Pushgateway.{
  finish, Outside, PushgatewaySink, new_sink, new_handle, push, push_key, push_replica_value,
  trim_trailing_slash,
}
use xrdhover.Chirp.{
  Surroundings, ChirpSink, new_sink as new_chirp_sink, finish as finish_chirp,
  discover_chirp_binary, beside_config, first_existing, split_path,
}
use xrdhover.Chirp.{Command, set_job_attr, put, remove}
use xrdhover.Prelude.Dict.{Dict, lookup, insert, lookup-insert}
use xrdhover.Prelude.Text.{text_eq}
use xrdhover.Chirp.Remote.{Obeys, IsQuiet, run_commands, finish-IsQuiet}
use xrdhover.Workload.Host.{below}
use xrdhover.Pushgateway.Cleanup.{delete_request, push-finish_lem}
use xrdhover.Pushgateway.Group.{fresh_url}
use xrdhover.Pushgateway.Calls.{
  Call, push_call, finish_call, call_all, Sends, call_all-Sends, put_request,
}
use xrdhover.Prelude.{
  ◌≡◌, refl, true, false, Option, none, some, List, [], ◌∷◌, arith, length, if◌then◌else◌,
}

-- A run whose link and endpoint need escapes.
abbrev registry : MetricsSnapshot
registry =
    snapshot (codes "h") (integral 2)
      (record new_registry { run_id = codes "a__b\"c"; endpoint = 92 ∷ 10 ∷ [] })

read_labels-common_labels_example :
    read_labels label_names (common_labels registry)
    ≡ some (
        (codes "src_dst", codes "a__b\"c")
        ∷ (codes "job_id", [])
        ∷ (codes "host", codes "h")
        ∷ (codes "target", [])
        ∷ (codes "endpoint", 92 ∷ 10 ∷ [])
        ∷ (codes "source", codes "a")
        ∷ (codes "dest", codes "b\"c")
        ∷ [])
unfolding snapshot source_and_dest split_link starts_with
read_labels-common_labels_example = read_labels-common_labels registry

cumulative-observe_all_example :
    let h = histogram_snapshot (observe_all (some 3000000 ∷ none ∷ []) new_histogram) in
    (length (cumulative 0 h.counts) ≡ 16)
    × Ascends 0 (cumulative 0 h.counts)
    × (last_of 0 (cumulative 0 h.counts) ≡ h.count)
cumulative-observe_all_example = cumulative-observe_all (some 3000000 ∷ none ∷ []) (omega arith)

abbrev outside : Outside
outside = record { escape = λ s. some s; print_double = λ x. codes "0" }

abbrev new : PushgatewaySink
new = record {
  base_url = codes "http://g";
  encoded_job = codes "xrdhover";
  last_src_dst = [];
  last_replica = [];
  cached_group_url = [];
  finished = false;
  handle = new_handle;
  sent = [];
}

is_new : new_sink outside.escape true (codes "http://g/") [] ≡ some new
unfolding new_sink trim_trailing_slash
is_new = refl

abbrev calls : List Call
calls = push_call 5 registry (some 202) ∷ finish_call [] [] none ∷ push_call 6 registry none ∷ []

call_all-Sends_example : let s = call_all outside calls new in Sends s.finished s.sent
call_all-Sends_example = call_all-Sends outside true (codes "http://g/") [] calls {s = new} is_new

push-finish_lem_example :
    let s = call_all outside [] new in
    let url = fresh_url outside s (push_key registry) (push_replica_value registry.job_id) in
    (text : Text) × (encode_prometheus_text outside.print_double 5 registry ≡ some text)
    × ((finish outside registry.run_id registry.job_id none
          (push outside 5 registry (some 202) s).1).sent
        ≡ delete_request url ∷ put_request url text ∷ s.sent)
unfolding call_all
push-finish_lem_example =
    push-finish_lem outside true (codes "http://g/") [] [] 5 registry (some 202) none {s = new}
      is_new refl

abbrev surroundings : Surroundings
surroundings = record {
  chirp_config = none;
  path = some (codes "/bin:/usr/bin");
  exists = λ path. true;
  canonical = λ path. path;
  parent_path = λ path. path;
  print_six = λ x. codes "0";
  print_nine = λ x. codes "0";
}

abbrev chirp : ChirpSink
chirp = record {
  chirp_binary = codes "/bin/condor_chirp";
  prom_remote_path = codes "/d/xrdhover_r_j.prom";
  classads = true;
}

chirp_is_new : new_chirp_sink surroundings [] (codes "/d/") true (codes "r") (codes "j") ≡ chirp
unfolding new_chirp_sink discover_chirp_binary beside_config first_existing split_path below
    trim_trailing_slash
chirp_is_new = refl

-- A job queue and an access point that keep attributes and files.
record Remote : Type 0 where
  attrs : Dict Text
  files : Dict Text

unfoldable erase : Text → Dict Text → Dict Text
erase k [] = []
erase k ((j, v) ∷ m) = let rest = erase k m in if text_eq j k then rest else (j, v) ∷ rest

perform : Command → Remote → Remote
perform (set_job_attr name value) r = record r { attrs = insert name value r.attrs }
perform (put body path) r = record r { files = insert path body r.files }
perform (remove path) r = record r { files = erase path r.files }

abbrev attr : Text → Remote → Option Text
attr name r = lookup name r.attrs

abbrev file : Text → Remote → Option Text
file path r = lookup path r.files

lookup-erase : (k : Text) (m : Dict Text) → lookup k (erase k m) ≡ none
unfolding lookup erase
lookup-erase k [] = refl
lookup-erase k ((j, v) ∷ m) = ground (arith, lookup-erase k m)

perform-Obeys : Obeys perform attr file
unfolding perform
perform-Obeys = record {
  sets = λ name value other r. lookup-insert name other value r.attrs;
  keeps = λ path name r. refl;
  removes = λ path r. lookup-erase path r.files;
}

finish-IsQuiet_example :
    let r : Remote = record { attrs = []; files = (codes "/d/xrdhover_r_j.prom", []) ∷ [] } in
    IsQuiet attr file surroundings chirp.prom_remote_path
      (run_commands perform (finish_chirp surroundings true 7 registry chirp) r)
finish-IsQuiet_example =
    finish-IsQuiet perform-Obeys surroundings true 7 registry chirp
      (record { attrs = []; files = (codes "/d/xrdhover_r_j.prom", []) ∷ [] }) refl refl refl
