-- ===== src/Pushgateway.antt =====
-- src/pushgateway_sink.cc, include/xrdhover/push_group.hh: the sink that keeps one group of a
-- Pushgateway up to date. libcurl is a parameter: what it escapes a text to, none for a failure, and
-- the answer to each request, an HTTP code or none for a transport error.
pub mod Group
pub mod Calls
pub mod Cleanup
use xrdhover.Prelude.Text.{Text, codes, text_eq}
use xrdhover.Metrics.Snapshot.{Fraction, MetricsSnapshot}
use xrdhover.PromEncode.Encode.{encode_prometheus_text}
use mathlib.Core.Option.{get_or}
use xrdhover.Prelude.{
  ℕ, Bool, true, false, ◌&&◌, ◌||◌, not, Option, none, some, List, [], ◌∷◌, ◌++◌, ltb, leb, ◌==◌,
  if◌then◌else◌, is_empty,
}

abbrev pub push_replica_value : Text → Text
push_replica_value job_id = if is_empty job_id then codes "local" else job_id

unfoldable pub format_push_group_path : Text → Text → Text → Text
format_push_group_path job src_dst replica =
    codes "/metrics/job/"
    ++ job
    ++ codes "/src_dst/"
    ++ src_dst
    ++ b'/' ∷ codes "replica"
    ++ b'/' ∷ replica

unfoldable pub trim_trailing_slash : Text → Text
trim_trailing_slash [] = []
trim_trailing_slash (c ∷ u) =
    let rest = trim_trailing_slash u in if is_empty rest && (c == b'/') then [] else c ∷ rest

-- The options of the handle, which stay set from one request to the next.
pub record Handle : Type 0 where
  pub url : Text
  pub custom_request : Text
  pub put_headers : Bool
  pub post_fields : Text

-- `sent` lists the options that each request was performed with, the last one first.
pub record PushgatewaySink : Type 0 where
  pub base_url : Text
  pub encoded_job : Text
  pub last_src_dst : Text
  pub last_replica : Text
  pub cached_group_url : Text
  pub finished : Bool
  pub handle : Handle
  pub sent : List Handle

abbrev pub new_handle : Handle
new_handle = record { url = []; custom_request = []; put_headers = false; post_fields = [] }

-- The escape of libcurl.
abbrev pub url_encode : (Text → Option Text) → Text → Text
url_encode escape s = get_or (escape s) s

-- The constructor; `curl_ready` says that libcurl gave a handle and the headers, and none stands
-- for the exception.
unfoldable pub new_sink : (Text → Option Text) → Bool → Text → Text → Option PushgatewaySink
new_sink escape curl_ready base_url push_job =
    let url = trim_trailing_slash base_url in
    let job = if is_empty push_job then codes "xrdhover" else push_job in
    if is_empty url || not curl_ready
    then none
    else some (record {
      base_url = url;
      encoded_job = url_encode escape job;
      last_src_dst = [];
      last_replica = [];
      cached_group_url = [];
      finished = false;
      handle = new_handle;
      sent = [];
    })

-- The URL and the sink that remembers it.
unfoldable pub group_url :
    (Text → Option Text) → Text → Text → PushgatewaySink → Text × PushgatewaySink
group_url escape src_dst replica s =
    let path =
      format_push_group_path s.encoded_job (url_encode escape src_dst)
        (url_encode escape replica) in
    let url = s.base_url ++ path in
    if text_eq src_dst s.last_src_dst
      && text_eq replica s.last_replica
      && not (is_empty s.cached_group_url)
    then (s.cached_group_url, s)
    else (url, record s { cached_group_url = url; last_src_dst = src_dst; last_replica = replica })

abbrev pub is_success : Option ℕ → Bool
is_success none = false
is_success (some code) = not (ltb code 200 || leb 300 code)

-- `method[0] == 'P'`.
abbrev pub is_put : Text → Bool
is_put [] = false
is_put (c ∷ m) = c == b'P'

unfoldable pub http_request :
    Text → Text → Text → Option ℕ → PushgatewaySink → Bool × PushgatewaySink
http_request method url body answer s =
    let options : Handle = record {
      url = url;
      custom_request = method;
      put_headers = is_put method;
      post_fields = if is_put method && not (is_empty body) then body else [];
    } in
    (is_success answer, record s { handle = options; sent = options ∷ s.sent })

-- `src_dst` of a snapshot.
abbrev pub push_key : MetricsSnapshot → Text
push_key snap =
    if not (is_empty snap.run_id)
    then snap.run_id
    else if not (is_empty snap.job_id)
    then snap.job_id
    else codes "local"

-- What is passed on from outside: libcurl's escape, printf and the clock.
pub record Outside : Type 0 where
  pub escape : Text → Option Text
  pub print_double : Fraction → Text

-- The result, none for an exception of the encoding.
unfoldable pub push :
    Outside → ℕ → MetricsSnapshot → Option ℕ → PushgatewaySink → Option Bool × PushgatewaySink
push o now snap answer s =
    let (url, s') = group_url o.escape (push_key snap) (push_replica_value snap.job_id) s in
    if s.finished then (some false, s) else elim (encode_prometheus_text o.print_double now snap) [
      | none ↦ (none, s')
      | some body ↦
          let (good, s'') = http_request (codes "PUT") url body answer s' in (some good, s'')
    ]

unfoldable pub finish : Outside → Text → Text → Option ℕ → PushgatewaySink → PushgatewaySink
finish o src_dst replica answer s =
    let ended = record s { finished = true } in
    let key = if not (is_empty src_dst) then src_dst else s.last_src_dst in
    let rep = if not (is_empty replica) then replica else s.last_replica in
    let (url, s') = group_url o.escape key rep ended in
    if s.finished
    then s
    else if is_empty key || is_empty rep
    then ended
    else (http_request (codes "DELETE") url [] answer s').1
