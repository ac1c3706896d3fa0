-- ===== src/Pushgateway/Cleanup.antt =====
-- src/pushgateway_sink.cc: the end of a run deletes the group that it pushed to.
use xrdhover.Prelude.Text.{Text, codes, text_eq_iff}
use xrdhover.Metrics.Snapshot.{MetricsSnapshot}
use xrdhover.PromEncode.Encode.{encode_prometheus_text}
use xrdhover.Pushgateway.{
  Handle, PushgatewaySink, new_sink, group_url, http_request, Outside, push, finish, push_key,
  push_replica_value,
}
use xrdhover.Pushgateway.Group.{fresh_url, IsCoherent, group_url-fresh}
use xrdhover.Pushgateway.Calls.{
  group_url-keeps, Call, call_all, put_request, push-sends, push-open, push-Kept, call_all-Kept,
  new_sink-Kept,
}
use xrdhover.Prelude.{
  ℕ, ◌≡◌, refl, sym, ap, subst, ◌∙◌, Bool, true, false, not, Option, some, List, [], ◌∷◌, arith,
  if◌then◌else◌, is_empty,
}

-- What a sink remembers and keeps of a group whose URL it made or found.
record Remembers (s s' : PushgatewaySink) (src_dst replica : Text) : Type 0 where
  src_dst_kept : s'.last_src_dst ≡ src_dst
  replica_kept : s'.last_replica ≡ replica
  base : s'.base_url ≡ s.base_url
  job : s'.encoded_job ≡ s.encoded_job
  still : s'.finished ≡ s.finished

group_url-Remembers :
    (o : Outside) (src_dst replica : Text) (s : PushgatewaySink)
    → Remembers s (group_url o.escape src_dst replica s).1 src_dst replica
unfolding group_url
group_url-Remembers o src_dst replica s =
    let a = text_eq_iff src_dst s.last_src_dst in
    let b = text_eq_iff replica s.last_replica in
    record {
      src_dst_kept = ground (arith, a);
      replica_kept = ground (arith, b);
      base = ground arith;
      job = ground arith;
      still = ground arith;
    }

push-Remembers :
    (o : Outside) (now : ℕ) (snap : MetricsSnapshot) (answer : Option ℕ) (s : PushgatewaySink)
    → s.finished ≡ false
    → Remembers s (push o now snap answer s).1 (push_key snap) (push_replica_value snap.job_id)
unfolding http_request
push-Remembers o now snap answer s f =
    let (text, e, same) = push-open o now snap answer s f in
    let m = group_url-Remembers o (push_key snap) (push_replica_value snap.job_id) s in
    subst (λ (x : PushgatewaySink). Remembers s x (push_key snap) (push_replica_value snap.job_id))
      (sym same)
      (record {
        src_dst_kept = m.src_dst_kept;
        replica_kept = m.replica_kept;
        base = m.base;
        job = m.job;
        still = m.still;
      })

abbrev pub delete_request : Text → Handle
delete_request url = record {
  url = url;
  custom_request = codes "DELETE";
  put_headers = false;
  post_fields = [];
}

push_key_chosen :
    (snap : MetricsSnapshot) (last : Text)
    → last ≡ push_key snap
    → (if not (is_empty snap.run_id) then snap.run_id else last) ≡ push_key snap
push_key_chosen snap last e = ground (arith, e)

replica_chosen :
    (job_id last : Text)
    → last ≡ push_replica_value job_id
    → (if not (is_empty job_id) then job_id else last) ≡ push_replica_value job_id
replica_chosen job_id last e = ground (arith, e)

push_key_given : (snap : MetricsSnapshot) → is_empty (push_key snap) ≡ false
push_key_given snap = ground arith

replica_given : (job_id : Text) → is_empty (push_replica_value job_id) ≡ false
replica_given job_id = ground arith

finish_deletes :
    (o : Outside) (src_dst replica : Text) (answer : Option ℕ) (s : PushgatewaySink)
    → s.finished ≡ false
    → let key = if not (is_empty src_dst) then src_dst else s.last_src_dst in
      let rep = if not (is_empty replica) then replica else s.last_replica in
      is_empty key ≡ false
      → is_empty rep ≡ false
      → let at = group_url o.escape key rep (record s { finished = true }) in
        finish o src_dst replica answer s ≡ (http_request (codes "DELETE") at.0 [] answer at.1).1
unfolding finish
finish_deletes o src_dst replica answer s f given given' = ground (arith, f, given, given')

http_request-delete :
    (url : Text) (answer : Option ℕ) (s : PushgatewaySink)
    → (http_request (codes "DELETE") url [] answer s).1.sent ≡ delete_request url ∷ s.sent
unfolding http_request
http_request-delete url answer s = refl

-- What Finish sends, where its group is the one that was pushed to last.
finish_sends :
    (o : Outside) (snap : MetricsSnapshot) (answer : Option ℕ) (s : PushgatewaySink)
    → IsCoherent o s
    → s.finished ≡ false
    → s.last_src_dst ≡ push_key snap
    → s.last_replica ≡ push_replica_value snap.job_id
    → (finish o snap.run_id snap.job_id answer s).sent
      ≡ delete_request (fresh_url o s (push_key snap) (push_replica_value snap.job_id)) ∷ s.sent
unfolding IsCoherent
finish_sends o snap answer s coherent f a b =
    let ended = record s { finished = true } in
    let key = if not (is_empty snap.run_id) then snap.run_id else s.last_src_dst in
    let rep = if not (is_empty snap.job_id) then snap.job_id else s.last_replica in
    let key_same : key ≡ push_key snap = push_key_chosen snap s.last_src_dst a in
    let rep_same : rep ≡ push_replica_value snap.job_id =
      replica_chosen snap.job_id s.last_replica b in
    let key_given = subst (λ (k : Text). is_empty k ≡ false) (sym key_same) (push_key_given snap) in
    let rep_given =
      subst (λ (k : Text). is_empty k ≡ false) (sym rep_same) (replica_given snap.job_id) in
    let at = group_url o.escape key rep ended in
    ap (λ (x : PushgatewaySink). x.sent)
      (finish_deletes o snap.run_id snap.job_id answer s f key_given rep_given)
    ∙ http_request-delete at.0 answer at.1
    ∙ ap (λ (u : Text). delete_request u ∷ at.1.sent) (group_url-fresh o key rep ended coherent)
    ∙ ap (λ (rs : List Handle). delete_request (fresh_url o s key rep) ∷ rs)
        (group_url-keeps o key rep ended).1
    ∙ ap (λ (k : Text). delete_request (fresh_url o s k rep) ∷ s.sent) key_same
    ∙ ap (λ (r : Text). delete_request (fresh_url o s (push_key snap) r) ∷ s.sent) rep_same

pub push-finished :
    (o : Outside) (now : ℕ) (snap : MetricsSnapshot) (answer : Option ℕ) (s : PushgatewaySink)
    → s.finished ≡ false
    → (push o now snap answer s).1.finished ≡ false
push-finished o now snap answer s f = (push-Remembers o now snap answer s f).still ∙ f

-- A Push does not change where a group's URL leads.
pub fresh_url-push :
    (o : Outside) (now : ℕ) (snap : MetricsSnapshot) (answer : Option ℕ) (s : PushgatewaySink)
    (src_dst replica : Text)
    → s.finished ≡ false
    → fresh_url o (push o now snap answer s).1 src_dst replica ≡ fresh_url o s src_dst replica
fresh_url-push o now snap answer s src_dst replica f =
    let pushed = (push o now snap answer s).1 in
    let m = push-Remembers o now snap answer s f in
    ap (λ (b : Text). fresh_url o (record pushed { base_url = b }) src_dst replica) m.base
    ∙ ap (λ (j : Text). fresh_url o (record s { encoded_job = j }) src_dst replica) m.job

-- A run that ends: a Push of a snapshot by a sink that is not finished, after whatever calls, and
-- then Finish with the run and job of the snapshot send a PUT of the encoded snapshot and a DELETE of
-- the same URL, that of the snapshot's own group, also where the run or the job has no name.
pub push-finish_lem :
    (o : Outside) (curl_ready : Bool) (base_url push_job : Text) (cs : List Call) (now : ℕ)
    (snap : MetricsSnapshot) (answer answer' : Option ℕ) {s : PushgatewaySink}
    → new_sink o.escape curl_ready base_url push_job ≡ some s
    → (call_all o cs s).finished ≡ false
    → let s' = call_all o cs s in
      let url = fresh_url o s' (push_key snap) (push_replica_value snap.job_id) in
      (text : Text) × (encode_prometheus_text o.print_double now snap ≡ some text)
      × ((finish o snap.run_id snap.job_id answer' (push o now snap answer s').1).sent
          ≡ delete_request url ∷ put_request url text ∷ s'.sent)
push-finish_lem o curl_ready base_url push_job cs now snap answer answer' {s} e f =
    let s' = call_all o cs s in
    let k = call_all-Kept o cs s (new_sink-Kept o curl_ready base_url push_job s e) in
    let pushed = (push o now snap answer s').1 in
    let m = push-Remembers o now snap answer s' f in
    let (text, encoded, sent) =
      push-sends o curl_ready base_url push_job cs now snap answer {s = s} e f in
    let same =
      fresh_url-push o now snap answer s' (push_key snap) (push_replica_value snap.job_id) f in
    (
      text,
      encoded,
      finish_sends o snap answer' pushed (push-Kept o now snap answer s' k).coherent (m.still ∙ f)
            m.src_dst_kept m.replica_kept
          ∙ ap (λ (u : Text). delete_request u ∷ pushed.sent) same
          ∙ ap
              (λ (rs : List Handle).
                delete_request (fresh_url o s' (push_key snap) (push_replica_value snap.job_id))
                ∷ rs)
              sent,
    )
