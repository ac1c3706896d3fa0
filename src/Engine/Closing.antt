-- ===== src/Engine/Closing.antt =====
-- src/run_command.cc, src/pushgateway_sink.cc: the requests of the end of a run.
use xrdhover.Engine.Publish.{idle_snapshot, end_push, Round}
use xrdhover.Prelude.Text.{Text}
use xrdhover.Metrics.Snapshot.{MetricsSnapshot, integral}
use xrdhover.PromEncode.Encode.{encode_prometheus_text}
use xrdhover.Pushgateway.{
  Handle, PushgatewaySink, new_sink, push, finish, push_key, push_replica_value,
}
use xrdhover.Pushgateway as Pushgateway
use xrdhover.Pushgateway.Group.{fresh_url}
use xrdhover.Pushgateway.Calls.{Call, push_call, call, call_all, put_request, push-sends}
use xrdhover.Pushgateway.Cleanup.{delete_request, push-finish_lem, push-finished, fresh_url-push}
use xrdhover.Prelude.{
  ℕ, ◌≡◌, refl, ap, subst, ◌∙◌, Bool, true, false, Option, some, List, [], ◌∷◌, ◌++◌, if◌then◌else◌,
}

call_all-snoc :
    (o : Pushgateway.Outside) (cs : List Call) (c : Call) (s : PushgatewaySink)
    → call_all o (cs ++ c ∷ []) s ≡ call o c (call_all o cs s)
unfolding call_all
call_all-snoc o [] c s = refl
call_all-snoc o (d ∷ cs) c s = call_all-snoc o cs c (call o d s)

-- A snapshot of nothing going on: no rate, no session in flight, no data server and no site.
abbrev pub quiet : MetricsSnapshot → MetricsSnapshot
quiet snap = record snap {
  achieved_rate_bytes = integral 0;
  inflight_reads = 0;
  by_data_server = [];
  by_cms_site = [];
}

-- The requests of the end of a run to one group, the last one first: the final snapshot, the idle one,
-- and the removal of the group unless it is kept.
pub record Closes (o : Pushgateway.Outside) (keep : Bool) (now idle_now : ℕ) (url : Text)
    (snap : MetricsSnapshot) (before after : List Handle) : Type 0 where
  pub final_text : Text
  pub idle_text : Text
  pub final_encoded : encode_prometheus_text o.print_double now snap ≡ some final_text
  pub idle_encoded : encode_prometheus_text o.print_double idle_now (quiet snap) ≡ some idle_text
  pub requests :
      after
      ≡ (if keep then [] else delete_request url ∷ [])
        ++ (put_request url idle_text ∷ put_request url final_text ∷ before)

module _ (o : Pushgateway.Outside) (last idle : Round) (snap : MetricsSnapshot) where
  abbrev url_of : PushgatewaySink → Text
  url_of s = fresh_url o s (push_key snap) (push_replica_value snap.job_id)

  -- The idle push, and what follows it, from a state that a sink has come to.
  record IdleSends (keep : Bool) (answer : Option ℕ) (s : PushgatewaySink) : Type 0 where
    text : Text
    encoded : encode_prometheus_text o.print_double idle.now (idle_snapshot snap) ≡ some text
    sends :
        let s' = (push o idle.now (idle_snapshot snap) idle.answer s).1 in
        (if keep then s' else finish o snap.run_id snap.job_id answer s').sent
        ≡ (if keep then [] else delete_request (url_of s) ∷ [])
          ++ (put_request (url_of s) text ∷ s.sent)

  called-IdleSends :
      (curl_ready : Bool) (base_url push_job : Text) (cs : List Call) (keep : Bool)
      (answer : Option ℕ) {s : PushgatewaySink}
      → new_sink o.escape curl_ready base_url push_job ≡ some s
      → (call_all o cs s).finished ≡ false
      → IdleSends keep answer (call_all o cs s)
  called-IdleSends curl_ready base_url push_job cs true answer {s} e f =
      let (u, encoded, sent) =
        push-sends o curl_ready base_url push_job cs idle.now (idle_snapshot snap) idle.answer
          {s = s} e f in
      record { text = u; encoded = encoded; sends = sent }
  called-IdleSends curl_ready base_url push_job cs false answer {s} e f =
      let (u, encoded, sent) =
        push-finish_lem o curl_ready base_url push_job cs idle.now (idle_snapshot snap) idle.answer
          answer {s = s} e f in
      record { text = u; encoded = encoded; sends = sent }

  closed :
      (keep : Bool) (answer : Option ℕ) (s : PushgatewaySink) (text : Text)
      → s.finished ≡ false
      → encode_prometheus_text o.print_double last.now snap ≡ some text
      → (push o last.now snap last.answer s).1.sent ≡ put_request (url_of s) text ∷ s.sent
      → IdleSends keep answer (push o last.now snap last.answer s).1
      → Closes o keep last.now idle.now
          (url_of s)
          snap
          s.sent
          (end_push o keep snap.run_id snap.job_id last idle answer snap s).sent
  unfolding end_push
  closed keep answer s text f encoded sent i =
      let pushed = (push o last.now snap last.answer s).1 in
      let url : url_of pushed ≡ url_of s = fresh_url-push o last.now snap last.answer s _ _ f in
      record {
        final_text = text;
        idle_text = i.text;
        final_encoded = encoded;
        idle_encoded = i.encoded;
        requests =
            i.sends
            ∙ ap
                (λ (u : Text).
                  (if keep then [] else delete_request u ∷ [])
                  ++ (put_request u i.text ∷ pushed.sent))
                url
            ∙ ap
                (λ (rs : List Handle).
                  (if keep then [] else delete_request (url_of s) ∷ [])
                  ++ (put_request (url_of s) i.text ∷ rs))
                sent;
      }

  pub end_push-Closes :
      (curl_ready : Bool) (base_url push_job : Text) (cs : List Call) (keep : Bool)
      (answer : Option ℕ) {s : PushgatewaySink}
      → new_sink o.escape curl_ready base_url push_job ≡ some s
      → (call_all o cs s).finished ≡ false
      → let s' = call_all o cs s in
        Closes o keep last.now idle.now
          (url_of s')
          snap
          s'.sent
          (end_push o keep snap.run_id snap.job_id last idle answer snap s').sent
  unfolding call
  end_push-Closes curl_ready base_url push_job cs keep answer {s} e f =
      let s' = call_all o cs s in
      let final = push_call last.now snap last.answer in
      let same = call_all-snoc o cs final s in
      let open_still = push-finished o last.now snap last.answer s' f in
      let idles =
        called-IdleSends curl_ready base_url push_job (cs ++ final ∷ []) keep answer {s = s} e
          (ap (λ (x : PushgatewaySink). x.finished) same ∙ open_still) in
      let (text, encoded, sent) =
        push-sends o curl_ready base_url push_job cs last.now snap last.answer {s = s} e f in
      closed keep answer s' text f encoded sent
        (subst (λ (x : PushgatewaySink). IdleSends keep answer x) same idles)
