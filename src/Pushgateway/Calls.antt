-- ===== src/Pushgateway/Calls.antt =====
-- src/pushgateway_sink.cc: any sequence of calls of a sink.
use xrdhover.Prelude.Text.{Text, codes}
use xrdhover.Metrics.Snapshot.{MetricsSnapshot}
use xrdhover.PromEncode.Encode.{encode_prometheus_text}
use xrdhover.PromEncode.Total.{encode_prometheus_text-some}
use xrdhover.Pushgateway.{
  Handle, PushgatewaySink, new_sink, group_url, http_request, Outside, push, finish, push_key,
  push_replica_value,
}
use xrdhover.Pushgateway.Group.{fresh_url, IsCoherent, group_url-fresh, group_url-IsCoherent}
use mathlib.Core.Option.{some-injective}
use xrdhover.Pushgateway.{trim_trailing_slash}
use xrdhover.Prelude.{
  ℕ, ◌≡◌, refl, sym, ap, subst, ◌∙◌, ◌⊎◌, inl, inr, Bool, true, false, ◌||◌, not, Option, some,
  List, [], ◌∷◌, arith, if◌then◌else◌, Bool-cases, is_empty, All,
}

pub data Call : Type 0 where
  push_call : ℕ → MetricsSnapshot → Option ℕ → Call
  finish_call : Text → Text → Option ℕ → Call

unfoldable pub call : Outside → Call → PushgatewaySink → PushgatewaySink
call o (push_call now snap answer) s = (push o now snap answer s).1
call o (finish_call src_dst replica answer) s = finish o src_dst replica answer s

unfoldable pub call_all : Outside → List Call → PushgatewaySink → PushgatewaySink
call_all o [] s = s
call_all o (c ∷ cs) s = call_all o cs (call o c s)

abbrev pub IsPut : Handle → Type 0
IsPut r = (r.custom_request ≡ codes "PUT") × (r.put_headers ≡ true)

-- The request that ends a group: a DELETE with neither headers nor a body.
abbrev pub IsDelete : Handle → Type 0
IsDelete r = (r.custom_request ≡ codes "DELETE") × (r.put_headers ≡ false) × (r.post_fields ≡ [])

-- Only PUTs, the last request first; or PUTs and then at most one DELETE.
pub Sends : Bool → List Handle → Type 0
Sends false sent = All IsPut sent
Sends true [] = Unit
Sends true (r ∷ sent) = (IsPut r ⊎ IsDelete r) × All IsPut sent

pub record Kept (o : Outside) (s : PushgatewaySink) : Type 0 where
  pub coherent : IsCoherent o s
  pub sends : Sends s.finished s.sent

pub new_sink-Kept :
    (o : Outside) (curl_ready : Bool) (base_url push_job : Text) (s : PushgatewaySink)
    → new_sink o.escape curl_ready base_url push_job ≡ some s
    → Kept o s
unfolding new_sink IsCoherent Sends
new_sink-Kept o curl_ready base_url push_job s e =
    elim (Bool-cases (is_empty (trim_trailing_slash base_url) || not curl_ready)) [
      | inl q ↦ absurd (ground (arith, e, q))
      | inr q ↦
          subst (λ (x : PushgatewaySink). Kept o x) (some-injective _ _ (rw q at e))
            (record { coherent = λ h. cc; sends = tt })
    ]

Sends-ended : (sent : List Handle) → Sends false sent → Sends true sent
unfolding Sends
Sends-ended [] h = tt
Sends-ended (r ∷ sent) h = (inl h.0, h.1)

Sends-put :
    (finished : Bool) (r : Handle) (sent : List Handle)
    → finished ≡ false
    → IsPut r
    → Sends false sent
    → Sends finished (r ∷ sent)
unfolding Sends
Sends-put true r sent f h hs = cc
Sends-put false r sent f h hs = (h, hs)

Sends-delete :
    (finished : Bool) (r : Handle) (sent : List Handle)
    → finished ≡ true
    → IsDelete r
    → Sends false sent
    → Sends finished (r ∷ sent)
unfolding Sends
Sends-delete true r sent f h hs = (inr h, hs)
Sends-delete false r sent f h hs = cc

push-closed :
    (o : Outside) (now : ℕ) (snap : MetricsSnapshot) (answer : Option ℕ) (s : PushgatewaySink)
    → s.finished ≡ true
    → (push o now snap answer s).1 ≡ s
unfolding push
push-closed o now snap answer s f = ground arith

pub push-open :
    (o : Outside) (now : ℕ) (snap : MetricsSnapshot) (answer : Option ℕ) (s : PushgatewaySink)
    → s.finished ≡ false
    → let at = group_url o.escape (push_key snap) (push_replica_value snap.job_id) s in
      (text : Text) × (encode_prometheus_text o.print_double now snap ≡ some text)
      × ((push o now snap answer s).1 ≡ (http_request (codes "PUT") at.0 text answer at.1).1)
unfolding push
push-open o now snap answer s f =
    let (text, e) = encode_prometheus_text-some o.print_double now snap in
    (text, e, ground (arith, f, e))

pub group_url-keeps :
    (o : Outside) (src_dst replica : Text) (s : PushgatewaySink)
    → let s' = (group_url o.escape src_dst replica s).1 in
      (s'.finished ≡ s.finished) × (s'.sent ≡ s.sent)
unfolding group_url
group_url-keeps o src_dst replica s = (ground arith, ground arith)

-- The three ways a call of Finish goes.
finish-closed :
    (o : Outside) (src_dst replica : Text) (answer : Option ℕ) (s : PushgatewaySink)
    → s.finished ≡ true
    → finish o src_dst replica answer s ≡ s
unfolding finish
finish-closed o src_dst replica answer s f = ground arith

Deletes : Outside → PushgatewaySink → Option ℕ → PushgatewaySink → Type 0
Deletes o s answer s' =
    (key : Text) × (replica : Text) × (let at =
        group_url o.escape key replica (record s { finished = true }) in
      s' ≡ (http_request (codes "DELETE") at.0 [] answer at.1).1)

finish-open :
    (o : Outside) (src_dst replica : Text) (answer : Option ℕ) (s : PushgatewaySink)
    → s.finished ≡ false
    → (finish o src_dst replica answer s ≡ record s { finished = true })
      ⊎ Deletes o s answer (finish o src_dst replica answer s)
unfolding finish Deletes
finish-open o src_dst replica answer s f =
    let key = if not (is_empty src_dst) then src_dst else s.last_src_dst in
    let rep = if not (is_empty replica) then replica else s.last_replica in
    elim (Bool-cases (is_empty key || is_empty rep)) [
      | inl q ↦ inl (ground (arith, f, q))
      | inr q ↦ inr (key, rep, ground (arith, f, q))
    ]

pub push-Kept :
    (o : Outside) (now : ℕ) (snap : MetricsSnapshot) (answer : Option ℕ) (s : PushgatewaySink)
    → Kept o s
    → Kept o (push o now snap answer s).1
unfolding http_request IsCoherent Sends
push-Kept o now snap answer s k = elim (Bool-cases s.finished) [
  | inl f ↦ subst (λ (x : PushgatewaySink). Kept o x) (sym (push-closed o now snap answer s f)) k
  | inr f ↦
      let (text, e, same) = push-open o now snap answer s f in
      let keeps = group_url-keeps o (push_key snap) (push_replica_value snap.job_id) s in
      let puts : Sends false s.sent = subst (λ (b : Bool). Sends b s.sent) f k.sends in
      subst (λ (x : PushgatewaySink). Kept o x) (sym same)
        (record {
          coherent =
              group_url-IsCoherent o (push_key snap) (push_replica_value snap.job_id) s k.coherent;
          sends =
              Sends-put _ _ _ (keeps.0 ∙ f) (refl, refl)
                (subst (λ (rs : List Handle). Sends false rs) (sym keeps.1) puts);
        })
]

finish-Kept :
    (o : Outside) (src_dst replica : Text) (answer : Option ℕ) (s : PushgatewaySink)
    → Kept o s
    → Kept o (finish o src_dst replica answer s)
unfolding http_request IsCoherent Sends Deletes
finish-Kept o src_dst replica answer s k = elim (Bool-cases s.finished) [
  | inl f ↦
      subst (λ (x : PushgatewaySink). Kept o x) (sym (finish-closed o src_dst replica answer s f)) k
  | inr f ↦
      let puts : Sends false s.sent = subst (λ (b : Bool). Sends b s.sent) f k.sends in
      elim (finish-open o src_dst replica answer s f) [
        | inl same ↦
            subst (λ (x : PushgatewaySink). Kept o x) (sym same)
              (record { coherent = k.coherent; sends = Sends-ended s.sent puts })
        | inr (key, rep, same) ↦
            let ended = record s { finished = true } in
            let keeps = group_url-keeps o key rep ended in
            subst (λ (x : PushgatewaySink). Kept o x) (sym same)
              (record {
                coherent = group_url-IsCoherent o key rep ended k.coherent;
                sends =
                    Sends-delete _ _ _ keeps.0 (refl, refl, refl)
                      (subst (λ (rs : List Handle). Sends false rs) (sym keeps.1) puts);
              })
      ]
]

pub call_all-Kept :
    (o : Outside) (cs : List Call) (s : PushgatewaySink) → Kept o s → Kept o (call_all o cs s)
unfolding call_all call
call_all-Kept o [] s k = k
call_all-Kept o (push_call now snap answer ∷ cs) s k =
    call_all-Kept o cs _ (push-Kept o now snap answer s k)
call_all-Kept o (finish_call src_dst replica answer ∷ cs) s k =
    call_all-Kept o cs _ (finish-Kept o src_dst replica answer s k)

-- Whatever calls a new sink gets, it sends PUTs with the text's headers and then at most one DELETE,
-- which has neither headers nor a body and is the last request; before Finish it sends no DELETE.
pub call_all-Sends :
    (o : Outside) (curl_ready : Bool) (base_url push_job : Text) (cs : List Call)
    {s : PushgatewaySink}
    → new_sink o.escape curl_ready base_url push_job ≡ some s
    → let s' = call_all o cs s in Sends s'.finished s'.sent
call_all-Sends o curl_ready base_url push_job cs {s} e =
    (call_all-Kept o cs s (new_sink-Kept o curl_ready base_url push_job s e)).sends

-- A PUT of a body.
abbrev pub put_request : Text → Text → Handle
put_request url body = record {
  url = url;
  custom_request = codes "PUT";
  put_headers = true;
  post_fields = body;
}

http_request-put :
    (url body : Text) (answer : Option ℕ) (s : PushgatewaySink)
    → (http_request (codes "PUT") url body answer s).1.sent ≡ put_request url body ∷ s.sent
unfolding http_request
http_request-put url [] answer s = refl
http_request-put url (c ∷ body) answer s = refl

-- A Push of a sink that is not finished, after whatever calls, sends one request more: a PUT of the
-- encoded snapshot to the URL of the snapshot's own group, also when the URL is a remembered one.
pub push-sends :
    (o : Outside) (curl_ready : Bool) (base_url push_job : Text) (cs : List Call) (now : ℕ)
    (snap : MetricsSnapshot) (answer : Option ℕ) {s : PushgatewaySink}
    → new_sink o.escape curl_ready base_url push_job ≡ some s
    → (call_all o cs s).finished ≡ false
    → let s' = call_all o cs s in
      (text : Text) × (encode_prometheus_text o.print_double now snap ≡ some text)
      × ((push o now snap answer s').1.sent
          ≡ put_request (fresh_url o s' (push_key snap) (push_replica_value snap.job_id)) text
            ∷ s'.sent)
push-sends o curl_ready base_url push_job cs now snap answer {s} e f =
    let s' = call_all o cs s in
    let k = call_all-Kept o cs s (new_sink-Kept o curl_ready base_url push_job s e) in
    let (text, encoded, same) = push-open o now snap answer s' f in
    let at = group_url o.escape (push_key snap) (push_replica_value snap.job_id) s' in
    let keeps = group_url-keeps o (push_key snap) (push_replica_value snap.job_id) s' in
    let url = group_url-fresh o (push_key snap) (push_replica_value snap.job_id) s' k.coherent in
    (
      text,
      encoded,
      ap (λ (x : PushgatewaySink). x.sent) same
          ∙ http_request-put at.0 text answer at.1
          ∙ ap (λ (u : Text). put_request u text ∷ at.1.sent) url
          ∙ ap
              (λ (rs : List Handle).
                put_request (fresh_url o s' (push_key snap) (push_replica_value snap.job_id)) text
                ∷ rs)
              keeps.1,
    )
