-- ===== src/Pushgateway/Group.antt =====
-- src/pushgateway_sink.cc: which requests the sink sends.
use xrdhover.Prelude.Text.{Text, text_eq, text_eq_iff}
use xrdhover.Pushgateway.{format_push_group_path, PushgatewaySink, url_encode, group_url, Outside}
use xrdhover.Prelude.{◌≡◌, refl, inl, inr, false, ◌&&◌, not, ◌++◌, arith, Bool-cases, is_empty}

-- The URL of a group, made anew.
abbrev pub fresh_url : Outside → PushgatewaySink → Text → Text → Text
fresh_url o s src_dst replica =
    s.base_url
    ++ format_push_group_path s.encoded_job (url_encode o.escape src_dst)
        (url_encode o.escape replica)

-- The remembered URL, where there is one, is that of the last group.
unfoldable pub IsCoherent : Outside → PushgatewaySink → Type 0
IsCoherent o s =
    is_empty s.cached_group_url ≡ false
    → s.cached_group_url ≡ fresh_url o s s.last_src_dst s.last_replica

pub group_url-fresh :
    (o : Outside) (src_dst replica : Text) (s : PushgatewaySink)
    → IsCoherent o s
    → (group_url o.escape src_dst replica s).0 ≡ fresh_url o s src_dst replica
unfolding group_url IsCoherent
group_url-fresh o src_dst replica s h =
    elim (Bool-cases (
      text_eq src_dst s.last_src_dst
      && text_eq replica s.last_replica
      && not (is_empty s.cached_group_url))) [
        | inr q ↦ rw q refl
        | inl q ↦
            let a : src_dst ≡ s.last_src_dst = (text_eq_iff _ _).0 (ground arith) in
            let b : replica ≡ s.last_replica = (text_eq_iff _ _).0 (ground arith) in
            rw (q, a, b) (h (ground arith))
      ]

pub group_url-IsCoherent :
    (o : Outside) (src_dst replica : Text) (s : PushgatewaySink)
    → IsCoherent o s
    → IsCoherent o (group_url o.escape src_dst replica s).1
unfolding group_url IsCoherent
group_url-IsCoherent o src_dst replica s h =
    elim (Bool-cases (
      text_eq src_dst s.last_src_dst
      && text_eq replica s.last_replica
      && not (is_empty s.cached_group_url))) [ inr q ↦ rw q (λ _. refl) | inl q ↦ rw q h ]
