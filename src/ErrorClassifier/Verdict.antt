-- ===== src/ErrorClassifier/Verdict.antt =====
-- src/error_classifier.cc, src/soft_fault_log.cc: which classes and kinds the classifiers return.
use xrdhover.Prelude.Text.{starts_with, Text, codes, contains, lower, to_lower}
use xrdhover.ErrorClassifier.{
  is_connection, is_trust, is_timeout, is_redirect_loop, is_not_found, is_auth, no_error, timeout,
  expired, classify_xrootd_error, by_status,
}
use xrdhover.Session.State.{FileSession, Status, FileSessionResult}
use xrdhover.Session.Ops.{complete}
use xrdhover.Session.Handlers.{wall_timeout_result}
use xrdhover.Prelude.{
  ℕ, ◌≡◌, refl, ap, ◌↔◌, inl, inr, [], ◌∷◌, arith, ◌==◌, if◌then◌else◌, Bool-cases, is_empty,
}

lower-nil : (m : Text) → is_empty (lower m) ≡ is_empty m
unfolding lower
lower-nil [] = refl
lower-nil (c ∷ m) = refl

by_status-no_error :
    (s e : ℕ) (m : Text) → by_status s e (lower m) ≡ no_error → (s ≡ 0) × (e ≡ 0) × (m ≡ [])
unfolding by_status
by_status-no_error s e [] h = ground arith
by_status-no_error s e (c ∷ m) h = ground (arith, lower-nil (c ∷ m))

no_failure : classify_xrootd_error 0 0 [] ≡ no_error
unfolding classify_xrootd_error by_status lower is_auth is_not_found is_redirect_loop is_timeout
    is_trust is_connection contains starts_with
no_failure = refl

by_zero :
    (s e : ℕ) (m : Text) → (s ≡ 0) × (e ≡ 0) × (m ≡ []) → classify_xrootd_error s e m ≡ no_error
by_zero s e m h = rw (h.0, h.1, h.2, no_failure)

-- A failure is classified as no error exactly when both codes are 0 and the message is empty.
classify_xrootd_error-no_error :
    (status_code err_code : ℕ) (message : Text)
    → (classify_xrootd_error status_code err_code message ≡ no_error)
      ↔ ((status_code ≡ 0) × (err_code ≡ 0) × (message ≡ []))
unfolding classify_xrootd_error
classify_xrootd_error-no_error s e m =
    (λ h. by_status-no_error s e m (ground arith), λ h. by_zero s e m h)

to_lower_idem : (c : ℕ) → to_lower (to_lower c) ≡ to_lower c
unfolding to_lower
to_lower_idem c = ground arith

lower_idem : (m : Text) → lower (lower m) ≡ lower m
unfolding lower
lower_idem [] = refl
lower_idem (c ∷ m) = ground (arith, to_lower_idem c, lower_idem m)

-- The verdict does not depend on the case of the message.
pub classify_xrootd_error-lower :
    (status_code err_code : ℕ) (message : Text)
    → classify_xrootd_error status_code err_code (lower message)
      ≡ classify_xrootd_error status_code err_code message
unfolding classify_xrootd_error
classify_xrootd_error-lower s e m = rw (lower_idem m)

timeout_verdict :
    (c : ℕ)
    → classify_xrootd_error c 110 (codes "session wall timeout")
      ≡ (if c == 206 then expired else timeout)
unfolding classify_xrootd_error lower to_lower is_auth is_not_found is_redirect_loop is_timeout
    contains starts_with
timeout_verdict c = elim (Bool-cases (c == 206)) [ inl e ↦ rw e | inr e ↦ ground arith ]

complete-result : (s : FileSession) → (complete s).result ≡ s.result
unfolding complete
complete-result s = ground arith

wall_timeout_fields :
    (st : Status) (now : ℕ) (s : FileSession)
    → let r = (wall_timeout_result st now s).result in
      (r.status_code ≡ st.code) × (r.err_code ≡ 110) × (r.error ≡ codes "session wall timeout")
unfolding wall_timeout_result
wall_timeout_fields st now s = (
  ap (λ (r : FileSessionResult). r.status_code) (complete-result _),
  ap (λ (r : FileSessionResult). r.err_code) (complete-result _),
  ap (λ (r : FileSessionResult). r.error) (complete-result _),
)

-- A session that the watchdog ended counts as a timeout, whatever its state and the answer to its
-- Close, except that a Close that itself expired counts as expired.
pub wall_timeout_result-class :
    (st : Status) (now : ℕ) (s : FileSession)
    → let r = (wall_timeout_result st now s).result in
      classify_xrootd_error r.status_code r.err_code r.error
      ≡ (if st.code == 206 then expired else timeout)
wall_timeout_result-class st now s =
    let f = wall_timeout_fields st now s in rw (f.0, f.1, f.2, timeout_verdict st.code)
