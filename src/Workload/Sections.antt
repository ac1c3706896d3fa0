-- ===== src/Workload/Sections.antt =====
-- src/workload_spec.cc: ValidateWorkloadJson up to the sinks.
use xrdhover.Prelude.Text.{Text, codes, text_eq}
use xrdhover.Json.{Json, is_object, as_int, is_number_integer}
use xrdhover.Units.{Number, is_negative}
use xrdhover.Workload.Data.{whole, ClientTuningSpec, new_tuning}
use xrdhover.Workload.Fields.{
  Checked, issue, join, reject_unknown, get, require_string, optional_int, check_duration,
  optional_duration,
}
use xrdhover.Prelude.{ℕ, Bool, ◌||◌, not, none, some, [], ◌∷◌, ◌++◌, ◌==◌, if◌then◌else◌, is_empty}

unfoldable pub check_schema_version : Json → Checked ℕ
check_schema_version root = elim (get (codes "schema_version") root) [
  | none ↦ record {
    value = 1;
    issues = issue (codes "schema_version") (codes "required field missing");
  }
  | some v ↦
      if not (is_number_integer v)
      then record {
        value = 1;
        issues = issue (codes "schema_version") (codes "must be an integer");
      }
      else elim (as_int v) [
        | none ↦ record {
          value = 1;
          issues = issue (codes "schema_version") (codes "unsupported schema_version (expected 1)");
        }
        | some n ↦ record {
          value = n;
          issues =
              if n == 1
              then []
              else issue (codes "schema_version") (codes "unsupported schema_version (expected 1)");
        }
      ]
]

unfoldable pub check_run_id : Json → Checked Text
check_run_id root =
    let f = require_string root (codes "run_id") (codes "run_id") (codes "run") in
    if not f.good then record { value = f.value; issues = f.issues } else record {
      value = f.value;
      issues = if is_empty f.value then issue (codes "run_id") (codes "must be non-empty") else [];
    }

-- `duration_s <= 0.0`.
abbrev pub is_not_positive : Number → Bool
is_not_positive d = is_negative d || (d.mantissa == 0)

unfoldable pub check_run_duration : Json → Checked (Text × Number)
check_run_duration root =
    let f = require_string root (codes "duration") (codes "duration") (codes "30s") in
    let d =
      check_duration (codes "duration") is_not_positive (codes "must be > 0") f.value (whole 30) in
    if not f.good
    then record { value = (f.value, whole 30); issues = f.issues }
    else record { value = (f.value, d.value); issues = d.issues }

abbrev pub unsupported_mode : Text
unsupported_mode =
    codes "unsupported auth mode (only \"x509\" / X509_USER_PROXY in v1; "
    ++ codes "bearer tokens deferred until after Phases 3"
    ++ 0xe2 ∷ 0x80 ∷ 0x93 ∷ codes "6)"

unfoldable pub check_auth_mode : Json → Checked Text
check_auth_mode auth =
    let f = require_string auth (codes "mode") (codes "auth.mode") [] in
    let unknown = reject_unknown auth (codes "mode" ∷ []) (codes "auth") in
    if not f.good
    then record { value = codes "x509"; issues = unknown ++ f.issues }
    else if not (text_eq f.value (codes "x509"))
    then record {
      value = codes "x509";
      issues = unknown ++ issue (codes "auth.mode") unsupported_mode;
    }
    else record { value = f.value; issues = unknown }

unfoldable pub check_auth : Json → Checked Text
check_auth root = elim (get (codes "auth") root) [
  | none ↦ record {
    value = codes "x509";
    issues = issue (codes "auth") (codes "required field missing");
  }
  | some auth ↦
      if not (is_object auth)
      then record {
        value = codes "x509";
        issues = issue (codes "auth") (codes "must be an object");
      }
      else check_auth_mode auth
]

unfoldable pub check_tuning : Json → Checked ClientTuningSpec
check_tuning ct =
    let timeout =
      optional_duration ct (codes "session_timeout") (codes "client_tuning.session_timeout")
        is_negative (codes "must be >= 0") (codes "60s") (whole 60) in
    let window =
      optional_int ct (codes "connection_window") (codes "client_tuning.connection_window") 15 1
        86400 in
    let retry =
      optional_int ct (codes "connection_retry") (codes "client_tuning.connection_retry") 2 0
        1000 in
    let request =
      optional_int ct (codes "request_timeout") (codes "client_tuning.request_timeout") 60 1
        86400 in
    let allowed =
      codes "session_timeout"
      ∷ codes "connection_window"
      ∷ codes "connection_retry"
      ∷ codes "request_timeout"
      ∷ [] in
    record {
      value = record {
        session_timeout_input = timeout.value.0;
        session_timeout = timeout.value.1;
        connection_window_s = window.value;
        connection_retry = retry.value;
        request_timeout_s = request.value;
      };
      issues = join (
          reject_unknown ct allowed (codes "client_tuning")
          ∷ timeout.issues
          ∷ window.issues
          ∷ retry.issues
          ∷ request.issues
          ∷ []);
    }

unfoldable pub check_client_tuning : Json → Checked ClientTuningSpec
check_client_tuning root = elim (get (codes "client_tuning") root) [
  | none ↦ record { value = new_tuning; issues = [] }
  | some ct ↦
      if not (is_object ct)
      then record {
        value = new_tuning;
        issues = issue (codes "client_tuning") (codes "must be an object");
      }
      else check_tuning ct
]
