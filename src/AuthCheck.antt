-- ===== src/AuthCheck.antt =====
-- src/auth_check.cc, include/xrdhover/auth_check.hh: the check of the X.509 proxy before a run. The
-- file system, the environment and OpenSSL are parameters.
pub mod Verdict
use xrdhover.Prelude.Text.{Text, codes, decimal}
use xrdhover.Units.{Number}
use xrdhover.Workload.Data.{whole}
use xrdhover.Workload.Fields.{ValidationIssue, issue, less}
use xrdhover.Prelude.{
  ℕ, zero, suc, ◌+◌, ◌-◌, ◌*◌, ◌/◌, ◌%◌, ◌^◌, ◌≤◌, ◌<◌, min, max, ◌≡◌, refl, sym, ap, subst, ◌∙◌,
  ◌≢◌, ◌↔◌, ◌⊎◌, inl, inr, Bool, true, false, ◌&&◌, ◌||◌, not, Option, none, some, List, [], ◌∷◌,
  ◌++◌, map, arith, ltb, leb, ◌==◌, if◌then◌else◌, ltb→lt, lt→ltb, leb→le, ==_iff, Bool-cases,
  Option-cases, length, get_elem?, is_empty, drop, take, length-append, All,
}

-- ASN1_TIME_diff from now: days and seconds that are left, or that have passed.
pub data Lifetime : Type 0 where
  left : ℕ → ℕ → Lifetime
  past : ℕ → ℕ → Lifetime

-- What OpenSSL makes of a file: it cannot be opened, it is no PEM certificate, or it is one, with
-- the difference to its notAfter, none where that cannot be taken.
pub data Pem : Type 0 where
  unreadable unparsed : Pem
  certificate : Option Lifetime → Pem

-- The process's surroundings; `permissions` is none where `fs::status` sets an error.
pub record System : Type 0 where
  pub x509_user_proxy : Option Text
  pub euid : ℕ
  pub exists : Text → Bool
  pub is_regular_file : Text → Bool
  pub permissions : Text → Option ℕ
  pub read_pem : Text → Pem

pub record AuthCheckResult : Type 0 where
  pub ok : Bool
  pub issues : List ValidationIssue
  pub proxy_path : Text
  pub remaining : Number
  pub loose_permissions : Bool

abbrev pub credential_safety_margin_sec : ℕ
credential_safety_margin_sec = 300

unfoldable pub remaining_seconds : Option Lifetime → Number
remaining_seconds none = whole 0
remaining_seconds (some (left day sec)) = whole (day * 86400 + sec)
remaining_seconds (some (past day sec)) = record {
  negative = true;
  mantissa = day * 86400 + sec;
  decimals = 0;
}

abbrev pub tmp_proxy : ℕ → Text
tmp_proxy euid = codes "/tmp/x509up_u" ++ decimal euid

unfoldable pub default_x509_proxy_path : System → Text
default_x509_proxy_path s = elim s.x509_user_proxy [
  | none ↦ tmp_proxy s.euid
  | some env ↦ if is_empty env then tmp_proxy s.euid else env
]

-- `perms & (group_write | others_write)`.
unfoldable pub is_loose : ℕ → Bool
is_loose perms = ((perms / 16) % 2 == 1) || ((perms / 2) % 2 == 1)

-- `required_duration_s + kCredentialSafetyMarginSec`.
unfoldable pub with_margin : Number → Number
with_margin d =
    let margin = credential_safety_margin_sec * 10 ^ d.decimals in
    if not d.negative
    then record d { mantissa = d.mantissa + margin }
    else if leb margin d.mantissa
    then record d { mantissa = d.mantissa - margin }
    else record { negative = false; mantissa = margin - d.mantissa; decimals = d.decimals }

abbrev pub proxy_issue : Text → List ValidationIssue
proxy_issue message = issue (codes "auth.proxy") message

abbrev pub lifetime_issue : Text → List ValidationIssue
lifetime_issue message = issue (codes "auth.lifetime") message

abbrev pub failed : Text → Bool → Number → List ValidationIssue → AuthCheckResult
failed path loose remaining issues = record {
  ok = false;
  issues = issues;
  proxy_path = path;
  remaining = remaining;
  loose_permissions = loose;
}

abbrev pub too_short : Text
too_short =
    codes "credential remaining lifetime is shorter than workload duration + "
    ++ decimal credential_safety_margin_sec
    ++ codes "s safety margin"

-- The checks of the lifetime, after those of the file have listed `issues`.
unfoldable pub check_lifetime :
    Number → Text → Bool → List ValidationIssue → Number → AuthCheckResult
check_lifetime required path loose issues remaining =
    if not (less (whole 0) remaining)
    then failed path loose remaining (issues ++ lifetime_issue (codes "credential expired"))
    else if less remaining (with_margin required)
    then failed path loose remaining (issues ++ lifetime_issue too_short)
    else if loose
    then failed path loose remaining issues
    else record {
      ok = true;
      issues = issues;
      proxy_path = path;
      remaining = remaining;
      loose_permissions = loose;
    }

abbrev pub check_pem : Number → Text → Bool → List ValidationIssue → Pem → AuthCheckResult
check_pem required path loose issues unreadable =
    failed path loose (whole 0)
      (issues ++ proxy_issue (codes "cannot open credential file for reading"))
check_pem required path loose issues unparsed =
    failed path loose (whole 0)
      (issues ++ proxy_issue (codes "cannot parse X509 certificate/proxy PEM"))
check_pem required path loose issues (certificate not_after) =
    check_lifetime required path loose issues (remaining_seconds not_after)

abbrev pub loose_message : Text
loose_message = codes "credential file is group/other-writable; tighten permissions"

-- From the permissions on: loose ones are an issue, and the check goes on to the lifetime.
unfoldable pub check_permissions : Number → Text → Option ℕ → Pem → AuthCheckResult
check_permissions required path none pem =
    failed path false (whole 0) (proxy_issue (codes "cannot stat credential file"))
check_permissions required path (some perms) pem =
    let loose = is_loose perms in
    check_pem required path loose (if loose then proxy_issue loose_message else []) pem

abbrev pub not_found_message : Text
not_found_message = codes "credential file not found (set X509_USER_PROXY or create default proxy)"

-- The checks of the file at `path`.
unfoldable pub check_file : System → Number → Text → AuthCheckResult
check_file s required path =
    if not (s.exists path)
    then failed path false (whole 0) (proxy_issue not_found_message)
    else if not (s.is_regular_file path)
    then failed path false (whole 0) (proxy_issue (codes "credential path is not a regular file"))
    else check_permissions required path (s.permissions path) (s.read_pem path)

unfoldable pub check_x509_credentials : System → Number → Text → AuthCheckResult
check_x509_credentials s required proxy_path_override =
    check_file s required
      (if is_empty proxy_path_override then default_x509_proxy_path s else proxy_path_override)
