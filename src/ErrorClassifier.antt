-- ===== src/ErrorClassifier.antt =====
-- src/error_classifier.cc, src/soft_fault_log.cc: the class of a failed session, and the kind of an
-- error line that XrdCl logs.
pub mod Verdict
use xrdhover.Prelude.Text.{Text, codes, contains, lower}
use xrdhover.Prelude.{ℕ, Bool, ◌&&◌, ◌||◌, not, ltb, leb, ◌==◌, if◌then◌else◌, is_empty}

pub data ErrorClass : Type 0 where
  no_error auth timeout connection server_error not_found client_error : ErrorClass
  redirect_loop trust expired no_replicas unknown_error : ErrorClass

abbrev pub error_class_name : ErrorClass → Text
error_class_name no_error = codes "none"
error_class_name auth = codes "auth"
error_class_name timeout = codes "timeout"
error_class_name connection = codes "connection"
error_class_name server_error = codes "server_error"
error_class_name not_found = codes "not_found"
error_class_name client_error = codes "client_error"
error_class_name redirect_loop = codes "redirect_loop"
error_class_name trust = codes "trust"
error_class_name expired = codes "expired"
error_class_name no_replicas = codes "no_replicas"
error_class_name unknown_error = codes "unknown"

unfoldable pub is_auth : ℕ → Text → Bool
is_auth err_code msg =
    (err_code == 3010)
    || contains (codes "not authorized") msg
    || contains (codes "authentication") msg
    || contains (codes "permission denied") msg
    || contains (codes "eacces") msg
    || contains (codes "gss error") msg

unfoldable pub is_not_found : ℕ → Text → Bool
is_not_found err_code msg =
    (err_code == 3001) || contains (codes "not found") msg || contains (codes "no such file") msg

unfoldable pub is_redirect_loop : Text → Bool
is_redirect_loop msg =
    contains (codes "redirect limit") msg
    || contains (codes "redirect loop") msg
    || contains (codes "too many redirects") msg
    || contains (codes "redirectlimit") msg

unfoldable pub is_timeout : ℕ → ℕ → Text → Bool
is_timeout status_code err_code msg =
    (status_code == 103)
    || contains (codes "timeout") msg
    || contains (codes "timed out") msg
    || (err_code == 110)

unfoldable pub is_trust : Text → Bool
is_trust msg =
    contains (codes "certificate verify") msg
    || contains (codes "unable to get local issuer") msg
    || contains (codes "unknown ca") msg
    || contains (codes "self signed certificate") msg
    || contains (codes "certificate unknown") msg
    || contains (codes "sslv3 alert certificate") msg
    || contains (codes "x509_v_err") msg

unfoldable pub is_connection : ℕ → Text → Bool
is_connection err_code msg =
    contains (codes "tls") msg
    || contains (codes "error_ssl") msg
    || contains (codes "ssl") msg
    || contains (codes "handshake") msg
    || contains (codes "connection") msg
    || contains (codes "connect") msg
    || contains (codes "socket") msg
    || contains (codes "resource temporarily unavailable") msg
    || contains (codes "network is unreachable") msg
    || (err_code == 111)
    || (err_code == 104)
    || (err_code == 11)

-- `switch (status_code)` and the tests after it.
unfoldable pub by_status : ℕ → ℕ → Text → ErrorClass
by_status status_code err_code msg =
    if status_code == 16
    then no_replicas
    else if (status_code == 101)
        || (status_code == 102)
        || (status_code == 104)
        || (status_code == 105)
        || (status_code == 106)
        || (status_code == 107)
        || (status_code == 108)
        || (status_code == 109)
        || (status_code == 110)
        || (status_code == 202)
    then connection
    else if (status_code == 203) || (status_code == 204)
    then auth
    else if status_code == 304
    then not_found
    else if status_code == 306
    then redirect_loop
    else if (status_code == 303) || (status_code == 307) || (status_code == 400)
    then server_error
    else if contains (codes "no more replicas") msg
        || contains (codes "no servers are available") msg
    then no_replicas
    else if not (is_empty msg) || not (err_code == 0) || not (status_code == 0)
    then unknown_error
    else no_error

unfoldable pub classify_xrootd_error : ℕ → ℕ → Text → ErrorClass
classify_xrootd_error status_code err_code message =
    let msg = lower message in
    if is_auth err_code msg
    then auth
    else if is_not_found err_code msg
    then not_found
    else if is_redirect_loop msg
    then redirect_loop
    else if (status_code == 206) || contains (codes "operation expired") msg
    then expired
    else if is_timeout status_code err_code msg
    then timeout
    else if is_trust msg
    then trust
    else if is_connection err_code msg
    then connection
    else if leb 3000 err_code && ltb err_code 4000
    then (if (err_code == 3005) || (err_code == 3002) then client_error else server_error)
    else if contains (codes "server") msg || contains (codes "srverr") msg
    then server_error
    else by_status status_code err_code msg

unfoldable pub classify_soft_fault_message : Text → Text
classify_soft_fault_message message =
    if contains (codes "timeout") message
      || contains (codes "Timeout") message
      || contains (codes "TIMEDOUT") message
      || contains (codes "etimedout") message
    then codes "timeout"
    else if contains (codes "redirect") message || contains (codes "Redirect") message
    then codes "redirect"
    else if contains (codes "TLS") message
        || contains (codes "certificate") message
        || contains (codes "Certificate") message
        || contains (codes "handshake") message
        || contains (codes "authentication") message
        || contains (codes "Unauthorized") message
    then codes "tls_auth"
    else if contains (codes "connection reset") message
        || contains (codes "Connection refused") message
        || contains (codes "Unable to connect") message
        || contains (codes "Socket error") message
        || contains (codes "Broken pipe") message
        || contains (codes "Network is unreachable") message
        || contains (codes "No route to host") message
    then codes "connection"
    else if contains (codes "Unable to get the response") message
        || contains (codes "kXR_read") message
        || contains (codes "kXR_readv") message
        || contains (codes "kXR_open") message
    then codes "io"
    else codes "other"

abbrev pub is_xrd_cl_error_log_line : Text → Bool
is_xrd_cl_error_log_line message = contains (codes "[Error") message
