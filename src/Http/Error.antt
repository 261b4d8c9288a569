-- ===== src/Http/Error.antt =====
-- src/est/est_server.c: est_send_http_error, est_server_send_http_retry_after. In
-- src/est/est_server_http.c, mg_send_http_error: the response's bytes are not modelled, only the
-- status, the reason and the body.
use aims_libest.Prelude.{
  ℕ, suc, ℤ, pos, negsuc, Bytes, [], ◌∷◌, ◌++◌, none, some, ◌==◌, if◌then◌else◌, codes, decimal,
}
use aims_libest.Api.{
  EstError, Status, Mode, client, server, proxy, ca_enroll_retry, http_no_content, http_bad_req,
  csr_attr_missing, bad_asn1_hex, bad_pkcs10, bad_content_type, wrong_method, no_ssl_ctx, auth_fail,
  auth_fail_tlsuid, http_not_found, http_invalid_path_segment, http_locked, http_unsupported,
  ip_connect, ca_enroll_fail, http_write,
}
use aims_libest.Context.{Ctx}
use aims_libest.Conn.{Conn, note, http_error, mg_write}

unfoldable pub mg_send_http_error : Conn → ℕ → Bytes → Bytes → Conn
mg_send_http_error conn status reason body =
    note (record conn { status_code = status }) (http_error status reason body)

-- `%d`
abbrev pub int_text : ℤ → Bytes
int_text (pos n) = decimal n
int_text (negsuc n) = b'-' ∷ decimal (suc n)

abbrev pub retry_after_header : ℤ → Bytes
retry_after_header delay =
    codes "HTTP/1.1 202 Accepted\r\nStatus: 202 Accepted\r\nRetry-After: "
    ++ int_text delay
    ++ codes "\r\n\r\n"

unfoldable pub send_retry_after : Conn → ℤ → Status × Conn
send_retry_after conn delay =
    let (n, conn') = mg_write (record conn { status_code = 202 }) (retry_after_header delay) in
    if n == 0 then (some http_write, conn') else (none, conn')

abbrev send_unknown : Conn → Conn
send_unknown conn =
    mg_send_http_error conn 500 (codes "Internal Server Error")
      (codes "An unknown error has occured.\n")

-- `goto error` with EST_ERR_UNKNOWN where the retry could not be sent
retry_or_unknown : Status × Conn → Conn
retry_or_unknown (none, conn) = conn
retry_or_unknown (some e, conn) = send_unknown conn

send_retry : Mode → Ctx → Conn → Conn
unfolding retry_or_unknown
send_retry server ctx conn = retry_or_unknown (send_retry_after conn ctx.retry_period)
send_retry proxy ctx conn = retry_or_unknown (send_retry_after conn ctx.retry_after_delay)
send_retry client ctx conn = send_unknown conn

unfoldable pub send_http_error : Ctx → Conn → EstError → Conn
unfolding send_retry
send_http_error ctx conn ca_enroll_retry = send_retry ctx.est_mode ctx conn
send_http_error ctx conn http_no_content = mg_send_http_error conn 204 (codes "No Content") []
send_http_error ctx conn http_bad_req = mg_send_http_error conn 400 (codes "Bad Request") []
send_http_error ctx conn csr_attr_missing =
    mg_send_http_error conn 400 (codes "Bad Request") (codes "CSR Attributes missing in request.\n")
send_http_error ctx conn bad_asn1_hex =
    mg_send_http_error conn 400 (codes "Bad Request")
      (codes "Invalid or corrupted ASN1 data in request.\n")
send_http_error ctx conn bad_pkcs10 =
    mg_send_http_error conn 400 (codes "Bad Request")
      (codes "Invalid or corrupted pkcs10 request.\n")
send_http_error ctx conn bad_content_type =
    mg_send_http_error conn 400 (codes "Bad Request") (codes "Invalid content type used.\n")
send_http_error ctx conn wrong_method = mg_send_http_error conn 400 (codes "Bad Request") (
    codes "Invalid HTTP method used.  Either GET or POST required depending on the request type.\n")
send_http_error ctx conn no_ssl_ctx =
    mg_send_http_error conn 400 (codes "Bad Request") (codes "An unknown TLS error has occured.\n")
send_http_error ctx conn auth_fail =
    mg_send_http_error conn 401 (codes "Unauthorized")
      (codes "The server was unable to authorize the request.\n")
send_http_error ctx conn auth_fail_tlsuid =
    mg_send_http_error conn 401 (codes "Unauthorized") (codes "Proof of Possession Mismatch.\n")
send_http_error ctx conn http_not_found =
    mg_send_http_error conn 404 (codes "Not Found")
      (codes "Requested content is currently not available on the server.\n")
send_http_error ctx conn http_invalid_path_segment =
    mg_send_http_error conn 404 (codes "Not Found")
      (codes "The path specified is not recognized.\n")
send_http_error ctx conn http_locked =
    mg_send_http_error conn 423 (codes "Locked")
      (codes "The content attempted to be accessed is locked.\n")
send_http_error ctx conn http_unsupported =
    mg_send_http_error conn 502 (codes "Bad Gateway")
      (codes "An error occurred while communicating to the upstream server.\n")
send_http_error ctx conn ip_connect =
    mg_send_http_error conn 504 (codes "Gateway Time-out")
      (codes "There was an issue connecting to the upstream server.\n")
send_http_error ctx conn ca_enroll_fail =
    mg_send_http_error conn 500 (codes "Internal Server Error")
      (codes "An error has occured during enrollment.\n")
send_http_error ctx conn _ = send_unknown conn
