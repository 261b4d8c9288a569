-- ===== src/Http/Answers.antt =====
-- src/est/est_server.c: what the client sees of an error.
use aims_libest.Prelude.{◌≤◌, Bytes, [], ◌∷◌, ◌++◌, ◌≡◌, ◌≢◌, ◌⊎◌, refl, arith}
use aims_libest.Api.{EstError, client, ca_enroll_retry, http_no_content}
use aims_libest.Context.{Ctx}
use aims_libest.Conn.{Conn, http_error, mg_write, ca_calls, ca_calls-append, mg_write_quiet}
use aims_libest.Http.Error.{mg_send_http_error, send_retry_after, send_http_error}

-- No error looks like a success: the status is an error of HTTP, or 204 for EST_ERR_HTTP_NO_CONTENT,
-- or 202 for EST_ERR_CA_ENROLL_RETRY outside client mode.
pub send_http_error-status :
    (ctx : Ctx) (conn : Conn) (e : EstError)
    → (400 ≤ (send_http_error ctx conn e).status_code)
      ⊎ (((send_http_error ctx conn e).status_code ≡ 204) × (e ≡ http_no_content))
      ⊎ (((send_http_error ctx conn e).status_code ≡ 202)
          × (e ≡ ca_enroll_retry)
          × (ctx.est_mode ≢ client))
unfolding send_http_error mg_send_http_error send_retry_after mg_write
send_http_error-status ctx conn e = ground arith

-- Every error but the request for a retry is answered by one response, with the status that the
-- connection keeps.
pub send_http_error-once :
    (ctx : Ctx) (conn : Conn) (e : EstError)
    → e ≢ ca_enroll_retry
    → (reason : Bytes) × (body : Bytes) × ((send_http_error ctx conn e).log
        ≡ conn.log ++ http_error (send_http_error ctx conn e).status_code reason body ∷ [])
unfolding send_http_error mg_send_http_error
send_http_error-once ctx conn ca_enroll_retry k = absurd (k refl)
send_http_error-once ctx conn e k = (_, _, refl)

pub send_http_error_quiet :
    (ctx : Ctx) (conn : Conn) (e : EstError)
    → ca_calls (send_http_error ctx conn e).log ≡ ca_calls conn.log
unfolding send_http_error mg_send_http_error send_retry_after
send_http_error_quiet ctx conn e = grind (arith, ca_calls-append, mg_write_quiet)
