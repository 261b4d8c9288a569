-- ===== src/Auth/Enroll/Quiet.antt =====
-- src/est/est_server.c: est_enroll_auth never asks the CA.
use aims_libest.Prelude.{Bytes, Option, some, ◌≡◌, inl, inr, arith, Bool-cases, Option-cases}
use aims_libest.Api.{AuthMode, EnrollReq, AuthState}
use aims_libest.Ossl.{X509, Ssl, Ossl}
use aims_libest.Context.{Ctx}
use aims_libest.Conn.{Conn, ca_calls, ca_calls-append}
use aims_libest.AuthHeader.{finish_parse, parse_auth_header}
use aims_libest.Auth.Tls.{check_for_tls_cert_auth}
use aims_libest.Auth.Enroll.{Attempt, creds, authenticate, announce, enroll_auth}
use aims_libest.Auth.Enroll.Evidence.{started}

parse_auth_header-log : (m : AuthMode) (conn : Conn) → (parse_auth_header m conn).2.log ≡ conn.log
unfolding parse_auth_header finish_parse
parse_auth_header-log m conn = ground arith

creds-log :
    (o : Ossl) (ctx : Ctx) (ssl : Ssl) (conn : Conn) (peer : Option X509) (st : AuthState)
    (b : Bytes)
    → (creds o ctx ssl conn peer st b).1.log ≡ conn.log
unfolding creds
creds-log o ctx ssl conn peer st b = ground (arith, parse_auth_header-log ctx.auth_mode conn)

authenticate_quiet :
    (o : Ossl) (ctx : Ctx) (ssl : Ssl) (conn : Conn) (peer : Option X509) (st : AuthState)
    (path_seg : Option Bytes) (req : EnrollReq) (b : Bytes) (a : Attempt)
    → authenticate o ctx ssl conn peer st path_seg req b ≡ some a
    → ca_calls a.conn.log ≡ ca_calls conn.log
unfolding authenticate
authenticate_quiet o ctx ssl conn peer st path_seg req b a h =
    grind (arith, creds-log o ctx ssl conn peer st b, ca_calls-append)

announce_quiet :
    (ctx : Ctx) (peer : Option X509) (req : EnrollReq) (a : Attempt)
    → ca_calls (announce ctx peer req a).conn.log ≡ ca_calls a.conn.log
unfolding announce
announce_quiet ctx peer req a = grind (arith, ca_calls-append)

pub enroll_auth_quiet :
    (o : Ossl) (ctx : Ctx) (ssl : Ssl) (conn : Conn) (path_seg : Option Bytes) (req : EnrollReq)
    (b : Bytes) (a : Attempt)
    → enroll_auth o ctx ssl conn path_seg req b ≡ some a
    → ca_calls a.conn.log ≡ ca_calls conn.log
unfolding enroll_auth announce
enroll_auth_quiet o ctx ssl conn path_seg req b a h =
    elim (Bool-cases (check_for_tls_cert_auth ssl).proceed) [
      | inr r ↦ grind (arith, ca_calls-append)
      | inl r ↦
          elim (Option-cases (
            authenticate o ctx ssl conn (check_for_tls_cert_auth ssl).peer
              (started o ctx ssl conn path_seg b) path_seg req b)) [
                | inl z ↦ absurd (ground arith)
                | inr (x, z) ↦
                    let q = authenticate_quiet o ctx ssl conn _ _ path_seg req b x z in
                    grind (arith, ca_calls-append)
              ]
    ]
