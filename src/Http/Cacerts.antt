-- ===== src/Http/Cacerts.antt =====
-- src/est/est_server.c: est_handle_cacerts, est_server_handle_cacerts.
use aims_libest.Prelude.{
  ℕ, Bytes, ◌++◌, Option, none, some, ◌==◌, if◌then◌else◌, codes, decimal, length,
}
use aims_libest.Api.{Status, http_write, http_not_found, http_no_content}
use aims_libest.Context.{Ctx}
use aims_libest.Conn.{Conn, mg_write}
use aims_libest.Auth.Enroll.{is_http}

abbrev pub cacerts_header : ℕ → Bytes
cacerts_header n =
    codes "HTTP/1.1 200 OK\r\nStatus: 200 OK\r\nContent-Type: application/pkcs7-mime\r\n"
    ++ codes "Content-Transfer-Encoding: base64\r\nContent-Length: "
    ++ decimal n
    ++ codes "\r\n\r\n"

unfoldable pub handle_cacerts : Conn → Option Bytes → Status × Conn
handle_cacerts conn none = (some http_not_found, conn)
handle_cacerts conn (some ca_certs) =
    let (n, conn1) = mg_write conn (cacerts_header (length ca_certs)) in
    let (m, conn2) = mg_write conn1 ca_certs in
    if n == 0
    then (some http_write, conn1)
    else if m == 0
    then (some http_write, conn2)
    else (none, conn2)

-- Over CoAP the certificates of the callback are left in the context.
unfoldable pub retrieved : Ctx → Conn → Option Bytes → Status × Ctx × Conn
unfolding handle_cacerts
retrieved ctx conn none = (some http_no_content, ctx, conn)
retrieved ctx conn (some ca_certs) =
    let (st, conn') = handle_cacerts conn (some ca_certs) in
    if is_http ctx.transport_mode
    then (st, ctx, conn')
    else (none, record ctx { ca_certs = some ca_certs }, conn)

unfoldable pub local_certs : Ctx → Conn → Option Bytes → Status × Ctx × Conn
unfolding handle_cacerts
local_certs ctx conn none = (some http_no_content, ctx, conn)
local_certs ctx conn (some ca_certs) =
    let (st, conn') = handle_cacerts conn (some ca_certs) in
    if is_http ctx.transport_mode then (st, ctx, conn') else (none, ctx, conn)

unfoldable pub server_handle_cacerts : Ctx → Conn → Option Bytes → Status × Ctx × Conn
server_handle_cacerts ctx conn path_seg = elim ctx.get_cacerts_cb [
  | some cb ↦ retrieved ctx conn (cb path_seg)
  | none ↦ local_certs ctx conn ctx.ca_certs
]
