-- ===== src/Client/Request/Fits.antt =====
-- src/est/est_client.c: which requests fit the buffer of 5125 bytes.
use aims_libest.Prelude.{
  Bytes, [], ◌++◌, some, Bool-cases, if◌then◌else◌, ltb, inl, inr, ◌≡◌, ◌≤◌, arith, length, codes,
}
use aims_libest.Base64.{Bio}
use aims_libest.Client.{Client}
use aims_libest.Client.Request.{
  op_simple_reenroll, op_uri, Crypto, AuthText, text, erased, overrun, in_buffer, header_of,
  enroll_header, auth_text, build_header, put_together, hdr_max, req_total_len, req_data_max,
}

bounded_or_empty :
    (x hdr : Bytes)
    → (if ltb 1024 (length x) then some [] else some x) ≡ some hdr
    → length hdr ≤ 1024
bounded_or_empty x hdr h = elim (Bool-cases (ltb 1024 (length x))) [
  | inl b ↦ let e : hdr ≡ [] = ground arith in rw e (omega arith)
  | inr b ↦ let e : hdr ≡ x = ground arith in rw e (ground arith)
]

reenroll_header-bounded :
    (base : Bytes) (t : AuthText) (hdr : Bytes)
    → header_of op_simple_reenroll base t ≡ some hdr
    → length hdr ≤ 1024
unfolding header_of hdr_max
reenroll_header-bounded base overrun hdr h = absurd (ground arith)
reenroll_header-bounded base erased hdr h = let e : hdr ≡ [] = ground arith in rw e (omega arith)
reenroll_header-bounded base (text s) hdr h = bounded_or_empty (in_buffer (base ++ s)) hdr h

-- A re-enrolment whose header is made inside its buffers and whose CSR has at most 4096 bytes is put
-- together whole in the buffer, whatever the credentials: the header, an empty line, the CSR and an end of line.
pub reenroll_request-fits :
    (bio : Bio) (crypto : Crypto) (ctx : Client) (csr hdr : Bytes)
    → build_header bio crypto ctx op_simple_reenroll (length csr) ≡ some hdr
    → length csr ≤ 4096
    → put_together hdr csr ≡ some (hdr ++ codes "\r\n" ++ csr ++ codes "\r\n")
unfolding build_header put_together req_total_len req_data_max
reenroll_request-fits bio crypto ctx csr hdr h l =
    let k =
      reenroll_header-bounded (enroll_header ctx op_simple_reenroll (length csr))
        (auth_text bio crypto ctx (op_uri op_simple_reenroll) ctx.auth_mode) hdr h in
    ground arith
