-- ===== src/Client/Response/Issued.antt =====
-- src/est/est_server.c and src/est/est_client_http.c: the certificate that the server sends, as the
-- client reads it.
use aims_libest.Prelude.{
  ℕ, Option, Bool, ◌+◌, ◌%◌, ◌≤◌, ◌<◌, pos, Bytes, List, [], ◌∷◌, ◌++◌, none, some, true, false,
  ltb, ◌==◌, length, codes, decimal, ◌≡◌, ◌≢◌, refl, ◌∙◌, ap, arith, inr, starts_with, decimal_pos,
  append_assoc, length-append,
}
use aims_libest.Enroll.Handler.{cert_header}
use aims_libest.Client.{Client}
use aims_libest.Client.Request.{EnrollOp, op_simple_enroll, op_simple_reenroll}
use aims_libest.Client.Headers.{
  HttpHeader, skip_quoted, strcspn, skip_span, header_end, header_lines, parse_http_headers,
  parse_status_code, atoi, signed, int_of, bounded_long, digits,
}
use aims_libest.Client.Response.{
  check_status, check_hdrs, body_of, est_ca_max, read_response, io_read_raw, answered, get_response,
}
use aims_libest.Client.Response.Stream.{stream, Flows, io_read_raw-Flows}
use aims_libest.Client.Response.Lines.{
  digits-decimal, decimal-Digits, Digits, header_end-Digits, strcspn-Digits, skip_span-Digits,
  more_lines, last_line,
}
use aims_libest.Client.Enroll.{op_of}

abbrev type_text : Bytes
type_text = codes "application/pkcs7-mime; smime-type=certs-only"

abbrev headers_of : ℕ → List HttpHeader
headers_of n =
    record { name = codes "Status"; value = codes "200 OK" }
    ∷ record { name = codes "Content-Type"; value = type_text }
    ∷ record { name = codes "Content-Transfer-Encoding"; value = codes "base64" }
    ∷ record { name = codes "Content-Length"; value = decimal n }
    ∷ []

atoi-Digits :
    (s : Bytes) → Digits s → 1 ≤ length s → digits 0 s ≤ 2147483647 → atoi s ≡ pos (digits 0 s)
unfolding atoi signed
atoi-Digits [] d l b = absurd (omega arith)
atoi-Digits (c ∷ s) d l b =
    let n = digits 0 (c ∷ s) in
    let f : ltb 9223372036854775807 n ≡ false = ground arith in
    let m : n % 4294967296 ≡ n = omega (arith, b) in
    let g : ltb n 2147483648 ≡ true = ground arith in
    let sign : atoi (c ∷ s) ≡ signed (c ∷ s) = ground arith in
    let plain : signed (c ∷ s) ≡ int_of (bounded_long 9223372036854775807 n) = ground arith in
    sign ∙ plain ∙ (rw f (rw m (rw g refl)))

-- The certificate does not begin with an end of line.
module _ (c : ℕ) (s : Bytes) (not_cr : c ≢ 13) (not_lf : c ≢ 10) where
  abbrev cert : Bytes
  cert = c ∷ s

  abbrev len : ℕ
  len = length cert

  abbrev tail : Bytes
  tail = decimal len ++ 13 ∷ 10 ∷ 13 ∷ 10 ∷ cert

  abbrev from_length : Bytes
  from_length = codes "Content-Length: " ++ tail

  abbrev from_encoding : Bytes
  from_encoding = codes "Content-Transfer-Encoding: base64\r\n" ++ from_length

  abbrev from_type : Bytes
  from_type =
      codes "Content-Type: application/pkcs7-mime; smime-type=certs-only\r\n" ++ from_encoding

  abbrev from_status : Bytes
  from_status = codes "Status: 200 OK\r\n" ++ from_type

  abbrev answer_bytes : Bytes
  answer_bytes = cert_header len ++ cert

  answer_bytes_are : answer_bytes ≡ codes "HTTP/1.1 200 OK\r\n" ++ from_status
  answer_bytes_are =
      ap
        (λ (t : Bytes).
          codes "HTTP/1.1 200 OK\r\n"
          ++ codes "Status: 200 OK\r\n"
          ++ codes "Content-Type: application/pkcs7-mime; smime-type=certs-only\r\n"
          ++ codes "Content-Transfer-Encoding: base64\r\n"
          ++ codes "Content-Length: "
          ++ t)
        (append_assoc (decimal len) (codes "\r\n\r\n") cert)

  value_end : skip_quoted (codes "\r\n") (codes "\r\n") tail ≡ (decimal len, cert)
  unfolding skip_quoted skip_span
  value_end =
      let f : (c == 13) ≡ false = ground arith in
      let g : (c == 10) ≡ false = ground arith in
      rw (strcspn-Digits (decimal len) cert (decimal-Digits len)) (rw f (rw g refl))

  name_end : skip_quoted (codes ":") (codes " ") from_length ≡ (codes "Content-Length", tail)
  unfolding skip_quoted strcspn skip_span
  name_end = rw (skip_span-Digits (decimal len) cert (decimal-Digits len)) refl

  behind_end : (t : Bytes) → length tail ≤ length t → ltb (length t) (4 + length cert) ≡ false
  behind_end t h = let e = length-append (decimal len) (13 ∷ 10 ∷ 13 ∷ 10 ∷ cert) in ground arith

  encoding_name :
      skip_quoted (codes ":") (codes " ") from_encoding
      ≡ (codes "Content-Transfer-Encoding", codes "base64\r\n" ++ from_length)
  unfolding skip_quoted strcspn skip_span
  encoding_name = refl

  encoding_value :
      skip_quoted (codes "\r\n") (codes "\r\n") (codes "base64\r\n" ++ from_length)
      ≡ (codes "base64", from_length)
  unfolding skip_quoted strcspn skip_span
  encoding_value = refl

  type_name :
      skip_quoted (codes ":") (codes " ") from_type
      ≡ (codes "Content-Type", type_text ++ codes "\r\n" ++ from_encoding)
  unfolding skip_quoted strcspn skip_span
  type_name = refl

  type_value :
      skip_quoted (codes "\r\n") (codes "\r\n") (type_text ++ codes "\r\n" ++ from_encoding)
      ≡ (type_text, from_encoding)
  unfolding skip_quoted strcspn skip_span
  type_value = refl

  status_name :
      skip_quoted (codes ":") (codes " ") from_status
      ≡ (codes "Status", codes "200 OK\r\n" ++ from_type)
  unfolding skip_quoted strcspn skip_span
  status_name = refl

  status_value :
      skip_quoted (codes "\r\n") (codes "\r\n") (codes "200 OK\r\n" ++ from_type)
      ≡ (codes "200 OK", from_type)
  unfolding skip_quoted strcspn skip_span
  status_value = refl

  lines_read : header_lines 16 (some (4 + length cert)) from_status ≡ (headers_of len, cert)
  lines_read =
      let m = 4 + length cert in
      let last =
        last_line 12 m from_length tail cert b'C' (codes "ontent-Length") (decimal len) name_end
          value_end (ground arith) in
      let third =
        more_lines 13 m from_encoding (codes "base64\r\n" ++ from_length) from_length b'C'
          (codes "ontent-Transfer-Encoding") (codes "base64") encoding_name encoding_value
          (behind_end from_length (ground arith)) in
      let second =
        more_lines 14 m from_type (type_text ++ codes "\r\n" ++ from_encoding) from_encoding b'C'
          (codes "ontent-Type") type_text type_name type_value
          (behind_end from_encoding (ground arith)) in
      let first =
        more_lines 15 m from_status (codes "200 OK\r\n" ++ from_type) from_type b'S' (codes "tatus")
          (codes "200 OK") status_name status_value (behind_end from_type (ground arith)) in
      first
      ∙ ap
          (λ (r : List HttpHeader × Bytes).
            (record { name = codes "Status"; value = codes "200 OK" } ∷ r.0, r.1))
          (second
            ∙ ap
                (λ (r : List HttpHeader × Bytes).
                  (record { name = codes "Content-Type"; value = type_text } ∷ r.0, r.1))
                (third
                  ∙ ap
                      (λ (r : List HttpHeader × Bytes). (
                        record { name = codes "Content-Transfer-Encoding"; value = codes "base64" }
                            ∷ r.0,
                        r.1,
                      ))
                      last))

  first_line :
      skip_quoted (codes "\r\n") (codes "\r\n") (codes "HTTP/1.1 200 OK\r\n" ++ from_status)
      ≡ (codes "HTTP/1.1 200 OK", from_status)
  unfolding skip_quoted strcspn skip_span
  first_line = refl

  end_read : header_end (codes "HTTP/1.1 200 OK\r\n" ++ from_status) ≡ some (4 + length cert)
  unfolding header_end starts_with
  end_read = rw (header_end-Digits (decimal len) cert (decimal-Digits len)) (ap some (omega arith))

  headers_read :
      parse_http_headers (codes "HTTP/1.1 200 OK\r\n" ++ from_status) ≡ (headers_of len, cert)
  unfolding parse_http_headers
  headers_read =
      ap
        (λ e.
          header_lines 16 e
            (skip_quoted (codes "\r\n") (codes "\r\n")
              (codes "HTTP/1.1 200 OK\r\n" ++ from_status)).1)
        end_read
      ∙ ap (λ (x : Bytes × Bytes). header_lines 16 (some (4 + length cert)) x.1) first_line
      ∙ lines_read

  length_read : len ≤ 2000000 → atoi (decimal len) ≡ pos len
  length_read h =
      let d = digits-decimal len in
      atoi-Digits (decimal len) (decimal-Digits len) (decimal_pos len) (omega (arith, d, h))
      ∙ ap pos d

  headers_fit :
      (op : EnrollOp)
      → len ≤ 2000000
      → check_hdrs (op_of op) (headers_of len) false none ≡ inr (pos len)
  unfolding check_hdrs starts_with
  headers_fit op_simple_enroll h = rw (length_read h) refl
  headers_fit op_simple_reenroll h = rw (length_read h) refl

  body_taken : length cert ≤ 2000000 → body_of cert (inr (pos len)) ≡ (none, some cert)
  unfolding body_of est_ca_max
  body_taken h =
      let f : ltb 2000000 len ≡ false = ground arith in
      let g : (len == len) ≡ true = ground arith in
      let k : (len == 0) ≡ false = ground arith in rw f (rw g (rw k refl))

  read_response-cert_header :
      (next_fields : Bytes → List Bytes) (ctx : Client) (op : EnrollOp)
      → length (c ∷ s) ≤ 2000000
      → read_response next_fields ctx (op_of op) (cert_header (length (c ∷ s)) ++ (c ∷ s))
        ≡ (none, record ctx { last_http_status = pos 200 }, some (c ∷ s))
  unfolding read_response parse_status_code starts_with check_status
  read_response-cert_header next_fields ctx op h =
      ap (λ (w : Bytes). read_response next_fields ctx (op_of op) w) answer_bytes_are
      ∙ rw headers_read (rw (headers_fit op h) (rw (body_taken h) refl))

  answered-answer :
      (next_fields : Bytes → List Bytes) (ctx : Client) (op : EnrollOp)
      → answered next_fields ctx (op_of op) (none, cert_header (length (c ∷ s)) ++ (c ∷ s))
        ≡ read_response next_fields ctx (op_of op) (cert_header (length (c ∷ s)) ++ (c ∷ s))
  unfolding answered
  answered-answer next_fields ctx op = refl

  -- A client that reads the server's answer to an enrolment or a re-enrolment, however the reads divide
  -- it, gets its certificate, where the certificate does not begin with an end of line and the whole
  -- answer, with its header, has less than 2000000 bytes.
  pub get_response-cert_header :
      (next_fields : Bytes → List Bytes) (ctx : Client) (op : EnrollOp)
      (reads : List (Option Bytes)) (peek : Bool)
      → Flows reads
      → stream reads ≡ cert_header (length (c ∷ s)) ++ (c ∷ s)
      → length (stream reads) < 2000000
      → get_response next_fields ctx (op_of op) reads peek
        ≡ (none, record ctx { last_http_status = pos 200 }, some (c ∷ s))
  unfolding get_response
  get_response-cert_header next_fields ctx op reads peek flows is_answer fits =
      let len_answer = length-append (cert_header (length (c ∷ s))) (c ∷ s) in
      let total : length (stream reads) ≡ length (cert_header (length (c ∷ s)) ++ (c ∷ s)) =
        ap length is_answer in
      let whole : io_read_raw reads peek ≡ (none, cert_header (length (c ∷ s)) ++ (c ∷ s)) =
        io_read_raw-Flows reads peek flows fits ∙ ap (λ w. (none, w)) is_answer in
      ap (answered next_fields ctx (op_of op)) whole
      ∙ answered-answer next_fields ctx op
      ∙ read_response-cert_header next_fields ctx op (omega (arith, fits, len_answer, total))
