-- ===== src/Client/Response/Retry.antt =====
-- src/est/est_server.c and src/est/est_client_http.c: the server's request to retry, as the client reads
-- it.
use aims_libest.Prelude.{
  ℕ, ◌≤◌, pos, Bytes, List, [], ◌∷◌, ◌++◌, none, some, true, false, ltb, leb, ◌≡◌, refl, ap, ◌∙◌,
  arith, length, codes, starts_with, decimal, decimal_pos,
}
use aims_libest.Http.Error.{retry_after_header}
use aims_libest.Client.{Client}
use aims_libest.Client.Host.{raw_equal, raw_toupper}
use aims_libest.Api.{Operation, ca_enroll_retry, invalid_retry_value}
use aims_libest.Client.Headers.{
  parse_status_code, starts_alpha, HttpHeader, parse_http_headers, header_lines, skip_quoted,
  skip_span, strcspn, header_end, strisdigit_s,
}
use aims_libest.Client.Response.{
  read_response, check_status, parse_retry_after, retry_headers, retry_value,
}
use aims_libest.Client.Response.Lines.{
  digits-decimal, decimal-Digits, Digits, header_end-Digits, strcspn-Digits, skip_span-Digits,
  more_lines, last_line,
}

behind_first : (s : Bytes) → ltb (length (codes "Retry-After: " ++ s)) 4 ≡ false
behind_first s = ground arith

strisdigit-Digits : (s : Bytes) → Digits s → 1 ≤ length s → strisdigit_s s ≡ true
unfolding strisdigit_s
strisdigit-Digits [] d h = absurd (omega arith)
strisdigit-Digits (c ∷ s) d h = d

not_alpha : (s : Bytes) → Digits s → starts_alpha s ≡ false
not_alpha [] h = refl
not_alpha (c ∷ s) h = ground arith

abbrev retry_headers_of : ℕ → List HttpHeader
retry_headers_of n =
    record { name = codes "Status"; value = codes "202 Accepted" }
    ∷ record { name = codes "Retry-After"; value = decimal n }
    ∷ []

module _ (n : ℕ) where
  abbrev tail : Bytes
  tail = decimal n ++ codes "\r\n\r\n"

  name_read :
      skip_quoted (codes ":") (codes " ") (codes "Retry-After: " ++ tail)
      ≡ (codes "Retry-After", tail)
  unfolding skip_quoted strcspn skip_span
  name_read =
      let e : skip_span (codes " ") tail ≡ tail =
        skip_span-Digits (decimal n) [] (decimal-Digits n) in
      rw e refl

  value_end : skip_quoted (codes "\r\n") (codes "\r\n") tail ≡ (decimal n, [])
  unfolding skip_quoted skip_span
  value_end =
      let e : strcspn (codes "\r\n") tail ≡ (decimal n, codes "\r\n\r\n") =
        strcspn-Digits (decimal n) [] (decimal-Digits n) in
      rw e refl

  status_read :
      skip_quoted (codes ":") (codes " ") (codes "Status: 202 Accepted\r\nRetry-After: " ++ tail)
      ≡ (codes "Status", codes "202 Accepted\r\nRetry-After: " ++ tail)
  unfolding skip_quoted strcspn skip_span
  status_read = refl

  status_value :
      skip_quoted (codes "\r\n") (codes "\r\n") (codes "202 Accepted\r\nRetry-After: " ++ tail)
      ≡ (codes "202 Accepted", codes "Retry-After: " ++ tail)
  unfolding skip_quoted strcspn skip_span
  status_value = refl

  lines_read :
      header_lines 16 (some 4) (codes "Status: 202 Accepted\r\nRetry-After: " ++ tail)
      ≡ (retry_headers_of n, [])
  lines_read =
      let last =
        last_line 14 4 (codes "Retry-After: " ++ tail) tail [] b'R' (codes "etry-After") (decimal n)
          name_read value_end refl in
      more_lines 15 4 (codes "Status: 202 Accepted\r\nRetry-After: " ++ tail)
        (codes "202 Accepted\r\nRetry-After: " ++ tail) (codes "Retry-After: " ++ tail) b'S'
        (codes "tatus") (codes "202 Accepted") status_read status_value (behind_first tail)
      ∙ ap (λ r. (record { name = codes "Status"; value = codes "202 Accepted" } ∷ r.0, r.1)) last

  first_line :
      skip_quoted (codes "\r\n") (codes "\r\n") (retry_after_header (pos n))
      ≡ (codes "HTTP/1.1 202 Accepted", codes "Status: 202 Accepted\r\nRetry-After: " ++ tail)
  unfolding skip_quoted strcspn skip_span
  first_line = refl

  end_read : header_end (retry_after_header (pos n)) ≡ some 4
  unfolding header_end starts_with
  end_read =
      let e : header_end tail ≡ some 4 = header_end-Digits (decimal n) [] (decimal-Digits n) in
      rw e refl

  headers_read : parse_http_headers (retry_after_header (pos n)) ≡ (retry_headers_of n, [])
  unfolding parse_http_headers
  headers_read =
      ap
        (λ e.
          header_lines 16 e
            (skip_quoted (codes "\r\n") (codes "\r\n") (retry_after_header (pos n))).1)
        end_read
      ∙ ap (λ x. header_lines 16 (some 4) x.1) first_line
      ∙ lines_read

value_read :
    (n : ℕ) (ctx : Client)
    → n ≤ 2147483647
    → retry_value (decimal n) (some invalid_retry_value, ctx)
      ≡ (some ca_enroll_retry, record ctx { retry_after_delay = n })
unfolding retry_value
value_read n ctx h =
    let f : leb n 2147483647 ≡ true = ground arith in
    rw (not_alpha (decimal n) (decimal-Digits n)) (
      rw (strisdigit-Digits (decimal n) (decimal-Digits n) (decimal_pos n))
        (rw (digits-decimal n) (rw f refl)))

-- A client that gets the server's request to retry after some seconds, which fit an int, answers with
-- EST_ERR_CA_ENROLL_RETRY and keeps that delay.
pub read_response-retry :
    (next_fields : Bytes → List Bytes) (ctx : Client) (op : Operation) (n : ℕ)
    → n ≤ 2147483647
    → read_response next_fields ctx op (retry_after_header (pos n)) ≡ (
      some ca_enroll_retry,
      record ctx { last_http_status = pos 202; retry_after_delay = n; retry_after_date = 0 },
      none,
    )
unfolding read_response parse_status_code starts_with check_status parse_retry_after retry_headers
    raw_equal raw_toupper
read_response-retry next_fields ctx op n h = rw (headers_read n) (
    rw
      (value_read n
        (record ctx { last_http_status = pos 202; retry_after_delay = 0; retry_after_date = 0 }) h)
      refl)
