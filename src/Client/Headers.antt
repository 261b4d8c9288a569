-- ===== src/Client/Headers.antt =====
-- src/est/est_client_http.c: parse_http_headers and est_io_parse_response_status_code, with the
-- functions for strings that they and the values of headers need: skip_quoted with no quote character
-- and est_strcspn in src/est/est.c, strisdigit_s, and atoi as (int) strtol
-- with a long of 64 bits.
use aims_libest.Prelude.{
  ℕ, zero, suc, ◌+◌, ◌-◌, ◌*◌, ◌%◌, ℤ, pos, negsuc, Bytes, List, [], ◌∷◌, Option, none, some, Bool,
  true, false, ◌&&◌, ◌||◌, if◌then◌else◌, ltb, leb, ◌==◌, length, codes, starts_with,
}
use aims_libest.Base64.{is_space}

pub record HttpHeader : Type 0 where
  pub name : Bytes
  pub value : Bytes

abbrev is_in : ℕ → Bytes → Bool
is_in c [] = false
is_in c (d ∷ ds) = c == d || is_in c ds

-- est_strcspn: the word before the first delimiter or NUL, and what is there
unfoldable pub strcspn : Bytes → Bytes → Bytes × Bytes
strcspn delims [] = ([], [])
strcspn delims (c ∷ s) =
    let (word, rest) = strcspn delims s in
    if c == 0 || is_in c delims then ([], c ∷ s) else (c ∷ word, rest)

-- what is left behind the bytes that est_strspn counts
unfoldable pub skip_span : Bytes → Bytes → Bytes
skip_span white [] = []
skip_span white (c ∷ s) = let rest = skip_span white s in if is_in c white then rest else c ∷ s

-- skip_quoted with no quote character: the word, and the buffer behind the delimiter and the white space
abbrev behind_word : Bytes → Bytes → Bytes
behind_word white [] = []
behind_word white (zero ∷ s) = zero ∷ s
behind_word white (suc c ∷ s) = skip_span white s

unfoldable pub skip_quoted : Bytes → Bytes → Bytes → Bytes × Bytes
unfolding strcspn skip_span
skip_quoted delims white buf =
    let (word, rest) = strcspn delims buf in (word, behind_word white rest)

-- the length of the buffer from the first empty line on, if there is one
unfoldable pub header_end : Bytes → Option ℕ
header_end [] = none
header_end (zero ∷ s) = none
header_end (suc c ∷ s) =
    let rest = header_end s in
    if starts_with (codes "\r\n\r\n") (suc c ∷ s) then some (length (suc c ∷ s)) else rest

-- the pointer is behind the empty line, or behind NULL where there is none
abbrev is_behind : Option ℕ → Bytes → Bool
is_behind none buf = true
is_behind (some n) buf = ltb (length buf) n

abbrev is_empty : Bytes → Bool
is_empty [] = true
is_empty (c ∷ s) = false

abbrev add_header : HttpHeader → List HttpHeader × Bytes → List HttpHeader × Bytes
add_header h (hdrs, buf) = (h ∷ hdrs, buf)

-- the headers, MAX_HEADERS of them at most, and the buffer behind them
unfoldable pub header_lines : ℕ → Option ℕ → Bytes → List HttpHeader × Bytes
unfolding skip_quoted
header_lines zero end buf = ([], buf)
header_lines (suc n) end buf =
    let (name, buf1) = skip_quoted (codes ":") (codes " ") buf in
    let (value, buf2) = skip_quoted (codes "\r\n") (codes "\r\n") buf1 in
    let h : HttpHeader = record { name = name; value = value } in
    let rest = header_lines n end buf2 in
    if is_empty name
    then ([], buf2)
    else if is_behind end buf2
    then (h ∷ [], buf2)
    else add_header h rest

unfoldable pub parse_http_headers : Bytes → List HttpHeader × Bytes
unfolding header_end header_lines
parse_http_headers buf =
    header_lines 16 (header_end buf) (skip_quoted (codes "\r\n") (codes "\r\n") buf).1

-- `none` is -1
unfoldable pub parse_status_code : Bytes → ℤ
parse_status_code buf =
    if starts_with (codes "HTTP/1.1 200") buf
    then pos 200
    else if starts_with (codes "HTTP/1.1 202") buf
    then pos 202
    else if starts_with (codes "HTTP/1.1 204") buf
    then pos 204
    else if starts_with (codes "HTTP/1.1 400") buf
    then pos 400
    else if starts_with (codes "HTTP/1.1 401") buf
    then pos 401
    else if starts_with (codes "HTTP/1.1 404") buf
    then pos 404
    else if starts_with (codes "HTTP/1.1 423") buf
    then pos 423
    else if starts_with (codes "HTTP/1.1 500") buf
    then pos 500
    else if starts_with (codes "HTTP/1.1 502") buf
    then pos 502
    else if starts_with (codes "HTTP/1.1 504") buf
    then pos 504
    else negsuc 0

-- The digits at the start of a string as a number.
unfoldable pub digits : ℕ → Bytes → ℕ
digits n [] = n
digits n (c ∷ s) =
    let rest = digits (n * 10 + (c - b'0')) s in if leb b'0' c && leb c b'9' then rest else n

-- strtol stops at the ends of a long, of 64 bits
abbrev pub bounded_long : ℕ → ℕ → ℕ
bounded_long most n = if ltb most n then most else n

-- the conversion of a long to an int, of its 64 bits as a number
abbrev pub int_of : ℕ → ℤ
int_of n =
    let low = n % 4294967296 in if ltb low 2147483648 then pos low else negsuc (4294967295 - low)

-- the 64 bits of the negative of a long
abbrev negate : ℕ → ℕ
negate n = 18446744073709551616 - n

unfoldable pub signed : Bytes → ℤ
unfolding digits
signed [] = pos 0
signed (c ∷ s) =
    if c == b'-'
    then int_of (negate (bounded_long 9223372036854775808 (digits 0 s)))
    else if c == b'+'
    then int_of (bounded_long 9223372036854775807 (digits 0 s))
    else int_of (bounded_long 9223372036854775807 (digits 0 (c ∷ s)))

-- white space, a sign, and digits, as strtol with a long of 64 bits reads them, converted to an int of 32
unfoldable pub atoi : Bytes → ℤ
unfolding is_space signed
atoi [] = pos 0
atoi (c ∷ s) = let rest = atoi s in if is_space c then rest else signed (c ∷ s)

-- strisdigit_s
abbrev pub all_digits : Bytes → Bool
all_digits [] = true
all_digits (c ∷ s) = leb b'0' c && leb c b'9' && all_digits s

unfoldable pub strisdigit_s : Bytes → Bool
strisdigit_s [] = false
strisdigit_s (c ∷ s) = all_digits (c ∷ s)

-- isalpha of the first byte
abbrev pub starts_alpha : Bytes → Bool
starts_alpha [] = false
starts_alpha (c ∷ s) = (leb b'a' c && leb c b'z') || (leb b'A' c && leb c b'Z')
