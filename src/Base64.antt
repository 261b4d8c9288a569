-- ===== src/Base64.antt =====
-- src/est/est.c: est_base64_str_analyze, est_base64_decode, est_base64_encode. The BIOs of OpenSSL are
-- a parameter. A C `int` that overflows is left out: no buffer has 2^29 bytes.
pub mod Laws
pub mod RoundTrip
use aims_libest.Prelude.{
  ℕ, zero, suc, ◌+◌, ◌-◌, ◌*◌, ◌/◌, ◌%◌, Bool, true, false, not, ◌&&◌, ◌||◌, Bytes, List, [], ◌∷◌,
  Option, none, some, ltb, leb, ◌==◌, if◌then◌else◌, length, get_elem?,
}

pub record Bio : Type 0 where
  -- BIO_new of the filter, and BIO_new_mem_buf or BIO_new of the memory, succeed
  pub new : Bool
  -- BIO_read of at most so many bytes through the filter; the flag is BIO_FLAGS_BASE64_NO_NL, and
  -- `none` is an error
  pub read : Bool → Bytes → ℕ → Option Bytes
  -- BIO_write and BIO_flush through the filter; `none` is an error
  pub write : Bool → Bytes → Option Bytes

-- isspace in the C locale
unfoldable pub is_space : ℕ → Bool
is_space c = (c == 32) || (leb 9 c && leb c 13)

pub record Analysis : Type 0 where
  pub len_no_whitespace : ℕ
  pub len : ℕ
  pub contains_newline : Bool

-- the first newline counts unless it is the last character
unfoldable pub newline_inside : Option ℕ → ℕ → Bool
newline_inside none i = false
newline_inside (some t) i = not (t == i - 1)

abbrev first_newline : Option ℕ → ℕ → ℕ → Option ℕ
first_newline (some t) c i = some t
first_newline none c i = if c == 10 then some i else none

-- the loop, at index `i`, with the index of the first newline
unfoldable pub analyze_from : Bytes → ℕ → Option ℕ → ℕ → Analysis
unfolding is_space newline_inside
analyze_from [] i temp n = record {
  len_no_whitespace = n;
  len = i;
  contains_newline = newline_inside temp i;
}
analyze_from (c ∷ s) i temp n =
    let white = analyze_from s (suc i) (first_newline temp c i) n in
    let black = analyze_from s (suc i) temp (suc n) in if is_space c then white else black

unfoldable pub analyze : Bytes → Analysis
unfolding analyze_from
analyze src = analyze_from src 0 none 0

-- The byte at an index of the source, with the NUL behind it.
unfoldable pub byte_at : Bytes → ℕ → ℕ
byte_at s i = elim (get_elem? s i) [ none ↦ 0 | some c ↦ c ]

-- The loop that steps back over the white space at the end, from `n` bytes on: how many bytes are
-- left, which is the index plus 1. `none` is a read in front of the source: isspace is asked before
-- the index.
unfoldable pub trim : Bytes → ℕ → Option ℕ
unfolding is_space byte_at
trim s zero = none
trim s (suc n) = let rest = trim s n in if is_space (byte_at s n) then rest else some (suc n)

-- the count of the padding, where the last character is at `last`
unfoldable pub padding : Bytes → ℕ → ℕ
unfolding byte_at
padding s last = if byte_at s last == b'=' then if byte_at s (last - 1) == b'=' then 2 else 1 else 0

unfoldable pub max_in : ℕ → ℕ
max_in dst_size = if dst_size % 3 == 0 then (dst_size / 3) * 4 else (dst_size / 3 + 1) * 4

-- from BIO_read on; the empty list is the return of 0
unfoldable pub checked_read : Option Bytes → ℕ → Bytes
checked_read none expected = []
checked_read (some out) expected = if length out == expected then out else []

unfoldable pub decode_trimmed : Bio → Bytes → ℕ → Analysis → Option ℕ → Option Bytes
unfolding padding checked_read
decode_trimmed bio src dst_size a none = none
decode_trimmed bio src dst_size a (some n) =
    if ltb n 3
    then some []
    else some (
        checked_read (bio.read (not a.contains_newline) src dst_size)
          (3 * a.len_no_whitespace / 4 - padding src (n - 1)))

-- The decoded bytes, which are none where the code returns 0. The outer `none` is a read in front of
-- the source.
unfoldable pub base64_decode : Bio → Bytes → ℕ → Option Bytes
unfolding analyze max_in trim decode_trimmed
base64_decode bio src dst_size =
    let a = analyze src in
    if ltb (max_in dst_size) a.len_no_whitespace
    then some []
    else if not bio.new
    then some []
    else if not (a.len_no_whitespace % 4 == 0)
    then some []
    else decode_trimmed bio src dst_size a (trim src (length src))

pub data Encoded : Type 0 where
  -- the return of 0
  refused : Encoded
  -- the text and its NUL are in the buffer
  fits : Bytes → Encoded
  -- the NUL is written behind the buffer, at the text's length
  overruns : Bytes → Encoded

unfoldable pub written : Option Bytes → ℕ → Encoded
written none max_dst_len = refused
written (some text) max_dst_len = if ltb (length text) max_dst_len then fits text else overruns text

-- into a buffer that is not NULL
unfoldable pub base64_encode : Bio → Bytes → ℕ → Bool → Encoded
unfolding written
base64_encode bio src max_dst_len nl =
    if ltb (max_dst_len * 3 / 4 + 1) (length src)
    then refused
    else if not bio.new
    then refused
    else written (bio.write (not nl) src) max_dst_len
