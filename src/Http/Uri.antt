-- ===== src/Http/Uri.antt =====
-- src/est/est.c: est_parse_uri in the build without uriparser and without BRSKI, where a URI has no
-- path segment.
use aims_libest.Prelude.{
  ℕ, zero, suc, ◌<◌, Bytes, [], ◌∷◌, none, some, Bool, true, ◌≡◌, ◌≢◌, ◌↔◌, refl, sym, arith,
  length, codes, is_zero, if◌then◌else◌, subst,
}
use aims_libest.Api.{
  Operation, simple_enroll, simple_reenroll, cacerts, csrattrs, server_keygen, op_max, Status,
  http_invalid_path_segment,
}
use aims_libest.Safec.{strncmp}

-- 16 + 128 + 128
abbrev pub est_uri_max_len : ℕ
est_uri_max_len = 272

abbrev pub cacerts_uri : Bytes
cacerts_uri = codes "/.well-known/est/cacerts"

abbrev pub simple_enroll_uri : Bytes
simple_enroll_uri = codes "/.well-known/est/simpleenroll"

abbrev pub re_enroll_uri : Bytes
re_enroll_uri = codes "/.well-known/est/simplereenroll"

abbrev pub csr_attrs_uri : Bytes
csr_attrs_uri = codes "/.well-known/est/csrattrs"

abbrev pub keygen_uri : Bytes
keygen_uri = codes "/.well-known/est/serverkeygen"

unfoldable pub is_uri : Bytes → Bytes → Bool
is_uri uri known = is_zero (strncmp uri known est_uri_max_len)

unfoldable pub parse_uri : Bytes → Operation × Status
parse_uri uri =
    if is_uri uri cacerts_uri
    then (cacerts, none)
    else if is_uri uri simple_enroll_uri
    then (simple_enroll, none)
    else if is_uri uri re_enroll_uri
    then (simple_reenroll, none)
    else if is_uri uri csr_attrs_uri
    then (csrattrs, none)
    else if is_uri uri keygen_uri
    then (server_keygen, none)
    else (op_max, some http_invalid_path_segment)

-- A bounded comparison with a string that is shorter than the bound is an equality.
pub strncmp_literal :
    (n : ℕ) (s lit : Bytes) → length lit < n → (is_zero (strncmp s lit n) ≡ true) ↔ (s ≡ lit)
unfolding strncmp
strncmp_literal zero s lit h = elim h [ ]
strncmp_literal (suc n) [] [] h = ground arith
strncmp_literal (suc n) [] (y ∷ lit) h = ground arith
strncmp_literal (suc n) (x ∷ s) [] h = ground arith
strncmp_literal (suc n) (x ∷ s) (y ∷ lit) h = ground (arith, strncmp_literal n s lit)

is_uri_iff :
    (uri known : Bytes) → length known < est_uri_max_len → (is_uri uri known ≡ true) ↔ (uri ≡ known)
unfolding is_uri
is_uri_iff uri known h = strncmp_literal est_uri_max_len uri known h

-- the URI of an operation
abbrev pub uri_of : Operation → Bytes
uri_of simple_enroll = simple_enroll_uri
uri_of simple_reenroll = re_enroll_uri
uri_of cacerts = cacerts_uri
uri_of csrattrs = csr_attrs_uri
uri_of server_keygen = keygen_uri
uri_of op_max = []

short : (op : Operation) → length (uri_of op) < est_uri_max_len
short simple_enroll = omega arith
short simple_reenroll = omega arith
short cacerts = omega arith
short csrattrs = omega arith
short server_keygen = omega arith
short op_max = omega arith

parse_uri_known : (op : Operation) → op ≢ op_max → parse_uri (uri_of op) ≡ (op, none)
unfolding parse_uri is_uri strncmp
parse_uri_known simple_enroll h = refl
parse_uri_known simple_reenroll h = refl
parse_uri_known cacerts h = refl
parse_uri_known csrattrs h = refl
parse_uri_known server_keygen h = refl
parse_uri_known op_max h = absurd (h refl)

-- One of the tests of the chain decides.
parse_uri_cases :
    (uri : Bytes) (op : Operation)
    → parse_uri uri ≡ (op, none)
    → (op ≢ op_max) × (is_uri uri (uri_of op) ≡ true)
unfolding parse_uri
parse_uri_cases uri op h = ground arith

-- A request is recognised exactly by the URI of its operation, with nothing behind it; every other
-- URI is an invalid path segment.
pub parse_uri_iff :
    (uri : Bytes) (op : Operation)
    → (parse_uri uri ≡ (op, none)) ↔ ((op ≢ op_max) × (uri ≡ uri_of op))
parse_uri_iff uri op = (
  λ h. let (k, e) = parse_uri_cases uri op h in (k, (is_uri_iff uri (uri_of op) (short op)).0 e),
  λ (k, e). subst (λ u. parse_uri u ≡ (op, none)) (sym e) (parse_uri_known op k),
)
