-- ===== src/AuthHeader.antt =====
-- src/est/est_server_http.c: mg_parse_auth_header, which takes the credentials from the
-- Authorization header of a request and decides whether they can be used.
pub mod Laws
use aims_libest.Prelude.{
  ℕ, zero, suc, ◌+◌, Bytes, [], ◌∷◌, Option, none, some, Bool, true, false, not, ◌&&◌, ◌||◌, ◌==◌,
  leb, if◌then◌else◌, codes, is_some,
}
use aims_libest.Api.{
  AuthMode, auth_none, auth_basic, auth_digest, auth_token, auth_fail, AuthHdrResult, hdr_good,
  hdr_missing, hdr_bad,
}
use aims_libest.Context.{AuthHdr}
use aims_libest.Conn.{Conn, empty_auth_hdr}

-- tolower
unfoldable pub lowercase : ℕ → ℕ
lowercase c = if leb b'A' c && leb c b'Z' then c + 32 else c

-- mg_strncasecmp(s, prefix, strlen(prefix)) == 0
unfoldable pub starts_with_nocase : Bytes → Bytes → Bool
unfolding lowercase
starts_with_nocase [] s = true
starts_with_nocase (p ∷ ps) [] = false
starts_with_nocase (p ∷ ps) (c ∷ s) = lowercase p == lowercase c && starts_with_nocase ps s

abbrev pub is_digest : AuthMode → Bool
is_digest auth_digest = true
is_digest _ = false

abbrev pub is_basic : AuthMode → Bool
is_basic auth_basic = true
is_basic _ = false

abbrev pub is_token : AuthMode → Bool
is_token auth_token = true
is_token _ = false

-- The header's scheme with the parser's credentials, where the scheme is the configured one.
abbrev pub Parsed : Type 0
Parsed = AuthHdrResult × AuthHdr

unfoldable pub parse_scheme : AuthMode → Conn → Bytes → Parsed
parse_scheme auth_mode conn header =
    if starts_with_nocase (codes "Digest ") header
    then (if not (is_digest auth_mode)
        then (hdr_bad, empty_auth_hdr)
        else (hdr_good, conn.parse_digest header))
    else if starts_with_nocase (codes "Basic ") header
    then (if not (is_basic auth_mode)
        then (hdr_bad, empty_auth_hdr)
        else (hdr_good, conn.parse_basic header))
    else if starts_with_nocase (codes "Bearer ") header
    then (if not (is_token auth_mode)
        then (hdr_bad, empty_auth_hdr)
        else (hdr_good, conn.parse_token header))
    else (hdr_bad, record empty_auth_hdr { mode = auth_fail })

-- the checks behind the parsers
unfoldable pub check_credentials : AuthHdr → AuthHdrResult
check_credentials ah =
    if is_digest ah.mode
      && (not (is_some ah.uri)
          || not (is_some ah.nonce)
          || not (is_some ah.nc)
          || not (is_some ah.cnonce))
    then hdr_bad
    else if not (is_some ah.user) && not (is_token ah.mode)
    then hdr_bad
    else hdr_good

-- The user ID is kept on the connection, except for tokens.
abbrev pub save_user : AuthHdr → Conn → Conn
save_user ah conn =
    if is_token ah.mode
    then conn
    else elim ah.user [ none ↦ conn | some u ↦ record conn { user_id = u } ]

unfoldable pub finish_parse : Conn → Parsed → AuthHdrResult × AuthHdr × Conn
finish_parse conn (hdr_good, ah) =
    let r = check_credentials ah in (r, ah, elim r [ hdr_good ↦ save_user ah conn | _ ↦ conn ])
finish_parse conn (r, ah) = (r, ah, conn)

unfoldable pub parse_auth_header : AuthMode → Conn → AuthHdrResult × AuthHdr × Conn
unfolding parse_scheme finish_parse
parse_auth_header auth_mode conn = elim conn.authorization [
  | none ↦ (hdr_missing, empty_auth_hdr, conn)
  | some header ↦ finish_parse conn (parse_scheme auth_mode conn header)
]
