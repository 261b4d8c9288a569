-- ===== src/AuthHeader/Laws.antt =====
-- src/est/est_server_http.c: which Authorization headers are good.
use aims_libest.Prelude.{Bytes, [], ◌∷◌, ◌++◌, none, some, true, ◌≡◌, ◌⊎◌, arith, codes, is_some}
use aims_libest.Api.{AuthMode, auth_basic, auth_digest, auth_token, hdr_good}
use aims_libest.Context.{AuthHdr}
use aims_libest.Conn.{Conn}
use aims_libest.AuthHeader.{
  lowercase, starts_with_nocase, is_token, is_digest, parse_scheme, check_credentials, save_user,
  finish_parse, parse_auth_header,
}

-- the text with its letters in lower case
abbrev pub in_lowercase : Bytes → Bytes
in_lowercase [] = []
in_lowercase (c ∷ s) = lowercase c ∷ in_lowercase s

-- The header begins with the word, whatever the case of its letters.
abbrev pub Names : Bytes → Bytes → Type 0
Names word header =
    (start : Bytes) × (rest : Bytes) × (header ≡ start ++ rest)
    × (in_lowercase start ≡ in_lowercase word)

-- The header names the configured scheme, and the credentials are what its parser took from it.
abbrev pub FromScheme : AuthMode → Conn → Bytes → AuthHdr → Type 0
FromScheme mode conn header ah =
    ((mode ≡ auth_digest) × Names (codes "Digest ") header × (ah ≡ conn.parse_digest header))
    ⊎ ((mode ≡ auth_basic) × Names (codes "Basic ") header × (ah ≡ conn.parse_basic header))
    ⊎ ((mode ≡ auth_token) × Names (codes "Bearer ") header × (ah ≡ conn.parse_token header))

-- What a good header holds.
pub record IsGood (mode : AuthMode) (conn : Conn) (ah : AuthHdr) (conn' : Conn) : Type 0 where
  pub header : Bytes
  pub sent : conn.authorization ≡ some header
  pub scheme : FromScheme mode conn header ah
  pub identified : (is_some ah.user ≡ true) ⊎ (is_token ah.mode ≡ true)
  pub digest_complete :
      is_digest ah.mode ≡ true
      → (is_some ah.uri ≡ true)
        × (is_some ah.nonce ≡ true)
        × (is_some ah.nc ≡ true)
        × (is_some ah.cnonce ≡ true)
  pub saved : conn' ≡ save_user ah conn

-- A digest header with no response value is good all the same, where the rest is there.
pub parse_auth_header-no_response :
    (conn : Conn) (header u uri nonce nc cnonce : Bytes)
    → conn.authorization ≡ some header
    → starts_with_nocase (codes "Digest ") header ≡ true
    → (conn.parse_digest header).mode ≡ auth_digest
    → (conn.parse_digest header).user ≡ some u
    → (conn.parse_digest header).uri ≡ some uri
    → (conn.parse_digest header).nonce ≡ some nonce
    → (conn.parse_digest header).nc ≡ some nc
    → (conn.parse_digest header).cnonce ≡ some cnonce
    → (conn.parse_digest header).response ≡ none
    → (parse_auth_header auth_digest conn).0 ≡ hdr_good
unfolding parse_auth_header parse_scheme finish_parse check_credentials
parse_auth_header-no_response conn header u uri nonce nc cnonce a s m hu h1 h2 h3 h4 r =
    ground arith
