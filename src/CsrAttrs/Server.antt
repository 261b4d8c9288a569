-- ===== src/CsrAttrs/Server.antt =====
-- src/est/est_server.c, src/est/est_server_http.c: est_server_init_csrattrs, which configures the
-- attributes that the server asks for, est_handle_csr_attrs and est_send_csrattr_data, which answer a
-- request for them. The length that comes with attributes is their text's own, and a NULL text has
-- length 0. Failures of malloc are left out.
pub mod Laws
use aims_libest.Prelude.{
  ℕ, ◌*◌, Bytes, List, [], ◌∷◌, ◌++◌, Option, none, some, Bool, true, false, not, ◌&&◌, ◌==◌,
  if◌then◌else◌, ltb, length, is_some, codes, decimal,
}
use aims_libest.Api.{
  EstError, Status, no_ctx, bad_mode, invalid_parameters, http_no_content, http_write,
}
use aims_libest.Ossl.{X509}
use aims_libest.Context.{Ctx}
use aims_libest.Conn.{Conn, mg_write}
use aims_libest.Base64.{Bio}
use aims_libest.Auth.Enroll.{is_http}
use aims_libest.Config.Setters.{is_server}
use aims_libest.Http.Error.{send_http_error}
use aims_libest.CsrAttrs.{Asn1}
use aims_libest.CsrAttrs.Sanity.{asn1_parse_attributes, is_challenge_password_present}
use aims_libest.CsrAttrs.AddPop.{add_challenge_password}

-- EST_CSRATTRS_POP
abbrev pub csrattrs_pop : Bytes
csrattrs_pop = codes "MAsGCSqGSIb3DQEJBw=="

abbrev pub csrattrs_header : ℕ → Bytes
csrattrs_header n =
    codes "HTTP/1.1 200 OK\r\nStatus: 200 OK\r\nContent-Type: application/csrattrs\r\n"
    ++ codes "Content-Transfer-Encoding: base64\r\nContent-Length: "
    ++ decimal n
    ++ codes "\r\n\r\n"

unfoldable pub send_csrattr_data : Ctx → Conn → Option Bytes → Status × Conn
send_csrattr_data ctx conn none = (none, send_http_error ctx conn http_no_content)
send_csrattr_data ctx conn (some []) = (none, send_http_error ctx conn http_no_content)
send_csrattr_data ctx conn (some (c ∷ csr_data)) =
    let (n, conn1) = mg_write conn (csrattrs_header (length (c ∷ csr_data))) in
    let (m, conn2) = mg_write conn1 (c ∷ csr_data) in
    if n == 0
    then (some http_write, conn1)
    else if m == 0
    then (some http_write, conn2)
    else (none, conn2)

-- what a request for the attributes comes to: the code, the flag `csr_pop_present` if it is set, and
-- the attributes
pub record Choice : Type 0 where
  pub status : Status
  pub pop_set : Option Bool
  pub attrs : Option Bytes

abbrev pub refuse : EstError → Option Bool → Option Choice
refuse e pop = some (record { status = some e; pop_set = pop; attrs = none })

abbrev pub choose : Option Bool → Option Bytes → Option Choice
choose pop attrs = some (record { status = none; pop_set = pop; attrs = attrs })

abbrev pub extended : Option (Status × Bytes) → Option Choice
extended none = none
extended (some (some e, text)) = refuse e (some false)
extended (some (none, text)) = choose (some false) (some text)

abbrev pub mark : Ctx → Option Bool → Ctx
mark ctx none = ctx
mark ctx (some pop) = record ctx { csr_pop_present = pop }

-- over HTTP the attributes are sent, over CoAP they are returned
unfoldable pub deliver : Ctx → Conn → Option Bytes → Status × Ctx × Conn × Option Bytes
unfolding send_csrattr_data
deliver ctx conn attrs =
    let (st, conn') = send_csrattr_data ctx conn attrs in
    if is_http ctx.transport_mode then (st, ctx, conn', none) else (none, ctx, conn, attrs)

unfoldable pub answer : Ctx → Conn → Choice → Status × Ctx × Conn × Option Bytes
unfolding deliver
answer ctx conn c = elim c.status [
  | some e ↦ (some e, mark ctx c.pop_set, conn, none)
  | none ↦ deliver (mark ctx c.pop_set) conn c.attrs
]

-- est_server_init_csrattrs from the parse on, with the flag `csr_pop_present` cleared
abbrev pub install : Ctx → Bytes → Option (Status × Ctx)
install ctx csrattrs = some (none, record ctx { server_csrattrs = some csrattrs })

abbrev pub install_extended : Ctx → Option (Status × Bytes) → Option (Status × Ctx)
install_extended ctx none = none
install_extended ctx (some (some e, text)) = some (some invalid_parameters, ctx)
install_extended ctx (some (none, text)) = install ctx text

unfoldable pub install_parsed : Ctx → Bytes → Option (Status × Bool) → Option (Status × Ctx)
install_parsed ctx csrattrs none = none
install_parsed ctx csrattrs (some (some e, pop)) = some (some invalid_parameters, ctx)
install_parsed ctx csrattrs (some (none, pop)) = install ctx csrattrs

module _ (a : Asn1) (bio : Bio) where
  unfoldable pub add_pop : Bytes → Option Choice
  add_pop [] = choose (some false) (some csrattrs_pop)
  add_pop (c ∷ csr_data) =
      extended (add_challenge_password a bio (c ∷ csr_data) (length (c ∷ csr_data)))

  -- from the answer of est_is_challengePassword_present on
  unfoldable pub pop_found : Bytes → Option (Status × Bool) → Option Choice
  unfolding add_pop
  pop_found csr_data none = none
  pop_found csr_data (some (some e, pop)) = refuse e (some false)
  pop_found csr_data (some (none, true)) = choose (some true) (some csr_data)
  pop_found csr_data (some (none, false)) = add_pop csr_data

  unfoldable pub require_pop : Ctx → Bytes → Option Choice
  unfolding pop_found
  require_pop ctx csr_data =
      if ctx.server_enable_pop
      then pop_found csr_data
          (is_challenge_password_present a bio (some csr_data) (length csr_data))
      else choose (some false) (some csr_data)

  unfoldable pub parsed : Ctx → Bytes → Option (Status × Bool) → Option Choice
  unfolding require_pop
  parsed ctx csr_data none = none
  parsed ctx csr_data (some (some e, pop)) = refuse e none
  parsed ctx csr_data (some (none, pop)) = require_pop ctx csr_data

  -- The attributes that the callback answers: a failed parse counts only where they are not empty.
  unfoldable pub from_callback : Ctx → Option Bytes → Option Choice
  unfolding require_pop parsed
  from_callback ctx none =
      if ctx.server_enable_pop
      then choose (some false) (some csrattrs_pop)
      else choose (some false) none
  from_callback ctx (some []) = require_pop ctx []
  from_callback ctx (some (c ∷ csr_data)) =
      parsed ctx (c ∷ csr_data)
        (asn1_parse_attributes a bio (c ∷ csr_data) (length (c ∷ csr_data)) false)

  unfoldable pub chosen : Ctx → Option X509 → Option Bytes → Option Choice
  unfolding from_callback
  chosen ctx peer path_seg = elim ctx.get_csr_cb [
    | some cb ↦ from_callback ctx (cb path_seg peer)
    | none ↦ elim ctx.server_csrattrs [
      | some attrs ↦ choose none (some attrs)
      | none ↦
          if ctx.server_enable_pop
          then choose none (some csrattrs_pop)
          else refuse http_no_content none
    ]
  ]

  -- The code, the context, the connection, and what is returned over CoAP. `none` is an access out of
  -- bounds, or that a loop does not end.
  unfoldable pub handle_csr_attrs :
      Ctx → Conn → Option X509 → Option Bytes → Option (Status × Ctx × Conn × Option Bytes)
  unfolding chosen answer
  handle_csr_attrs ctx conn peer path_seg = elim (chosen ctx peer path_seg) [
    | none ↦ none
    | some c ↦ some (answer ctx conn c)
  ]

  unfoldable pub install_pop : Ctx → Bytes → Option (Status × Bool) → Option (Status × Ctx)
  install_pop ctx csrattrs none = none
  install_pop ctx csrattrs (some (some e, pop)) = some (some invalid_parameters, ctx)
  install_pop ctx csrattrs (some (none, true)) =
      install (record ctx { csr_pop_present = true }) csrattrs
  install_pop ctx csrattrs (some (none, false)) =
      install_extended ctx (add_challenge_password a bio csrattrs (length csrattrs))

  -- MIN_CSRATTRS, on a context whose old attributes are freed
  unfoldable pub init_csrattrs : Ctx → Option Bytes → Option (Status × Ctx)
  unfolding install_pop install_parsed
  init_csrattrs ctx none = some (none, ctx)
  init_csrattrs ctx (some csrattrs) =
      let n = length csrattrs in
      let ctx' = record ctx { csr_pop_present = false } in
      if ltb n 4
      then some (some invalid_parameters, ctx)
      else if ctx.server_enable_pop
      then install_pop ctx' csrattrs (is_challenge_password_present a bio (some csrattrs) n)
      else install_parsed ctx' csrattrs (asn1_parse_attributes a bio csrattrs n false)

  unfoldable pub server_init_csrattrs : Ctx → Option Bytes → Option (Status × Ctx)
  unfolding init_csrattrs
  server_init_csrattrs ctx csrattrs =
      if not (is_server ctx.est_mode)
      then some (some bad_mode, ctx)
      else init_csrattrs (record ctx { server_csrattrs = none }) csrattrs
