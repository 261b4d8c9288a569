-- ===== src/CsrAttrs/Server/Laws.antt =====
-- src/est/est_server.c: which attributes the server keeps, and which it asks a client for.
use aims_libest.Prelude.{
  ◌+◌, ◌*◌, ◌<◌, ◌++◌, codes, Bytes, [], ◌∷◌, Option, none, some, Bool, true, false, ◌≡◌, ◌⊎◌, inl,
  inr, refl, sym, subst, ltb, length, arith, Bool-cases, Option-cases,
}
use aims_libest.Api.{EstError, Status, bad_mode, invalid_parameters}
use aims_libest.Context.{Ctx}
use aims_libest.Conn.{Conn}
use aims_libest.Base64.{Bio, base64_decode}
use aims_libest.Config.Setters.{is_server}
use aims_libest.CsrAttrs.{Asn1}
use aims_libest.CsrAttrs.Sanity.{asn1_parse_attributes, is_challenge_password_present}
use aims_libest.Base64.RoundTrip.{Codes}
use aims_libest.CsrAttrs.AddPop.{add_challenge_password}
use aims_libest.CsrAttrs.AddPop.Laws.{read_sequence}
use aims_libest.CsrAttrs.Server.{install_pop, install_parsed, init_csrattrs, server_init_csrattrs}

present_parse :
    (a : Asn1) (bio : Bio) (s : Bytes)
    → ltb (length s) 4 ≡ false
    → is_challenge_password_present a bio (some s) (length s)
      ≡ asn1_parse_attributes a bio s (length s) false
unfolding is_challenge_password_present
present_parse a bio s l = ground arith

module _ (a : Asn1) (bio : Bio) where
  -- The text that the server keeps of `csrattrs`: the text itself, or with a challengePassword behind it
  -- where the proof of possession is asked for and the text has none.
  pub data Kept (enable_pop : Bool) (csrattrs : Bytes) : Bytes → Type 0 where
    itself :
        (pop : Bool)
        → asn1_parse_attributes a bio csrattrs (length csrattrs) false ≡ some (none, pop)
        → (enable_pop ≡ false) ⊎ (pop ≡ true)
        → Kept enable_pop csrattrs csrattrs
    extended :
        (text : Bytes)
        → enable_pop ≡ true
        → asn1_parse_attributes a bio csrattrs (length csrattrs) false ≡ some (none, false)
        → add_challenge_password a bio csrattrs (length csrattrs) ≡ some (none, text)
        → Kept enable_pop csrattrs text

  install_pop-Kept :
      (ctx ctx' : Ctx) (csrattrs : Bytes) (r : Option (Status × Bool))
      → asn1_parse_attributes a bio csrattrs (length csrattrs) false ≡ r
      → install_pop a bio ctx csrattrs r ≡ some (none, ctx')
      → (text : Bytes) × (ctx'.server_csrattrs ≡ some text) × Kept true csrattrs text
  unfolding install_pop
  install_pop-Kept ctx ctx' csrattrs none e h = absurd (ground arith)
  install_pop-Kept ctx ctx' csrattrs (some (some err, pop)) e h = absurd (ground arith)
  install_pop-Kept ctx ctx' csrattrs (some (none, true)) e h =
      (csrattrs, ground arith, itself true e (inr refl))
  install_pop-Kept ctx ctx' csrattrs (some (none, false)) e h =
      elim (Option-cases (add_challenge_password a bio csrattrs (length csrattrs))) [
        | inl q ↦ absurd (ground arith)
        | inr ((st, text), q) ↦ elim (Option-cases st) [
          | inr (err, z) ↦ absurd (ground arith)
          | inl z ↦ (text, ground arith, extended text refl e (ground arith))
        ]
      ]

  install_parsed-Kept :
      (ctx ctx' : Ctx) (csrattrs : Bytes) (r : Option (Status × Bool))
      → asn1_parse_attributes a bio csrattrs (length csrattrs) false ≡ r
      → install_parsed ctx csrattrs r ≡ some (none, ctx')
      → (text : Bytes) × (ctx'.server_csrattrs ≡ some text) × Kept false csrattrs text
  unfolding install_parsed
  install_parsed-Kept ctx ctx' csrattrs none e h = absurd (ground arith)
  install_parsed-Kept ctx ctx' csrattrs (some (some err, pop)) e h = absurd (ground arith)
  install_parsed-Kept ctx ctx' csrattrs (some (none, pop)) e h =
      (csrattrs, ground arith, itself pop e (inl refl))

  -- Attributes that a server accepts parse, and it keeps their text, or, only where the proof of
  -- possession is asked for and the text has no challengePassword, the text that
  -- est_add_challengePassword makes of it.
  pub server_init_csrattrs-Kept :
      (ctx ctx' : Ctx) (csrattrs : Bytes)
      → server_init_csrattrs a bio ctx (some csrattrs) ≡ some (none, ctx')
      → (text : Bytes) × (ctx'.server_csrattrs ≡ some text)
        × Kept ctx.server_enable_pop csrattrs text
  unfolding server_init_csrattrs init_csrattrs
  server_init_csrattrs-Kept ctx ctx' csrattrs h = elim (Bool-cases (is_server ctx.est_mode)) [
    | inr m ↦ absurd (ground arith)
    | inl m ↦ elim (Bool-cases (ltb (length csrattrs) 4)) [
      | inl l ↦ absurd (ground arith)
      | inr l ↦
          let start = record ctx { server_csrattrs = none; csr_pop_present = false } in
          let n = length csrattrs in
          elim (Bool-cases ctx.server_enable_pop) [
            | inl b ↦
                let present = is_challenge_password_present a bio (some csrattrs) n in
                let (t, e, k) =
                  install_pop-Kept start ctx' csrattrs present
                    (sym (present_parse a bio csrattrs l)) (ground arith) in
                (t, e, subst (λ x. Kept x csrattrs t) (sym b) k)
            | inr b ↦
                let (t, e, k) = install_parsed-Kept start ctx' csrattrs _ refl (ground arith) in
                (t, e, subst (λ x. Kept x csrattrs t) (sym b) k)
          ]
    ]
  ]

  -- A call that is refused for its attributes has cleared those of before.
  pub server_init_csrattrs-cleared :
      (ctx ctx' : Ctx) (csrattrs : Option Bytes) (e : EstError)
      → server_init_csrattrs a bio ctx csrattrs ≡ some (some e, ctx')
      → ((e ≡ bad_mode) × (ctx' ≡ ctx)) ⊎ ((e ≡ invalid_parameters) × (ctx'.server_csrattrs ≡ none))
  unfolding server_init_csrattrs init_csrattrs install_pop install_parsed
  server_init_csrattrs-cleared ctx ctx' csrattrs e h = ground arith

module _ (a : Asn1) (bio : Bio)
    (encodes : (src out : Bytes) → bio.write true src ≡ some out → Codes bio src out) where
  -- attributes that ask for a challengePassword: the SEQUENCE of its OID alone, a text that parses with
  -- the flag for one, or a text of a SEQUENCE of less than 65536 bytes with its OID at the end
  pub data Asks : Bytes → Type 0 where
    alone : Asks (codes "MAsGCSqGSIb3DQEJBw==")
    present :
        (text : Bytes)
        → asn1_parse_attributes a bio text (length text) false ≡ some (none, true)
        → Asks text
    added :
        (content text : Bytes)
        → (length content + 11 < 65536
            → (der : Bytes) × (base64_decode bio text (length text * 2) ≡ some der)
              × (read_sequence der
                  ≡ some (content ++ 6 ∷ 9 ∷ 42 ∷ 134 ∷ 72 ∷ 134 ∷ 247 ∷ 13 ∷ 1 ∷ 9 ∷ 7 ∷ [])))
        → Asks text
