-- ===== src/Examples/Attributes.antt =====
-- Runs of the check of the CSR attributes: every byte of the data is an object of its own.
use aims_libest.Prelude.{
  ℕ, ◌≤◌, Bytes, List, [], ◌∷◌, Option, none, some, true, false, ◌==◌, ◌≡◌, ◌⊎◌, ◌↔◌, codes, refl,
  arith,
}
use aims_libest.Api.{Status, invalid_parameters, bad_mode}
use aims_libest.Ossl.{Asn1Object}
use aims_libest.Context.{Ctx}
use aims_libest.CsrAttrs.{object_tag, Asn1, advance, all_csrattrs_present}
use aims_libest.CsrAttrs.Enforce.{Progresses, all_csrattrs_present_ends}
use aims_libest.Conn.{Conn}
use aims_libest.Base64.{
  Bio, is_space, byte_at, padding, analyze, trim, max_in, checked_read, decode_trimmed,
  base64_decode,
}
use aims_libest.CsrAttrs.Sanity.{
  sanity_round, sanity_loop, max_csrattrs, asn1_sanity_test, asn1_parse_attributes,
  is_challenge_password_present,
}
use aims_libest.CsrAttrs.Sanity.Laws.{Items, asn1_sanity_test_iff}
use aims_libest.CsrAttrs.Server.{handle_csr_attrs, install_pop, init_csrattrs, server_init_csrattrs}
use aims_libest.CsrAttrs.Server.Laws.{Kept, server_init_csrattrs-Kept, server_init_csrattrs-cleared}
use aims_libest.Examples.Data.{ctx, conn}

abbrev first_byte : Bytes → Option (Asn1Object × ℕ)
first_byte [] = none
first_byte (c ∷ s) = some (c, 1)

abbrev pub asn1 : Asn1
asn1 = record {
  get_object = λ s. record { bad = false; tag = object_tag; hdr_len = 1; len = 0 };
  d2i_object = first_byte;
  is_challenge = λ x. x == 9;
  text = λ x. x ∷ [];
}

moves : (s : Bytes) (obj : Asn1Object) (n : ℕ) → first_byte s ≡ some (obj, n) → 1 ≤ n
moves [] obj n h = absurd (ground arith)
moves (c ∷ s) obj n h = ground arith

asn1-Progresses : Progresses asn1
asn1-Progresses = record { header = λ s. omega arith; object = moves }

abbrev oids : List Bytes
oids = (7 ∷ []) ∷ (5 ∷ []) ∷ []

abbrev asking : Ctx
asking = record ctx { server_csrattrs = some (1 ∷ 2 ∷ 3 ∷ 4 ∷ []); enforce_csrattrs = true }

abbrev decode : Bytes → Option Bytes
decode s = some (5 ∷ 9 ∷ 7 ∷ [])

all_csrattrs_present_ends_example :
    (st : Status) × (all_csrattrs_present asn1 decode (none, oids) asking none ≡ some st)
all_csrattrs_present_ends_example =
    all_csrattrs_present_ends asn1 decode oids asking none asn1-Progresses none

-- What the decoder makes of any text is two objects and, between them, a challengePassword.
abbrev pub bio : Bio
bio = record { new = true; read = λ flag s n. some (5 ∷ 9 ∷ 7 ∷ []); write = λ flag s. none }

sanity : asn1_sanity_test asn1 (5 ∷ 9 ∷ 7 ∷ []) ≡ some (none, true)
unfolding asn1_sanity_test sanity_loop sanity_round advance max_csrattrs
sanity = refl

asn1_sanity_test_iff_example :
    (asn1_sanity_test asn1 (5 ∷ 9 ∷ 7 ∷ []) ≡ some (none, true))
    ↔ ((2 ≤ 3) × Items asn1 (5 ∷ 9 ∷ 7 ∷ []) true × (3 ≤ 1035))
asn1_sanity_test_iff_example = asn1_sanity_test_iff asn1 asn1-Progresses (5 ∷ 9 ∷ 7 ∷ []) true

abbrev proving : Ctx
proving = record ctx {
  server_enable_pop = true;
  get_csr_cb = some (λ path peer. some (codes "ABCD"));
}

abbrev taken : Option (Status × Ctx)
taken = server_init_csrattrs asn1 bio proving (some (codes "ABCD"))

abbrev after : Option (Status × Ctx) → Ctx
after none = ctx
after (some (st, c)) = c

accepted : taken ≡ some (none, after taken)
unfolding server_init_csrattrs init_csrattrs install_pop is_challenge_password_present
    asn1_parse_attributes base64_decode analyze is_space byte_at trim max_in padding decode_trimmed
    checked_read asn1_sanity_test sanity_loop sanity_round advance max_csrattrs
accepted = refl

server_init_csrattrs-Kept_example :
    (text : Bytes) × ((after taken).server_csrattrs ≡ some text)
    × Kept asn1 bio true (codes "ABCD") text
server_init_csrattrs-Kept_example =
    server_init_csrattrs-Kept asn1 bio proving (after taken) (codes "ABCD") accepted

abbrev short : Option (Status × Ctx)
short = server_init_csrattrs asn1 bio asking (some (codes "ABC"))

too_short : short ≡ some (some invalid_parameters, after short)
unfolding server_init_csrattrs init_csrattrs
too_short = refl

server_init_csrattrs-cleared_example :
    ((invalid_parameters ≡ bad_mode) × (after short ≡ asking))
    ⊎ ((invalid_parameters ≡ invalid_parameters) × ((after short).server_csrattrs ≡ none))
server_init_csrattrs-cleared_example =
    server_init_csrattrs-cleared asn1 bio asking (after short) (some (codes "ABC"))
      invalid_parameters too_short

abbrev served : Option (Status × Ctx × Conn × Option Bytes)
served = handle_csr_attrs asn1 bio proving conn none none

abbrev given : Option (Status × Ctx × Conn × Option Bytes) → Status × Ctx × Conn × Option Bytes
given none = (none, ctx, conn, none)
given (some r) = r
