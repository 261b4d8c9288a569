-- ===== src/CsrAttrs.antt =====
-- src/est/est_server.c: est_server_all_csrattrs_present, which holds a CSR to the attributes that the
-- server asks for. The library of ASN.1 is a parameter, and so are the base64 decoder and the list of
-- the CSR's OIDs. Failures of malloc are left out.
pub mod Items
pub mod Enforce
pub mod Sanity
pub mod AddPop
pub mod Server
use aims_libest.Prelude.{
  ℕ, zero, suc, ◌+◌, Bytes, List, [], ◌∷◌, Option, none, some, Bool, true, false, not, ◌&&◌,
  if◌then◌else◌, ltb, is_some, is_zero, length,
}
use aims_libest.Api.{
  EstError, Status, csr_attr_missing, unknown, bad_asn1_hex, bad_base64, cb_failed,
  invalid_parameters,
}
use aims_libest.Ossl.{X509, Asn1Object}
use aims_libest.Context.{Ctx}
use aims_libest.Safec.{strcmp_s}

pub data Tag : Type 0 where
  object_tag set_tag sequence_tag other_tag : Tag

-- What ASN1_get_object reads at the start of the bytes: the error bit, the tag, how far it moves the
-- pointer, and the length of the content.
pub record Header : Type 0 where
  pub bad : Bool
  pub tag : Tag
  pub hdr_len : ℕ
  pub len : ℕ

pub record Asn1 : Type 0 where
  pub get_object : Bytes → Header
  -- d2i_ASN1_OBJECT: the object, and how far it moves the pointer
  pub d2i_object : Bytes → Option (Asn1Object × ℕ)
  -- OBJ_obj2nid is NID_pkcs9_challengePassword
  pub is_challenge : Asn1Object → Bool
  -- i2t_ASN1_OBJECT into EST_MAX_ATTR_LEN bytes
  pub text : Asn1Object → Bytes

abbrev pub est_max_attr_len : ℕ
est_max_attr_len = 128

-- the loop over the CSR's OIDs; `none` is an error of strcmp_s
unfoldable pub match_oid : Bytes → List Bytes → Option Bool
match_oid tbuf [] = some false
match_oid tbuf (oid ∷ oids) =
    let rest = match_oid tbuf oids in
    elim (strcmp_s oid est_max_attr_len tbuf) [
      | none ↦ none
      | some comparator ↦ if is_zero comparator then some true else rest
    ]

abbrev found_match : Option Bool → Status
found_match none = some unknown
found_match (some true) = none
found_match (some false) = some csr_attr_missing

unfoldable pub require_oid : List Bytes → Bytes → Status
unfolding match_oid
require_oid [] tbuf = some csr_attr_missing
require_oid (oid ∷ oids) tbuf = found_match (match_oid tbuf (oid ∷ oids))

-- One round of the loop before the comparison: an error, or the OID that the CSR must have, if any,
-- and how far the pointer moves.
pub data Item : Type 0 where
  broken : EstError → Item
  item : Option Bytes → ℕ → Item

abbrev read_object : Asn1 → Option (Asn1Object × ℕ) → Item
read_object a none = broken unknown
read_object a (some (obj, n)) =
    if a.is_challenge obj then item none n else item (some (a.text obj)) n

abbrev read_tag : Asn1 → Bytes → Header → Tag → Item
read_tag a s h object_tag = read_object a (a.d2i_object s)
read_tag a s h set_tag = item none h.hdr_len
read_tag a s h sequence_tag = item none h.hdr_len
read_tag a s h other_tag = item none (h.hdr_len + h.len)

unfoldable pub read_item : Asn1 → Bytes → Item
read_item a s =
    let h = a.get_object s in if h.bad then broken bad_asn1_hex else read_tag a s h h.tag

-- the pointer moved on; `none` is past the end
unfoldable pub advance : ℕ → Bytes → Option Bytes
advance zero s = some s
advance (suc n) [] = none
advance (suc n) (c ∷ s) = advance n s

abbrev pub need : List Bytes → Option Bytes → Status
need oids none = none
need oids (some t) = require_oid oids t

-- The loop over the attributes; the outer `none` is that the fuel ran out. Behind the end of the data
-- the length left is negative, and so not zero.
unfoldable pub walk : Asn1 → List Bytes → ℕ → Bytes → Option Status
walk a oids fuel [] = some none
walk a oids zero (c ∷ s) = none
walk a oids (suc fuel) (c ∷ s) = elim (read_item a (c ∷ s)) [
  | broken e ↦ some (some e)
  | item want n ↦ elim (need oids want) [
    | some e ↦ some (some e)
    | none ↦ elim (advance n (c ∷ s)) [
      | none ↦ some (some bad_asn1_hex)
      | some rest ↦ walk a oids fuel rest
    ]
  ]
]

-- from the decoded attributes on: MAX_CSRATTRS, MIN_ASN1_CSRATTRS, and the loop
check_der : Asn1 → List Bytes → Option Bytes → Option Status
unfolding walk
check_der a oids none = some (some bad_base64)
check_der a oids (some der) =
    if ltb (length der) 1
    then some (some bad_base64)
    else if ltb 1024 (length der)
    then some (some invalid_parameters)
    else if ltb (length der) 2
    then some (some invalid_parameters)
    else walk a oids (length der) der

-- MIN_CSRATTRS
check_data : Asn1 → (Bytes → Option Bytes) → List Bytes → Option Bytes → Option Status
unfolding check_der
check_data a decode oids none = some (some cb_failed)
check_data a decode oids (some csr_data) =
    if ltb (length csr_data) 4
    then some (some invalid_parameters)
    else check_der a oids (decode csr_data)

-- the attributes that the server asks for
abbrev pub attrs_of : Ctx → Option X509 → Option Bytes
attrs_of ctx peer = elim ctx.get_csr_cb [ none ↦ ctx.server_csrattrs | some cb ↦ cb none peer ]

-- `oids` is what est_server_build_csr_oid_list makes of the CSR: a code, and the list.
unfoldable pub all_csrattrs_present :
    Asn1 → (Bytes → Option Bytes) → Status × List Bytes → Ctx → Option X509 → Option Status
unfolding check_data
all_csrattrs_present a decode (some e, oids) ctx peer =
    if not (is_some ctx.server_csrattrs) && not (is_some ctx.get_csr_cb)
    then some none
    else some (some e)
all_csrattrs_present a decode (none, oids) ctx peer =
    if not (is_some ctx.server_csrattrs) && not (is_some ctx.get_csr_cb)
    then some none
    else check_data a decode oids (attrs_of ctx peer)
