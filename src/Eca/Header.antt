-- ===== src/Eca/Header.antt =====
-- src/est/est_enhcd_cert_auth.c: the credentials that stand for a client certificate.
use aims_libest.Prelude.{ℕ, ◌+◌, ℤ, Option, none, some}
use aims_libest.Api.{AuthHdrResult, hdr_good, eca_err, auth_basic}
use aims_libest.Ossl.{X509, Ossl}
use aims_libest.Context.{AuthHdr, Eca}
use aims_libest.Eca.Subject.{cert_subject_field}

abbrev pub max_uidpwd : ℕ
max_uidpwd = 255

-- build_enhanced_cert_auth_header, from the lookup of the subject field on
build_fields : Ossl → Eca → AuthHdr → X509 → ℤ → AuthHdrResult × AuthHdr
build_fields o e ah peer nid = elim (cert_subject_field o peer nid) [
  | none ↦ (eca_err, ah)
  | some field ↦ elim (o.strndup field (max_uidpwd + 1)) [
    | none ↦ (eca_err, ah)
    | some user ↦ elim (o.strndup e.pwd (max_uidpwd + 1)) [
      | none ↦ (eca_err, record ah { user = some user; pwd = none })
      | some pwd ↦ (hdr_good, record ah { user = some user; pwd = some pwd })
    ]
  ]
]

unfoldable pub build_header : Ossl → Eca → AuthHdr → Option X509 → ℤ → AuthHdrResult × AuthHdr
unfolding build_fields
build_header o e ah none nid = (eca_err, ah)
build_header o e ah (some peer) nid = build_fields o e (record ah { mode = auth_basic }) peer nid
