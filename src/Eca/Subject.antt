-- ===== src/Eca/Subject.antt =====
-- src/est/est_enhcd_cert_auth.c: a field of the subject line, by its NID.
use aims_libest.Prelude.{ℤ, Bytes, Option, none, some, is_neg, if◌then◌else◌}
use aims_libest.Ossl.{X509, X509Req, Ossl}

-- find_subject_field_from_x509_name: the index of the entry, and the entry's bytes
unfoldable pub find_subject_field : ℤ → (ℤ → Bytes) → Option Bytes
find_subject_field index entry_data = if is_neg index then none else some (entry_data index)

-- get_cert_subject_line_field and get_csr_subject_line_field; `none` is EST_AUTH_ECA_ERR
unfoldable pub cert_subject_field : Ossl → X509 → ℤ → Option Bytes
unfolding find_subject_field
cert_subject_field o cert nid =
    find_subject_field (o.cert_subject_index cert nid) (o.cert_subject_data cert)

unfoldable pub csr_subject_field : Ossl → X509Req → ℤ → Option Bytes
unfolding find_subject_field
csr_subject_field o csr nid =
    find_subject_field (o.req_subject_index csr nid) (o.req_subject_data csr)
