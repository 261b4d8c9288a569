-- ===== src/Ossl.antt =====
-- What the code calls in OpenSSL, as parameters. An OpenSSL object is known by its handle, a
-- number; a field of `Ossl` is a library function, and a field of `Ssl` is what the library
-- answers about one TLS connection.
use aims_libest.Prelude.{ℕ, ℤ, Bool, Bytes, List, Option}

-- X509*, X509_REQ*, EVP_PKEY*, X509_STORE*, STACK_OF(X509)*, ASN1_OBJECT*
abbrev pub X509 : Type 0
X509 = ℕ

abbrev pub X509Req : Type 0
X509Req = ℕ

abbrev pub PKey : Type 0
PKey = ℕ

abbrev pub Store : Type 0
Store = ℕ

abbrev pub Chain : Type 0
Chain = ℕ

abbrev pub Asn1Object : Type 0
Asn1Object = ℕ

pub record Ssl : Type 0 where
  -- SSL_get_peer_certificate
  pub peer_certificate : Option X509
  -- SSL_get_verify_result
  pub verify_result : ℕ
  -- SSL_get_srp_username
  pub srp_username : Option Bytes
  -- SSL_get_peer_cert_chain
  pub peer_cert_chain : Option Chain
  -- the TLS UID of the session, as `est_get_tls_uid` computes it from the finished message
  pub tls_uid : Option Bytes

pub record Ossl : Type 0 where
  -- BIO_new_mem_buf and BIO_new(BIO_f_base64()) succeed
  pub bio_new_mem_buf : Bytes → Bool
  pub bio_new_b64 : Bool
  -- d2i_X509_REQ_bio; the flag tells that the base64 filter is pushed in front
  pub d2i_req : Bool → Bytes → Option X509Req
  -- X509_REQ_get_pubkey, X509_REQ_verify
  pub req_pubkey : X509Req → Option PKey
  pub req_verify : X509Req → PKey → ℤ
  -- X509_REQ_get_attr_by_NID for the challengePassword, from the start
  pub req_challenge_index : X509Req → ℤ
  -- X509_REQ_get_attr, with the value of the attribute's string
  pub req_attr : X509Req → ℤ → Option Bytes
  -- X509_get_ext_d2i(cert, NID_ext_key_usage, ...)
  pub ext_key_usage : X509 → Option (List Asn1Object)
  -- OBJ_cmp against the OID of id-kp-cmcRA
  pub cmp_cmc_ra : Asn1Object → ℤ
  -- X509_NAME_get_index_by_NID on the subject, and the bytes of the entry there
  pub cert_subject_index : X509 → ℤ → ℤ
  pub cert_subject_data : X509 → ℤ → Bytes
  pub req_subject_index : X509Req → ℤ → ℤ
  pub req_subject_data : X509Req → ℤ → Bytes
  -- X509_STORE_CTX_init and X509_verify_cert
  pub store_ctx_init : Store → X509 → Chain → Bool
  pub verify_cert : Store → X509 → Chain → ℤ
  -- strndup, where `none` is a failed allocation
  pub strndup : Bytes → ℕ → Option Bytes
