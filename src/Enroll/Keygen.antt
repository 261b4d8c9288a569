-- ===== src/Enroll/Keygen.antt =====
-- src/est/est_server.c: est_handle_server_keygen. The callbacks of the application and what the handler
-- calls in OpenSSL are a parameter. Failures of malloc and of BIO_new are left out, and so are callers
-- that give no pointers for the key and the certificate.
pub mod Vetting
pub mod Delivery
use aims_libest.Prelude.{
  ℕ, ◌+◌, ◌*◌, Bytes, List, [], ◌∷◌, ◌++◌, Option, none, some, Bool, true, false, not, ◌==◌,
  if◌then◌else◌, is_some, ◌⊎◌, inl, inr, length, codes, decimal,
}
use aims_libest.Api.{
  EstError, Status, null_callback, bad_content_type, no_key, bad_pkcs10, x509_sign, http_write,
  ca_enroll_retry, ca_enroll_fail, EnrollReq, serverkeygen_req,
}
use aims_libest.Ossl.{X509, X509Req, PKey, Ssl, Ossl}
use aims_libest.Context.{Ctx}
use aims_libest.Conn.{Conn, note, ca_call, mg_write}
use aims_libest.Base64.{Bio, Encoded, refused, fits, overruns, base64_encode}
use aims_libest.Auth.Enroll.{Attempt, is_http, enroll_auth}
use aims_libest.Enroll.Handler.{wrong_type, is_authorized, refusal, csr_of, user_of, vet}

-- what the application's callback for the enrolment hands back, with the key, which it may replace
pub record KeygenReply : Type 0 where
  pub rc : Status
  pub cert : Bytes
  pub key : Bytes

-- the code, and the certificate and the key that go to the caller
pub record KeygenOutcome : Type 0 where
  pub status : Status
  pub cert : Option Bytes
  pub key : Option Bytes
  pub conn : Conn

pub record Keygen : Type 0 where
  -- ctx->keygen_cb: its code, and the new key
  pub keygen_cb : Option (Status × Option PKey)
  -- i2d_PrivateKey
  pub key_der : PKey → Bytes
  -- X509_REQ_set_pubkey and est_X509_REQ_sign, with the CSR that they leave
  pub set_pubkey : X509Req → PKey → Option X509Req
  pub sign : X509Req → PKey → Option X509Req
  -- i2d_X509_REQ_bio through base64
  pub req_body : X509Req → Bytes
  -- the callback with a handle, on the CSR, the key, the user, the certificate and the path segment
  pub enroll : ℕ → Bytes → Bytes → Option Bytes → Option X509 → Option Bytes → KeygenReply

abbrev pub key_hdr : Bytes
key_hdr =
    codes "--est-server-boundary\r\nContent-Type: application/pkcs8\r\n"
    ++ codes "Content-Transfer-Encoding: base64\r\n\r\n"

abbrev pub keygen_cert_hdr : Bytes
keygen_cert_hdr =
    codes "\r\n--est-server-boundary\r\n"
    ++ codes "Content-Type: application/pkcs7-mime; smime-type=certs-only\r\n"
    ++ codes "Content-Transfer-Encoding: base64\r\n\r\n"

abbrev pub final_hdr : Bytes
final_hdr = codes "\r\n--est-server-boundary--\r\n\r\n"

abbrev pub keygen_hdr : ℕ → Bytes
keygen_hdr n =
    codes "HTTP/1.1 200 OK\r\nStatus: 200 OK\r\n"
    ++ codes "Content-Type: multipart/mixed; boundary=est-server-boundary\r\nContent-Length: "
    ++ decimal n
    ++ codes "\r\n\r\n"

abbrev pub keygen_parts : Bytes → Bytes → List Bytes
keygen_parts key cert =
    keygen_hdr
      (length key_hdr + length key + length keygen_cert_hdr + length cert + length final_hdr)
    ∷ key_hdr
    ∷ key
    ∷ keygen_cert_hdr
    ∷ cert
    ∷ final_hdr
    ∷ []

-- the writes, up to the first that sends nothing
unfoldable pub write_all : Conn → List Bytes → Status × Conn
write_all conn [] = (none, conn)
write_all conn (part ∷ parts) =
    let (n, conn') = mg_write conn part in
    let rest = write_all conn' parts in if n == 0 then (some http_write, conn') else rest

abbrev pub keygen_failed : EstError → Conn → KeygenOutcome
keygen_failed e conn = record { status = some e; cert = none; key = none; conn = conn }

abbrev pub with_cert : Bytes → Bytes → Status × Conn → KeygenOutcome
with_cert key cert (none, conn) = record {
  status = none;
  cert = some cert;
  key = some key;
  conn = conn;
}
with_cert key cert (some e, conn) = keygen_failed e conn

-- from the return of the CA's callback on
unfoldable pub keygen_respond : Ctx → Conn → KeygenReply → KeygenOutcome
unfolding write_all
keygen_respond ctx conn reply = elim reply.rc [
  | some ca_enroll_retry ↦ keygen_failed ca_enroll_retry conn
  | some e ↦ keygen_failed ca_enroll_fail conn
  | none ↦
      if length reply.cert == 0
      then keygen_failed ca_enroll_fail conn
      else if is_http ctx.transport_mode
      then with_cert reply.key reply.cert (write_all conn (keygen_parts reply.key reply.cert))
      else with_cert reply.key reply.cert (none, conn)
]

-- the new key, with its base64; a keygen_failed encoding leaves it empty. `none` is a write out of bounds.
unfoldable pub key_text : Bio → Bytes → Option Bytes
key_text bio der = elim (base64_encode bio der (length der * 2) true) [
  | refused ↦ some []
  | fits text ↦ some text
  | overruns text ↦ none
]

-- the CSR with the new key, signed by it
unfoldable pub rekey : Keygen → X509Req → PKey → EstError ⊎ X509Req
rekey g csr key = elim (g.set_pubkey csr key) [
  | none ↦ inl bad_pkcs10
  | some csr1 ↦ elim (g.sign csr1 key) [ none ↦ inl x509_sign | some csr2 ↦ inr csr2 ]
]

abbrev pub new_key : Option (Status × Option PKey) → Option PKey
new_key (some (none, some key)) = some key
new_key _ = none

module _ (o : Ossl) (bio : Bio) (csrattrs : Ctx → Bytes → Option X509 → Status) (g : Keygen) where
  -- the CA is asked, if the checks of the new CSR have passed
  unfoldable pub keygen_ask :
      Ctx → ℕ → Option X509 → Bytes → Bytes → Option Bytes → Conn → Status → KeygenOutcome
  unfolding keygen_respond
  keygen_ask ctx cb peer body key path_seg conn (some e) = keygen_failed e conn
  keygen_ask ctx cb peer body key path_seg conn none =
      keygen_respond ctx (note conn (ca_call serverkeygen_req body))
        (g.enroll cb body key (user_of ctx conn) peer path_seg)

  unfoldable pub keygen_rekeyed :
      Ctx → ℕ → Ssl → Option X509 → Bytes → Option Bytes → Conn → EstError ⊎ X509Req → KeygenOutcome
  unfolding keygen_ask
  keygen_rekeyed ctx cb ssl peer key path_seg conn (inl e) = keygen_failed e conn
  keygen_rekeyed ctx cb ssl peer key path_seg conn (inr csr) =
      keygen_ask ctx cb peer (g.req_body csr) key path_seg conn
        (vet o csrattrs ctx ssl peer (g.req_body csr) csr)

  -- from the CSR on
  unfoldable pub keygen_csr :
      Ctx → ℕ → Ssl → Option X509 → Option Bytes → Conn → X509Req → Option KeygenOutcome
  unfolding key_text rekey keygen_rekeyed
  keygen_csr ctx cb ssl peer path_seg conn csr = elim (new_key g.keygen_cb) [
    | none ↦ some (keygen_failed no_key conn)
    | some key ↦ elim (key_text bio (g.key_der key)) [
      | none ↦ none
      | some text ↦ some (keygen_rekeyed ctx cb ssl peer text path_seg conn (rekey g csr key))
    ]
  ]

  -- from the authentication's result on
  unfoldable pub keygen_authorized :
      Ctx → ℕ → Ssl → Option X509 → Bytes → Option Bytes → Attempt → Option KeygenOutcome
  unfolding keygen_csr
  keygen_authorized ctx cb ssl peer body path_seg a =
      if not (is_authorized a.state)
      then some (keygen_failed (refusal a.state) a.conn)
      else elim (csr_of o a.csr body) [
        | none ↦ some (keygen_failed bad_pkcs10 a.conn)
        | some csr ↦ keygen_csr ctx cb ssl peer path_seg a.conn csr
      ]

  -- `none` is a call of a NULL callback in the authentication, or a write out of bounds.
  unfoldable pub handle_server_keygen :
      Ctx → Conn → Ssl → Option X509 → Bytes → Bytes → Option Bytes → Option KeygenOutcome
  unfolding keygen_authorized
  handle_server_keygen ctx conn ssl peer ct body path_seg = elim ctx.server_keygen_pkcs10_cb [
    | none ↦ some (keygen_failed null_callback conn)
    | some cb ↦
        if not (is_some g.keygen_cb)
        then some (keygen_failed null_callback conn)
        else if wrong_type ctx ct
        then some (keygen_failed bad_content_type conn)
        else elim (enroll_auth o ctx ssl conn path_seg serverkeygen_req body) [
          | none ↦ none
          | some a ↦ keygen_authorized ctx cb ssl peer body path_seg a
        ]
  ]
