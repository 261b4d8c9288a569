-- ===== src/Enroll/Keygen/Delivery.antt =====
-- src/est/est_server.c: what est_handle_server_keygen hands out when it succeeds.
use aims_libest.Prelude.{ℕ, Bytes, [], Option, none, some, false, ◌≡◌, ◌≢◌, ◌⊎◌, inr}
use aims_libest.Api.{Status, serverkeygen_req}
use aims_libest.Ossl.{X509, X509Req, PKey, Ssl, Ossl}
use aims_libest.Context.{Ctx}
use aims_libest.Conn.{Conn, note, ca_call}
use aims_libest.Base64.{Bio}
use aims_libest.Auth.Enroll.{Attempt, is_http, enroll_auth}
use aims_libest.Enroll.Handler.{csr_of, user_of}
use aims_libest.Enroll.Checks.{IsAuthorized, Checked}
use aims_libest.Enroll.Written.{Written}
use aims_libest.Enroll.Keygen.{
  KeygenReply, KeygenOutcome, Keygen, keygen_parts, key_text, rekey, new_key,
}

-- The caller has what the CA's callback has answered, and over HTTP every part of the response was
-- written, none of them with the count 0.
pub record HandedOut (ctx : Ctx) (conn : Conn) (reply : KeygenReply) (r : KeygenOutcome)
    : Type 0 where
  pub accepted : reply.rc ≡ none
  pub has_cert : reply.cert ≢ []
  pub cert : r.cert ≡ some reply.cert
  pub key : r.key ≡ some reply.key
  pub sent :
      (is_http ctx.transport_mode ≡ false) ⊎ Written conn (keygen_parts reply.key reply.cert) r.conn

module _ (o : Ossl) (bio : Bio) (csrattrs : Ctx → Bytes → Option X509 → Status) (g : Keygen)
    (ctx : Ctx) (ssl : Ssl) (peer : Option X509) (body : Bytes) (path_seg : Option Bytes) where
  abbrev pub reply_of : ℕ → X509Req → Bytes → Conn → KeygenReply
  reply_of cb csr text conn = g.enroll cb (g.req_body csr) text (user_of ctx conn) peer path_seg

  -- What has led to the answer that the caller gets.
  pub record Delivered (conn : Conn) (r : KeygenOutcome) : Type 0 where
    pub cb : ℕ
    pub auth : Attempt
    pub csr : X509Req
    pub key : PKey
    pub text : Bytes
    pub new_csr : X509Req
    pub set : ctx.server_keygen_pkcs10_cb ≡ some cb
    pub attempt : enroll_auth o ctx ssl conn path_seg serverkeygen_req body ≡ some auth
    pub authorized : IsAuthorized auth.state
    pub parsed : csr_of o auth.csr body ≡ some csr
    pub made : new_key g.keygen_cb ≡ some key
    pub encoded : key_text bio (g.key_der key) ≡ some text
    pub rekeyed : rekey g csr key ≡ inr new_csr
    pub checked : Checked o csrattrs ctx ssl peer (g.req_body new_csr) new_csr
    pub handed_out :
        HandedOut ctx
          (note auth.conn (ca_call serverkeygen_req (g.req_body new_csr)))
          (reply_of cb new_csr text auth.conn)
          r
