-- ===== src/Client/Enroll/Attempt.antt =====
-- src/est/est_client.c: what one attempt to enrol does on its connection.
use aims_libest.Prelude.{
  Bytes, List, [], ◌∷◌, Option, none, some, Bool, true, false, inl, inr, ◌≡◌, refl, arith,
  if◌then◌else◌, ◌⊎◌, length, pos,
}
use mathlib.Core.Option
use aims_libest.Api.{EstError, Status}
use aims_libest.Ossl.{X509Req, PKey}
use aims_libest.Base64.{Bio}
use aims_libest.Client.{Client, ClientEvent, wrote, note_client}
use aims_libest.Client.Host.{Names}
use aims_libest.Client.Request.{EnrollOp, Crypto, build_header, put_together}
use aims_libest.Client.Response.{get_response}
use aims_libest.Client.Response.Outer.{outer, get_response-outer}
use aims_libest.Client.Enroll.{
  Net, CsrApi, Result, op_of, with_credentials, enroll_answer, exchange, send_enroll_request,
  put_body, enroll_req, keep_cert, enroll_pkcs10, sign_and_send, generate_pkcs10, generated,
  with_pop, with_uid, enroll_cn, send_generated, is_auth_fail, needs_pop,
}

-- a property of what an option holds
abbrev pub AllSome : {A : Type 0} → (A → Type 0) → Option A → Type 0
AllSome P none = Unit
AllSome P (some x) = P x

-- what both results of a test have
pub if_both :
    {A : Type 0} (P : A → Type 0) (x y : A) (b : Bool) → P x → P y → P (if b then x else y)
if_both P x y true p q = p
if_both P x y false p q = q

-- what an attempt on a connection has done
pub data Attempted (ctx : Client) (r : Result) : Type 0 where
  unsent : is_auth_fail r.status ≡ false → outer r.ctx ≡ outer ctx → Attempted ctx r
  sent :
      (request : Bytes)
      → outer r.ctx ≡ outer (note_client ctx (wrote (with_credentials ctx.auth_mode) request))
      → Attempted ctx r

abbrev pub events_of : List ClientEvent × Bytes × Bool → List ClientEvent
events_of p = p.0

abbrev pub server_of : List ClientEvent × Bytes × Bool → Bytes
server_of p = p.1

abbrev pub srp_of : List ClientEvent × Bytes × Bool → Bool
srp_of p = p.2

pub enroll_answer-outer :
    (s : Status × Client × Option Bytes) → outer (enroll_answer s).1 ≡ outer s.1
enroll_answer-outer (some e, ctx, body) = refl
enroll_answer-outer (none, ctx, none) = refl
enroll_answer-outer (none, ctx, some cert) = ground arith

keep_cert-Attempted :
    (ctx : Client) (csr : X509Req) (request : Bytes) (s : Status × Client × Option Bytes)
    → outer s.1 ≡ outer (note_client ctx (wrote (with_credentials ctx.auth_mode) request))
    → Attempted ctx (keep_cert csr s)
keep_cert-Attempted ctx csr request (some e, c, cert) h = sent request h
keep_cert-Attempted ctx csr request (none, c, none) h = sent request h
keep_cert-Attempted ctx csr request (none, c, some cert) h = sent request h

module _ (net : Net) (names : Names) (api : CsrApi) (bio : Bio) (crypto : Crypto) where
  exchange-outer :
      (ctx : Client) (op : EnrollOp) (request : Bytes)
      → outer (exchange net names api bio crypto ctx op request).1
        ≡ outer (note_client ctx (wrote (with_credentials ctx.auth_mode) request))
  unfolding exchange
  exchange-outer ctx op request =
      let written : Client =
        note_client (record ctx { last_http_status = pos 0 })
          (wrote (with_credentials ctx.auth_mode) request) in
      let a = enroll_answer-outer (
        get_response net.next_fields written (op_of op) (net.reads written.log)
          (net.peek written.log)) in
      let b =
        get_response-outer net.next_fields written (op_of op) (net.reads written.log)
          (net.peek written.log) in
      ground arith

  exchange-Attempted :
      (ctx : Client) (op : EnrollOp) (csr : X509Req) (request : Option Bytes)
      → AllSome (Attempted ctx) (
          Option.map
            (keep_cert csr)
            (Option.map (exchange net names api bio crypto ctx op) request))
  exchange-Attempted ctx op csr none = tt
  exchange-Attempted ctx op csr (some request) =
      keep_cert-Attempted ctx csr request (exchange net names api bio crypto ctx op request)
        (exchange-outer ctx op request)

  put_body-Attempted :
      (ctx : Client) (op : EnrollOp) (csr : X509Req) (hdr : Option Bytes)
      → AllSome
          (Attempted ctx)
          (Option.map (keep_cert csr) (put_body net names api bio crypto ctx op (api.body csr) hdr))
  put_body-Attempted ctx op csr none = tt
  put_body-Attempted ctx op csr (some []) = unsent refl refl
  put_body-Attempted ctx op csr (some (c ∷ hdr)) =
      exchange-Attempted ctx op csr (put_together (c ∷ hdr) (api.body csr))

  pub enroll_req-Attempted :
      (ctx : Client) (op : EnrollOp) (csr : X509Req)
      → AllSome (Attempted ctx) (enroll_req net names api bio crypto ctx op csr)
  unfolding enroll_req send_enroll_request
  enroll_req-Attempted ctx op csr =
      put_body-Attempted ctx op csr (build_header bio crypto ctx op (length (api.body csr)))

  generate_pkcs10-error :
      (ctx : Client) (cn uid : Bytes) (key : PKey) (e : EstError)
      → generate_pkcs10 net names api bio crypto ctx cn uid key ≡ inl e
      → is_auth_fail (some e) ≡ false
  unfolding generate_pkcs10
  generate_pkcs10-error ctx cn uid key e h = ground arith

  send_generated-Attempted :
      (ctx : Client) (op : EnrollOp) (g : EstError ⊎ X509Req)
      → ((e : EstError) → g ≡ inl e → is_auth_fail (some e) ≡ false)
      → AllSome (Attempted ctx) (send_generated net names api bio crypto ctx op g)
  send_generated-Attempted ctx op (inl e) h = unsent (h e refl) refl
  send_generated-Attempted ctx op (inr csr) h = enroll_req-Attempted ctx op csr

  generated-Attempted :
      (ctx : Client) (op : EnrollOp) (cn : Bytes) (key : PKey) (uid : Option Bytes)
      → AllSome (Attempted ctx) (generated net names api bio crypto ctx op cn key uid)
  generated-Attempted ctx op cn key none = unsent refl refl
  generated-Attempted ctx op cn key (some uid) =
      send_generated-Attempted ctx op (generate_pkcs10 net names api bio crypto ctx cn uid key)
        (generate_pkcs10-error ctx cn uid key)

  pub enroll_cn-Attempted :
      (ctx : Client) (op : EnrollOp) (cn : Bytes) (key : PKey)
      → AllSome (Attempted ctx) (enroll_cn net names api bio crypto ctx op cn key)
  unfolding enroll_cn
  enroll_cn-Attempted ctx op cn key = generated-Attempted ctx op cn key (net.tls_uid ctx.log)

  sign_and_send-Attempted :
      (ctx : Client) (op : EnrollOp) (key : PKey) (csr : X509Req) (signed : Option X509Req)
      → AllSome (Attempted ctx) (sign_and_send net names api bio crypto ctx op key csr signed)
  sign_and_send-Attempted ctx op key csr none = unsent refl refl
  sign_and_send-Attempted ctx op key csr (some signed) = enroll_req-Attempted ctx op signed

  with_pop-Attempted :
      (ctx : Client) (op : EnrollOp) (key : PKey) (csr : X509Req) (added : Option X509Req)
      → AllSome (Attempted ctx) (with_pop net names api bio crypto ctx op key csr added)
  with_pop-Attempted ctx op key csr none = unsent refl refl
  with_pop-Attempted ctx op key csr (some added) =
      sign_and_send-Attempted ctx op key added (api.sign added key)

  with_uid-Attempted :
      (ctx : Client) (op : EnrollOp) (key : PKey) (csr : X509Req) (uid : Option Bytes)
      → AllSome (Attempted ctx) (with_uid net names api bio crypto ctx op key csr uid)
  with_uid-Attempted ctx op key csr none = unsent refl refl
  with_uid-Attempted ctx op key csr (some uid) =
      with_pop-Attempted ctx op key csr (api.add_challenge csr uid)

  pub enroll_pkcs10-Attempted :
      (ctx : Client) (op : EnrollOp) (key : PKey) (csr : X509Req)
      → AllSome (Attempted ctx) (enroll_pkcs10 net names api bio crypto ctx op key csr)
  unfolding enroll_pkcs10
  enroll_pkcs10-Attempted ctx op key csr =
      let cleared = api.clear_challenge csr in
      if_both (AllSome (Attempted ctx)) _ _ (needs_pop ctx)
        (with_uid-Attempted ctx op key cleared (net.tls_uid ctx.log))
        (sign_and_send-Attempted ctx op key cleared (api.sign cleared key))
