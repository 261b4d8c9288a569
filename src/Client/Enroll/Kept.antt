-- ===== src/Client/Enroll/Kept.antt =====
-- src/est/est_client.c, est_client_enroll_req: the certificate that a client keeps of the answer to its
-- request.
use aims_libest.Prelude.{
  ◌∙◌, ltb, ap, Bytes, List, [], ◌∷◌, ◌++◌, Option, none, some, Bool, Bool-cases, inl, inr, ◌≡◌,
  ◌≢◌, append_assoc, refl, arith, sym, ◌≤◌, length, subst,
}
use mathlib.Core.Option
use aims_libest.Api.{Status, Operation, server_keygen}
use aims_libest.Ossl.{X509Req}
use aims_libest.Client.{Client, ClientEvent, wrote, disconnected}
use aims_libest.Client.Request.{EnrollOp, op_simple_enroll, op_simple_reenroll}
use aims_libest.Client.Response.{io_read_raw, answered}
use aims_libest.Client.Response.Accepted.{Accepted, read_response-Accepted}
use aims_libest.Client.Enroll.{Net, Result, op_of, enroll_answer, keep_cert, close}
use aims_libest.Client.Enroll.Attempt.{events_of, enroll_answer-outer}

pub answered-Accepted :
    (next_fields : Bytes → List Bytes) (ctx : Client) (op : Operation)
    → op ≢ server_keygen
    → (s : Status × Bytes) → (answered next_fields ctx op s).0 ≡ none
    → Accepted op s.1 (answered next_fields ctx op s).2
unfolding answered
answered-Accepted next_fields ctx op n (some e, buf) h = absurd (ground arith)
answered-Accepted next_fields ctx op n (none, []) h = absurd (ground arith)
answered-Accepted next_fields ctx op n (none, c ∷ buf) h =
    (read_response-Accepted next_fields ctx op (c ∷ buf) n h).1

pub enrolls : (op : EnrollOp) → op_of op ≢ server_keygen
enrolls op_simple_enroll e = absurd (ground arith)
enrolls op_simple_reenroll e = absurd (ground arith)

enroll_answer-none :
    (s : Status × Client × Option Bytes)
    → (enroll_answer s).0 ≡ none
    → (s.0 ≡ none)
      × ((cert : Bytes) × (s.2 ≡ some cert)
          × ((enroll_answer s).2 ≡ some cert)
          × (length cert ≤ 4096))
enroll_answer-none (some e, ctx, body) h = absurd (ground arith)
enroll_answer-none (none, ctx, none) h = absurd (ground arith)
enroll_answer-none (none, ctx, some cert) h = elim (Bool-cases (ltb 4096 (length cert))) [
  | inl b ↦ absurd (ground arith)
  | inr b ↦ (refl, (cert, refl, ground arith, ground arith))
]

-- The certificate that a request has got is kept in the context, with its length, and comes from a
-- response with the status 200 and the right headers, which was read right behind the request. Behind
-- that there are no events but those given.
pub record Enrolled (net : Net) (op : EnrollOp) (later : List ClientEvent) (r : Result)
    : Type 0 where
  pub cert : Bytes
  pub kept : r.ctx.enrolled_client_cert ≡ some cert
  pub sized : r.pkcs7_len ≡ some (length cert)
  pub is_bounded : length cert ≤ 4096
  pub credentials : Bool
  pub request : Bytes
  pub before : List ClientEvent
  pub logged : r.ctx.log ≡ before ++ wrote credentials request ∷ later
  pub accepted :
      Accepted
        (op_of op)
        (io_read_raw
          (net.reads (before ++ wrote credentials request ∷ []))
          (net.peek (before ++ wrote credentials request ∷ []))).1
        (some cert)

keep_cert-status :
    (csr : X509Req) (s : Status × Client × Option Bytes) → (keep_cert csr s).status ≡ s.0
keep_cert-status csr (some e, ctx, cert) = refl
keep_cert-status csr (none, ctx, none) = refl
keep_cert-status csr (none, ctx, some cert) = refl

keep_cert-log :
    (csr : X509Req) (s : Status × Client × Option Bytes) → (keep_cert csr s).ctx.log ≡ s.1.log
keep_cert-log csr (some e, ctx, cert) = refl
keep_cert-log csr (none, ctx, none) = refl
keep_cert-log csr (none, ctx, some cert) = refl

keep_cert-kept :
    (csr : X509Req) (s : Status × Client × Option Bytes) (cert : Bytes)
    → s.0 ≡ none
    → s.2 ≡ some cert
    → ((keep_cert csr s).ctx.enrolled_client_cert ≡ some cert)
      × ((keep_cert csr s).pkcs7_len ≡ some (length cert))
keep_cert-kept csr (some e, ctx, c) cert h k = absurd (ground arith)
keep_cert-kept csr (none, ctx, none) cert h k = absurd (ground arith)
keep_cert-kept csr (none, ctx, some c) cert h k = (k, ap (Option.map length) k)

pub answer-Enrolled :
    (net : Net) (op : EnrollOp) (csr : X509Req) (credentials : Bool) (request : Bytes)
    (before : List ClientEvent) (s : Status × Client × Option Bytes)
    → (s.0 ≡ none
        → Accepted
            (op_of op)
            (io_read_raw
              (net.reads (before ++ wrote credentials request ∷ []))
              (net.peek (before ++ wrote credentials request ∷ []))).1
            s.2)
    → s.1.log ≡ before ++ wrote credentials request ∷ []
    → (keep_cert csr (enroll_answer s)).status ≡ none
    → Enrolled net op [] (keep_cert csr (enroll_answer s))
answer-Enrolled net op csr credentials request before s a l h =
    let ok = sym (keep_cert-status csr (enroll_answer s)) ∙ h in
    let (z, (cert, body, is_cert, fits)) = enroll_answer-none s ok in
    let (k, n) = keep_cert-kept csr (enroll_answer s) cert ok is_cert in
    record {
      cert = cert;
      kept = k;
      sized = n;
      is_bounded = fits;
      credentials = credentials;
      request = request;
      before = before;
      logged = keep_cert-log csr (enroll_answer s) ∙ ap events_of (enroll_answer-outer s) ∙ l;
      accepted =
          subst
            (Accepted (op_of op)
              (io_read_raw (net.reads (before ++ wrote credentials request ∷ []))
                (net.peek (before ++ wrote credentials request ∷ []))).1)
            body (a z);
    }

pub kept_elsewhere :
    {net : Net} {op : EnrollOp} {later : List ClientEvent} (r q : Result)
    → q.ctx.enrolled_client_cert ≡ r.ctx.enrolled_client_cert
    → q.pkcs7_len ≡ r.pkcs7_len
    → q.ctx.log ≡ r.ctx.log
    → Enrolled net op later r
    → Enrolled net op later q
kept_elsewhere r q e f g x = record {
  cert = x.cert;
  kept = e ∙ x.kept;
  sized = f ∙ x.sized;
  is_bounded = x.is_bounded;
  credentials = x.credentials;
  request = x.request;
  before = x.before;
  logged = g ∙ x.logged;
  accepted = x.accepted;
}

-- closing the connection notes that it is gone
pub close-Enrolled :
    {net : Net} {op : EnrollOp} (r : Result)
    → Enrolled net op [] r
    → Enrolled net op (disconnected ∷ []) (record r { ctx = close r.ctx })
close-Enrolled r x = record {
  cert = x.cert;
  kept = x.kept;
  sized = x.sized;
  is_bounded = x.is_bounded;
  credentials = x.credentials;
  request = x.request;
  before = x.before;
  logged =
      ap (λ l. l ++ disconnected ∷ []) x.logged
      ∙ append_assoc x.before (wrote x.credentials x.request ∷ []) (disconnected ∷ []);
  accepted = x.accepted;
}
