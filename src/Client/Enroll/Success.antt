-- ===== src/Client/Enroll/Success.antt =====
-- src/est/est_client.c: what a client has after an enrolment that succeeds.
use aims_libest.Prelude.{
  ◌&&◌, ap, not, Bytes, [], ◌∷◌, Option, none, some, Bool, Bool-cases, true, false, inl, inr, ◌≡◌,
  refl, arith, ◌⊎◌, length, pos, subst,
}
use mathlib.Core.Option
use aims_libest.Api.{EstError, Status, auth_none}
use aims_libest.Ossl.{X509Req, PKey}
use aims_libest.Base64.{Bio}
use aims_libest.Client.{Client, wrote, disconnected, note_client}
use aims_libest.Client.Host.{Names}
use aims_libest.Client.Request.{EnrollOp, Crypto, build_header, put_together}
use aims_libest.Client.Response.{get_response, io_read_raw, answered}
use aims_libest.Client.Enroll.{
  Net, CsrApi, Result, op_of, with_credentials, exchange, send_enroll_request, put_body, enroll_req,
  keep_cert, generate_pkcs10, generated, enroll_cn, send_generated, is_auth_fail, is_digest,
  session, closed, on_connection, with_retry, first, second, client_enroll, forget_mode,
  clear_tokens, where_failed, connect,
}
use aims_libest.Client.Enroll.Kept.{
  Enrolled, answered-Accepted, enrolls, answer-Enrolled, kept_elsewhere, close-Enrolled,
}
use aims_libest.Client.Enroll.Attempt.{AllSome, if_both, events_of}
use aims_libest.Client.Response.Outer.{get_response-outer}

-- a connection that succeeds was made
abbrev Succeeds : Net → EnrollOp → Bool × Result → Type 0
Succeeds net op s = s.1.status ≡ none → (s.0 ≡ true) × Enrolled net op (disconnected ∷ []) s.1

-- what an enrolment that succeeds leaves
abbrev pub Finished : Net → EnrollOp → Result → Type 0
Finished net op r =
    r.status ≡ none → Enrolled net op (disconnected ∷ []) r × (r.ctx.auth_mode ≡ auth_none)

closed-Succeeds :
    (net : Net) (op : EnrollOp) (r : Option Result)
    → AllSome (λ (r : Result). r.status ≡ none → Enrolled net op [] r) r
    → AllSome (Succeeds net op) (closed r)
closed-Succeeds net op none a = tt
closed-Succeeds net op (some r) a = λ h. (refl, close-Enrolled r (a h))

where_failed-kept :
    (st : Status) (c : Client)
    → (where_failed clear_tokens st c).enrolled_client_cert ≡ c.enrolled_client_cert
where_failed-kept none c = refl
where_failed-kept (some e) c = refl

where_failed-log : (st : Status) (c : Client) → (where_failed clear_tokens st c).log ≡ c.log
where_failed-log none c = refl
where_failed-log (some e) c = refl

module _ (net : Net) (names : Names) (api : CsrApi) (bio : Bio) (crypto : Crypto) where
  exchange-Enrolled :
      (ctx : Client) (op : EnrollOp) (csr : X509Req) (request : Option Bytes)
      → AllSome
          (λ (r : Result). r.status ≡ none → Enrolled net op [] r)
          (Option.map
            (keep_cert csr)
            (Option.map (exchange net names api bio crypto ctx op) request))
  unfolding exchange get_response answered
  exchange-Enrolled ctx op csr none = tt
  exchange-Enrolled ctx op csr (some request) =
      let written : Client =
        note_client (record ctx { last_http_status = pos 0 })
          (wrote (with_credentials ctx.auth_mode) request) in
      if_both
        (λ (s : Status × Client × Option Bytes).
          (keep_cert csr s).status ≡ none → Enrolled net op [] (keep_cert csr s))
        _ _ (not (net.write written.log)) (λ h. absurd (ground arith))
        (answer-Enrolled net op csr (with_credentials ctx.auth_mode) request ctx.log _
          (answered-Accepted net.next_fields written (op_of op) (enrolls op)
            (io_read_raw (net.reads written.log) (net.peek written.log)))
          (ap events_of (
            get_response-outer net.next_fields written (op_of op) (net.reads written.log)
              (net.peek written.log))))

  put_body-Enrolled :
      (ctx : Client) (op : EnrollOp) (csr : X509Req) (hdr : Option Bytes)
      → AllSome
          (λ (r : Result). r.status ≡ none → Enrolled net op [] r)
          (Option.map (keep_cert csr) (put_body net names api bio crypto ctx op (api.body csr) hdr))
  put_body-Enrolled ctx op csr none = tt
  put_body-Enrolled ctx op csr (some []) = λ h. absurd (ground arith)
  put_body-Enrolled ctx op csr (some (c ∷ hdr)) =
      exchange-Enrolled ctx op csr (put_together (c ∷ hdr) (api.body csr))

  enroll_req-Enrolled :
      (ctx : Client) (op : EnrollOp) (csr : X509Req)
      → AllSome
          (λ (r : Result). r.status ≡ none → Enrolled net op [] r)
          (enroll_req net names api bio crypto ctx op csr)
  unfolding enroll_req send_enroll_request
  enroll_req-Enrolled ctx op csr =
      put_body-Enrolled ctx op csr (build_header bio crypto ctx op (length (api.body csr)))

  generated-Enrolled :
      (ctx : Client) (op : EnrollOp) (cn : Bytes) (key : PKey) (uid : Option Bytes)
      → AllSome
          (λ (r : Result). r.status ≡ none → Enrolled net op [] r)
          (generated net names api bio crypto ctx op cn key uid)
  generated-Enrolled ctx op cn key none = λ h. absurd (ground arith)
  generated-Enrolled ctx op cn key (some uid) =
      send_generated-Enrolled (generate_pkcs10 net names api bio crypto ctx cn uid key)
    where
      send_generated-Enrolled :
          (g : EstError ⊎ X509Req)
          → AllSome
              (λ (r : Result). r.status ≡ none → Enrolled net op [] r)
              (send_generated net names api bio crypto ctx op g)
      send_generated-Enrolled (inl e) = λ h. absurd (ground arith)
      send_generated-Enrolled (inr csr) = enroll_req-Enrolled ctx op csr

  enroll_cn-Enrolled :
      (ctx : Client) (op : EnrollOp) (cn : Bytes) (key : PKey)
      → AllSome
          (λ (r : Result). r.status ≡ none → Enrolled net op [] r)
          (enroll_cn net names api bio crypto ctx op cn key)
  unfolding enroll_cn
  enroll_cn-Enrolled ctx op cn key = generated-Enrolled ctx op cn key (net.tls_uid ctx.log)

  on_connection-Succeeds :
      (op : EnrollOp) (attempt : X509Req → Client → Option Result) (csr : X509Req)
      (s : Status × Client)
      → ((csr : X509Req) (c : Client)
          → AllSome (λ (r : Result). r.status ≡ none → Enrolled net op [] r) (attempt csr c))
      → AllSome (Succeeds net op) (on_connection net names api bio crypto attempt csr s)
  on_connection-Succeeds op attempt csr (some e, ctx) a = λ h. absurd (ground arith)
  on_connection-Succeeds op attempt csr (none, ctx) a =
      closed-Succeeds net op (attempt csr ctx) (a csr ctx)

  session-Succeeds :
      (op : EnrollOp) (attempt : X509Req → Client → Option Result) (csr : X509Req) (ctx : Client)
      → ((csr : X509Req) (c : Client)
          → AllSome (λ (r : Result). r.status ≡ none → Enrolled net op [] r) (attempt csr c))
      → AllSome (Succeeds net op) (session net names api bio crypto attempt csr ctx)
  unfolding session
  session-Succeeds op attempt csr ctx a =
      on_connection-Succeeds op attempt csr (connect net names api bio crypto ctx) a

  second-Finished :
      (op : EnrollOp) (s : Option (Bool × Result))
      → AllSome (Succeeds net op) s
      → AllSome (Finished net op) (second net names api bio crypto forget_mode clear_tokens s)
  second-Finished op none a = tt
  second-Finished op (some (false, r)) a = λ h. let (b, x) = a h in absurd (ground arith)
  second-Finished op (some (true, r)) a = λ h.
      let (b, x) = a h in
      (
        kept_elsewhere r _ (where_failed-kept r.status r.ctx) refl (where_failed-log r.status r.ctx)
            x,
        refl,
      )

  first-Finished :
      (op : EnrollOp) (attempt : X509Req → Client → Option Result) (s : Option (Bool × Result))
      → ((csr : X509Req) (c : Client)
          → AllSome (λ (r : Result). r.status ≡ none → Enrolled net op [] r) (attempt csr c))
      → AllSome (Succeeds net op) s
      → AllSome
          (Finished net op)
          (first net names api bio crypto forget_mode clear_tokens attempt s)
  first-Finished op attempt none a t = tt
  first-Finished op attempt (some (false, r)) a t = λ h. let (b, x) = t h in absurd (ground arith)
  first-Finished op attempt (some (true, r)) a t =
      if_both (AllSome (Finished net op)) _ _
        (is_auth_fail r.status && with_credentials r.ctx.auth_mode)
        (if_both (AllSome (Finished net op)) _ _ (is_digest r.ctx.auth_mode && net.fips_mode)
          (λ h. absurd (ground arith))
          (second-Finished op (session net names api bio crypto attempt r.csr r.ctx)
            (session-Succeeds op attempt r.csr r.ctx a)))
        (λ h. let (b, x) = t h in (kept_elsewhere r _ refl refl refl x, refl))

  -- An enrolment that succeeds leaves a certificate in the context, whose length the caller gets and which
  -- has at most 4096 bytes. It is the body of the response read behind the last request of the run,
  -- which the log of the run holds, the connection having been closed behind it, with the status 200, the
  -- content type of the operation, and a Content-Length that atoi reads as its length. No
  -- authentication mode is kept.
  pub client_enroll-Finished :
      (ctx : Client) (op : EnrollOp) (cn : Bytes) (key : Option PKey) (r : Result)
      → client_enroll net names api bio crypto ctx op cn key ≡ some r
      → r.status ≡ none
      → Enrolled net op (disconnected ∷ []) r × (r.ctx.auth_mode ≡ auth_none)
  unfolding client_enroll with_retry
  client_enroll-Finished ctx op cn none r e h = absurd (ground arith)
  client_enroll-Finished ctx op cn (some key) r e h = elim (Bool-cases ctx.est_client_initialized) [
    | inr b ↦ absurd (ground arith)
    | inl b ↦
        let attempt : X509Req → Client → Option Result =
          λ csr c. enroll_cn net names api bio crypto c op cn key in
        let made : AllSome (Finished net op)
            (with_retry net names api bio crypto forget_mode clear_tokens attempt api.fresh ctx) =
          first-Finished op attempt (session net names api bio crypto attempt api.fresh ctx)
            (λ csr c. enroll_cn-Enrolled c op cn key)
            (session-Succeeds op attempt api.fresh ctx (λ csr c. enroll_cn-Enrolled c op cn key)) in
        let is_some : with_retry net names api bio crypto forget_mode clear_tokens attempt api.fresh
              ctx
            ≡ some r =
          ground arith in
        subst (AllSome (Finished net op)) is_some made h
  ]
