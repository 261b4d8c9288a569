-- ===== src/Client/Enroll/Trace.antt =====
-- src/est/est_client.c: what a client does on its connections for one enrolment.
use aims_libest.Prelude.{
  Bytes, List, [], ◌∷◌, ◌++◌, Option, Option-cases, none, some, Bool, Bool-cases, true, false, inl,
  inr, ◌≡◌, refl, ◌∙◌, arith, not, ◌&&◌, sym, ap, append_assoc, if◌then◌else◌, ◌⊎◌, subst,
}
use aims_libest.Api.{
  EstError, Status, auth_none, fqdn_mismatch, ip_getaddr, ip_connect, ssl_new, ssl_connect,
}
use aims_libest.Ossl.{X509, X509Req, PKey}
use aims_libest.Base64.{Bio}
use aims_libest.Client.{Client, ClientEvent, connected, disconnected, wrote, note_client}
use aims_libest.Client.Host.{Names, verifyhost}
use aims_libest.Client.Request.{EnrollOp, Crypto}
use aims_libest.Client.Enroll.{
  Net, CsrApi, Result, with_credentials, check_fqdn, after_fqdn, TcwErr, tcw_ok, tcw_resolv,
  tcw_other, on_socket, connect, enroll_cn, is_auth_fail, session, closed, on_connection,
  with_retry, first, second, client_enroll, client_enroll_csr, csr_attempt, unchanged, forget_mode,
  clear_tokens, close, where_failed, is_digest,
}
use aims_libest.Client.Enroll.Attempt.{
  AllSome, if_both, Attempted, unsent, sent, events_of, server_of, srp_of, enroll_req-Attempted,
  enroll_cn-Attempted, enroll_pkcs10-Attempted,
}

where_failed-log :
    (cleared : Client → Client)
    → ((c : Client) → (cleared c).log ≡ c.log)
    → (st : Status) (c : Client) → (where_failed cleared st c).log ≡ c.log
where_failed-log cleared g none c = refl
where_failed-log cleared g (some e) c = g c

module _ (net : Net) (names : Names) (api : CsrApi) (bio : Bio) (crypto : Crypto) where
  -- the server of a connection is the one that the client wants, by its certificate or by SRP
  pub data Identified (server : Bytes) (srp : Bool) (before : List ClientEvent) : Type 0 where
    by_certificate :
        (cert : X509)
        → net.peer_certificate before ≡ some cert
        → verifyhost names server cert ≡ none
        → Identified server srp before
    by_srp : net.peer_certificate before ≡ none → srp ≡ true → Identified server srp before

  -- one request on a connection of its own, after the server has been identified
  pub data Asked (server : Bytes) (srp credentials : Bool) (before after : List ClientEvent)
      : Type 0 where
    asked :
        Identified server srp before
        → (request : Bytes)
        → after ≡ before ++ connected ∷ wrote credentials request ∷ disconnected ∷ []
        → Asked server srp credentials before after

  -- no request, with or without a connection
  pub data Quiet (before after : List ClientEvent) : Type 0 where
    unreached : after ≡ before → Quiet before after
    refused : after ≡ before ++ connected ∷ disconnected ∷ [] → Quiet before after

  -- what an enrolment does: at most one request without credentials, and only after it at most one with
  -- credentials
  pub data Visits (server : Bytes) (srp : Bool) (before after : List ClientEvent) : Type 0 where
    quiet : Quiet before after → Visits server srp before after
    once : Asked server srp false before after → Visits server srp before after
    again :
        (between : List ClientEvent)
        → Asked server srp false before between
        → Quiet between after
        → Visits server srp before after
    twice :
        (between : List ClientEvent)
        → Asked server srp false before between
        → Asked server srp true between after
        → Visits server srp before after

  -- the connection of an attempt
  data Session (ctx : Client) (s : Bool × Result) : Type 0 where
    no_request :
        (s.0 ≡ false) ⊎ (is_auth_fail s.1.status ≡ false)
        → Quiet ctx.log s.1.ctx.log
        → Session ctx s
    request :
        s.1.ctx.est_server ≡ ctx.est_server
        → s.1.ctx.enable_srp ≡ ctx.enable_srp
        → Asked ctx.est_server ctx.enable_srp (with_credentials ctx.auth_mode) ctx.log s.1.ctx.log
        → Session ctx s

  close-Session :
      (ctx : Client) (r : Result)
      → Identified ctx.est_server ctx.enable_srp ctx.log
      → Attempted (note_client ctx connected) r
      → Session ctx (true, record r { ctx = close r.ctx })
  close-Session ctx r i (unsent f o) = no_request (inr f) (
      refused (
        ap (λ (l : List ClientEvent). l ++ disconnected ∷ []) (ap events_of o)
        ∙ append_assoc ctx.log (connected ∷ []) (disconnected ∷ [])))
  close-Session ctx r i (sent req o) =
      let credentials = with_credentials ctx.auth_mode in
      request (ap server_of o) (ap srp_of o) (
        asked i req (
          ap (λ (l : List ClientEvent). l ++ disconnected ∷ []) (ap events_of o)
          ∙ append_assoc (ctx.log ++ connected ∷ []) (wrote credentials req ∷ [])
              (disconnected ∷ [])
          ∙ append_assoc ctx.log (connected ∷ []) (wrote credentials req ∷ disconnected ∷ [])))

  closed-Session :
      (ctx : Client) (r : Option Result)
      → Identified ctx.est_server ctx.enable_srp ctx.log
      → AllSome (Attempted (note_client ctx connected)) r
      → AllSome (Session ctx) (closed r)
  closed-Session ctx none i a = tt
  closed-Session ctx (some r) i a = close-Session ctx r i a

  -- a connection that is made, that is given up, or that is not made
  data Connected (ctx : Client) : Status × Client → Type 0 where
    made :
        Identified ctx.est_server ctx.enable_srp ctx.log
        → Connected ctx (none, note_client ctx connected)
    given_up :
        (e : EstError)
        → Connected ctx (some e, note_client (note_client ctx connected) disconnected)
    not_made : (e : EstError) → Connected ctx (some e, ctx)

  srp-Connected :
      (ctx : Client) (srp : Bool)
      → net.peer_certificate ctx.log ≡ none
      → ctx.enable_srp ≡ srp
      → Connected ctx (
          after_fqdn net names api bio crypto
            (note_client ctx connected)
            (if srp then none else some fqdn_mismatch))
  srp-Connected ctx true h b = made (by_srp h b)
  srp-Connected ctx false h b = given_up fqdn_mismatch

  fqdn-Connected :
      (ctx : Client) (cert : Option X509)
      → net.peer_certificate ctx.log ≡ cert
      → Connected ctx (
          after_fqdn net names api bio crypto
            (note_client ctx connected)
            (check_fqdn net names api bio crypto ctx cert))
  fqdn-Connected ctx none h = srp-Connected ctx ctx.enable_srp h refl
  fqdn-Connected ctx (some cert) h = elim (Option-cases (verifyhost names ctx.est_server cert)) [
    | inl v ↦ rw v (made (by_certificate cert h v))
    | inr (e, v) ↦ rw v (given_up fqdn_mismatch)
  ]

  on_socket-Connected :
      (ctx : Client) (e : TcwErr) → Connected ctx (on_socket net names api bio crypto ctx e)
  on_socket-Connected ctx tcw_resolv = not_made ip_getaddr
  on_socket-Connected ctx tcw_other = not_made ip_connect
  on_socket-Connected ctx tcw_ok =
      if_both (Connected ctx) _ _ (not (net.setsockopt ctx.log)) (not_made ip_connect) (
        if_both (Connected ctx) _ _ (not (net.bio_new_socket ctx.log)) (not_made ip_connect) (
          if_both (Connected ctx) _ _ (not (net.new_ssl ctx.log)) (not_made ssl_new) (
            if_both (Connected ctx) _ _ (not (net.connect_ssl ctx.log)) (not_made ssl_connect)
              (fqdn-Connected ctx (net.peer_certificate ctx.log) refl))))

  connect-Connected : (ctx : Client) → Connected ctx (connect net names api bio crypto ctx)
  unfolding connect
  connect-Connected ctx = on_socket-Connected ctx (net.tcw_connect ctx.log)

  on_connection-Session :
      (attempt : X509Req → Client → Option Result) (csr : X509Req) (ctx : Client)
      (s : Status × Client)
      → ((csr : X509Req) (c : Client) → AllSome (Attempted c) (attempt csr c))
      → Connected ctx s
      → AllSome (Session ctx) (on_connection net names api bio crypto attempt csr s)
  on_connection-Session attempt csr ctx _ a (made i) =
      closed-Session ctx (attempt csr (note_client ctx connected)) i
        (a csr (note_client ctx connected))
  on_connection-Session attempt csr ctx _ a (given_up e) =
      no_request (inl refl) (refused (append_assoc ctx.log (connected ∷ []) (disconnected ∷ [])))
  on_connection-Session attempt csr ctx _ a (not_made e) = no_request (inl refl) (unreached refl)

  session-Session :
      (attempt : X509Req → Client → Option Result) (csr : X509Req) (ctx : Client)
      → ((csr : X509Req) (c : Client) → AllSome (Attempted c) (attempt csr c))
      → AllSome (Session ctx) (session net names api bio crypto attempt csr ctx)
  unfolding session
  session-Session attempt csr ctx a =
      on_connection-Session attempt csr ctx (connect net names api bio crypto ctx) a
        (connect-Connected ctx)

  visit_first :
      (ctx : Client) (s : Bool × Result)
      → ctx.auth_mode ≡ auth_none
      → Session ctx s
      → Visits ctx.est_server ctx.enable_srp ctx.log s.1.ctx.log
  visit_first ctx s m (no_request e q) = quiet q
  visit_first ctx s m (request e f a) = once (
      subst (λ c. Asked ctx.est_server ctx.enable_srp c ctx.log s.1.ctx.log) (ap with_credentials m)
        a)

  visit_second :
      (ctx : Client) (r : Result) (s : Bool × Result)
      → ctx.auth_mode ≡ auth_none
      → is_auth_fail r.status ≡ true
      → with_credentials r.ctx.auth_mode ≡ true
      → Session ctx (true, r)
      → Session r.ctx s
      → Visits ctx.est_server ctx.enable_srp ctx.log s.1.ctx.log
  visit_second ctx r s m f w (no_request (inl e) q) t = absurd (ground arith)
  visit_second ctx r s m f w (no_request (inr e) q) t = absurd (ground arith)
  visit_second ctx r s m f w (request e b a) (no_request x q) =
      again r.ctx.log
        (subst (λ c. Asked ctx.est_server ctx.enable_srp c ctx.log r.ctx.log)
          (ap with_credentials m) a)
        q
  visit_second ctx r s m f w (request e b a) (request e' b' a') =
      twice r.ctx.log
        (subst (λ c. Asked ctx.est_server ctx.enable_srp c ctx.log r.ctx.log)
          (ap with_credentials m) a)
        (subst (λ c. Asked ctx.est_server ctx.enable_srp c r.ctx.log s.1.ctx.log) w
          (subst
            (λ srp.
              Asked ctx.est_server srp (with_credentials r.ctx.auth_mode) r.ctx.log s.1.ctx.log)
            b
            (subst
              (λ server.
                Asked server r.ctx.enable_srp (with_credentials r.ctx.auth_mode) r.ctx.log
                  s.1.ctx.log)
              e a')))

  -- The end of the function does nothing outside the context.
  second-Visits :
      (server : Bytes) (srp : Bool) (before : List ClientEvent) (fin cleared : Client → Client)
      (s : Option (Bool × Result))
      → ((c : Client) → (fin c).log ≡ c.log)
      → ((c : Client) → (cleared c).log ≡ c.log)
      → AllSome (λ s. Visits server srp before s.1.ctx.log) s
      → AllSome
          (λ r. Visits server srp before r.ctx.log)
          (second net names api bio crypto fin cleared s)
  second-Visits server srp before fin cleared none f g v = tt
  second-Visits server srp before fin cleared (some (false, r)) f g v = v
  second-Visits server srp before fin cleared (some (true, r)) f g v =
      subst (Visits server srp before)
        (sym (f (where_failed cleared r.status r.ctx) ∙ where_failed-log cleared g r.status r.ctx))
        v

  again-Visits :
      (ctx : Client) (fin cleared : Client → Client) (r : Result) (s : Option (Bool × Result))
      → ctx.auth_mode ≡ auth_none
      → is_auth_fail r.status ≡ true
      → with_credentials r.ctx.auth_mode ≡ true
      → ((c : Client) → (fin c).log ≡ c.log)
      → ((c : Client) → (cleared c).log ≡ c.log)
      → Session ctx (true, r)
      → AllSome (Session r.ctx) s
      → AllSome
          (λ q. Visits ctx.est_server ctx.enable_srp ctx.log q.ctx.log)
          (second net names api bio crypto fin cleared s)
  again-Visits ctx fin cleared r none m h w f g t u = tt
  again-Visits ctx fin cleared r (some s) m h w f g t u =
      second-Visits ctx.est_server ctx.enable_srp ctx.log fin cleared (some s) f g
        (visit_second ctx r s m h w t u)

  first-Visits :
      (ctx : Client) (fin cleared : Client → Client) (attempt : X509Req → Client → Option Result)
      (s : Option (Bool × Result))
      → ctx.auth_mode ≡ auth_none
      → ((c : Client) → (fin c).log ≡ c.log)
      → ((c : Client) → (cleared c).log ≡ c.log)
      → ((csr : X509Req) (c : Client) → AllSome (Attempted c) (attempt csr c))
      → AllSome (Session ctx) s
      → AllSome
          (λ q. Visits ctx.est_server ctx.enable_srp ctx.log q.ctx.log)
          (first net names api bio crypto fin cleared attempt s)
  first-Visits ctx fin cleared attempt none m f g a t = tt
  first-Visits ctx fin cleared attempt (some (false, r)) m f g a t = visit_first ctx (false, r) m t
  first-Visits ctx fin cleared attempt (some (true, r)) m f g a t =
      let v = visit_first ctx (true, r) m t in
      elim (Bool-cases (is_auth_fail r.status && with_credentials r.ctx.auth_mode)) [
        | inr b ↦ rw b (subst (Visits ctx.est_server ctx.enable_srp ctx.log) (sym (f r.ctx)) v)
        | inl b ↦ rw b (
            if_both
              (AllSome (λ (q : Result). Visits ctx.est_server ctx.enable_srp ctx.log q.ctx.log)) _ _
              (is_digest r.ctx.auth_mode && net.fips_mode) v
              (again-Visits ctx fin cleared r (session net names api bio crypto attempt r.csr r.ctx)
                m (ground arith) (ground arith) f g t (session-Session attempt r.csr r.ctx a)))
      ]

  with_retry-Visits :
      (fin cleared : Client → Client) (attempt : X509Req → Client → Option Result) (csr : X509Req)
      (ctx : Client) (r : Result)
      → ctx.auth_mode ≡ auth_none
      → ((c : Client) → (fin c).log ≡ c.log)
      → ((c : Client) → (cleared c).log ≡ c.log)
      → ((csr : X509Req) (c : Client) → AllSome (Attempted c) (attempt csr c))
      → with_retry net names api bio crypto fin cleared attempt csr ctx ≡ some r
      → Visits ctx.est_server ctx.enable_srp ctx.log r.ctx.log
  unfolding with_retry
  with_retry-Visits fin cleared attempt csr ctx r m f g a e =
      subst (AllSome (λ (q : Result). Visits ctx.est_server ctx.enable_srp ctx.log q.ctx.log)) e (
        first-Visits ctx fin cleared attempt (session net names api bio crypto attempt csr ctx) m f
          g a (session-Session attempt csr ctx a))

  csr_attempt-Attempted :
      (op : EnrollOp) (key : Option PKey) (csr : X509Req) (c : Client)
      → AllSome (Attempted c) (csr_attempt net names api bio crypto op key csr c)
  csr_attempt-Attempted op none csr c = enroll_req-Attempted net names api bio crypto c op csr
  csr_attempt-Attempted op (some key) csr c =
      enroll_pkcs10-Attempted net names api bio crypto c op key csr

  -- An enrolment that starts without an authentication mode asks the server at most twice, each time on a
  -- connection of its own whose server has been identified before: at most once without credentials, and
  -- only after that at most once with credentials.
  pub client_enroll-Visits :
      (ctx : Client) (op : EnrollOp) (cn : Bytes) (key : Option PKey) (r : Result)
      → ctx.auth_mode ≡ auth_none
      → client_enroll net names api bio crypto ctx op cn key ≡ some r
      → Visits ctx.est_server ctx.enable_srp ctx.log r.ctx.log
  unfolding client_enroll with_retry
  client_enroll-Visits ctx op cn none r m h = quiet (unreached (ground arith))
  client_enroll-Visits ctx op cn (some key) r m h = elim (Bool-cases ctx.est_client_initialized) [
    | inr b ↦ quiet (unreached (ground arith))
    | inl b ↦
        with_retry-Visits forget_mode clear_tokens
          (λ csr c. enroll_cn net names api bio crypto c op cn key) api.fresh ctx r m (λ c. refl)
          (λ c. refl) (λ csr c. enroll_cn-Attempted net names api bio crypto c op cn key)
          (ground arith)
  ]

  -- So does an enrolment with a CSR that the application gives, with or without a key.
  pub client_enroll_csr-Visits :
      (ctx : Client) (op : EnrollOp) (csr : Option X509Req) (key : Option PKey) (r : Result)
      → ctx.auth_mode ≡ auth_none
      → client_enroll_csr net names api bio crypto ctx op csr key ≡ some r
      → Visits ctx.est_server ctx.enable_srp ctx.log r.ctx.log
  unfolding client_enroll_csr
  client_enroll_csr-Visits ctx op none key r m h = quiet (unreached (ground arith))
  client_enroll_csr-Visits ctx op (some csr) key r m h =
      elim (Bool-cases ctx.est_client_initialized) [
        | inr b ↦ quiet (unreached (ground arith))
        | inl b ↦
            with_retry-Visits unchanged unchanged (csr_attempt net names api bio crypto op key) csr
              ctx r m (λ c. refl) (λ c. refl) (csr_attempt-Attempted op key) (ground arith)
      ]
