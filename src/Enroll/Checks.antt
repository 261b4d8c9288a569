-- ===== src/Enroll/Checks.antt =====
-- src/est/est_server.c: what the checks of a CSR and of its client establish, in terms of what OpenSSL
-- and the connection answer.
use aims_libest.Prelude.{
  ℕ, zero, suc, ℤ, pos, negsuc, Bytes, List, [], ◌∷◌, ◌++◌, Option, none, some, true, false, is_neg,
  is_zero, get_elem?, starts_with, ◌≡◌, ◌⊎◌, inl, inr, refl, ap, arith, codes, Option-cases,
  Bool-cases,
}
use aims_libest.Api.{http, AuthState, http_auth, srp_auth, cert_auth, Status}
use aims_libest.Ossl.{X509, X509Req, PKey, Asn1Object, Ssl, Ossl}
use aims_libest.Context.{Ctx}
use aims_libest.Auth.Enroll.{is_http}
use aims_libest.Enroll.Csr.{tls_uid_auth, check_csr}
use aims_libest.Enroll.Pop.{Matches, tls_uid_auth_iff, check_cmc_ra_iff}
use aims_libest.Enroll.Handler.{is_authorized, is_ra, wrong_type, vet}

-- The CSR has a public key, and X509_REQ_verify with it answers more than 0.
abbrev pub IsSigned : Ossl → X509Req → Type 0
IsSigned o csr =
    (key : PKey) × (n : ℕ) × (o.req_pubkey csr ≡ some key) × (o.req_verify csr key ≡ pos (suc n))

-- The client's certificate has the extended key usage id-kp-cmcRA.
abbrev pub IsAuthority : Ossl → Option X509 → Type 0
IsAuthority o none = ⊥
IsAuthority o (some cert) =
    (usage : List Asn1Object) × (i : ℕ) × (x : Asn1Object) × (o.ext_key_usage cert ≡ some usage)
    × (get_elem? usage i ≡ some x)
    × (is_zero (o.cmp_cmc_ra x) ≡ true)

-- The CSR has a challengePassword that begins with the connection's TLS UID.
abbrev pub IsBound : Ossl → Ssl → X509Req → Type 0
IsBound o ssl csr =
    (is_neg (o.req_challenge_index csr) ≡ false)
    × ((bs : Bytes) × (o.req_attr csr (o.req_challenge_index csr) ≡ some bs)
        × Matches ssl.tls_uid bs)

-- The CSR has no challengePassword, and the server does not ask for one.
abbrev pub IsExempt : Ossl → Ctx → X509Req → Type 0
IsExempt o ctx csr = (is_neg (o.req_challenge_index csr) ≡ true) × (ctx.server_enable_pop ≡ false)

-- The content type begins with that of PKCS 10, which counts over HTTP.
abbrev pub IsTyped : Ctx → Bytes → Type 0
IsTyped ctx ct =
    ctx.transport_mode ≡ http → (rest : Bytes) × (ct ≡ codes "application/pkcs10" ++ rest)

abbrev pub IsAuthorized : AuthState → Type 0
IsAuthorized st = (st ≡ http_auth) ⊎ (st ≡ srp_auth) ⊎ (st ≡ cert_auth)

pub starts_with-rest : (p s : Bytes) → starts_with p s ≡ true → (rest : Bytes) × (s ≡ p ++ rest)
unfolding starts_with
starts_with-rest [] s h = (s, refl)
starts_with-rest (x ∷ p) [] h = absurd (ground arith)
starts_with-rest (x ∷ p) (y ∷ s) h =
    let (rest, e) = starts_with-rest p s (ground arith) in
    let same : y ≡ x = ground arith in (rest, ground arith)

pub wrong_type-IsTyped : (ctx : Ctx) (ct : Bytes) → wrong_type ctx ct ≡ false → IsTyped ctx ct
unfolding wrong_type
wrong_type-IsTyped ctx ct h m =
    let e : is_http ctx.transport_mode ≡ true = ap is_http m in
    starts_with-rest (codes "application/pkcs10") ct (typed e)
  where
    typed : is_http ctx.transport_mode ≡ true → starts_with (codes "application/pkcs10") ct ≡ true
    typed e = elim (Bool-cases (starts_with (codes "application/pkcs10") ct)) [
      | inl b ↦ b
      | inr b ↦ absurd (ground arith)
    ]

pub is_authorized-IsAuthorized : (st : AuthState) → is_authorized st ≡ true → IsAuthorized st
is_authorized-IsAuthorized st h = ground arith

pub check_csr-IsSigned : (o : Ossl) (csr : X509Req) → check_csr o csr ≡ false → IsSigned o csr
unfolding check_csr
check_csr-IsSigned o csr h = elim (Option-cases (o.req_pubkey csr)) [
  | inl p ↦ absurd (ground arith)
  | inr (key, p) ↦ verified key p (o.req_verify csr key) refl
]
  where
    verified :
        (key : PKey)
        → o.req_pubkey csr ≡ some key
        → (v : ℤ) → o.req_verify csr key ≡ v
        → IsSigned o csr
    verified key p (pos (suc n)) e = (key, n, p, e)
    verified key p (pos zero) e = absurd (ground arith)
    verified key p (negsuc n) e = absurd (ground arith)

pub is_ra-IsAuthority : (o : Ossl) (peer : Option X509) → is_ra o peer ≡ true → IsAuthority o peer
is_ra-IsAuthority o none h = absurd (ground arith)
is_ra-IsAuthority o (some cert) h = (check_cmc_ra_iff o cert).0 h

pub tls_uid_auth-cases :
    (o : Ossl) (ctx : Ctx) (ssl : Ssl) (csr : X509Req)
    → tls_uid_auth o ctx ssl csr ≡ none
    → IsBound o ssl csr ⊎ IsExempt o ctx csr
tls_uid_auth-cases o ctx ssl csr h = elim ((tls_uid_auth_iff o ctx ssl csr).0 h) [
  | inl e ↦ inr e
  | inr b ↦ inl b
]

-- what a CSR has passed before the CA is asked with it
pub record Checked (o : Ossl) (csrattrs : Ctx → Bytes → Option X509 → Status) (ctx : Ctx)
    (ssl : Ssl) (peer : Option X509) (body : Bytes) (csr : X509Req) : Type 0 where
  pub signed : IsSigned o csr
  pub possession : IsAuthority o peer ⊎ IsBound o ssl csr ⊎ IsExempt o ctx csr
  pub attributes : (ctx.enforce_csrattrs ≡ false) ⊎ (csrattrs ctx body peer ≡ none)

pub vet-Checked :
    (o : Ossl) (csrattrs : Ctx → Bytes → Option X509 → Status) (ctx : Ctx) (ssl : Ssl)
    (peer : Option X509) (body : Bytes) (csr : X509Req)
    → vet o csrattrs ctx ssl peer body csr ≡ none
    → Checked o csrattrs ctx ssl peer body csr
unfolding vet
vet-Checked o csrattrs ctx ssl peer body csr h =
    let s : check_csr o csr ≡ false = ground arith in
    let p : (is_ra o peer ≡ true) ⊎ (tls_uid_auth o ctx ssl csr ≡ none) = ground arith in
    let a : (ctx.enforce_csrattrs ≡ false) ⊎ (csrattrs ctx body peer ≡ none) = ground arith in
    record {
      signed = check_csr-IsSigned o csr s;
      possession = elim p [
        | inl r ↦ inl (is_ra-IsAuthority o peer r)
        | inr u ↦ inr (tls_uid_auth-cases o ctx ssl csr u)
      ];
      attributes = a;
    }
