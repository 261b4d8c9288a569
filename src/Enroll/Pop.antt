-- ===== src/Enroll/Pop.antt =====
-- src/est/est_server.c: what est_tls_uid_auth and est_check_cmcRA accept.
use aims_libest.Prelude.{
  ℕ, zero, suc, ℤ, pos, Bytes, List, [], ◌∷◌, Option, none, some, true, false, ◌≡◌, ◌≢◌, ◌↔◌, ◌⊎◌,
  inl, inr, refl, sym, subst, ◌∙◌, arith, length, take, get_elem?, is_neg, is_zero, Option-cases,
  Bool-cases,
}
use aims_libest.Ossl.{X509, X509Req, Asn1Object, Ssl, Ossl}
use aims_libest.Context.{Ctx}
use aims_libest.Safec.{strncmp, memcmp_s, strncmp_iff}
use aims_libest.Enroll.Csr.{has_cmc_ra, check_cmc_ra, compare_uid, tls_uid_auth}

take-length : (s : Bytes) → take (length s) s ≡ s
take-length [] = refl
take-length (x ∷ s) = ground (arith, take-length s)

take_idem : (n : ℕ) (s : Bytes) → take n (take n s) ≡ take n s
take_idem zero s = refl
take_idem (suc n) [] = refl
take_idem (suc n) (x ∷ s) = ground (arith, take_idem n s)

is_zero_iff : (d : ℤ) → (is_zero d ≡ true) ↔ (d ≡ pos 0)
is_zero_iff d = ground arith

strncmp_uid :
    (uid bs : Bytes)
    → (strncmp (take (length uid) uid) (take (length uid) bs) (length uid) ≡ pos 0)
      ↔ (take (length uid) bs ≡ uid)
strncmp_uid uid bs =
    let (f, g) = strncmp_iff (length uid) (take (length uid) uid) (take (length uid) bs) in
    (
      λ h.
          sym (take_idem (length uid) bs)
          ∙ sym (f h)
          ∙ take_idem (length uid) uid
          ∙ take-length uid,
      λ h.
          g (
            take_idem (length uid) uid ∙ take-length uid ∙ sym h ∙ sym (take_idem (length uid) bs)),
    )

-- The value of the challengePassword starts with the TLS UID, which is not empty.
abbrev pub Matches : Option Bytes → Bytes → Type 0
Matches none bs = ⊥
Matches (some uid) bs = (uid ≢ []) × (take (length uid) bs ≡ uid)

pub compare_uid_iff :
    (uid : Option Bytes) (bs : Bytes) → (compare_uid uid bs ≡ none) ↔ Matches uid bs
unfolding compare_uid memcmp_s
compare_uid_iff none bs = ground arith
compare_uid_iff (some []) bs = ground arith
compare_uid_iff (some (x ∷ uid)) bs = ground (
  arith,
  strncmp_uid (x ∷ uid) bs,
  is_zero_iff (strncmp (x ∷ take (length uid) uid) (take (length (x ∷ uid)) bs) (length (x ∷ uid))),
)

-- The proof of possession is accepted exactly where the CSR has no challengePassword and the
-- server does not ask for one, or where it has one that starts with the connection's TLS UID.
pub tls_uid_auth_iff :
    (o : Ossl) (ctx : Ctx) (ssl : Ssl) (req : X509Req)
    → (tls_uid_auth o ctx ssl req ≡ none) ↔ (
        ((is_neg (o.req_challenge_index req) ≡ true) × (ctx.server_enable_pop ≡ false))
        ⊎ ((is_neg (o.req_challenge_index req) ≡ false)
            × ((bs : Bytes) × (o.req_attr req (o.req_challenge_index req) ≡ some bs)
                × Matches ssl.tls_uid bs)))
unfolding tls_uid_auth
tls_uid_auth_iff o ctx ssl req = elim (Option-cases (o.req_attr req (o.req_challenge_index req))) [
  | inl p ↦ ground arith
  | inr (bs, p) ↦
      let (f, g) = compare_uid_iff ssl.tls_uid bs in
      elim (Bool-cases (is_neg (o.req_challenge_index req))) [
        | inl n ↦ ground arith
        | inr n ↦ (λ h. inr (n, (bs, p, f (ground arith))), λ e. ground (arith, g))
      ]
]

later_ra :
    (o : Ossl) (y : Asn1Object) (objs : List Asn1Object) (i : ℕ) (x : Asn1Object)
    → get_elem? (y ∷ objs) i ≡ some x
    → is_zero (o.cmp_cmc_ra x) ≡ true
    → is_zero (o.cmp_cmc_ra y) ≡ false
    → (j : ℕ) × (get_elem? objs j ≡ some x)
later_ra o y objs zero x p q z = absurd (ground arith)
later_ra o y objs (suc i) x p q z = (i, p)

has_cmc_ra_iff :
    (o : Ossl) (objs : List Asn1Object)
    → (has_cmc_ra o objs ≡ true) ↔ (
        (i : ℕ) × (x : Asn1Object) × (get_elem? objs i ≡ some x)
        × (is_zero (o.cmp_cmc_ra x) ≡ true))
unfolding has_cmc_ra
has_cmc_ra_iff o [] = (λ h. cc, λ (i, x, p, z). cc)
has_cmc_ra_iff o (y ∷ objs) = elim (Bool-cases (is_zero (o.cmp_cmc_ra y))) [
  | inl z ↦ (λ h. (0, y, refl, z), λ e. ground arith)
  | inr z ↦ (
    λ h. let (i, x, p, q) = (has_cmc_ra_iff o objs).0 (ground arith) in (suc i, x, p, q),
    λ (i, x, p, q).
        let (j, r) = later_ra o y objs i x p q z in
        let t = (has_cmc_ra_iff o objs).1 (j, x, r, q) in ground arith,
  )
]

-- A client is a registration authority exactly where its certificate has extended key usages and
-- one of them is id-kp-cmcRA.
pub check_cmc_ra_iff :
    (o : Ossl) (cert : X509)
    → (check_cmc_ra o cert ≡ true) ↔ (
        (usage : List Asn1Object) × (i : ℕ) × (x : Asn1Object) × (o.ext_key_usage cert ≡ some usage)
        × (get_elem? usage i ≡ some x)
        × (is_zero (o.cmp_cmc_ra x) ≡ true))
unfolding check_cmc_ra
check_cmc_ra_iff o cert = elim (Option-cases (o.ext_key_usage cert)) [
  | inl p ↦ (λ h. absurd (ground arith), λ (us, i, x, q, r, z). absurd (ground arith))
  | inr (us, p) ↦
      let (f, g) = has_cmc_ra_iff o us in
      (
        λ h. let (i, x, r, z) = f (ground arith) in (us, i, x, p, r, z),
        λ (us', i, x, q, r, z).
            let e : us' ≡ us = ground arith in
            let t = g (i, x, subst (λ v. get_elem? v i ≡ some x) e r, z) in ground arith,
      )
]
