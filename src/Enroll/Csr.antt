-- ===== src/Enroll/Csr.antt =====
-- src/est/est_server.c: est_check_cmcRA, est_tls_uid_auth and est_server_check_csr, the checks of a
-- CSR and of the client that sends it.
use aims_libest.Prelude.{
  Bytes, List, [], ◌∷◌, Option, none, some, Bool, true, false, length, if◌then◌else◌, ltb_ℤ, pos,
  is_neg, is_zero,
}
use aims_libest.Api.{Status, auth_fail_tlsuid}
use aims_libest.Ossl.{X509, X509Req, Asn1Object, Ssl, Ossl}
use aims_libest.Context.{Ctx}
use aims_libest.Safec.{memcmp_s}

-- the loop over the extended key usages
unfoldable pub has_cmc_ra : Ossl → List Asn1Object → Bool
has_cmc_ra o [] = false
has_cmc_ra o (obj ∷ objs) =
    let rest = has_cmc_ra o objs in if is_zero (o.cmp_cmc_ra obj) then true else rest

unfoldable pub check_cmc_ra : Ossl → X509 → Bool
check_cmc_ra o cert = elim (o.ext_key_usage cert) [ none ↦ false | some usage ↦ has_cmc_ra o usage ]

-- the TLS UID against the value of the challengePassword
unfoldable pub compare_uid : Option Bytes → Bytes → Status
compare_uid none bs = some auth_fail_tlsuid
compare_uid (some uid) bs = elim (memcmp_s uid (length uid) bs (length uid)) [
  | none ↦ some auth_fail_tlsuid
  | some diff ↦ if is_zero diff then none else some auth_fail_tlsuid
]

unfoldable pub tls_uid_auth : Ossl → Ctx → Ssl → X509Req → Status
tls_uid_auth o ctx ssl req =
    let i = o.req_challenge_index req in
    if is_neg i
    then (if ctx.server_enable_pop then some auth_fail_tlsuid else none)
    else elim (o.req_attr req i) [
      | none ↦ some auth_fail_tlsuid
      | some bs ↦ compare_uid ssl.tls_uid bs
    ]

-- `true` is the code's 1, a CSR that fails the check.
unfoldable pub check_csr : Ossl → X509Req → Bool
check_csr o req = elim (o.req_pubkey req) [
  | none ↦ true
  | some key ↦ if ltb_ℤ (pos 0) (o.req_verify req key) then false else true
]
