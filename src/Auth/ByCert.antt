-- ===== src/Auth/ByCert.antt =====
-- src/est/est_server.c: handle_enhanced_cert_auth, where a certificate stands for HTTP credentials.
use aims_libest.Prelude.{
  ℕ, ℤ, Bytes, List, Option, none, some, Bool, true, not, ◌&&◌, if◌then◌else◌,
}
use aims_libest.Api.{
  Status, validation, AuthHdrResult, hdr_good, hdr_bad, eca_csr_parse_fail, eca_err, CsrCheck,
  csr_check_off, csr_check_on,
}
use aims_libest.Ossl.{X509, X509Req, Ssl, Ossl}
use aims_libest.Context.{AuthHdr, MfgInfo, Eca}
use aims_libest.Eca.MfgList.{get_mfg, slot_at}
use aims_libest.Eca.CsrCheck.{csr_check}
use aims_libest.Eca.Header.{build_header}

-- est_server_parse_csr; the flag is EST_CSR_DECODE
unfoldable pub parse_csr : Ossl → Bool → Bytes → Option X509Req
parse_csr o base64_decode pkcs10 =
    if not (o.bio_new_mem_buf pkcs10)
    then none
    else if base64_decode && not o.bio_new_b64
    then none
    else o.d2i_req base64_decode pkcs10

pub record EcaResult : Type 0 where
  pub hdr : AuthHdrResult
  pub ah : AuthHdr
  pub csr : Option X509Req

-- the NID of the field that names the user
header_nid : Option (List MfgInfo) → ℤ → Option ℕ → ℤ
header_nid (some ms) local_nid (some i) = (slot_at ms i).nid
header_nid _ local_nid _ = local_nid

-- the header, once the CSR check has passed
eca_header : Ossl → Eca → Option X509 → AuthHdr → Option ℕ → Option X509Req → EcaResult
unfolding header_nid
eca_header o e peer ah mfg csr =
    let (r, ah') = build_header o e ah peer (header_nid e.mfgs e.local_pki_nid mfg) in
    record { hdr = r; ah = ah'; csr = csr }

eca_checked :
    Ossl → Eca → Option X509 → AuthHdr → Option ℕ → Option X509Req → AuthHdrResult → EcaResult
unfolding eca_header
eca_checked o e peer ah mfg csr hdr_good = eca_header o e peer ah mfg csr
eca_checked o e peer ah mfg csr r = record { hdr = r; ah = ah; csr = csr }

eca_csr : Ossl → Eca → Option X509 → Bytes → AuthHdr → CsrCheck → Option ℕ → EcaResult
unfolding eca_checked
eca_csr o e peer csr_buf ah csr_check_off mfg = eca_checked o e peer ah mfg none hdr_good
eca_csr o e peer csr_buf ah csr_check_on mfg = elim (parse_csr o true csr_buf) [
  | none ↦ record { hdr = eca_csr_parse_fail; ah = ah; csr = none }
  | some csr ↦ eca_checked o e peer ah mfg (some csr) (csr_check o e peer (some csr) mfg)
]

eca_search : Ossl → Eca → Option X509 → Bytes → AuthHdr → CsrCheck → Option ℕ → Status → EcaResult
unfolding eca_csr
eca_search o e peer csr_buf ah check mfg none = eca_csr o e peer csr_buf ah check mfg
eca_search o e peer csr_buf ah check mfg (some validation) = eca_csr o e peer csr_buf ah check mfg
eca_search o e peer csr_buf ah check mfg (some _) = record { hdr = hdr_bad; ah = ah; csr = none }

-- handle_enhanced_cert_auth. Its callers have a peer certificate.
unfoldable pub handle_eca : Ossl → Eca → Ssl → X509 → Bytes → AuthHdr → CsrCheck → EcaResult
unfolding eca_search
handle_eca o e ssl peer csr_buf ah check = elim ssl.peer_cert_chain [
  | none ↦ record { hdr = eca_err; ah = ah; csr = none }
  | some chain ↦
      let (mfg, st) = get_mfg o e peer chain in eca_search o e (some peer) csr_buf ah check mfg st
]
