-- ===== src/Eca.antt =====
-- src/est/est_enhcd_cert_auth.c: Enhanced Certificate Authentication. The list of manufacturers
-- (Eca/MfgList), the subject fields of certificates and requests (Eca/Subject), the check that a
-- CSR repeats the identity of the certificate (Eca/CsrCheck), and the header built from a
-- certificate (Eca/Header).
pub mod MfgList
pub mod Subject
pub mod CsrCheck
pub mod Header
