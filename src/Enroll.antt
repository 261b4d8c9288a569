-- ===== src/Enroll.antt =====
-- src/est/est_server.c: the enrolment: the checks of the CSR, the handler of the simple enrolment, that of
-- the server-side key generation, and what they guarantee.
pub mod Csr
pub mod Pop
pub mod Checks
pub mod Handler
pub mod Keygen
pub mod Written
pub mod Vetting
pub mod Issue
