-- ===== src/Auth.antt =====
-- src/est/est_server.c: how a client is authenticated for an enrolment: by its TLS certificate or SRP
-- (Auth/Tls), by a certificate that stands for credentials (Auth/ByCert), and by HTTP credentials
-- (Auth/Enroll, the whole of est_enroll_auth). What a result proves of the client is in
-- Auth/Enroll/Evidence, and what the configuration enforces in Auth/Enroll/Policy.
pub mod Tls
pub mod ByCert
pub mod Enroll
