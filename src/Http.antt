-- ===== src/Http.antt =====
-- src/est/est_server.c, src/est/est.c: how a server answers one HTTP request.
pub mod Uri
pub mod Error
pub mod Cacerts
pub mod Request
pub mod Answers
