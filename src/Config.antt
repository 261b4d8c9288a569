-- ===== src/Config.antt =====
-- src/est/est_server.c: the configuration of a server: its creation, the functions of the public
-- interface that configure it, and what any sequence of their calls leaves.
pub mod Init
pub mod Eca
pub mod Setters
pub mod Call
pub mod Valid
pub mod Reject
