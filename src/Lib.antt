-- ===== src/Lib.antt =====
-- libest, an implementation of Enrollment over Secure Transport (RFC 7030): the core of the server, the
-- enrolment of a client, and the tables of the proxy and of CoAP.
--
-- The program. An application creates a context (est_server_init), configures it through the
-- functions of src/est/est_server.c, and hands it connections. A request over HTTP enters at
-- est_http_request, which parses the URI (est_parse_uri in src/est/est.c) and calls the handler of
-- the operation. An enrolment (est_handle_simple_enroll) authenticates the client (est_enroll_auth),
-- checks the CSR and the proof of possession, and asks the CA through a callback of the application;
-- its answer goes to the client, and an error becomes an HTTP error (est_send_http_error). The
-- authentication rests on the certificate of the TLS handshake, on SRP, on the Authorization header
-- (src/est/est_server_http.c), or, with Enhanced Certificate Authentication, on credentials made from
-- a certificate whose manufacturer is looked up in a list (src/est/est_enhcd_cert_auth.c). A request
-- for the CSR attributes is answered by est_handle_csr_attrs with what est_server_init_csrattrs has
-- kept or a callback gives. For a request of server-side key generation (est_handle_server_keygen) the
-- application makes the key, which takes the place of the CSR's own. Over CoAP
-- (src/est/est_server_coap.c) a client's request may come in blocks, which are put together in its node
-- of an array, and est_coap_sen_handler hands what they make to est_handle_simple_enroll. A proxy
-- (src/est/est_proxy.c) keeps a table with a client context for each thread. A client
-- (src/est/est_client.c) connects, compares the server's name with its certificate, makes a CSR, sends
-- the request and reads the response (src/est/est_client_http.c); where the server asks for credentials
-- it tries once more with them.
--
-- The files.
-- Api: the enumerations of src/est/est.h; EST_ERR_NONE is `none`.
-- Context, Conn: struct est_ctx (src/est/est_locl.h) and struct mg_connection
--   (src/est/est_server_http.h), with a log of what the handlers send and of the callbacks they call.
-- Ossl: OpenSSL, a parameter: a record of functions, and a record of one connection's answers.
-- Safec: the functions of safe_c_stub that the modelled code calls.
-- Eca: src/est/est_enhcd_cert_auth.c. MfgList is the list and its search, Subject the fields of a
--   subject line, CsrCheck perform_enhanced_cert_auth_csr_check, Header
--   build_enhanced_cert_auth_header.
-- AuthHeader: mg_parse_auth_header.
-- Auth: check_for_TLS_cert_auth (Tls), est_server_parse_csr and handle_enhanced_cert_auth (ByCert),
--   est_enroll_auth (Enroll).
-- Enroll: est_check_cmcRA, est_tls_uid_auth and est_server_check_csr (Csr), est_handle_simple_enroll
--   (Handler), est_handle_server_keygen (Keygen).
-- Base64: est_base64_decode and est_base64_encode of src/est/est.c.
-- CsrAttrs: est_server_all_csrattrs_present; est_asn1_sanity_test and its callers (Sanity) and
--   est_add_challengePassword (AddPop) of src/est/est.c; est_server_init_csrattrs and
--   est_handle_csr_attrs (Server).
-- Stdlib: qsort and bsearch, parameters, with what the C standard says of them.
-- Proxy: get_client_ctx and proxy_cleanup of src/est/est_proxy.c.
-- Coap: the array of the requests of src/est/est_server_coap.c, the blocks of a payload (Blocks), and
--   est_coap_sen_handler (Handler).
-- Config: est_server_init (Init), Enhanced Cert Auth's switches (Eca), the other setters (Setters),
--   and calls of them in sequence (Call).
-- Http: est_parse_uri (Uri), est_send_http_error (Error), est_server_handle_cacerts (Cacerts),
--   est_http_request (Request).
-- Client: the client. Host compares the server's name with its certificate (est_client_verifyhost),
--   Request makes the HTTP request of an enrolment with its credentials, Headers and Response read what
--   comes back (src/est/est_client_http.c), and Enroll is the connection, the CSR and the attempts, from
--   est_client_enroll_internal, est_client_enroll_csr_internal and est_client_reenroll on.
-- Prelude: names that all share. Examples: runs on concrete inputs.
--
-- State. A function that changes the context or the connection takes it and returns the new one with
-- its code. A call of a NULL callback, and an access out of bounds, is `none`. Loops are structural
-- recursion on the list they walk. The decimal printer has fuel, the number itself plus one, which is
-- more than its count of digits, and the loops over the CSR attributes have the length of their data,
-- which is enough where the ASN.1 library moves its pointer each time. atoi is strtol with a long of 64
-- bits, converted to an int of 32.
--
-- Not modelled. A client's requests for the CA certificates, for the CSR attributes and for a key that
-- the server makes, and its setters; the forwarding of requests by a proxy, the rest of CoAP's front end, and
-- BRSKI; the library's copies of other projects; logging, timers, and the release of memory. The
-- parsers of the single Authorization schemes and the list of the CSR's OIDs are arguments of the
-- definitions that call them; so is, in the enrolment, the check that CsrAttrs models. SSL_write is
-- known by how much of a buffer it takes; a write that makes no progress for ever is left out. The
-- application's callbacks get no context, since one that reads it closes over it. Threads that enter
-- the table of a proxy at once are left out. The sockets, libcurl and the network answer a client by what
-- it has done before; the order in which a connection's own calls come is the code's.
mod Prelude
pub mod Api
pub mod Ossl
pub mod Context
pub mod Conn
pub mod Safec
pub mod Eca
pub mod AuthHeader
pub mod Auth
pub mod Enroll
pub mod CsrAttrs
pub mod Config
pub mod Http
pub mod Base64
pub mod Stdlib
pub mod Proxy
pub mod Coap
pub mod Client
mod Examples
