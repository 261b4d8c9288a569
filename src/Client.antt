-- ===== src/Client.antt =====
-- src/est/est_locl.h: the members of struct est_ctx that a client's modelled code reads or writes, and
-- what it asks of the world outside.
pub mod Host
pub mod Headers
pub mod Response
pub mod Request
pub mod Enroll
use aims_libest.Prelude.{ℕ, ℤ, Bool, Bytes, List, [], ◌∷◌, ◌++◌, Option}
use aims_libest.Api.{Status, AuthMode}
use aims_libest.Ossl.{X509, X509Req, PKey}

-- EST_HTTP_AUTH_HDR, as the application's callback fills it
pub record Credentials : Type 0 where
  pub user : Option Bytes
  pub pwd : Option Bytes
  pub auth_token : Option Bytes

-- what a client does outside its context
pub data ClientEvent : Type 0 where
  -- a TLS connection to the server is made, or is given up
  connected disconnected : ClientEvent
  -- SSL_write of a request, with the flag that the header has credentials
  wrote : Bool → Bytes → ClientEvent

pub record Client : Type 0 where
  pub est_client_initialized : Bool
  pub est_server : Bytes
  pub est_port_num : ℤ
  pub uri_path_segment : Option Bytes
  pub enable_srp : Bool
  pub auth_credentials_cb : Option (AuthMode → Credentials)
  pub auth_mode : AuthMode
  pub userid : Bytes
  pub password : Bytes
  pub realm : Bytes
  pub s_nonce : Bytes
  pub token_error : Bytes
  pub token_error_desc : Bytes
  pub csr_pop_required : Bool
  pub client_force_pop : Bool
  pub read_timeout : ℤ
  pub last_http_status : ℤ
  pub retry_after_delay : ℕ
  pub retry_after_date : ℕ
  pub enrolled_client_cert : Option Bytes
  pub log : List ClientEvent

abbrev pub note_client : Client → ClientEvent → Client
note_client ctx e = record ctx { log = ctx.log ++ e ∷ [] }
