-- ===== src/Examples/Settings.antt =====
-- Runs of the configuration of a server.
use aims_libest.Prelude.{
  pos, Bytes, List, [], ◌∷◌, Option, none, some, true, ◌≡◌, refl, codes, arith,
}
use aims_libest.Api.{Status, auth_digest, csr_check_on, CsrCheck, invalid_parameters}
use aims_libest.Context.{Ctx, Eca}
use aims_libest.Safec.{strnlen_s}
use aims_libest.Config.Init.{initial, server_init}
use aims_libest.Config.Eca.{enable_enhanced_cert_auth}
use aims_libest.Config.Setters.{set_retry_period}
use aims_libest.Config.Call.{
  Call, call_set_retry_period, call_set_auth_mode, call_enable_enhanced_cert_auth,
  call_disable_enhanced_cert_auth, apply, configure,
}
use aims_libest.Config.Valid.{IsValid, configure-IsValid}
use aims_libest.Config.Reject.{apply_rejected}

abbrev start_ctx : Ctx
start_ctx = initial none

abbrev pkcs7 : Bytes → Option Bytes
pkcs7 chain = some (codes "p7")

init_runs :
    server_init
      (some (codes "pem"))
      3
      none
      0
      true
      (some (codes "realm"))
      (some 1)
      (some 2)
      pkcs7
      none
    ≡ some start_ctx
unfolding server_init strnlen_s
init_runs = refl

start_ctx-IsValid : IsValid start_ctx
start_ctx-IsValid = (ground arith, ground arith)

abbrev calls : List Call
calls =
    call_set_retry_period (pos 120)
    ∷ call_set_retry_period (pos 5)
    ∷ call_enable_enhanced_cert_auth (pos 2) none (some csr_check_on)
    ∷ call_set_auth_mode true auth_digest
    ∷ call_disable_enhanced_cert_auth
    ∷ []

configure-IsValid_example :
    (after : Ctx) × (configure (some start_ctx) calls ≡ some after) × IsValid after
configure-IsValid_example = configure-IsValid calls start_ctx start_ctx-IsValid

too_short : (apply start_ctx (call_set_retry_period (pos 5))).1 ≡ some invalid_parameters
unfolding apply set_retry_period
too_short = refl

apply_rejected_example : (apply start_ctx (call_set_retry_period (pos 5))).0 ≡ start_ctx
apply_rejected_example =
    apply_rejected start_ctx (call_set_retry_period (pos 5)) invalid_parameters refl too_short

abbrev flag : Option CsrCheck
flag = some csr_check_on

abbrev enabled : Eca × Status
enabled = enable_enhanced_cert_auth start_ctx.eca (pos 2) (some (codes "pw")) flag
