-- ===== src/Examples/NewKey.antt =====
-- A run of the enrolment with a key that the server makes.
use aims_libest.Prelude.{[], ◌∷◌, Option, none, some, codes}
use aims_libest.Context.{Ctx}
use aims_libest.Enroll.Keygen.{KeygenOutcome, Keygen, handle_server_keygen}
use aims_libest.Examples.Data.{ossl, ssl, conn, ctx, body, attributes}
use aims_libest.Examples.CoapRequests.{bio}
use aims_libest.Examples.Enrolment.{ct}

abbrev with_keygen : Ctx
with_keygen = record ctx { server_keygen_pkcs10_cb = some 1 }

abbrev pub keygen : Keygen
keygen = record {
  keygen_cb = some (none, some 4);
  key_der = λ k. k ∷ 9 ∷ 9 ∷ [];
  set_pubkey = λ csr key. some csr;
  sign = λ csr key. some csr;
  req_body = λ csr. body;
  enroll = λ cb csr key user peer path_seg. record { rc = none; cert = codes "cert"; key = key };
}

abbrev run : Option KeygenOutcome
run = handle_server_keygen ossl bio attributes keygen with_keygen conn ssl (some 11) ct body none

abbrev given : Option KeygenOutcome → KeygenOutcome
given none = record { status = none; cert = none; key = none; conn = conn }
given (some r) = r
