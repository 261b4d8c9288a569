-- ===== src/Enroll/Written.antt =====
-- src/est/est_server.c: what the responses to an enrolment and to a key generation have written.
use aims_libest.Prelude.{
  Bytes, List, [], ◌∷◌, none, ◌==◌, ◌≡◌, ◌≢◌, sym, refl, ap, arith, length, Bool-cases, inl, inr,
}
use aims_libest.Conn.{Conn, mg_write}
use aims_libest.Enroll.Handler.{cert_header, write_cert}
use aims_libest.Enroll.Keygen.{write_all}

-- The parts are written one by one, none of them with the count 0.
abbrev pub Written : Conn → List Bytes → Conn → Type 0
Written conn [] conn' = conn' ≡ conn
Written conn (part ∷ parts) conn' =
    ((mg_write conn part).0 ≢ 0) × Written (mg_write conn part).1 parts conn'

pub write_cert-Written :
    (conn : Conn) (cert : Bytes)
    → (write_cert conn cert).0 ≡ none
    → Written conn (cert_header (length cert) ∷ cert ∷ []) (write_cert conn cert).1
unfolding write_cert
write_cert-Written conn cert h =
    let (n, conn1) = mg_write conn (cert_header (length cert)) in
    let (m, conn2) = mg_write conn1 cert in
    elim (Bool-cases (n == 0)) [
      | inl b ↦ absurd (ground arith)
      | inr b ↦ elim (Bool-cases (m == 0)) [
        | inl c ↦ absurd (ground arith)
        | inr c ↦ (ground arith, (ground arith, rw b (rw c refl)))
      ]
    ]

pub write_all-Written :
    (conn conn' : Conn) (parts : List Bytes)
    → write_all conn parts ≡ (none, conn')
    → Written conn parts conn'
unfolding write_all
write_all-Written conn conn' [] h = ap (λ r. r.1) (sym h)
write_all-Written conn conn' (part ∷ parts) h = elim (Bool-cases ((mg_write conn part).0 == 0)) [
  | inl b ↦ absurd (ground arith)
  | inr b ↦ (ground arith, write_all-Written (mg_write conn part).1 conn' parts (ground arith))
]
