-- ===== src/Coap/Handler/Request.antt =====
-- src/est/est_server_coap.c, est_coap_sen_handler: what its checks of a request establish, and which CSR a
-- request brings.
use aims_libest.Prelude.{
  ℕ, ◌*◌, ◌<◌, ◌≡◌, ◌≢◌, ◌⊎◌, inl, inr, refl, sym, ap, ◌∙◌, Bytes, List, [], ◌∷◌, ◌++◌, Option,
  none, some, Bool, true, false, ◌==◌, length, take, codes, ltb, arith, Bool-cases, pos, get_elem?,
}
use aims_libest.Api.{EnrollReq, simple_enroll_req, reenroll_req}
use aims_libest.Safec.{strcmp_s, strncmp, strncmp_iff}
use aims_libest.Coap.{CoapReq, sen, sren, Node, Reqs}
use aims_libest.Coap.Blocks.{
  Block, block_size, whole, restart, copy, receive_block, receive_whole, receive_request,
}
use aims_libest.Coap.Handler.{CoapRequest, check_content_type, matches, request_of}

-- The only content type is the one that is asked for.
pub check_content_type-only :
    (media : ℕ) (types : List ℕ) → check_content_type media types ≡ none → types ≡ media ∷ []
unfolding check_content_type
check_content_type-only media [] h = absurd (ground arith)
check_content_type-only media (v ∷ []) h = ground arith
check_content_type-only media (v ∷ w ∷ vs) h = absurd (ground arith)

-- The path is the beginning of that of an enrolment or of a re-enrolment, and not empty.
abbrev pub IsPath : Bytes → EnrollReq → CoapReq → Type 0
IsPath uri er cr =
    (uri ≢ [])
    × (((er ≡ simple_enroll_req) × (cr ≡ sen) × (take (length uri) (codes "est/sen") ≡ uri))
        ⊎ ((er ≡ reenroll_req) × (cr ≡ sren) × (take (length uri) (codes "est/sren") ≡ uri)))

take_whole : (s : Bytes) → take (length s) s ≡ s
take_whole [] = refl
take_whole (c ∷ s) = ap (λ r. c ∷ r) (take_whole s)

matches-take :
    (uri name : Bytes) → matches uri name ≡ true → (uri ≢ []) × (take (length uri) name ≡ uri)
unfolding strcmp_s
matches-take [] name h = absurd (ground arith)
matches-take (c ∷ uri) name h =
    let z : strncmp (c ∷ uri) name (length (c ∷ uri)) ≡ pos 0 = ground arith in
    (λ e. cc, sym ((strncmp_iff (length (c ∷ uri)) (c ∷ uri) name).0 z) ∙ take_whole (c ∷ uri))

pub request_of-IsPath :
    (uri : Bytes) (er : EnrollReq) (cr : CoapReq)
    → request_of uri ≡ some (er, cr)
    → IsPath uri er cr
unfolding request_of
request_of-IsPath uri er cr h = elim (Bool-cases (matches uri (codes "est/sen"))) [
  | inl b ↦
      let (n, t) = matches-take uri (codes "est/sen") b in (n, inl (ground arith, ground arith, t))
  | inr b ↦ elim (Bool-cases (matches uri (codes "est/sren"))) [
    | inl c ↦
        let (n, t) = matches-take uri (codes "est/sren") c in
        (n, inr (ground arith, ground arith, t))
    | inr c ↦ absurd (ground arith)
  ]
]

-- The CSR that a request brings to a node with a buffer: its payload, where it is not in blocks or
-- is the first block; else the last block comes behind the buffer that ends where it begins, or, if it
-- is empty or begins before the end of the buffer, nothing comes to the buffer.
pub data Brought (payload buffered csr : Bytes) : Option Block → Type 0 where
  at_once : csr ≡ payload → Brought payload buffered csr none
  first :
      (b : Block)
      → b.m ≡ false
      → b.num * block_size b.szx ≡ 0
      → csr ≡ payload
      → Brought payload buffered csr (some b)
  last :
      (b : Block)
      → b.m ≡ false
      → b.num * block_size b.szx ≡ length buffered
      → csr ≡ buffered ++ payload
      → Brought payload buffered csr (some b)
  again :
      (b : Block)
      → b.m ≡ false
      → (payload ≡ []) ⊎ (b.num * block_size b.szx < length buffered)
      → csr ≡ buffered
      → Brought payload buffered csr (some b)

whole_brings :
    (payload : Bytes) (node got : Node)
    → receive_whole node payload ≡ some (whole got)
    → got.req_buf ≡ payload
unfolding receive_whole copy
whole_brings (c ∷ payload) node got h = ground arith
whole_brings [] node got h = elim (Bool-cases (length node.req_buf == 0)) [
  | inr b ↦ absurd (ground arith)
  | inl b ↦
      let same : node ≡ got = ground arith in
      ap (λ n. n.req_buf) (sym same) ∙ is_nil node.req_buf (ground arith)
]
  where
    is_nil : (s : Bytes) → length s ≡ 0 → s ≡ []
    is_nil [] e = refl
    is_nil (c ∷ s) e = absurd (omega arith)

copied :
    (m : Bool) (before : Bytes) (offset : ℕ) (node got : Node) (payload : Bytes)
    → copy m before offset node payload ≡ some (whole got)
    → (m ≡ false) × (got.req_buf ≡ before ++ payload)
unfolding copy
copied true before offset node got payload h = absurd (ground arith)
copied false before offset node got payload h = (refl, ground arith)

block_brings :
    (b : Block) (payload : Bytes) (node got : Node)
    → receive_block b node payload ≡ some (whole got)
    → Brought payload node.req_buf got.req_buf (some b)
unfolding receive_block
block_brings b [] node got h =
    let m : b.m ≡ false = ground arith in
    let same : node ≡ got = ground arith in again b m (inl refl) (ap (λ n. n.req_buf) (sym same))
block_brings b (c ∷ payload) node got h =
    let offset = b.num * block_size b.szx in
    elim (Bool-cases (offset == 0)) [
      | inl z ↦
          let (m, e) = copied b.m [] 0 node got (c ∷ payload) (ground arith) in
          first b m (ground arith) e
      | inr z ↦ elim (Bool-cases (ltb (length node.req_buf) offset)) [
        | inl x ↦ absurd (ground arith)
        | inr x ↦ elim (Bool-cases (ltb offset (length node.req_buf))) [
          | inl y ↦
              let m : b.m ≡ false = ground arith in
              let same : node ≡ got = ground arith in
              again b m (inr (ground arith)) (ap (λ n. n.req_buf) (sym same))
          | inr y ↦
              let (m, e) = copied b.m node.req_buf offset node got (c ∷ payload) (ground arith) in
              last b m (ground arith) e
        ]
      ]
    ]

no_blocks : (n : ℕ) → 0 * n ≡ 0
no_blocks n = omega arith

first_copy :
    (b : Block) (c : ℕ) (payload : Bytes) (node got : Node)
    → b.num * block_size b.szx ≡ 0
    → receive_block b node (c ∷ payload) ≡ some (whole got)
    → copy b.m [] 0 node (c ∷ payload) ≡ some (whole got)
unfolding receive_block
first_copy b c payload node got z h = ground arith

-- Where the node starts again, the request is whole or the first block, and not empty.
pub restart_brings :
    (cr : CoapReq) (block1 : Option Block) (payload : Bytes) (node got : Node)
    → receive_request block1 payload (restart cr block1 payload node) ≡ some (whole got)
    → Brought payload node.req_buf got.req_buf block1
unfolding receive_request restart
restart_brings cr none payload node got h =
    at_once (whole_brings payload (restart cr none payload node) got h)
restart_brings cr (some b) [] node got h =
    block_brings b [] node got
      (sym (ap (λ n. receive_block b n []) (no_payload cr (some b) node)) ∙ h)
  where
    no_payload :
        (cr : CoapReq) (block1 : Option Block) (node : Node) → restart cr block1 [] node ≡ node
    no_payload cr block1 node = ground arith
restart_brings cr (some b) (c ∷ payload) node got h = elim (Bool-cases (b.num == 0)) [
  | inr z ↦
      let same : restart cr (some b) (c ∷ payload) node ≡ node = ground arith in
      block_brings b (c ∷ payload) node got
        (sym (ap (λ n. receive_block b n (c ∷ payload)) same) ∙ h)
  | inl z ↦ first_brings (restart cr (some b) (c ∷ payload) node) h (
      let e : b.num ≡ 0 = ground arith in
      ap (λ n. n * block_size b.szx) e ∙ no_blocks (block_size b.szx))
]
  where
    first_brings :
        (n : Node)
        → receive_block b n (c ∷ payload) ≡ some (whole got)
        → b.num * block_size b.szx ≡ 0
        → Brought (c ∷ payload) node.req_buf got.req_buf (some b)
    first_brings n k z =
        let (m, e) = copied b.m [] 0 n got (c ∷ payload) (first_copy b c payload n got z k) in
        first b m z e

-- The request brings its CSR to the node that `get_coap_req` has found.
abbrev pub Brings : CoapRequest → Option ℕ × Reqs → Bytes → Type 0
Brings req found csr =
    (i : ℕ) × (node : Node) × (found.0 ≡ some i)
    × (get_elem? found.1.coap_req_array i ≡ some node)
    × Brought req.payload node.req_buf csr req.block1
