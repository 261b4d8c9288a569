-- ===== src/Coap/Blocks/Transfer.antt =====
-- src/est/est_server_coap.c: a payload that a client sends in blocks is put together again.
use aims_libest.Prelude.{
  ℕ, zero, suc, ◌+◌, ◌*◌, ◌≤◌, ◌<◌, ◌≡◌, ◌⊎◌, ◌↔◌, inl, inr, refl, sym, ap, ◌∙◌, Bytes, List, [],
  ◌∷◌, ◌++◌, append-nil, append_assoc, Option, none, some, Bool, true, false, ◌==◌, length,
  length-append, arith, Bool-cases,
}
use aims_libest.Coap.{Node}
use aims_libest.Coap.Blocks.{
  buf_len_max, Block, Received, more, whole, refuse, pow2, block_size, respond, store, copy,
  receive_block,
}

-- Every chunk but the last has the size of a block, and the last one is not empty.
abbrev pub Chunked : ℕ → List Bytes → Type 0
Chunked size [] = ⊥
Chunked size (c ∷ []) = 1 ≤ length c
Chunked size (c ∷ d ∷ chunks) = (length c ≡ size) × Chunked size (d ∷ chunks)

abbrev pub joined : List Bytes → Bytes
joined [] = []
joined (c ∷ chunks) = c ++ joined chunks

abbrev pub is_more : List Bytes → Bool
is_more [] = false
is_more (c ∷ chunks) = true

abbrev node_of : Received → Node
node_of (more node) = node
node_of (whole node) = node
node_of (refuse code node) = node

-- the client's blocks from number `num` on, each sent when the one before is taken
unfoldable pub transfer : ℕ → ℕ → List Bytes → Node → Option Received
transfer szx num [] node = some (more node)
transfer szx num (c ∷ chunks) node =
    elim (receive_block (record { num = num; m = is_more chunks; szx = szx }) node c) [
      | none ↦ none
      | some (whole node') ↦ some (whole node')
      | some (refuse code node') ↦ some (refuse code node')
      | some (more node') ↦ transfer szx (suc num) chunks node'
    ]

pow2_pos : (n : ℕ) → 1 ≤ pow2 n
pow2_pos zero = omega arith
pow2_pos (suc n) = omega (arith, pow2_pos n)

size_pos : (szx : ℕ) → 1 ≤ block_size szx
unfolding block_size
size_pos szx = pow2_pos (szx + 4)

empty_of : (s : Bytes) → length s ≡ 0 → s ≡ []
empty_of [] h = refl
empty_of (c ∷ s) h = absurd (ground arith)

-- A block that goes on where the buffer ends is put behind it.
receive_next :
    (num szx : ℕ) (m : Bool) (node : Node) (c : Bytes)
    → 1 ≤ length c
    → length node.req_buf ≡ num * block_size szx
    → length node.req_buf + length c ≤ 16384
    → receive_block (record { num = num; m = m; szx = szx }) node c
      ≡ some (respond m (store node (node.req_buf ++ c)))
unfolding receive_block copy buf_len_max
receive_next num szx m node [] l e b = absurd (omega arith)
receive_next num szx m node (x ∷ c) l e b = elim (Bool-cases (num * block_size szx == 0)) [
  | inl z ↦
      let none_yet = empty_of node.req_buf (ground arith) in
      ground (arith, ap (λ s. some (respond m (store node (s ++ x ∷ c)))) none_yet)
  | inr z ↦ ground arith
]

transfer_more :
    (szx num : ℕ) (c : Bytes) (chunks : List Bytes) (node node' : Node)
    → receive_block (record { num = num; m = is_more chunks; szx = szx }) node c ≡ some (more node')
    → transfer szx num (c ∷ chunks) node ≡ transfer szx (suc num) chunks node'
unfolding transfer
transfer_more szx num c chunks node node' h = ground arith

transfer_whole :
    (szx num : ℕ) (c : Bytes) (chunks : List Bytes) (node node' : Node)
    → receive_block (record { num = num; m = is_more chunks; szx = szx }) node c
      ≡ some (whole node')
    → transfer szx num (c ∷ chunks) node ≡ some (whole node')
unfolding transfer
transfer_whole szx num c chunks node node' h = ground arith

transfer_from :
    (szx num : ℕ) (chunks : List Bytes) (node : Node)
    → Chunked (block_size szx) chunks
    → length node.req_buf ≡ num * block_size szx
    → length node.req_buf + length (joined chunks) ≤ 16384
    → transfer szx num chunks node ≡ some (whole (store node (node.req_buf ++ joined chunks)))
transfer_from szx num [] node k e b = elim k [ ]
transfer_from szx num (c ∷ []) node k e b =
    let l = length-append c [] in
    let step = receive_next num szx false node c k e (omega (arith, b, l)) in
    transfer_whole szx num c [] node _ step
    ∙ ap (λ s. some (whole (store node (node.req_buf ++ s)))) (sym (append-nil c))
transfer_from szx num (c ∷ d ∷ chunks) node k e b =
    let l = length-append c (joined (d ∷ chunks)) in
    let m = length-append node.req_buf c in
    let step =
      receive_next num szx true node c (omega (arith, size_pos szx, k.0)) e (omega (arith, b, l)) in
    let rest =
      transfer_from szx (suc num) (d ∷ chunks) (store node (node.req_buf ++ c)) k.1
        (ground (arith, e, m, k.0)) (omega (arith, b, l, m)) in
    transfer_more szx num c (d ∷ chunks) node _ step
    ∙ rest
    ∙ ap (λ s. some (whole (store node s))) (append_assoc node.req_buf c (joined (d ∷ chunks)))

-- A payload that fits the buffer, sent in blocks of one size in their order to a node whose buffer is
-- empty, is the node's buffer in the end, whole.
pub transfer_joins :
    (szx : ℕ) (chunks : List Bytes) (node : Node)
    → Chunked (block_size szx) chunks
    → node.req_buf ≡ []
    → length (joined chunks) ≤ 16384
    → transfer szx 0 chunks node ≡ some (whole (store node (joined chunks)))
transfer_joins szx chunks node k e b =
    let l = ap length e in
    transfer_from szx 0 chunks node k (omega (arith, l)) (omega (arith, l, b))
    ∙ ap (λ s. some (whole (store node (s ++ joined chunks)))) e

-- A block that starts inside the buffer, but not at its beginning, changes nothing.
pub receive_block_again :
    (b : Block) (node : Node) (payload : Bytes)
    → 0 < b.num * block_size b.szx
    → b.num * block_size b.szx < length node.req_buf
    → receive_block b node payload ≡ some (respond b.m node)
unfolding receive_block
receive_block_again b node [] n l = refl
receive_block_again b node (c ∷ payload) n l = ground arith

-- A block is written behind the buffer exactly where it starts at the buffer's beginning or at the end
-- of what has come, and does not fit there.
pub receive_block-outside_iff :
    (b : Block) (node : Node) (payload : Bytes)
    → (receive_block b node payload ≡ none) ↔ (
        (1 ≤ length payload)
        × ((b.num * block_size b.szx ≡ 0) ⊎ (b.num * block_size b.szx ≡ length node.req_buf))
        × (16384 < b.num * block_size b.szx + length payload))
unfolding receive_block copy buf_len_max
receive_block-outside_iff b node [] = (λ h. absurd (ground arith), λ h. absurd (omega (arith, h.0)))
receive_block-outside_iff b node (c ∷ payload) = ground arith
