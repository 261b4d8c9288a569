-- ===== src/Coap/Blocks.antt =====
-- src/est/est_server_coap.c, est_coap_sen_handler: how a request's payload, whole or in blocks
-- (RFC 7959), comes into the buffer of the client's node. libcoap is a parameter: what it reads of the
-- request are the arguments.
pub mod Transfer
use aims_libest.Prelude.{
  ℕ, zero, suc, ◌+◌, ◌*◌, Bytes, List, [], ◌∷◌, ◌++◌, Option, none, some, Bool, true, false, not,
  ◌&&◌, ◌||◌, if◌then◌else◌, ltb, ◌==◌, length, is_some,
}
use aims_libest.Coap.{CoapReq, Node, reinit_coap_req}

-- COAP_REQ_NODE_BUF_LEN_MAX
unfoldable pub buf_len_max : ℕ
buf_len_max = 16384

-- coap_block_t
pub record Block : Type 0 where
  pub num : ℕ
  pub m : Bool
  pub szx : ℕ

-- what a request comes to: more blocks are awaited (2.31), the payload is whole, or it is refused with
-- a code
pub data Received : Type 0 where
  more : Node → Received
  whole : Node → Received
  refuse : ℕ → Node → Received

-- 2 ^ n
abbrev pub pow2 : ℕ → ℕ
pow2 zero = 1
pow2 (suc n) = 2 * pow2 n

unfoldable pub block_size : ℕ → ℕ
block_size szx = pow2 (szx + 4)

abbrev pub respond : Bool → Node → Received
respond m node = if m then more node else whole node

abbrev pub store : Node → Bytes → Node
store node buf = record node { req_buf = buf }

-- memcpy_s with the size of the payload as its own bound; `none` is a write behind the buffer
unfoldable pub copy : Bool → Bytes → ℕ → Node → Bytes → Option Received
unfolding buf_len_max
copy m before offset node payload =
    if ltb buf_len_max (offset + length payload)
    then none
    else some (respond m (store node (before ++ payload)))

unfoldable pub receive_block : Block → Node → Bytes → Option Received
unfolding copy block_size
receive_block b node [] = some (respond b.m node)
receive_block b node (c ∷ payload) =
    let offset = b.num * block_size b.szx in
    if offset == 0
    then copy b.m [] 0 node (c ∷ payload)
    else if ltb (length node.req_buf) offset
    then some (refuse 408 node)
    else if ltb offset (length node.req_buf)
    then some (respond b.m node)
    else copy b.m node.req_buf offset node (c ∷ payload)

unfoldable pub receive_whole : Node → Bytes → Option Received
unfolding copy
receive_whole node (c ∷ payload) = copy false [] 0 node (c ∷ payload)
receive_whole node [] =
    if not (length node.req_buf == 0) then some (refuse 400 node) else some (whole node)

abbrev pub first_block : Option Block → Bool
first_block none = true
first_block (some b) = b.num == 0

-- the first byte of the buffer is not the NUL
abbrev pub is_begun : Bytes → Bool
is_begun [] = false
is_begun (c ∷ s) = not (c == 0)

abbrev pub is_payload : Bytes → Bool
is_payload [] = false
is_payload (c ∷ s) = true

-- a new payload on a buffer that is begun starts the node again
unfoldable pub restart : CoapReq → Option Block → Bytes → Node → Node
restart req block1 payload node =
    if is_begun node.req_buf && is_payload payload && first_block block1
    then reinit_coap_req req node
    else node

unfoldable pub receive_request : Option Block → Bytes → Node → Option Received
unfolding receive_block receive_whole
receive_request none payload node = receive_whole node payload
receive_request (some b) payload node = receive_block b node payload

-- A node with a response goes on to send it.
unfoldable pub receive : CoapReq → Option Block → Bytes → Node → Option Received
unfolding restart receive_request
receive req block1 payload node =
    let node' = restart req block1 payload node in
    if is_begun node'.resp_buf then some (whole node') else receive_request block1 payload node'
