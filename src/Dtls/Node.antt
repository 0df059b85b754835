-- ===== src/Dtls/Node.antt =====
-- `Node` in DTLS/dtls_node.h and dtls_node.cpp. A protocol is known by a number, and of a TLS
-- channel it is known whether the node has one; Node/Channel has what the channel does. The title of
-- the node is for the log and left out.
pub mod Channel
pub mod Calls
pub mod Writers
pub mod Handshake
pub mod Faults
pub mod Lost
mod Examples
use helpz.Prelude.{
  ℕ, ◌+◌, ◌≡◌, arith, Bool, false, List, [], ◌∷◌, ◌++◌, Option, none, some, if◌then◌else◌,
}

-- What the protocols, the channels, the socket and the controller are told.
pub data Notice : Type 0 where
  before_remove_copy : ℕ → Notice
  proto_closed : ℕ → Notice
  writer_reset : ℕ → Notice
  channel_closed : ℕ → Notice
  writer_set : ℕ → Notice
  ready_write : ℕ → Notice
  bytes_processed : ℕ → List ℕ → Notice
  sent : ℕ → List ℕ → Notice
  record_added : ℕ → List ℕ → Notice
  remove_posted : ℕ → Notice

pub record Node : Type 0 where
  pub receiver_endpoint : ℕ
  pub protocol : Option ℕ
  pub has_channel : Bool
  pub last_msg_recv_time : ℕ

-- `protocol_->closed()` and what follows it in `close`.
abbrev protocol_notices : Option ℕ → List Notice
protocol_notices none = []
protocol_notices (some p) = proto_closed p ∷ writer_reset p ∷ []

-- What `close` tells.
abbrev pub close_notices : Node → List Notice
close_notices node =
    protocol_notices node.protocol
    ++ (if node.has_channel then channel_closed node.receiver_endpoint ∷ [] else [])

unfoldable pub close : Node → List Notice × Node
close node = (close_notices node, record node { protocol = none; has_channel = false })

-- `tls_alert`: `is_close_notify` is whether the alert has that type.
unfoldable pub tls_alert : Bool → Node → List Notice × Node
unfolding close
tls_alert is_close_notify node =
    let (notices, closed) = close node in
    elim node.protocol [
      | none ↦ ([], node)
      | some p ↦ if is_close_notify then (proto_closed p ∷ notices, closed) else ([], node)
    ]

-- `set_protocol`: what the protocol is told, and the node.
unfoldable pub set_protocol : Option ℕ → Node → List Notice × Node
set_protocol protocol node =
    (elim protocol [ none ↦ [] | some p ↦ writer_set p ∷ [] ], record node { protocol = protocol })

-- The sum of a number for each notice.
unfoldable pub tally : (Notice → ℕ) → List Notice → ℕ
tally f [] = 0
tally f (n ∷ ns) = f n + tally f ns

pub tally-append :
    (f : Notice → ℕ) (xs ys : List Notice) → tally f (xs ++ ys) ≡ tally f xs + tally f ys
unfolding tally
tally-append f [] ys = omega arith
tally-append f (x ∷ xs) ys = omega (arith, tally-append f xs ys)
