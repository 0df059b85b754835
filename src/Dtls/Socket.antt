-- ===== src/Dtls/Socket.antt =====
-- `Socket` in DTLS/dtls_socket.h and dtls_socket.cpp: its receives, one after another, and what comes of
-- a send. A node is known by its endpoint; the lock of the node is not modelled.
mod Receives
mod Examples
use helpz.Prelude.{
  ℕ, zero, suc, ◌+◌, ◌-◌, ◌≡◌, Bool, true, false, not, Option, none, some, List, [], ◌∷◌, ◌++◌, ltb,
  ◌==◌, if◌then◌else◌,
}

-- `receives` counts the receives that are under way; `processed` is what `process_data` of the
-- controller was given, `sends` what was given to the socket to send.
pub record Socket : Type 0 where
  pub has_socket : Bool
  pub receives : ℕ
  pub processed : List (ℕ × List ℕ)
  pub sends : List (ℕ × List ℕ)
  pub messages : ℕ

-- How a receive ends: with a datagram from an endpoint, or with an error.
pub data Reception : Type 0 where
  datagram : ℕ → List ℕ → Reception
  failure : Reception

-- The errors of a send.
pub data SendError : Type 0 where
  send_failed wrong_size empty_data : SendError

unfoldable pub start_receive : Socket → Socket
start_receive socket =
    if socket.has_socket then record socket { receives = suc socket.receives } else socket

unfoldable pub send : ℕ → List ℕ → Socket → Socket
send remote_endpoint bytes socket =
    if socket.has_socket
    then record socket { sends = socket.sends ++ ((remote_endpoint, bytes) ∷ []) }
    else socket

-- `error_message` of a socket of a server: to the log.
unfoldable pub error_message : Socket → Socket
error_message socket = record socket { messages = suc socket.messages }

-- `handle_receive`. `has_node` is whether `get_node` of the controller gives a node for an endpoint.
unfoldable pub handle_receive : (ℕ → Bool) → Reception → Socket → Socket
unfolding start_receive error_message
handle_receive has_node failure socket = error_message socket
handle_receive has_node (datagram endpoint bytes) socket =
    let again = start_receive socket in
    if has_node endpoint
    then record again { processed = again.processed ++ ((endpoint, bytes) ∷ []) }
    else again

-- `handle_send` with the size of what was to be sent.
unfoldable pub handle_send : ℕ → Bool → ℕ → Bool → Option SendError
handle_send size is_error bytes_transferred has_data =
    if is_error
    then some send_failed
    else if not (size == bytes_transferred)
    then some wrong_size
    else if has_data
    then none
    else some empty_data

-- Something comes in for the socket. A receive that is under way ends with it; with none under way it
-- stays with the system.
unfoldable pub receive_one : (ℕ → Bool) → Reception → Socket → Socket
unfolding handle_receive
receive_one has_node reception socket =
    if ltb 0 socket.receives
    then handle_receive has_node reception (record socket { receives = socket.receives - 1 })
    else socket

unfoldable pub receive_all : (ℕ → Bool) → List Reception → Socket → Socket
unfolding receive_one
receive_all has_node [] socket = socket
receive_all has_node (reception ∷ receptions) socket =
    receive_all has_node receptions (receive_one has_node reception socket)
