-- ===== src/Dtls/Client.antt =====
-- `Client_Node` and the deadline of `Client` in DTLS/dtls_client_node.cpp and dtls_client.cpp, with
-- `process_data` of DTLS/dtls_client_controller.cpp. Of the channel it is known whether it is active.
pub mod Silence
use helpz.Prelude.{
  ℕ, suc, ◌+◌, ◌-◌, Bool, true, false, not, ◌&&◌, Option, none, some, ltb, leb, if◌then◌else◌,
}
use helpz.Network.Message.{seconds}

-- `pings` counts the messages with the command PING.
pub record ClientNode : Type 0 where
  pub is_active : Bool
  pub has_protocol : Bool
  pub last_msg_recv_time : ℕ
  pub ping_flag : Bool
  pub pings : ℕ

-- The socket is cut off when its operations are cancelled; a deadline of `none` never passes.
pub record Client : Type 0 where
  pub node : ClientNode
  pub deadline : Option ℕ
  pub is_cancelled : Bool

unfoldable pub reset_ping_flag : ClientNode → ClientNode
reset_ping_flag node = record node { ping_flag = false }

-- `is_reconnect_needed`: a node that hears nothing asks once with a ping.
unfoldable pub is_reconnect_needed : ℕ → ClientNode → Bool × ClientNode
is_reconnect_needed now node =
    if node.is_active
    then if ltb (now - node.last_msg_recv_time) (seconds 20)
      then (false, node)
      else if node.has_protocol && not node.ping_flag
      then (false, record node { ping_flag = true; pings = suc node.pings })
      else (true, node)
    else (true, node)

-- The handler of the deadline; `is_aborted` is whether its timer was moved.
unfoldable pub check_deadline : ℕ → Bool → Client → Client
unfolding is_reconnect_needed
check_deadline now is_aborted client =
    let is_due : Bool = elim client.deadline [ none ↦ false | some time ↦ leb time now ] in
    let (needed, node) = is_reconnect_needed now client.node in
    if not is_aborted && is_due
    then if needed
      then record { node = node; deadline = none; is_cancelled = true }
      else record client { node = node; deadline = some (now + seconds 10) }
    else client

-- `start_receive` moves the deadline.
unfoldable pub start_receive : ℕ → Client → Client
start_receive now client = record client { deadline = some (now + seconds 10) }

-- A datagram with a message: the socket receives again, `process_data` resets the flag, and the
-- protocol, if it is there, sets the time.
unfoldable pub receive : ℕ → Client → Client
unfolding start_receive reset_ping_flag
receive now client =
    let waits = start_receive now client in
    record waits {
      node = record (reset_ping_flag waits.node) {
        last_msg_recv_time =
            if waits.node.is_active && waits.node.has_protocol
            then now
            else waits.node.last_msg_recv_time;
      };
    }
