-- ===== src/Dtls/Client/Silence.antt =====
-- What a client does when its server falls silent. See DTLS/dtls_client.cpp and dtls_client_node.cpp.
use helpz.Prelude.{ℕ, suc, ◌+◌, ◌≤◌, ◌<◌, ◌≡◌, true, false, none, some, arith}
use helpz.Network.Message.{seconds}
use helpz.Dtls.Client.{Client, is_reconnect_needed, check_deadline, receive}

-- An active client with a protocol.
pub record IsConnected (client : Client) : Type 0 where
  pub active : client.node.is_active ≡ true
  pub protocol : client.node.has_protocol ≡ true

-- A connected client that has not yet asked and that hears nothing for 20 s sends one ping at the next
-- deadline, and if it hears nothing up to the deadline after it, it is cut off with no further ping.
pub silence_lem :
    (first second : ℕ) (client : Client)
    → IsConnected client
    → client.node.ping_flag ≡ false
    → client.is_cancelled ≡ false
    → client.deadline ≡ some first
    → client.node.last_msg_recv_time + seconds 20 ≤ first
    → first + seconds 10 ≤ second
    → let once = check_deadline first false client in
      let twice = check_deadline second false once in
      (once.node.pings ≡ suc client.node.pings)
      × ((once.is_cancelled ≡ false)
          × ((twice.is_cancelled ≡ true)
              × ((twice.deadline ≡ none) × (twice.node.pings ≡ suc client.node.pings))))
unfolding check_deadline is_reconnect_needed
silence_lem first second client c flag alive due silent later =
    ground (arith, c.active, c.protocol, flag, alive, due)

-- A connected client whose server answers before the deadline behind the ping is not cut off by that
-- deadline and may ask again: the check at the deadline, within 20 s of the answer, does nothing but
-- move the deadline.
pub answered_lem :
    (heard now : ℕ) (client : Client)
    → IsConnected client
    → client.is_cancelled ≡ false
    → now < heard + seconds 20
    → heard + seconds 10 ≤ now
    → let after = check_deadline now false (receive heard client) in
      (after.is_cancelled ≡ false)
      × ((after.node.ping_flag ≡ false)
          × ((after.node.pings ≡ client.node.pings) × (after.deadline ≡ some (now + seconds 10))))
unfolding check_deadline is_reconnect_needed receive
answered_lem heard now client c alive soon due = ground (arith, c.active, c.protocol, alive)
