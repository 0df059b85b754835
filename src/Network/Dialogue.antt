-- ===== src/Network/Dialogue.antt =====
-- Two protocols that talk about a long message: the receiver asks for fragments and the sender answers
-- (Network/net_protocol.cpp, `prepare_packet_to_send`, `internal_process_message` and
-- `process_fragment_query`). The link keeps and delivers what is written. The header of a packet, its
-- compression and its id are looked at in Network/Exchange.
pub mod Query
pub mod Answer
pub mod Reply
pub mod Fragment
pub mod Talk
pub mod Offer
pub mod Message
pub mod Whole
mod Examples
use helpz.Prelude.{
  ℕ, suc, Bool, true, false, Option, none, some, List, [], ◌∷◌, ◌++◌, lookup, Bytes,
}
use helpz.Network.Qt.{Qt}
use helpz.Network.Message.{MessageItem}
use helpz.Network.Protocol.{Protocol, Event, write, process_message}
use helpz.Network.Packet.{draft, take_id, prepare_packet_to_send}
use helpz.Network.Receive.{App, process_content}

abbrev pub written : Event → Option MessageItem
written (write msg) = some msg
written e = none

-- The message that was written last.
unfoldable pub last_write : List Event → Option MessageItem
last_write [] = none
last_write (e ∷ log) = elim (last_write log) [ none ↦ written e | some later ↦ some later ]

abbrev pub delivery : Event → List Event
delivery (process_message id cmd bytes) = process_message id cmd bytes ∷ []
delivery e = []

-- The messages that were handed to the program.
unfoldable pub deliveries : List Event → List Event
deliveries [] = []
deliveries (e ∷ log) = delivery e ++ deliveries log

module _ (qt : Qt) (app : App) where
  -- What one side wrote last becomes a packet, which the other side handles: both sides after it.
  unfoldable pub hand_over : ℕ → Protocol → Protocol → Protocol × Protocol
  hand_over now from to = elim (last_write from.log) [
    | none ↦ (from, to)
    | some msg ↦ elim msg.data_device [
      | none ↦ (from, to)
      | some d ↦
          let out = draft qt now msg d in
          (
            (prepare_packet_to_send qt now msg from).1,
            (process_content qt app now (take_id msg from).0 msg.cmd out.flags out.body to).1,
          )
    ]
  ]

  -- A query of the receiver, and the answer of the sender.
  unfoldable pub ask_and_answer : ℕ → Protocol × Protocol → Protocol × Protocol
  unfolding hand_over
  ask_and_answer now (s, r) = let (asked, told) = hand_over now r s in hand_over now told asked

  -- Queries at the given times, as long as the receiver has parts of the message.
  unfoldable pub talk : ℕ → List ℕ → Protocol × Protocol → Protocol × Protocol
  unfolding ask_and_answer
  talk id [] sides = sides
  talk id (now ∷ times) sides =
      let rest = talk id times (ask_and_answer now sides) in
      elim (lookup id sides.1.fragmented_messages) [ none ↦ sides | some msg ↦ rest ]
