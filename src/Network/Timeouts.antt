-- ===== src/Network/Timeouts.antt =====
-- `Protocol::process_wait_list` in Network/net_protocol.cpp: the timeouts of fragments and of messages.
-- A timeout callback that throws is left out.
pub mod Outcomes
mod Examples
use helpz.Prelude.{
  ℕ, ◌+◌, ◌/◌, Bool, true, false, not, ◌&&◌, none, some, List, [], ◌∷◌, ltb, leb, if◌then◌else◌,
  emplace, with_flag,
}
use helpz.Network.Qt.{Qt, DataStream, Device}
use helpz.Network.Message.{MessageItem, set_fragment_size, set_flags, ms}
use helpz.Network.Fragment.{FragmentedMessage, is_parts_empty, get_next_part}
use helpz.Network.Sender.{send_with}
use helpz.Network.Protocol.{
  Protocol, Event, timed_out, emit, destroy, send_message, request_timeout, repeated_flag,
  fragment_query_flag,
}
use helpz.Network.Waiting.{pop_waiting_messages}
use helpz.Network.Receive.{query_bytes}

-- A part that does not come halves the size of the next, down to 128.
unfoldable pub shrink : ℕ → ℕ
shrink size = if ltb (size / 2) 128 then 128 else size / 2

-- Parts are missing, and none came for 1.5 s.
unfoldable pub is_stalled : ℕ → FragmentedMessage → Bool
is_stalled now msg = not (is_parts_empty msg) && leb (msg.last_part_time + ms 1500) now

module _ (qt : Qt) where
  open qt use {device, stream}

  unfoldable pub ask_again : ℕ → FragmentedMessage → Protocol → FragmentedMessage × Protocol
  ask_again now msg p =
      let next = record msg {
        max_fragment_size = shrink msg.max_fragment_size;
        last_part_time = now;
      } in
      let (pos, size) = get_next_part next in
      let q = record p { lost_msg_list = emplace msg.id now p.lost_msg_list } in
      (
        next,
        send_with device msg.cmd none fragment_query_flag (query_bytes qt msg.id pos size)
            (request_timeout (now + ms 1505) true q),
      )

  -- The loop over the messages in fragments.
  unfoldable pub ask_stalled :
      ℕ → List (ℕ × FragmentedMessage) → Protocol → List (ℕ × FragmentedMessage) × Protocol
  ask_stalled now [] p = ([], p)
  ask_stalled now ((id, msg) ∷ rest) p =
      let (next, q) = if is_stalled now msg then ask_again now msg p else (msg, p) in
      let (others, r) = ask_stalled now rest q in ((id, next) ∷ others, r)

  unfoldable pub process_fragment_timeout : ℕ → Protocol → Protocol
  process_fragment_timeout now p =
      let (messages, q) = ask_stalled now p.fragmented_messages p in
      record q { fragmented_messages = messages }

-- A message that has time left goes again, in smaller fragments and marked as repeated.
unfoldable pub is_alive : ℕ → MessageItem → Bool
is_alive now msg = ltb now msg.end_time && elim msg.data_device [ none ↦ false | some _ ↦ true ]

unfoldable pub repeat : MessageItem → MessageItem
unfolding set_fragment_size set_flags
repeat msg =
    set_flags (with_flag repeated_flag msg.flags) (set_fragment_size (msg.fragment_size / 2) msg)

unfoldable pub process_due : ℕ → List MessageItem → Protocol → Protocol
process_due now [] p = p
process_due now (msg ∷ rest) p = process_due now rest (
    if is_alive now msg
    then send_message (repeat msg) p
    else if msg.timeout_func
    then emit (timed_out msg) p
    else p)

-- The messages that were not sent go with the vector.
unfoldable pub destroy_expired : ℕ → List MessageItem → Protocol → Protocol
unfolding is_alive destroy
destroy_expired now [] p = p
destroy_expired now (msg ∷ rest) p =
    destroy_expired now rest (if is_alive now msg then p else destroy msg p)

unfoldable pub process_message_timeout : ℕ → Protocol → Protocol
process_message_timeout now p =
    let (messages, q) = pop_waiting_messages now p in
    destroy_expired now messages (process_due now messages q)

-- `process_wait_list`: the data tell whether the timeout is for fragments.
module _ (qt : Qt) where
  unfoldable pub process_wait_list : ℕ → Bool → Protocol → Protocol
  process_wait_list now true p = process_fragment_timeout qt now p
  process_wait_list now false p = process_message_timeout now p
