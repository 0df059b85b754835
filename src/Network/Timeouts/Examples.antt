-- ===== src/Network/Timeouts/Examples.antt =====
-- States at which the theorems on timeouts apply.
use helpz.Prelude.{
  ℕ, List, map, arith, ◌+◌, ◌≤◌, ◌<◌, ◌≡◌, refl, true, false, none, some, [], ◌∷◌, ◌++◌, All,
}
use helpz.Network.Example.{test_qt}
use helpz.Network.Message.{MessageItem, message_item}
use helpz.Network.Fragment.{FragmentedMessage, fragmented_message}
use helpz.Network.Protocol.{Protocol, Writer, protocol}
use helpz.Network.Timeouts.{is_stalled, process_fragment_timeout, process_message_timeout}
use helpz.Network.Timeouts.Outcomes.{
  treatment, parting, all_events, process_message_timeout_lem, process_fragment_timeout_rests,
}

-- Two messages wait: one has time left, and one is at its end and has a callback for that.
abbrev alive : MessageItem
unfolding message_item
alive = record (message_item 20 none (some (record { bytes = 1 ∷ []; pos = 0 })) 3000) {
  id = some 4;
  end_time = 9000;
}

abbrev expired : MessageItem
unfolding message_item
expired = record (message_item 20 none (some (record { bytes = 1 ∷ []; pos = 0 })) 3000) {
  id = some 5;
  end_time = 1000;
  timeout_func = true;
  finally_func = true;
}

abbrev peer : Writer
peer = record { title = []; last_msg_recv_time = 0 }

-- A message of 300 bytes is here up to 128.
abbrev begun : FragmentedMessage
unfolding fragmented_message
begun = record (fragmented_message 7 20 128 300) { part_vect = (128, 300) ∷ [] }

abbrev busy : Protocol
unfolding protocol
busy = record protocol {
  writer = some peer;
  waiting_messages = (1000, expired) ∷ (1500, alive) ∷ (90000000, alive) ∷ [];
  fragmented_messages = (7, begun) ∷ [];
}

process_message_timeout_lem_example :
    (due later : List (ℕ × MessageItem)) × (busy.waiting_messages ≡ due ++ later)
    × All (λ e. e.0 ≤ 2000 + 20000000) due
    × All (λ e. 2000 + 20000000 < e.0) later
    × (let messages = map (λ (e : ℕ × MessageItem). e.1) due in
        process_message_timeout 2000 busy ≡ record busy {
          waiting_messages = later;
          log =
              (busy.log ++ all_events (treatment 2000) messages)
              ++ all_events (parting 2000) messages;
        })
unfolding busy
process_message_timeout_lem_example =
    process_message_timeout_lem 2000 busy peer refl (omega arith, (omega arith, (omega arith, tt)))

stalled_are_gone :
    All
      (λ (e : ℕ × FragmentedMessage). is_stalled 2000000000 e.1 ≡ false)
      (process_fragment_timeout test_qt 2000000000 busy).fragmented_messages
stalled_are_gone = process_fragment_timeout_rests test_qt 2000000000 busy
