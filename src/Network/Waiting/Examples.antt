-- ===== src/Network/Waiting/Examples.antt =====
-- Waiting lists at which the theorems apply.
use helpz.Prelude.{ℕ, ◌≡◌, refl, false, none, some, [], ◌∷◌, arith}
use helpz.Network.Message.{MessageItem, message_item}
use helpz.Network.Protocol.{Protocol, protocol}
use helpz.Network.Waiting.{add_to_waiting}
use helpz.Network.Waiting.Entries.{IsWaiting, waits, add_to_waiting_taken}

abbrev numbered : ℕ → MessageItem
unfolding message_item
numbered id = record (message_item 20 none (some (record { bytes = 1 ∷ []; pos = 0 })) 3000) {
  id = some id;
}

-- Message 4 waits until 1500, message 5 until 2500.
abbrev numbered_pair : Protocol
unfolding protocol
numbered_pair = record protocol { waiting_messages = (1500, numbered 4) ∷ (2500, numbered 5) ∷ [] }

numbered_pair-IsWaiting : IsWaiting numbered_pair.waiting_messages
unfolding protocol message_item
numbered_pair-IsWaiting = record {
  sorted = (omega arith, (omega arith, tt));
  distinct = (refl, (refl, tt));
}

add_to_waiting_taken_example :
    waits 6 (add_to_waiting 2500 (numbered 6) numbered_pair).waiting_messages ≡ false
unfolding protocol message_item
add_to_waiting_taken_example =
    add_to_waiting_taken 2500 (numbered 6) (numbered 5) numbered_pair numbered_pair-IsWaiting refl
      refl
