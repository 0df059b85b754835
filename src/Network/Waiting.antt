-- ===== src/Network/Waiting.antt =====
-- The waiting list of `Protocol` in Network/net_protocol.cpp: messages by the time of their resend.
pub mod Entries
pub mod Due
mod Examples
use helpz.Prelude.{
  ℕ, ◌+◌, Bool, true, false, ◌&&◌, Option, none, some, List, [], ◌∷◌, ltb, ◌==◌, if◌then◌else◌,
  lookup, emplace,
}
use helpz.Network.Message.{MessageItem, ms}
use helpz.Network.Protocol.{Protocol, destroy}

-- `id_.value_or(0)`.
abbrev pub id_or_zero : MessageItem → ℕ
id_or_zero msg = elim msg.id [ none ↦ 0 | some i ↦ i ]

-- `pop_waiting_message`: the first message that passes the test, and the other messages.
unfoldable pub find_waiting : (MessageItem → Bool) → List (ℕ × MessageItem) → Option MessageItem
find_waiting check [] = none
find_waiting check ((time, msg) ∷ rest) = if check msg then some msg else find_waiting check rest

unfoldable pub drop_waiting : (MessageItem → Bool) → List (ℕ × MessageItem) → List (ℕ × MessageItem)
drop_waiting check [] = []
drop_waiting check ((time, msg) ∷ rest) =
    if check msg then rest else (time, msg) ∷ drop_waiting check rest

unfoldable pub pop_waiting_message : (MessageItem → Bool) → Protocol → Option MessageItem × Protocol
unfolding find_waiting drop_waiting
pop_waiting_message check p = (
  find_waiting check p.waiting_messages,
  record p { waiting_messages = drop_waiting check p.waiting_messages },
)

unfoldable pub pop_waiting_answer : ℕ → ℕ → Protocol → Option MessageItem × Protocol
unfolding pop_waiting_message
pop_waiting_answer answer_id cmd =
    pop_waiting_message (λ item. (id_or_zero item == answer_id) && (item.cmd == cmd))

unfoldable pub pop_waiting_fragment : ℕ → Protocol → Option MessageItem × Protocol
unfolding pop_waiting_message
pop_waiting_fragment fragmented_msg_id =
    pop_waiting_message (λ item. id_or_zero item == fragmented_msg_id)

unfoldable pub destroy_popped : Option MessageItem → Protocol → Protocol
unfolding destroy
destroy_popped none p = p
destroy_popped (some msg) p = destroy msg p

-- `waiting_messages_.emplace`: at a time that is taken the message is not kept, and goes.
unfoldable pub emplace_waiting : ℕ → MessageItem → Protocol → Protocol
unfolding destroy
emplace_waiting time msg p = elim (lookup time p.waiting_messages) [
  | none ↦ record p { waiting_messages = emplace time msg p.waiting_messages }
  | some _ ↦ destroy msg p
]

-- `add_to_waiting`: another message that waits under the same id is dropped first.
unfoldable pub add_to_waiting : ℕ → MessageItem → Protocol → Protocol
unfolding pop_waiting_fragment destroy_popped emplace_waiting
add_to_waiting time msg p =
    let (old, q) = pop_waiting_fragment (id_or_zero msg) p in
    emplace_waiting time msg (destroy_popped old q)

-- `add_to_waiting` of a message that its caller holds too, so that it does not go if the list does not
-- keep it: whether the list does.
unfoldable pub share_waiting : ℕ → MessageItem → Protocol → Bool × Protocol
unfolding pop_waiting_fragment destroy_popped
share_waiting time msg p =
    let (old, q) = pop_waiting_fragment (id_or_zero msg) p in
    let r = destroy_popped old q in
    elim (lookup time r.waiting_messages) [
      | none ↦ (true, record r { waiting_messages = emplace time msg r.waiting_messages })
      | some _ ↦ (false, r)
    ]

-- `pop_waiting_messages`: those whose time comes within 20 ms. The list is in the order of time.
unfoldable pub due_messages : ℕ → List (ℕ × MessageItem) → List MessageItem
due_messages limit [] = []
due_messages limit ((time, msg) ∷ rest) =
    if ltb limit time then [] else msg ∷ due_messages limit rest

unfoldable pub later_messages : ℕ → List (ℕ × MessageItem) → List (ℕ × MessageItem)
later_messages limit [] = []
later_messages limit ((time, msg) ∷ rest) =
    if ltb limit time then (time, msg) ∷ rest else later_messages limit rest

unfoldable pub pop_waiting_messages : ℕ → Protocol → List MessageItem × Protocol
unfolding due_messages later_messages
pop_waiting_messages now p = (
  due_messages (now + ms 20) p.waiting_messages,
  record p { waiting_messages = later_messages (now + ms 20) p.waiting_messages },
)
