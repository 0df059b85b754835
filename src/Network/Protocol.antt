-- ===== src/Network/Protocol.antt =====
-- The state of `Protocol` in Network/net_protocol.h and Network/net_protocol.cpp, and `send_message`. What a call does to the outside is an event: the log is in the
-- order of the calls. A written message goes to the queue of the io_context, so a handler sees none of
-- its effects. Log output is left out.
use helpz.Prelude.{ℕ, Bool, not, Option, none, some, List, [], ◌∷◌, ◌++◌, if◌then◌else◌, Bytes}
use helpz.Network.Message.{MessageItem}
use helpz.Network.Fragment.{FragmentedMessage}

-- `Protocol::Flags` and `Cmd::ReservedCommands`.
abbrev pub repeated_flag : ℕ
repeated_flag = 0x08

abbrev pub fragment_query_flag : ℕ
fragment_query_flag = 0x10

abbrev pub fragment_flag : ℕ
fragment_flag = 0x20

abbrev pub answer_flag : ℕ
answer_flag = 0x40

abbrev pub compressed_flag : ℕ
compressed_flag = 0x80

abbrev pub ping_cmd : ℕ
ping_cmd = 1

abbrev pub remove_fragment_cmd : ℕ
remove_fragment_cmd = 2

pub data Event : Type 0 where
  -- `writer->write(msg)` and `writer->add_timeout_at(time, data)`.
  write : MessageItem → Event
  add_timeout : ℕ → Bool → Event
  -- The virtual calls of the derived protocol.
  lost_msg_detected : ℕ → ℕ → Event
  process_message : ℕ → ℕ → Bytes → Event
  process_answer_message : ℕ → ℕ → Bytes → Event
  -- The callbacks of a message: answer, timeout, and finally with its argument.
  answered : MessageItem → Bytes → Event
  timed_out : MessageItem → Event
  finally : MessageItem → Bool → Event

-- `Protocol_Writer`: its title and when data last came.
pub record Writer : Type 0 where
  pub title : Bytes
  pub last_msg_recv_time : ℕ

pub record Protocol : Type 0 where
  pub next_rx_msg_id : ℕ
  pub next_tx_msg_id : ℕ
  pub lost_msg_list : List (ℕ × ℕ)
  pub device : Bytes
  pub packet_end_position : List ℕ
  pub last_msg_send_time : ℕ
  pub fragmented_messages : List (ℕ × FragmentedMessage)
  pub waiting_messages : List (ℕ × MessageItem)
  pub writer : Option Writer
  pub log : List Event

unfoldable pub protocol : Protocol
protocol = record {
  next_rx_msg_id = 0;
  next_tx_msg_id = 0;
  lost_msg_list = [];
  device = [];
  packet_end_position = [];
  last_msg_send_time = 0;
  fragmented_messages = [];
  waiting_messages = [];
  writer = none;
  log = [];
}

unfoldable pub reset_msg_id : Protocol → Protocol
reset_msg_id p = record p { next_rx_msg_id = 0; next_tx_msg_id = 0 }

unfoldable pub set_writer : Option Writer → Protocol → Protocol
set_writer writer p = record p { writer = writer }

unfoldable pub emit : Event → Protocol → Protocol
emit e p = record p { log = p.log ++ e ∷ [] }

-- The last owner lets a message go: `~Message_Item`.
unfoldable pub destroy : MessageItem → Protocol → Protocol
unfolding emit
destroy msg p = if msg.finally_func then emit (finally msg (not msg.answer_func)) p else p

-- `send_message`. With no writer or no device the message is dropped.
unfoldable pub send_message : MessageItem → Protocol → Protocol
unfolding emit destroy
send_message msg p = elim msg.data_device [
  | none ↦ destroy msg p
  | some _ ↦ elim p.writer [ none ↦ destroy msg p | some _ ↦ emit (write msg) p ]
]

-- `writer_ptr->add_timeout_at(time, data)`, if there is a writer. The data tell whether the timeout is
-- for fragments.
unfoldable pub request_timeout : ℕ → Bool → Protocol → Protocol
unfolding emit
request_timeout time for_fragments p = elim p.writer [
  | none ↦ p
  | some _ ↦ emit (add_timeout time for_fragments) p
]
