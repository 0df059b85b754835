-- ===== src/Network/Dialogue/Examples.antt =====
-- A message of 40000 bytes, and one of 40 bytes in fragments of 36. See Network/net_protocol.cpp.
use helpz.Prelude.{
  ℕ, zero, suc, ◌≡◌, refl, ap, false, none, some, List, [], ◌∷◌, ◌++◌, arith, length, Bytes,
}
use helpz.Network.Example.{list_write, test_qt, test_app}
use helpz.Network.Message.{MessageItem}
use helpz.Network.Protocol.{Protocol, Writer, process_message, send_message}
use helpz.Network.Packet.{draft, take_id, prepare_packet_to_send, wait_for_resend}
use helpz.Network.Receive.{
  process_content, process_answer_or_fragment, process_fragment, parse_sizes, take_fragment,
  add_bytes, find_fragmented, ask_next_part,
}
use helpz.Network.Fragment.{is_parts_empty, get_next_part, FragmentedMessage, fragmented_message}
use helpz.Network.Dialogue.{last_write, deliveries, hand_over, ask_and_answer, talk}
use helpz.Network.Dialogue.Query.{query}
use helpz.Network.Dialogue.Answer.{IsOffering}
use helpz.Network.Dialogue.Fragment.{IsDone}
use helpz.Network.Dialogue.Offer.{new_item, ready}
use helpz.Network.Dialogue.Message.{long_message}
use helpz.Network.Timeouts.{process_fragment_timeout}
use helpz.Network.Dialogue.Whole.{whole_answer}

-- `n` times the same number.
unfoldable copies : ℕ → ℕ → List ℕ
copies zero value = []
copies (suc n) value = value ∷ copies n value

length-copies : (n value : ℕ) → length (copies n value) ≡ n
unfolding copies
length-copies zero value = refl
length-copies (suc n) value = ap suc (length-copies n value)

abbrev long_text : Bytes
long_text = copies 40000 7

abbrev times : List ℕ
times = copies 40000 5

abbrev test_writer : Writer
test_writer = record { title = []; last_msg_recv_time = 0 }

abbrev base : MessageItem
base = record {
  id = none;
  answer_id = none;
  resend_timeout = 3000;
  end_time = 0;
  data_device = none;
  answer_func = false;
  timeout_func = false;
  finally_func = false;
  cmd = 0;
  flags = 0;
  fragment_size = 1000;
  min_compress_size = 512;
}

abbrev side : Protocol
side = record {
  next_rx_msg_id = 0;
  next_tx_msg_id = 9;
  lost_msg_list = [];
  device = [];
  packet_end_position = [];
  last_msg_send_time = 0;
  fragmented_messages = [];
  waiting_messages = [];
  writer = some test_writer;
  log = [];
}

long_message_example :
    IsDone test_qt 9 20 long_text []
      (talk test_qt test_app 9 times (
        hand_over test_qt test_app 1
          (send_message (new_item base 20 long_text) (ready side test_writer))
          side)).1
long_message_example =
    long_message test_qt test_app 20 long_text (omega (arith, length-copies 40000 7))
      (omega (arith, length-copies 40000 7)) refl (λ m. refl) 1 times base side side test_writer
      test_writer (omega (arith, length-copies 40000 7)) (omega arith)
      (omega (arith, length-copies 40000 7, length-copies 40000 5)) refl tt refl refl

abbrev short_text : Bytes
short_text =
    1 ∷ 2 ∷ 3 ∷ 4 ∷ 5 ∷ 6 ∷ 7 ∷ 8 ∷ 1 ∷ 2 ∷ 3 ∷ 4 ∷ 5 ∷ 6 ∷ 7 ∷ 8 ∷ 1 ∷ 2 ∷ 3 ∷ 4 ∷ 5 ∷ 6 ∷ 7 ∷ 8
    ∷ 1 ∷ 2 ∷ 3 ∷ 4 ∷ 5 ∷ 6 ∷ 7 ∷ 8 ∷ 1 ∷ 2 ∷ 3 ∷ 4 ∷ 5 ∷ 6 ∷ 7 ∷ 8 ∷ []

abbrev offer : MessageItem
offer = new_item (record base { fragment_size = 36 }) 20 short_text

-- The offer of 40 bytes in fragments of 36 makes the receiver ask for all of them.
abbrev offered_sides : Protocol × Protocol
unfolding hand_over send_message
offered_sides = hand_over test_qt test_app 1 (send_message offer (ready side test_writer)) side

sender_waits : IsOffering 9 20 short_text offered_sides.0
unfolding offered_sides last_write prepare_packet_to_send wait_for_resend draft take_id
sender_waits = record {
  rest = offered_sides.0;
  w = test_writer;
  time = 3001;
  base = record base { fragment_size = 36; end_time = 10000000001 };
  pos = 40;
  state = refl;
}

abbrev parts : FragmentedMessage
parts = record {
  id = 9;
  cmd = 20;
  max_fragment_size = 43;
  data_device = [];
  last_part_time = 1;
  part_vect = (0, 40) ∷ [];
}

parts_missing : is_parts_empty parts ≡ false
unfolding is_parts_empty
parts_missing = refl

asks_for_all : last_write offered_sides.1.log ≡ some (query test_qt 20 9 0 40)
unfolding offered_sides last_write process_content draft process_answer_or_fragment process_fragment
    parse_sizes take_fragment is_parts_empty add_bytes find_fragmented fragmented_message
    ask_next_part list_write take_id get_next_part
asks_for_all = refl

has_parts : offered_sides.1.fragmented_messages ≡ (9, parts) ∷ []
unfolding offered_sides last_write process_content draft process_answer_or_fragment process_fragment
    parse_sizes take_fragment is_parts_empty add_bytes find_fragmented fragmented_message
    ask_next_part take_id
has_parts = refl

receiver_writes : offered_sides.1.writer ≡ some test_writer
unfolding offered_sides last_write process_content draft process_answer_or_fragment process_fragment
    parse_sizes take_fragment is_parts_empty add_bytes find_fragmented fragmented_message
    ask_next_part take_id
receiver_writes = refl

whole_answer_example :
    let q = (ask_and_answer test_qt test_app 2 offered_sides).1 in
    (deliveries q.log ≡ deliveries offered_sides.1.log ++ (process_message 9 20 short_text ∷ []))
    × (q.fragmented_messages ≡ (9, parts) ∷ [])
    × (last_write (process_fragment_timeout test_qt 2000000000 q).log
        ≡ some (query test_qt 20 9 0 40))
unfolding get_next_part
whole_answer_example =
    whole_answer test_qt test_app 2 9 20 short_text (omega arith) offered_sides.0 offered_sides.1
      parts test_writer 2000000000 (omega arith) refl refl (omega arith) (omega arith) sender_waits
      asks_for_all has_parts parts_missing (omega arith) receiver_writes
