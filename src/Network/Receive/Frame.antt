-- ===== src/Network/Receive/Frame.antt =====
-- What the handling of a message leaves alone: the input and the writer.
use helpz.Prelude.{
  ℕ, ◌≡◌, refl, ◌∙◌, inl, inr, Bool, Option, none, some, List, [], ◌∷◌, arith, Bool-cases,
  Option-cases, Bytes,
}
use helpz.Network.Qt.{Qt, Device}
use helpz.Network.Message.{MessageItem}
use helpz.Network.Fragment.{FragmentedMessage}
use helpz.Network.Sender.{send_with}
use helpz.Network.Protocol.{
  Protocol, Event, process_message, lost_msg_detected, emit, destroy, send_message, request_timeout,
}
use helpz.Network.Waiting.{pop_waiting_answer, pop_waiting_fragment, destroy_popped, add_to_waiting}
use helpz.Network.Sequence.{
  is_lost_message, is_outdated, drop_if_outdated, drop_outdated, fill_lost_msg, advance, accept_id,
}
use helpz.Network.Receive.{
  App, call, answer_waiting, process_answer, deliver, finish_fragmented, ask_next_part,
  take_fragment, process_fragment, process_fragment_query, apply_query, process_answer_or_fragment,
  remove_fragment, process_content, parse_query, parse_sizes, add_bytes, find_fragmented,
  internal_process_message, put_fragmented,
}

pub record SameInput (p q : Protocol) : Type 0 where
  pub same_device : q.device ≡ p.device
  pub same_packets : q.packet_end_position ≡ p.packet_end_position
  pub same_writer : q.writer ≡ p.writer

pub SameInput-refl : (p : Protocol) → SameInput p p
SameInput-refl p = record { same_device = refl; same_packets = refl; same_writer = refl }

pub SameInput-trans : {p q r : Protocol} → SameInput p q → SameInput q r → SameInput p r
SameInput-trans h k = record {
  same_device = k.same_device ∙ h.same_device;
  same_packets = k.same_packets ∙ h.same_packets;
  same_writer = k.same_writer ∙ h.same_writer;
}

pub destroy-SameInput : (msg : MessageItem) (p : Protocol) → SameInput p (destroy msg p)
unfolding destroy
destroy-SameInput msg p = ground arith

pub send_message-SameInput : (msg : MessageItem) (p : Protocol) → SameInput p (send_message msg p)
unfolding send_message
send_message-SameInput msg p = ground arith

pub send_with-SameInput :
    (device : Device) (cmd : ℕ) (answer_id : Option ℕ) (flags : ℕ) (bytes : Bytes) (p : Protocol)
    → SameInput p (send_with device cmd answer_id flags bytes p)
unfolding send_with
send_with-SameInput device cmd answer_id flags bytes p = ground arith

pub request_timeout-SameInput :
    (time : ℕ) (f : Bool) (p : Protocol) → SameInput p (request_timeout time f p)
unfolding request_timeout
request_timeout-SameInput time f p = ground arith

pub destroy_popped-SameInput :
    (msg : Option MessageItem) (p : Protocol) → SameInput p (destroy_popped msg p)
unfolding destroy_popped
destroy_popped-SameInput none p = ground arith
destroy_popped-SameInput (some msg) p = ground arith

pub add_to_waiting-SameInput :
    (time : ℕ) (msg : MessageItem) (p : Protocol) → SameInput p (add_to_waiting time msg p)
unfolding add_to_waiting
add_to_waiting-SameInput time msg p = ground arith

drop_if_outdated-SameInput :
    (now msg_id id tp : ℕ) (p : Protocol) → SameInput p (drop_if_outdated now msg_id id tp p)
unfolding drop_if_outdated
drop_if_outdated-SameInput now msg_id id tp p = elim (Bool-cases (is_outdated now msg_id id tp)) [
  | inl e ↦ rw e (record { same_device = refl; same_packets = refl; same_writer = refl })
  | inr e ↦ rw e (record { same_device = refl; same_packets = refl; same_writer = refl })
]

drop_outdated-SameInput :
    (now msg_id : ℕ) (lost : List (ℕ × ℕ)) (p : Protocol)
    → SameInput p (drop_outdated now msg_id lost p)
unfolding drop_outdated
drop_outdated-SameInput now msg_id [] p = SameInput-refl p
drop_outdated-SameInput now msg_id ((id, tp) ∷ rest) p =
    SameInput-trans (drop_if_outdated-SameInput now msg_id id tp p)
      (drop_outdated-SameInput now msg_id rest (drop_if_outdated now msg_id id tp p))

fill_lost_msg-SameInput : (now msg_id : ℕ) (p : Protocol) → SameInput p (fill_lost_msg now msg_id p)
unfolding fill_lost_msg
fill_lost_msg-SameInput now msg_id p =
    ground (arith, drop_outdated-SameInput now msg_id p.lost_msg_list p)

pub accept_id-SameInput :
    (now msg_id flags : ℕ) (p : Protocol) → SameInput p (accept_id now msg_id flags p).1
unfolding accept_id is_lost_message advance emit
accept_id-SameInput now msg_id flags p =
    ground (
      arith,
      fill_lost_msg-SameInput now msg_id (emit (lost_msg_detected msg_id p.next_rx_msg_id) p),
    )

pub call-SameInput :
    (qt : Qt) (app : App) (e : Event) (p : Protocol) → SameInput p (call qt app e p).1
unfolding call
call-SameInput qt app e p = ground arith

pub pop_answer-SameInput :
    (answer_id cmd : ℕ) (p : Protocol) → SameInput p (pop_waiting_answer answer_id cmd p).1
unfolding pop_waiting_answer
pop_answer-SameInput answer_id cmd p = ground arith

pub pop_fragment-SameInput : (id : ℕ) (p : Protocol) → SameInput p (pop_waiting_fragment id p).1
unfolding pop_waiting_fragment
pop_fragment-SameInput id p = ground arith

module _ (qt : Qt) (app : App) where
  pub answer_waiting-SameInput :
      (msg : MessageItem) (bytes : Bytes) (p : Protocol)
      → SameInput p (answer_waiting qt app msg bytes p).1
  unfolding answer_waiting
  answer_waiting-SameInput msg bytes p = ground arith

  pub process_answer-SameInput :
      (answer_id cmd : ℕ) (bytes : Bytes) (p : Protocol)
      → SameInput p (process_answer qt app answer_id cmd bytes p).1
  unfolding process_answer
  process_answer-SameInput answer_id cmd bytes p = ground arith

  pub deliver-SameInput :
      (msg_id cmd : ℕ) (answer_id : Option ℕ) (bytes : Bytes) (p : Protocol)
      → SameInput p (deliver qt app msg_id cmd answer_id bytes p).1
  unfolding deliver
  deliver-SameInput msg_id cmd answer_id bytes p = ground arith

  pub finish_fragmented-SameInput :
      (msg_id cmd : ℕ) (answer_id : Option ℕ) (full_size : ℕ) (msg : FragmentedMessage)
      (p : Protocol)
      → SameInput p (finish_fragmented qt app msg_id cmd answer_id full_size msg p).1
  unfolding finish_fragmented send_with
  finish_fragmented-SameInput msg_id cmd answer_id full_size msg p =
      ground (arith, deliver-SameInput msg_id cmd answer_id msg.data_device p)

  pub ask_next_part-SameInput :
      (now msg_id cmd : ℕ) (msg : FragmentedMessage) (p : Protocol)
      → SameInput p (ask_next_part qt app now msg_id cmd msg p).1
  unfolding ask_next_part
  ask_next_part-SameInput now msg_id cmd msg p = ground arith

  pub process_fragment_query-SameInput :
      (id pos size : ℕ) (p : Protocol) → SameInput p (process_fragment_query qt app id pos size p).1
  unfolding process_fragment_query
  process_fragment_query-SameInput id pos size p = ground arith

  pub take_fragment-SameInput :
      (now msg_id cmd : ℕ) (answer_id : Option ℕ) (full_size pos size : ℕ) (bytes : Bytes)
      (p : Protocol)
      → SameInput p (take_fragment qt app now msg_id cmd answer_id full_size pos size bytes p).1
  unfolding take_fragment put_fragmented
  take_fragment-SameInput now msg_id cmd answer_id full_size pos size bytes p =
      let msg = add_bytes qt app pos bytes (find_fragmented msg_id cmd size full_size p) in
      let q = put_fragmented msg msg_id p in
      ground (
        arith,
        finish_fragmented-SameInput msg_id cmd answer_id full_size msg q,
        ask_next_part-SameInput now msg_id cmd msg q,
      )

  process_fragment-SameInput :
      (now msg_id cmd : ℕ) (answer_id : Option ℕ) (bytes : Bytes) (p : Protocol)
      → SameInput p (process_fragment qt app now msg_id cmd answer_id bytes p).1
  unfolding process_fragment
  process_fragment-SameInput now msg_id cmd answer_id bytes p =
      elim (Option-cases (parse_sizes qt app bytes)) [
        | inl e ↦ rw (e, process_fragment) (SameInput-refl p)
        | inr ((full_size, pos, size, rest), e) ↦
            rw (e, process_fragment)
              (take_fragment-SameInput now msg_id cmd answer_id full_size pos size rest p)
      ]

  process_answer_or_fragment-SameInput :
      (now msg_id cmd flags : ℕ) (bytes : Bytes) (p : Protocol)
      → SameInput p (process_answer_or_fragment qt app now msg_id cmd flags bytes p).1
  unfolding process_answer_or_fragment
  process_answer_or_fragment-SameInput now msg_id cmd flags bytes p =
      elim (Option-cases (qt.stream.get_u8 bytes)) [
        | inl e ↦ ground (arith, process_fragment-SameInput now msg_id cmd none bytes p)
        | inr ((answer_id, rest), e) ↦ ground (
          arith,
          process_fragment-SameInput now msg_id cmd none bytes p,
          process_fragment-SameInput now msg_id cmd (some answer_id) rest p,
          process_answer-SameInput answer_id cmd bytes p,
        )
      ]

  apply_query-SameInput :
      (bytes : Bytes) (p : Protocol) → SameInput p (apply_query qt app bytes p).1
  unfolding apply_query
  apply_query-SameInput bytes p = elim (Option-cases (parse_query qt app bytes)) [
    | inl e ↦ rw (e, apply_query) (SameInput-refl p)
    | inr ((id, pos, size), e) ↦
        rw (e, apply_query) (process_fragment_query-SameInput id pos size p)
  ]

  pub process_content-SameInput :
      (now msg_id cmd flags : ℕ) (bytes : Bytes) (p : Protocol)
      → SameInput p (process_content qt app now msg_id cmd flags bytes p).1
  unfolding process_content remove_fragment
  process_content-SameInput now msg_id cmd flags bytes p = ground (
    arith,
    apply_query-SameInput bytes p,
    process_answer_or_fragment-SameInput now msg_id cmd flags bytes p,
    send_with-SameInput qt.device cmd (some msg_id) 0 [] p,
    call-SameInput qt app (process_message msg_id cmd bytes) p,
  )

  -- The handling of a message, on every branch and with whatever the program throws, leaves the bytes
  -- that came in, the queue of packets and the writer as they are.
  pub internal_process_message-SameInput :
      (now msg_id cmd flags : ℕ) (payload : Bytes) (p : Protocol)
      → SameInput p (internal_process_message qt app now msg_id cmd flags payload p).1
  unfolding internal_process_message
  internal_process_message-SameInput now msg_id cmd flags payload p =
      let q = (accept_id now msg_id flags p).1 in
      ground (
        arith,
        accept_id-SameInput now msg_id flags p,
        process_content-SameInput now msg_id cmd flags payload q,
        process_content-SameInput now msg_id cmd flags (qt.packing.uncompress payload) q,
      )
