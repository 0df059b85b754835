-- ===== src/Network/Dialogue/Offer.antt =====
-- The offer of a long message: the packet without bytes of it, and what a receiver does with it. See
-- Network/net_protocol.cpp.
use helpz.Prelude.{
  ℕ, ◌+◌, ◌%◌, ◌^◌, ◌<◌, ◌≡◌, refl, sym, ap, ◌∙◌, true, false, ◌||◌, none, some, [], ◌∷◌, ◌++◌,
  append_assoc, append-nil, arith, ltb, leb, ◌==◌, ==_refl, if◌then◌else◌, length, lookup, KeysFrom,
  lookup-emplace, emplace-KeysFrom, Bytes,
}
use helpz.Network.Qt.{Qt}
use helpz.Network.Message.{
  MessageItem, max_message_data_size, max_packet_data_size, protocol_max_message_size, seconds,
}
use helpz.Network.Protocol.{Protocol, Writer, add_timeout, request_timeout, fragment_flag}
use helpz.Network.Waiting.{add_to_waiting}
use helpz.Network.Fragment.{FragmentedMessage, fragmented_message, is_parts_empty}
use helpz.Network.Packet.{
  draft, take_id, prepare_packet_to_send, wait_for_resend, resend_time, is_fragment, answer_flags,
  answer_part,
}
use helpz.Network.Receive.{
  App, find_fragmented, put_fragmented, add_bytes, ask_next_part, process_content,
  process_answer_or_fragment, process_fragment, parse_sizes, take_fragment,
}
use helpz.Network.Dialogue.Answer.{IsOffering, buffer, long_item}

-- A long message that is new: it has no id, answers nothing, and its device is at the end.
abbrev pub new_item : MessageItem → ℕ → Bytes → MessageItem
new_item base cmd full = record base {
  id = none;
  answer_id = none;
  data_device = some (buffer full (length full));
  cmd = cmd;
  flags = 0;
}

-- A sender with a writer, at which nothing waits.
abbrev pub ready : Protocol → Writer → Protocol
ready p w = record p { waiting_messages = []; writer = some w }

module _ (qt : Qt) (app : App) where
  open qt use {device, stream}

  abbrev pub offer_body : MessageItem → Bytes → Bytes
  offer_body base full =
      stream.put_u32 (length full)
      ++ (stream.put_u32 (length full) ++ stream.put_u32 base.fragment_size)

  pub draft-offer_body :
      (now cmd : ℕ) (full : Bytes) (base : MessageItem)
      → length full < 2 ^ 31
      → base.fragment_size < length full
      → draft qt now (new_item base cmd full) (buffer full (length full)) ≡ record {
        flags = fragment_flag;
        body = offer_body base full;
        device = buffer full (length full);
        end_time = now + seconds 10;
      }
  unfolding draft is_fragment answer_part answer_flags
  draft-offer_body now cmd full base small shorter =
      let longer : ltb base.fragment_size (length full) ≡ true = ground arith in
      let at_end : leb (length full) (length full) ≡ true = ground arith in
      let same_size : length full % 2 ^ 32 ≡ length full = omega arith in
      rw (draft, longer, at_end, same_size)
        (rw
          (append_assoc (stream.put_u32 (length full)) (stream.put_u32 (length full))
            (stream.put_u32 base.fragment_size))
          refl)

  -- The message waits under the id that it got.
  pub offer_prepared :
      (now cmd : ℕ) (full : Bytes) (base : MessageItem) (p : Protocol) (w : Writer)
      → length full < 2 ^ 31
      → base.fragment_size < length full
      → IsOffering p.next_tx_msg_id cmd full
          (prepare_packet_to_send qt now (new_item base cmd full) (ready p w)).1
  unfolding prepare_packet_to_send take_id wait_for_resend add_to_waiting request_timeout
  offer_prepared now cmd full base p w small shorter =
      let ends_later : ltb now (now + seconds 10) ≡ true = ground arith in
      let later = record base { end_time = now + seconds 10 } in
      let time =
        resend_time now (long_item later p.next_tx_msg_id cmd (buffer full (length full))) in
      rw
        (
          prepare_packet_to_send,
          draft-offer_body now cmd full base small shorter,
          wait_for_resend,
          ends_later,
        )
        (record {
          rest = record p {
            next_tx_msg_id = (p.next_tx_msg_id + 1) % 256;
            last_msg_send_time = now;
            log = p.log ++ (add_timeout time false ∷ []);
          };
          w = w;
          time = time;
          base = later;
          pos = length full;
          state = refl;
        })

  pub process_content-offer_body :
      (now msg_id cmd size : ℕ) (offered : ℕ) (r : Protocol)
      → (cmd == 2) ≡ false
      → size < 2 ^ 31
      → offered < 2 ^ 31
      → process_content qt app now msg_id cmd fragment_flag
          (stream.put_u32 size ++ (stream.put_u32 size ++ stream.put_u32 offered))
          r
        ≡ take_fragment qt app now msg_id cmd none size size offered [] r
  unfolding process_content process_answer_or_fragment process_fragment parse_sizes
  process_content-offer_body now msg_id cmd size offered r other small small_offer =
      let last =
        ap stream.get_u32 (sym (append-nil (stream.put_u32 offered)))
        ∙ stream.get-u32 offered [] (omega arith) in
      rw
        (
          other,
          process_answer_or_fragment,
          process_fragment,
          parse_sizes,
          stream.get-u32 size (stream.put_u32 size ++ stream.put_u32 offered) (omega arith),
          stream.get-u32 size (stream.put_u32 offered) (omega arith),
          ==_refl size,
          last,
        )
        refl

  -- The size that a receiver asks for at first.
  abbrev pub first_size : ℕ → ℕ
  first_size offered =
      if (offered == 0) || ltb max_packet_data_size offered then max_message_data_size else offered

  pub first_size_bounds :
      (offered : ℕ) (full : Bytes)
      → max_message_data_size < length full
      → offered < length full
      → (0 < first_size offered) × (first_size offered < length full)
  first_size_bounds offered full long shorter = (ground arith, ground arith)

  pub lookup-put_fragmented_new :
      (m : FragmentedMessage) (id : ℕ) (r : Protocol)
      → lookup id r.fragmented_messages ≡ none
      → KeysFrom 0 r.fragmented_messages
      → (lookup id (put_fragmented m id r).fragmented_messages ≡ some m)
        × KeysFrom 0 (put_fragmented m id r).fragmented_messages
  unfolding put_fragmented
  lookup-put_fragmented_new m id r new k =
      rw (put_fragmented, new)
        (
          lookup-emplace 0 id id m r.fragmented_messages k new ∙ rw (==_refl id) refl,
          emplace-KeysFrom 0 id m r.fragmented_messages (omega arith) k,
        )

  -- A receiver that has no parts of the message makes an entry and asks for the first part.
  pub take_fragment_new :
      (now id cmd size offered : ℕ) (r : Protocol)
      → lookup id r.fragmented_messages ≡ none
      → ((m : FragmentedMessage) → app.open_fails m ≡ false)
      → size < 2 ^ 31
      → let m = fragmented_message id cmd (first_size offered) size in
        take_fragment qt app now id cmd none size size offered [] r
        ≡ ask_next_part qt app now id cmd m (put_fragmented m id r)
  unfolding take_fragment find_fragmented add_bytes is_parts_empty fragmented_message
  take_fragment_new now id cmd size offered r new opens small =
      let fits : leb protocol_max_message_size size ≡ false = ground arith in
      rw (take_fragment, find_fragmented, new, opens _, fits) refl
