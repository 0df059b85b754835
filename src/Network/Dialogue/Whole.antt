-- ===== src/Network/Dialogue/Whole.antt =====
-- A query for all bytes of a message at once. See `prepare_packet_to_send` in Network/net_protocol.cpp.
use helpz.Prelude.{
  ℕ, max, ◌/◌, ◌+◌, emplace, ◌^◌, ◌≤◌, ◌<◌, ◌≡◌, refl, sym, ap, ◌∙◌, true, false, Option, none,
  some, [], ◌∷◌, ◌++◌, arith, ltb, ◌==◌, length, Bytes,
}
use helpz.Network.Qt.{Qt}
use helpz.Network.Message.{MessageItem, ms, set_fragment_size, max_packet_data_size}
use helpz.Network.Protocol.{
  Protocol, Writer, write, process_message, emit, add_timeout, request_timeout, fragment_query_flag,
}
use helpz.Network.Fragment.{FragmentedMessage, is_parts_empty, get_next_part}
use helpz.Network.Timeouts.{shrink, is_stalled, ask_again, ask_stalled, process_fragment_timeout}
use helpz.Network.Packet.{draft, take_id, is_fragment, answer_flags, answer_part}
use helpz.Network.Packet.Roundtrip.{draft_whole}
use helpz.Network.Sender.{send_with}
use helpz.Network.Receive.{query_bytes, App, call, process_content, process_fragment_query}
use helpz.Network.Dialogue.{last_write, deliveries, hand_over, ask_and_answer}
use helpz.Network.Dialogue.Query.{last_write-append, query, send_with-query, sent, query_over}
use helpz.Network.Dialogue.Answer.{IsOffering, buffer, long_item, process_fragment_query_answered}
use helpz.Network.Dialogue.Fragment.{deliveries-append}

module _ (qt : Qt) (app : App) (now id cmd : ℕ) (full : Bytes) (small : length full < 2 ^ 31) where
  -- A message that is not longer than its fragment size goes whole, and not as a fragment.
  whole_flags :
      (base : MessageItem)
      → length full ≤ base.fragment_size
      → (draft qt now (long_item base id cmd (buffer full 0)) (buffer full 0)).flags ≡ 0
  unfolding draft is_fragment answer_flags
  whole_flags base fits =
      let whole : ltb base.fragment_size (length full) ≡ false = ground arith in
      rw (draft, whole) refl

  whole_body :
      (base : MessageItem)
      → length full ≤ base.fragment_size
      → (draft qt now (long_item base id cmd (buffer full 0)) (buffer full 0)).body ≡ full
  unfolding answer_part
  whole_body base fits =
      draft_whole qt now (long_item base id cmd (buffer full 0)) (buffer full 0) small fits

  process_content_whole :
      (r : Protocol)
      → (cmd == 2) ≡ false
      → (cmd == 1) ≡ false
      → (process_content qt app now id cmd 0 full r).1 ≡ emit (process_message id cmd full) r
  unfolding process_content call
  process_content_whole r other no_ping = rw (other, no_ping) refl

  whole_over :
      (base : MessageItem) (p r : Protocol) (w : Writer)
      → length full ≤ base.fragment_size
      → (cmd == 2) ≡ false
      → (cmd == 1) ≡ false
      → (hand_over qt app now
          (emit
            (write (long_item base id cmd (buffer full 0)))
            (record p { waiting_messages = []; writer = some w }))
          r).1
        ≡ emit (process_message id cmd full) r
  unfolding hand_over take_id emit
  whole_over base p r w fits other no_ping =
      rw
        (
          hand_over,
          last_write-append p.log (long_item base id cmd (buffer full 0)),
          whole_flags base fits,
          whole_body base fits,
        )
        (process_content_whole r other no_ping)

  requested_lem :
      (time : ℕ) (w : Writer) (p : Protocol)
      → p.writer ≡ some w
      → request_timeout time true p ≡ emit (add_timeout time true) p
  unfolding request_timeout emit
  requested_lem time w p has_writer =
      ap
        (λ (o : Option Writer). elim o as (λ x. Protocol) [
          | none ↦ p
          | some _ ↦ emit (add_timeout time true) p
        ])
        has_writer

  ask_one :
      (later : ℕ) (msg : FragmentedMessage) (w : Writer) (r : Protocol)
      → r.writer ≡ some w
      → is_stalled later msg ≡ true
      → let (pos, size) = get_next_part (record msg {
        max_fragment_size = shrink msg.max_fragment_size;
        last_part_time = later;
      }) in
        last_write (ask_stalled qt later ((id, msg) ∷ []) r).1.log
        ≡ some (query qt msg.cmd msg.id pos size)
  unfolding ask_stalled ask_again request_timeout emit
  ask_one later msg w r has_writer stalled =
      let next = record msg {
        max_fragment_size = shrink msg.max_fragment_size;
        last_part_time = later;
      } in
      let (pos, size) = get_next_part next in
      let asked =
        emit (add_timeout (later + ms 1505) true)
          (record r { lost_msg_list = emplace msg.id later r.lost_msg_list }) in
      let requested : request_timeout (later + ms 1505) true
            (record r { lost_msg_list = emplace msg.id later r.lost_msg_list })
          ≡ asked =
        requested_lem (later + ms 1505) w _ has_writer in
      rw (stalled) (
        ap
          (λ (q : Protocol).
            last_write
              (send_with (qt.device) msg.cmd none fragment_query_flag
                (query_bytes qt msg.id pos size) q).log)
          requested
        ∙ (ap (λ (q : Protocol). last_write q.log)
              (send_with-query qt msg.cmd msg.id pos size w asked has_writer)
            ∙ last_write-append asked.log (query qt msg.cmd msg.id pos size)))

  -- The only message in fragments has stalled: the receiver asks for its next part.
  asks_again :
      (later : ℕ) (msg : FragmentedMessage) (w : Writer) (r : Protocol)
      → r.writer ≡ some w
      → r.fragmented_messages ≡ (id, msg) ∷ []
      → is_stalled later msg ≡ true
      → let (pos, size) = get_next_part (record msg {
        max_fragment_size = shrink msg.max_fragment_size;
        last_part_time = later;
      }) in
        last_write (process_fragment_timeout qt later r).log
        ≡ some (query qt msg.cmd msg.id pos size)
  unfolding process_fragment_timeout
  asks_again later msg w r has_writer only stalled =
      ap (λ ms. last_write (ask_stalled qt later ms r).1.log) only
      ∙ ask_one later msg w r has_writer stalled

  shrink_lem : (size : ℕ) → shrink size ≡ max (size / 2) 128
  unfolding shrink
  shrink_lem size = ground arith

  -- A message of 32 bytes or more that fits in a packet, answers no other one and has no flags waits at
  -- the sender, and nothing else does; of messages in fragments the receiver has it alone, with parts
  -- missing, and wrote a query for all its bytes last. The sender answers with a packet that is no fragment:
  -- the receiver hands the message to the program, and its entry stays as it was. When no part has come for
  -- 1.5 s by a timeout of fragments, the receiver asks for the next part all the same, in half the size, 128
  -- bytes at least. The id is a byte, the command is neither 1 nor 2, and the receiver has a writer.
  pub whole_answer :
      (s r : Protocol) (msg : FragmentedMessage) (w : Writer) (later : ℕ)
      → id < 2 ^ 8
      → (cmd == 2) ≡ false
      → (cmd == 1) ≡ false
      → 32 ≤ length full
      → length full ≤ max_packet_data_size
      → IsOffering id cmd full s
      → last_write r.log ≡ some (query qt cmd id 0 (length full))
      → r.fragmented_messages ≡ (id, msg) ∷ []
      → is_parts_empty msg ≡ false
      → msg.last_part_time + 1500000000 ≤ later
      → r.writer ≡ some w
      → let q = (ask_and_answer qt app now (s, r)).1 in
        let (pos, size) = get_next_part (record msg {
          max_fragment_size = max (msg.max_fragment_size / 2) 128;
          last_part_time = later;
        }) in
        (deliveries q.log ≡ deliveries r.log ++ (process_message id cmd full ∷ []))
        × (q.fragmented_messages ≡ (id, msg) ∷ [])
        × (last_write (process_fragment_timeout qt later q).log
            ≡ some (query qt msg.cmd msg.id pos size))
  unfolding ask_and_answer emit set_fragment_size deliveries is_stalled
  whole_answer s r msg w later small_id other no_ping filled fits offering asks only missing late
        has_writer =
      let base = set_fragment_size (length full) offering.base in
      let same_size : length full ≤ base.fragment_size = ground arith in
      let after =
        ap (λ x. (hand_over qt app now x.1 x.0).1)
          (query_over qt app now cmd id 0 (length full) r s asks other small_id (omega arith)
            (omega (arith, small)))
        ∙ (ap
              (λ x.
                (hand_over qt app now (process_fragment_query qt app id 0 (length full) x).1
                  (sent qt now r)).1)
              offering.state
            ∙ (ap (λ x. (hand_over qt app now x.1 (sent qt now r)).1)
                  (process_fragment_query_answered qt app id cmd 0 offering.pos (length full)
                    offering.time full offering.base offering.rest offering.w
                    (omega (arith, filled)))
                ∙ whole_over base offering.rest (sent qt now r) offering.w same_size other
                    no_ping)) in
      let stalled : is_stalled later msg ≡ true = ground (arith, missing, late) in
      let told = emit (process_message id cmd full) (sent qt now r) in
      rw after (
        deliveries-append r.log (process_message id cmd full ∷ []),
        only,
        rw (sym (shrink_lem msg.max_fragment_size))
            (asks_again later msg w told has_writer only stalled),
      )
