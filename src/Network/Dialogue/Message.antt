-- ===== src/Network/Dialogue/Message.antt =====
-- A long message from `send_message` of the sender to the program of the receiver. See
-- Network/net_protocol.cpp.
use helpz.Prelude.{
  ℕ, ◌^◌, ◌≤◌, ◌<◌, ◌≡◌, refl, ap, ◌∙◌, false, none, some, List, [], ◌∷◌, ◌++◌, arith, ◌==◌, length,
  lookup, KeysFrom, Bytes,
}
use helpz.Network.Qt.{Qt}
use helpz.Network.Message.{MessageItem, max_message_data_size}
use helpz.Network.Protocol.{Protocol, Writer, write, process_message, emit, send_message}
use helpz.Network.Fragment.{FragmentedMessage, fragmented_message}
use helpz.Network.Fragment.Reassembly.{fresh-IsConsistent}
use helpz.Network.Fragment.Fetch.{total}
use helpz.Network.Packet.{take_id, prepare_packet_to_send}
use helpz.Network.Receive.{App, put_fragmented, take_fragment}
use helpz.Network.Dialogue.{deliveries, hand_over, talk}
use helpz.Network.Dialogue.Query.{last_write-append}
use helpz.Network.Dialogue.Fragment.{IsAwaiting, IsDone, grow_bounds, asked_state, deliveries_asked}
use helpz.Network.Dialogue.Talk.{talk_delivers}
use helpz.Network.Dialogue.Offer.{
  new_item, ready, draft-offer_body, offer_prepared, process_content-offer_body, first_size,
  first_size_bounds, lookup-put_fragmented_new, take_fragment_new,
}

module _ (qt : Qt) (app : App) where
  open qt use {device, stream}

  module _ (cmd : ℕ) (full : Bytes) (small : length full < 2 ^ 31)
      (long : max_message_data_size < length full) (other : (cmd == 2) ≡ false)
      (opens : (m : FragmentedMessage) → app.open_fails m ≡ false) where
    offer_over :
        (now : ℕ) (base : MessageItem) (p r : Protocol) (w : Writer)
        → base.fragment_size < length full
        → let item = new_item base cmd full in
          hand_over qt app now (send_message item (ready p w)) r ≡ (
            (prepare_packet_to_send qt now item (send_message item (ready p w))).1,
            (take_fragment qt app now p.next_tx_msg_id cmd none
                (length full)
                (length full)
                base.fragment_size
                []
                r).1,
          )
    unfolding hand_over take_id emit send_message
    offer_over now base p r w shorter =
        let item = new_item base cmd full in
        rw
          (
            hand_over,
            last_write-append p.log item,
            draft-offer_body qt app now cmd full base small shorter,
            process_content-offer_body qt app now p.next_tx_msg_id cmd (length full)
                base.fragment_size r other small (omega (arith, small, shorter)),
          )
          refl

    -- The receiver after the offer.
    offered :
        (now id offer : ℕ) (r : Protocol) (v : Writer)
        → r.writer ≡ some v
        → KeysFrom 0 r.fragmented_messages
        → lookup id r.fragmented_messages ≡ none
        → offer < length full
        → let q = (take_fragment qt app now id cmd none (length full) (length full) offer [] r).1 in
          (a : IsAwaiting qt id cmd full q) × (deliveries q.log ≡ deliveries r.log)
          × (total a.msg.part_vect ≡ length full)
    unfolding put_fragmented fragmented_message total
    offered now id offer r v e k new shorter =
        let m = fragmented_message id cmd (first_size qt app offer) (length full) in
        let placed = lookup-put_fragmented_new qt app m id r new k in
        let bounds = first_size_bounds qt app offer full long shorter in
        let state =
          asked_state qt app now id cmd full m m v (put_fragmented m id r) e placed.1 placed.0
            (fresh-IsConsistent id cmd (first_size qt app offer) full (omega (arith, long)))
            (λ none_left. cc none_left)
            (grow_bounds (first_size qt app offer) full long bounds.0 bounds.1) in
        rw (take_fragment_new qt app now id cmd (length full) offer r new opens small) (
          state.0,
          deliveries_asked qt app now id cmd m v (put_fragmented m id r) e,
          ap total state.1 ∙ omega arith,
        )

    -- A long message that is sent with `send_message` reaches the program of the other side whole, and
    -- just once, and the other side keeps no parts of it, when the link brings the offer and then as many
    -- queries with their answers as the message has bytes, or more, at any times. The packets are handled
    -- from `process_content` on, behind the test of their ids. The message is longer than 32745 bytes,
    -- shorter than 2 GiB and longer than its fragment size, and has a command other than 2; nothing waits
    -- at the sender; both sides have a writer; the id that the message gets is a byte, under which the
    -- receiver has no parts; it can open a device for them; its program does not throw.
    pub long_message :
        (now : ℕ) (times : List ℕ) (base : MessageItem) (p r : Protocol) (w v : Writer)
        → base.fragment_size < length full
        → p.next_tx_msg_id < 2 ^ 8
        → length full ≤ length times
        → r.writer ≡ some v
        → KeysFrom 0 r.fragmented_messages
        → lookup p.next_tx_msg_id r.fragmented_messages ≡ none
        → app.throws (process_message p.next_tx_msg_id cmd full) ≡ false
        → IsDone qt p.next_tx_msg_id cmd full r.log
            (talk qt app p.next_tx_msg_id times
              (hand_over qt app now (send_message (new_item base cmd full) (ready p w)) r)).1
    unfolding emit send_message
    long_message now times base p r w v shorter small_id enough e k new returns =
        let id = p.next_tx_msg_id in
        let item = new_item base cmd full in
        let written = record p { log = p.log ++ (write item ∷ []) } in
        let start = offered now id base.fragment_size r v e k new shorter in
        let sides = hand_over qt app now (send_message item (ready p w)) r in
        let done =
          talk_delivers qt app id cmd full small long small_id other opens returns times
            (prepare_packet_to_send qt now item (send_message item (ready p w))).1 _ start.0
            (offer_prepared qt app now cmd full base written w small shorter)
            (omega (arith, start.2, enough)) in
        rw (offer_over now base p r w shorter) (record {
          delivered = done.delivered ∙ ap (λ t. t ++ (process_message id cmd full ∷ [])) start.1;
          gone = done.gone;
        })
