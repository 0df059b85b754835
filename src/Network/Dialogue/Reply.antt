-- ===== src/Network/Dialogue/Reply.antt =====
-- A query goes over the link, and its answer. See Network/net_protocol.cpp.
use helpz.Prelude.{
  ℕ, ◌-◌, ◌^◌, min, ◌<◌, ◌≡◌, refl, ap, ◌∙◌, false, none, some, [], arith, ◌==◌, length, Bytes,
}
use helpz.Network.Qt.{Qt}
use helpz.Network.Message.{MessageItem, set_fragment_size, max_message_data_size}
use helpz.Network.Protocol.{Protocol, Writer, write, emit}
use helpz.Network.Packet.{take_id, prepare_packet_to_send}
use helpz.Network.Receive.{App, take_fragment, process_fragment_query}
use helpz.Network.Fragment.Reassembly.{IsSlice}
use helpz.Network.Fragment.Fetch.{take-drop-IsSlice}
use helpz.Network.Dialogue.{hand_over}
use helpz.Network.Dialogue.Query.{last_write-append}
use helpz.Network.Dialogue.Answer.{
  IsOffering, buffer, long_item, process_fragment_query_answered, fragment, draft-fragment,
  answer_prepared, process_content-fragment,
}

module _ (qt : Qt) (app : App) where
  open qt use {device, stream}

  fragment_size_bounds :
      (size : ℕ) (base : MessageItem) (full : Bytes)
      → size < length full
      → max_message_data_size < length full
      → let fragment_size = (set_fragment_size size base).fragment_size in
        (0 < fragment_size) × (fragment_size < length full)
  unfolding set_fragment_size
  fragment_size_bounds size base full small long = (ground arith, ground arith)

  module _ (now id cmd : ℕ) (full : Bytes) (small : length full < 2 ^ 31)
      (long : max_message_data_size < length full) (other : (cmd == 2) ≡ false) where
    -- The written message goes over the link.
    written_over :
        (pos : ℕ) (base : MessageItem) (p : Protocol) (w : Writer) (r : Protocol)
        → base.fragment_size < length full
        → pos < length full
        → let item = long_item base id cmd (buffer full pos) in
          let s = emit (write item) (record p { waiting_messages = []; writer = some w }) in
          hand_over qt app now s r ≡ (
            (prepare_packet_to_send qt now item s).1,
            (take_fragment qt app now id cmd none
                (length full)
                pos
                0
                (fragment qt app base pos full)
                r).1,
          )
    unfolding hand_over take_id emit
    written_over pos base p w r shorter inside =
        let item = long_item base id cmd (buffer full pos) in
        rw
          (
            hand_over,
            last_write-append p.log item,
            draft-fragment qt app now id cmd pos full base small shorter inside,
            process_content-fragment qt app now id cmd pos (length full)
                (fragment qt app base pos full) r other inside small,
          )
          refl

    -- A query that is inside of the message: the receiver gets a stretch of it from there on, which is not
    -- empty, and the message waits on.
    pub answer_over :
        (pos size : ℕ) (s r : Protocol)
        → pos < length full
        → size < length full
        → IsOffering id cmd full s
        → (chunk : Bytes) × IsSlice full pos chunk
          × (t : Protocol) × IsOffering id cmd full t
          × (hand_over qt app now (process_fragment_query qt app id pos size s).1 r
              ≡ (t, (take_fragment qt app now id cmd none (length full) pos 0 chunk r).1))
    unfolding emit
    answer_over pos size s r inside shorter offering =
        let base = set_fragment_size size offering.base in
        let bounds = fragment_size_bounds size offering.base full shorter long in
        let len = min base.fragment_size (length full - pos) in
        let after =
          emit (write (long_item base id cmd (buffer full pos)))
            (record (offering.rest) { waiting_messages = []; writer = some offering.w }) in
        (
          fragment qt app base pos full,
          take-drop-IsSlice full pos len (omega (arith, bounds.0)) (omega arith),
          (prepare_packet_to_send qt now (long_item base id cmd (buffer full pos)) after).1,
          answer_prepared qt app now id cmd pos full base (record after { log = after.log })
              offering.w small bounds.1 inside,
          ap (λ x. hand_over qt app now (process_fragment_query qt app id pos size x).1 r)
                offering.state
              ∙ (ap (λ x. hand_over qt app now x.1 r)
                    (process_fragment_query_answered qt app id cmd pos offering.pos size
                      offering.time full offering.base offering.rest offering.w inside)
                  ∙ written_over pos base offering.rest offering.w r bounds.1 inside),
        )
