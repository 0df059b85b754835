-- ===== src/Network/Exchange.antt =====
-- From the sender to the receiver: `prepare_packet_to_send` at the one, `process_bytes` at the other.
mod Examples
use helpz.Prelude.{
  ℕ, ◌^◌, ◌≤◌, ◌<◌, ◌≡◌, refl, ◌∙◌, true, false, none, some, [], ◌∷◌, ◌++◌, append-nil, arith,
  length, Bytes,
}
use helpz.Network.Qt.{Qt}
use helpz.Network.Message.{Buffer, MessageItem, max_packet_data_size, protocol_max_message_size}
use helpz.Network.Protocol.{
  Protocol, Event, process_message, emit, repeated_flag, compressed_flag, remove_fragment_cmd,
  ping_cmd,
}
use helpz.Network.Sequence.{accept_id}
use helpz.Network.Packet.{
  draft, is_fragment, answer_flags, answer_part, packed, packet, take_id, prepare_packet_to_send,
}
use helpz.Network.Packet.Roundtrip.{draft_whole}
use helpz.Network.Receive.{App, call, process_content, internal_process_message}
use helpz.Network.Stream.{Outcome, done, enqueue, process_bytes}
use helpz.Network.Stream.Delivery.{Wire, IsWire, wire_bytes, handle_all, process_bytes-wires}

-- A plain message: it fits in one packet, answers nothing, and has a command of the program.
pub record IsPlain (msg : MessageItem) (d : Buffer) : Type 0 where
  pub on_device : msg.data_device ≡ some d
  pub no_answer : msg.answer_id ≡ none
  pub no_flags : msg.flags ≡ 0
  pub of_program : (2 < msg.cmd) × (msg.cmd < 2 ^ 8)
  pub fits : length d.bytes ≤ msg.fragment_size
  pub sized : msg.fragment_size ≤ max_packet_data_size

module _ (qt : Qt) (app : App) where
  open qt use {packing}

  -- A message with no flag but COMPRESSED is handed to the program, as it was before compression.
  handle_plain :
      (now id cmd min_size : ℕ) (bytes : Bytes) (p : Protocol)
      → 2 < cmd
      → (app.throws (process_message id cmd bytes) ≡ false)
      → let (flags, body) = packed qt min_size 0 bytes in
        internal_process_message qt app now id cmd flags body p
        ≡ (true, emit (process_message id cmd bytes) (accept_id now id flags p).1)
  unfolding packed internal_process_message process_content call accept_id
  handle_plain now id cmd min_size bytes p program returns =
      ground (arith, packing.uncompress-compress bytes, packing.compress_filled bytes)

  -- The packet of a plain message.
  wire_of : ℕ → MessageItem → Buffer → Wire
  wire_of id msg d = record {
    id = id;
    cmd = msg.cmd;
    flags = (packed qt msg.min_compress_size 0 d.bytes).0;
    body = (packed qt msg.min_compress_size 0 d.bytes).1;
  }

  prepare_plain :
      (now : ℕ) (msg : MessageItem) (d : Buffer) (s : Protocol)
      → IsPlain msg d
      → (prepare_packet_to_send qt now msg s).0
        ≡ wire_bytes qt app (wire_of (take_id msg s).0 msg d ∷ [])
  unfolding prepare_packet_to_send wire_of answer_part take_id
  prepare_plain now msg d s plain =
      rw (plain.on_device, prepare_packet_to_send) (rw (append-nil, body, flags) refl)
    where
      body : (draft qt now msg d).body ≡ d.bytes
      body =
          draft_whole qt now msg d (omega (arith, plain.fits, plain.sized)) plain.fits
          ∙ rw (plain.no_answer, answer_part)

      flags : (draft qt now msg d).flags ≡ 0
      flags =
          unfold draft is_fragment answer_flags in
          ground (arith, plain.no_answer, plain.no_flags, plain.fits)

  wire_of-IsWire :
      (id : ℕ) (msg : MessageItem) (d : Buffer)
      → IsPlain msg d
      → id < 2 ^ 8
      → length (packing.compress d.bytes) ≤ protocol_max_message_size
      → IsWire (wire_of id msg d)
  unfolding wire_of packed
  wire_of-IsWire id msg d plain u8 small = ground arith

  -- The packet that one side prepares of a plain message makes the other side, with nothing left
  -- over, call `process_message` once, with the same command and the same bytes, and do nothing else
  -- after it has looked at the id; nothing is left over then. It is so whether the packet is
  -- compressed or not. The id is a byte, what compression gives has at most 2 GiB, and the call does
  -- not throw.
  pub exchange :
      (now later : ℕ) (msg : MessageItem) (d : Buffer) (s r : Protocol)
      → IsPlain msg d
      → (take_id msg s).0 < 2 ^ 8
      → length (packing.compress d.bytes) ≤ protocol_max_message_size
      → r.device ≡ []
      → r.packet_end_position ≡ []
      → app.throws (process_message (take_id msg s).0 msg.cmd d.bytes) ≡ false
      → let bytes = (prepare_packet_to_send qt now msg s).0 in
        let id = (take_id msg s).0 in
        let flags = (packed qt msg.min_compress_size 0 d.bytes).0 in
        (q : Protocol) × (process_bytes qt app later bytes r ≡ done q)
        × (q.log
            ≡ (accept_id later id flags (enqueue later bytes r)).1.log
              ++ process_message id msg.cmd d.bytes ∷ [])
        × (q.device ≡ [])
        × (q.packet_end_position ≡ [])
  unfolding handle_all emit wire_of
  exchange now later msg d s r plain u8 small empty idle returns =
      rw (prepare_plain now msg d s plain) (
        record ((handle_all qt app later (w ∷ []) p).1) { device = []; packet_end_position = [] },
        process_bytes-wires qt app later w [] r (wire_of-IsWire id msg d plain u8 small, tt) empty
            idle (rw handled),
        rw handled,
        refl,
        refl,
      )
    where
      id : ℕ
      id = (take_id msg s).0

      w : Wire
      w = wire_of id msg d

      p : Protocol
      p = enqueue later (wire_bytes qt app (w ∷ [])) r

      handled :
          internal_process_message qt app later id msg.cmd w.flags w.body p
          ≡ (true, emit (process_message id msg.cmd d.bytes) (accept_id later id w.flags p).1)
      handled =
          handle_plain later id msg.cmd msg.min_compress_size d.bytes p plain.of_program.0 returns
