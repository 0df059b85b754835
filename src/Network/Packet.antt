-- ===== src/Network/Packet.antt =====
-- `Protocol::prepare_packet_to_send` and `add_raw_data_to_packet` in Network/net_protocol.cpp.
pub mod Header
pub mod Roundtrip
mod Examples
use helpz.Prelude.{
  ℕ, ◌+◌, ◌-◌, ◌%◌, ◌^◌, min, Bool, false, none, some, [], ◌++◌, ltb, leb, if◌then◌else◌, length,
  take, drop, Bytes, sub32, with_flag,
}
use helpz.Network.Qt.{Qt, DataStream}
use helpz.Network.Message.{Buffer, MessageItem, seconds}
use helpz.Network.Protocol.{
  Protocol, destroy, request_timeout, fragment_flag, answer_flag, compressed_flag,
}
use helpz.Network.Waiting.{add_to_waiting}

-- `add_raw_data_to_packet`: at most `max_data_size` bytes of the device from `pos`. The read leaves the
-- device behind them.
unfoldable pub raw_data : ℕ → ℕ → Buffer → Bytes
raw_data pos max_data_size device =
    take (min max_data_size (sub32 (length device.bytes) pos)) (drop pos device.bytes)

-- Flags, data and device of the packet before compression.
pub record Draft : Type 0 where
  pub flags : ℕ
  pub body : Bytes
  pub device : Buffer
  pub end_time : ℕ

unfoldable pub is_fragment : MessageItem → Buffer → Bool
is_fragment msg device = ltb msg.fragment_size (length device.bytes)

unfoldable pub answer_flags : MessageItem → ℕ
answer_flags msg = elim msg.answer_id [
  | none ↦ msg.flags
  | some _ ↦ with_flag answer_flag msg.flags
]

unfoldable pub resend_time : ℕ → MessageItem → ℕ
resend_time now msg =
    if ltb msg.resend_timeout (msg.end_time - now) then now + msg.resend_timeout else msg.end_time

-- The id that the message has or gets.
unfoldable pub take_id : MessageItem → Protocol → ℕ × Protocol
take_id msg p = elim msg.id [
  | some id ↦ (id, p)
  | none ↦ (p.next_tx_msg_id, record p { next_tx_msg_id = (p.next_tx_msg_id + 1) % 256 })
]

-- A message that has time left waits for its resend, or for its end if that comes first.
unfoldable pub wait_for_resend : ℕ → MessageItem → Protocol → Protocol
unfolding add_to_waiting request_timeout destroy resend_time
wait_for_resend now msg p =
    if ltb now msg.end_time
    then request_timeout (resend_time now msg) false (add_to_waiting (resend_time now msg) msg p)
    else destroy msg p

module _ (qt : Qt) where
  open qt use {stream, packing}

  unfoldable pub answer_part : MessageItem → Bytes
  answer_part msg = elim msg.answer_id [ none ↦ [] | some id ↦ stream.put_u8 id ]

  -- A message that is too long goes in fragments: its size and the position, then the bytes there,
  -- or, at the end of the device, the size of a fragment, which offers the message.
  unfoldable pub draft : ℕ → MessageItem → Buffer → Draft
  unfolding raw_data answer_part answer_flags is_fragment
  draft now msg device =
      let flags = answer_flags msg in
      let size = length device.bytes in
      let head = stream.put_u32 (size % 2 ^ 32) ++ stream.put_u32 (device.pos % 2 ^ 32) in
      let pos = device.pos % 2 ^ 32 in
      let raw = raw_data pos msg.fragment_size device in
      let whole = raw_data 0 msg.fragment_size device in
      if is_fragment msg device
      then if leb size device.pos
        then record {
          flags = with_flag fragment_flag flags;
          body = answer_part msg ++ (head ++ stream.put_u32 msg.fragment_size);
          device = device;
          end_time = now + seconds 10;
        }
        else record {
          flags = with_flag fragment_flag flags;
          body = answer_part msg ++ (head ++ raw);
          device = record device { pos = pos + length raw };
          end_time = now + seconds 10;
        }
      else record {
        flags = flags;
        body = answer_part msg ++ whole;
        device = record device { pos = length whole };
        end_time = msg.end_time;
      }

  -- Compression of what is longer than `min_compress_size`.
  unfoldable pub packed : ℕ → ℕ → Bytes → ℕ × Bytes
  packed min_compress_size flags body =
      if ltb min_compress_size (length body)
      then (with_flag compressed_flag flags, packing.compress body)
      else (flags, body)

  -- The packet: the checksum is written over the first two bytes at the end.
  unfoldable pub packet : ℕ → ℕ → ℕ → Bytes → Bytes
  packet id cmd flags body =
      let blank =
        stream.put_u16 0
        ++ (stream.put_u8 id
            ++ (stream.put_u8 cmd ++ (stream.put_u8 flags ++ stream.put_bytes body))) in
      stream.put_u16 (packing.checksum (take 7 (drop 2 blank))) ++ drop 2 blank

  -- `prepare_packet_to_send`: the packet, empty if the message has no device. The clock is read once.
  unfoldable pub prepare_packet_to_send : ℕ → MessageItem → Protocol → Bytes × Protocol
  prepare_packet_to_send now msg p = elim msg.data_device [
    | none ↦ ([], destroy msg p)
    | some device ↦
        let d = draft now msg device in
        let (flags, body) = packed msg.min_compress_size d.flags d.body in
        let (id, q) = take_id msg p in
        (
          packet id msg.cmd flags body,
          wait_for_resend now
              (record msg { id = some id; end_time = d.end_time; data_device = some d.device })
              (record q { last_msg_send_time = now }),
        )
  ]
