-- ===== src/Network/Stream.antt =====
-- The bytes that come in: `process_stream` and `process_bytes` in Network/net_protocol.cpp. A packet is
-- what one datagram brought; a message may take a part of it, or several.
pub mod Look
pub mod Sync
pub mod Termination
pub mod Delivery
pub mod Fault
mod Examples
use helpz.Prelude.{
  ℕ, zero, suc, ◌+◌, ◌-◌, Bool, true, false, not, ◌||◌, Option, none, some, List, [], ◌∷◌, ◌++◌,
  ltb, leb, ◌==◌, if◌then◌else◌, ◌>>=◌, length, take, drop, Bytes,
}
use helpz.Network.Qt.{Qt, DataStream}
use helpz.Network.Message.{protocol_max_message_size}
use helpz.Network.Protocol.{Protocol, Writer}
use helpz.Network.Receive.{App, internal_process_message}

-- `checksum`, `msg_id`, `cmd`, `flags` and `buffer_size` of a message.
pub record Header : Type 0 where
  pub checksum : ℕ
  pub msg_id : ℕ
  pub cmd : ℕ
  pub flags : ℕ
  pub buffer_size : ℕ

-- Where the device stands after `process_stream`, and what that returned.
pub record Stop : Type 0 where
  pub ok : Bool
  pub pos : ℕ
  pub protocol : Protocol

pub data Outcome {ℓ} (A : Type ℓ) : Type ℓ where
  done : A → Outcome A
  -- `front()` of an empty `std::queue`, which is undefined.
  empty_front : Outcome A
  no_fuel : Outcome A

-- A null array has the size 0xffffffff.
unfoldable pub real_size : ℕ → ℕ
real_size size = if size == 0xffffffff then 0 else size

-- The packets that end at or before `pos`, and what `pos` is in the packet after them.
unfoldable pub drop_packets : List ℕ → ℕ → List ℕ × ℕ
drop_packets [] pos = ([], pos)
drop_packets (size ∷ packets) pos =
    let rest = drop_packets packets (pos - size) in
    if leb size pos then rest else (size ∷ packets, pos)

-- The end of `process_bytes`: what has been read leaves the device and the queue.
unfoldable pub first_packet_read : ℕ → List ℕ → List ℕ
first_packet_read pos [] = []
first_packet_read pos (size ∷ packets) = (if pos == 0 then size else size - pos) ∷ packets

unfoldable pub drop_read : ℕ → Protocol → Protocol
drop_read pos p =
    let (packets, rest) = drop_packets p.packet_end_position pos in
    record p {
      packet_end_position = first_packet_read rest packets;
      device = if ltb pos (length p.device) then drop pos p.device else [];
    }

-- `buffer().remove(0, front)`, with the front packet popped.
unfoldable pub discard : ℕ → List ℕ → Protocol → Protocol
discard front rest p = record p { device = drop front p.device; packet_end_position = rest }

-- The data join the device, the packet the queue, and the writer learns when.
unfoldable pub enqueue : ℕ → Bytes → Protocol → Protocol
enqueue now bytes p = record p {
  writer = elim p.writer [ none ↦ none | some w ↦ some (record w { last_msg_recv_time = now }) ];
  packet_end_position = p.packet_end_position ++ length bytes ∷ [];
  device = p.device ++ bytes;
}

unfoldable pub after_retry : Outcome Stop → Outcome Protocol
after_retry (done stop) = done (drop_read stop.pos stop.protocol)
after_retry empty_front = empty_front
after_retry no_fuel = no_fuel

-- What the code sees in the 9 bytes at `pos`: a size that is too big, a wrong checksum, a message that
-- is not all there, or a message.
pub data Seen : Type 0 where
  too_big corrupt incomplete unreadable : Seen
  message : Header → Bytes → Seen

module _ (qt : Qt) where
  open qt use {stream, packing}

  unfoldable pub parse_header : Bytes → Option Header
  parse_header bytes = do
    (checksum, a) ← stream.get_u16 bytes
    (msg_id, b) ← stream.get_u8 a
    (cmd, c) ← stream.get_u8 b
    (flags, d) ← stream.get_u8 c
    (size, e) ← stream.get_u32 d
    some (record {
      checksum = checksum;
      msg_id = msg_id;
      cmd = cmd;
      flags = flags;
      buffer_size = real_size size;
    })

  unfoldable pub look : ℕ → Bytes → Seen
  look pos buffer = elim (parse_header (drop pos buffer)) [
    | none ↦ unreadable
    | some h ↦
        if ltb protocol_max_message_size h.buffer_size
        then too_big
        else if not (h.checksum == packing.checksum (take 7 (drop (pos + 2) buffer)))
        then corrupt
        else if ltb (length buffer - (pos + 9)) h.buffer_size
        then incomplete
        else message h (take h.buffer_size (drop (pos + 9) buffer))
  ]

module _ (qt : Qt) (app : App) where
  -- `process_stream` from `pos` on. A message that throws leaves the device behind its header. Each
  -- round takes 9 bytes or more, so the fuel that is given, a round more than bytes, is enough.
  unfoldable pub process_stream : ℕ → ℕ → ℕ → Protocol → Option Stop
  process_stream zero now pos p = none
  process_stream (suc fuel) now pos p =
      if ltb (length p.device - pos) 9
      then some (record { ok = true; pos = pos; protocol = p })
      else elim (look qt pos p.device) [
        | too_big ↦ some (record { ok = true; pos = length p.device; protocol = p })
        | corrupt ↦ some (record { ok = false; pos = pos; protocol = p })
        | incomplete ↦ some (record { ok = true; pos = pos; protocol = p })
        | unreadable ↦ some (record { ok = true; pos = pos; protocol = p })
        | message h payload ↦
            let (returns, q) =
              internal_process_message qt app now h.msg_id h.cmd h.flags payload p in
            let rest = process_stream fuel now (pos + 9 + h.buffer_size) q in
            if returns then rest else some (record { ok = false; pos = pos + 9; protocol = q })
      ]

  -- The loop of `process_bytes`: after a failure the packets that are behind leave the queue, and the
  -- size of the next one is taken from the front of the device.
  unfoldable pub retry : ℕ → ℕ → Protocol → Outcome Stop
  retry zero now p = no_fuel
  retry (suc fuel) now p = elim (process_stream (suc (length p.device)) now 0 p) [
    | none ↦ no_fuel
    | some stop ↦
        let q = stop.protocol in
        let again : Outcome Stop = elim (drop_packets q.packet_end_position stop.pos).0 [
          | [] ↦ empty_front
          | front ∷ rest ↦ retry fuel now (discard front rest q)
        ] in
        if stop.ok || (length q.packet_end_position == 0) then done stop else again
  ]

  -- `process_bytes`. Each round of the loop takes a packet from the queue, so that as many rounds as
  -- packets and one are enough.
  unfoldable pub process_bytes : ℕ → Bytes → Protocol → Outcome Protocol
  process_bytes now [] p = done p
  process_bytes now (b ∷ bytes) p =
      let q = enqueue now (b ∷ bytes) p in
      after_retry (retry (suc (length q.packet_end_position)) now q)
