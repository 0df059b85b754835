-- ===== src/Network/Packet/Roundtrip.antt =====
-- What the body of a packet holds, and how long a packet is.
use helpz.Prelude.{
  ℕ, ◌+◌, ◌-◌, ◌%◌, ◌^◌, ◌≤◌, ◌<◌, min, ◌≡◌, inl, inr, some, ◌++◌, arith, Option-cases, length,
  drop, length-append, length-take, length-drop, take_all, Bytes, sub32,
}
use helpz.Network.Qt.{Qt}
use helpz.Network.Message.{Buffer, MessageItem, max_packet_data_size, max_udp_packet_size}
use helpz.Network.Packet.{raw_data, is_fragment, answer_part, draft, packed, packet}
use helpz.Network.Packet.Header.{length-packet}

-- A stretch of the device no longer than asked for, and inside it.
pub length-raw_data :
    (pos size : ℕ) (d : Buffer)
    → length d.bytes < 2 ^ 31
    → pos ≤ length d.bytes
    → length (raw_data pos size d) ≡ min size (length d.bytes - pos)
unfolding raw_data
length-raw_data pos size d small le = omega (
  arith,
  length-take (min size (sub32 (length d.bytes) pos)) (drop pos d.bytes),
  length-drop pos d.bytes,
)

module _ (qt : Qt) where
  open qt use {stream, packing}

  -- A message that fits goes whole.
  pub draft_whole :
      (now : ℕ) (msg : MessageItem) (d : Buffer)
      → length d.bytes < 2 ^ 31
      → length d.bytes ≤ msg.fragment_size
      → (draft qt now msg d).body ≡ answer_part qt msg ++ d.bytes
  unfolding draft is_fragment raw_data
  draft_whole now msg d small fits =
      ground
        (arith, take_all (min msg.fragment_size (sub32 (length d.bytes) 0)) d.bytes (omega arith))

  length-answer_part : (msg : MessageItem) → length (answer_part qt msg) ≤ 1
  unfolding answer_part
  length-answer_part msg = elim (Option-cases msg.answer_id) [
    | inl e ↦ rw (e, answer_part) (omega arith)
    | inr (id, e) ↦ rw (e, answer_part) (omega (arith, stream.length-u8 id))
  ]

  -- A fragment: the answer id, two sizes, and the bytes or the size to ask for.
  length-fragment :
      (msg : MessageItem) (a b : ℕ) (rest : Bytes)
      → length (answer_part qt msg ++ ((stream.put_u32 a ++ stream.put_u32 b) ++ rest))
        ≡ length (answer_part qt msg) + 8 + length rest
  length-fragment msg a b rest = simp (length-append, stream.length-u32) (omega arith)

  -- The body has, besides what a fragment may have, an answer id and the two sizes at most.
  pub length-draft :
      (now : ℕ) (msg : MessageItem) (d : Buffer)
      → length d.bytes < 2 ^ 31
      → d.pos ≤ length d.bytes
      → 32 ≤ msg.fragment_size
      → length (draft qt now msg d).body ≤ 9 + msg.fragment_size
  unfolding draft is_fragment
  length-draft now msg d small le large =
      let size = length d.bytes % 2 ^ 32 in
      let pos = d.pos % 2 ^ 32 in
      ground (
        arith,
        length-answer_part msg,
        length-fragment msg size pos (raw_data pos msg.fragment_size d),
        length-fragment msg size pos (stream.put_u32 msg.fragment_size),
        length-append (answer_part qt msg) (raw_data 0 msg.fragment_size d),
        length-raw_data pos msg.fragment_size d small (omega arith),
        length-raw_data 0 msg.fragment_size d small (omega arith),
        stream.length-u32 msg.fragment_size,
      )

  -- A packet that is not compressed has at most 18 bytes more than the fragment size, which is 32 or
  -- more. The device is shorter than 2 GiB, and its position within it.
  pub packet_bound :
      (now id cmd flags : ℕ) (msg : MessageItem) (d : Buffer)
      → length d.bytes < 2 ^ 31
      → d.pos ≤ length d.bytes
      → 32 ≤ msg.fragment_size
      → length (draft qt now msg d).body ≤ msg.min_compress_size
      → length (
          packet qt id cmd flags
            (packed qt msg.min_compress_size flags (draft qt now msg d).body).1)
        ≤ 18 + msg.fragment_size
  unfolding packed
  packet_bound now id cmd flags msg d small le large plain = ground (
    arith,
    length-draft now msg d small le large,
    length-packet qt id cmd flags (draft qt now msg d).body,
  )

  -- The packet of a fragment of an answer, of the size HELPZ_MAX_PACKET_DATA_SIZE, with as many bytes
  -- left at a position that is not 0, in a device shorter than 2 GiB, and not compressed, is a byte
  -- longer than HELPZ_MAX_UDP_PACKET_SIZE.
  pub answer_fragment_too_long :
      (now id cmd flags answer_id : ℕ) (msg : MessageItem) (d : Buffer)
      → length d.bytes < 2 ^ 31
      → msg.answer_id ≡ some answer_id
      → msg.fragment_size ≡ max_packet_data_size
      → d.pos + msg.fragment_size ≤ length d.bytes
      → 0 < d.pos
      → length (draft qt now msg d).body ≤ msg.min_compress_size
      → length (
          packet qt id cmd flags
            (packed qt msg.min_compress_size flags (draft qt now msg d).body).1)
        ≡ max_udp_packet_size + 1
  unfolding packed draft is_fragment answer_part
  answer_fragment_too_long now id cmd flags answer_id msg d small answer biggest le inner plain =
      let size = length d.bytes % 2 ^ 32 in
      let pos = d.pos % 2 ^ 32 in
      ground (
        arith,
        stream.length-u8 answer_id,
        length-fragment msg size pos (raw_data pos msg.fragment_size d),
        length-raw_data pos msg.fragment_size d small (omega arith),
        length-packet qt id cmd flags (draft qt now msg d).body,
      )
