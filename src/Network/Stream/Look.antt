-- ===== src/Network/Stream/Look.antt =====
-- A packet that was prepared is seen in the stream as the message that it was made from.
use helpz.Prelude.{
  ℕ, ◌+◌, ◌^◌, ◌≤◌, ◌<◌, ◌≡◌, sym, ap, ◌∙◌, inl, inr, some, ◌++◌, append_assoc, arith, length, take,
  drop, length-append, length-drop, take-append_length, drop-append_length, drop_prefix,
  take-append_le, drop-drop, Bytes,
}
use helpz.Network.Qt.{Qt}
use helpz.Network.Message.{protocol_max_message_size}
use helpz.Network.Packet.{packet}
use helpz.Network.Packet.Header.{
  after_checksum, header_checksum, packet_lem, length-put_bytes, length-after_checksum,
  packet_split, length-packet,
}
use helpz.Network.Stream.{Header, message, parse_header, real_size, look}

-- The header of a message with these contents.
abbrev pub header_of : Qt → ℕ → ℕ → ℕ → Bytes → Header
header_of qt id cmd flags body = record {
  checksum = header_checksum qt id cmd flags body;
  msg_id = id;
  cmd = cmd;
  flags = flags;
  buffer_size = length body;
}

module _ (qt : Qt) (id cmd flags : ℕ) (body : Bytes) where
  open qt use {stream, packing}

  module _ (id_u8 : id < 2 ^ 8) (cmd_u8 : cmd < 2 ^ 8) (flags_u8 : flags < 2 ^ 8)
      (sized : length body ≤ protocol_max_message_size) where
    -- The size of the body is read back, also of a null array.
    size_read :
        (rest : Bytes)
        → (s : ℕ) × (b : Bytes) × (stream.get_u32 (stream.put_bytes body ++ rest) ≡ some (s, b))
          × (real_size s ≡ length body)
    unfolding real_size
    size_read rest = elim (stream.bytes_lem body) [
      | inl e ↦ (
        length body,
        body ++ rest,
        rw (e, append_assoc) (stream.get-u32 (length body) (body ++ rest) (omega arith)),
        ground arith,
      )
      | inr (empty, e) ↦
          (0xffffffff, rest, rw e (stream.get-u32 0xffffffff rest (omega arith)), rw empty)
    ]

    parse_header-packet :
        (rest : Bytes)
        → parse_header qt (packet qt id cmd flags body ++ rest)
          ≡ some (header_of qt id cmd flags body)
    unfolding parse_header
    parse_header-packet rest =
        let (s, b, read, size) = size_read rest in
        simp (
          packet_lem qt id cmd flags body,
          append_assoc,
          stream.get-u16 _ _ (packing.checksum_u16 (take 7 (after_checksum qt id cmd flags body))),
          stream.get-u8 id _ id_u8,
          stream.get-u8 cmd _ cmd_u8,
          stream.get-u8 flags _ flags_u8,
          read,
          size,
        )

    -- Behind its header the packet holds the body.
    pub body_behind :
        (pos : ℕ) (buffer rest : Bytes)
        → drop pos buffer ≡ packet qt id cmd flags body ++ rest
        → (take (length body) (drop (pos + 9) buffer) ≡ body)
          × (drop (pos + 9 + length body) buffer ≡ rest)
          × (length buffer ≡ pos + 9 + length body + length rest)
    body_behind pos buffer rest e =
        let (prefix, nine, split) = packet_split qt id cmd flags body rest in
        let behind : drop (pos + 9) buffer ≡ body ++ rest =
          sym (drop-drop pos 9 buffer)
          ∙ (ap (drop 9) (e ∙ split) ∙ drop_prefix 9 prefix (body ++ rest) nine) in
        (
          ap (take (length body)) behind ∙ take-append_length body rest,
          sym (drop-drop (pos + 9) (length body) buffer)
              ∙ (ap (drop (length body)) behind ∙ drop-append_length body rest),
          omega (
            arith,
            ap length behind,
            length-drop (pos + 9) buffer,
            length-append body rest,
            ap length e,
            length-drop pos buffer,
            length-append (packet qt id cmd flags body) rest,
            length-packet qt id cmd flags body,
          ),
        )

    checksum_read :
        (pos : ℕ) (buffer rest : Bytes)
        → drop pos buffer ≡ packet qt id cmd flags body ++ rest
        → packing.checksum (take 7 (drop (pos + 2) buffer)) ≡ header_checksum qt id cmd flags body
    checksum_read pos buffer rest e =
        let tail : Bytes = after_checksum qt id cmd flags body in
        let sum : ℕ = header_checksum qt id cmd flags body in
        ap packing.checksum (
          ap (take 7) (
            sym (drop-drop pos 2 buffer)
            ∙ (ap (drop 2) (
                  e
                  ∙ (ap (λ s. s ++ rest) (packet_lem qt id cmd flags body)
                      ∙ append_assoc (stream.put_u16 sum) tail rest))
                ∙ drop_prefix 2 (stream.put_u16 sum) (tail ++ rest) (stream.length-u16 sum)))
          ∙ take-append_le 7 tail rest (
              omega (
                arith,
                length-after_checksum qt id cmd flags body,
                length-put_bytes qt id cmd flags body,
              )))

    -- A packet at a position of the device, whatever stands before and behind it, is seen as the
    -- message that it was made from: its id, command and flags, of a byte each, and its body, of at
    -- most 2 GiB.
    pub look-packet :
        (pos : ℕ) (buffer rest : Bytes)
        → drop pos buffer ≡ packet qt id cmd flags body ++ rest
        → look qt pos buffer ≡ message (header_of qt id cmd flags body) body
    unfolding look
    look-packet pos buffer rest e =
        let facts = body_behind pos buffer rest e in
        rw (ap (parse_header qt) e ∙ parse_header-packet rest, look)
          (ground (arith, checksum_read pos buffer rest e, facts.0, facts.2, sized))
