-- ===== src/Network/Packet/Header.antt =====
-- The layout of a packet.
use helpz.Prelude.{
  ℕ, ◌+◌, ◌≤◌, ◌≡◌, sym, ap, ◌∙◌, inl, inr, [], ◌++◌, append-nil, append_assoc, arith, length, take,
  length-append, drop_prefix, Bytes,
}
use helpz.Network.Qt.{Qt}
use helpz.Network.Packet.{packet}

module _ (qt : Qt) (id cmd flags : ℕ) (body : Bytes) where
  open qt use {stream, packing}

  -- What the checksum stands before.
  abbrev pub after_checksum : Bytes
  after_checksum =
      stream.put_u8 id ++ (stream.put_u8 cmd ++ (stream.put_u8 flags ++ stream.put_bytes body))

  abbrev pub header_checksum : ℕ
  header_checksum = packing.checksum (take 7 after_checksum)

  pub packet_lem : packet qt id cmd flags body ≡ stream.put_u16 header_checksum ++ after_checksum
  unfolding packet
  packet_lem = simp (drop_prefix 2 (stream.put_u16 0) after_checksum (stream.length-u16 0))

  -- A byte array has at least its size.
  pub length-put_bytes : 4 ≤ length (stream.put_bytes body)
  length-put_bytes = elim (stream.bytes_lem body) [
    | inl e ↦ rw e (
        omega (
          arith,
          length-append (stream.put_u32 (length body)) body,
          stream.length-u32 (length body),
        ))
    | inr (_, e) ↦ rw e (omega (arith, stream.length-u32 0xffffffff))
  ]

  pub length-after_checksum : length after_checksum ≡ 3 + length (stream.put_bytes body)
  length-after_checksum = simp (length-append, stream.length-u8) (omega arith)

  -- Nine bytes, and then the body.
  pub packet_split :
      (rest : Bytes)
      → (prefix : Bytes) × (length prefix ≡ 9)
        × (packet qt id cmd flags body ++ rest ≡ prefix ++ (body ++ rest))
  packet_split rest = elim (stream.bytes_lem body) [
    | inl e ↦
        (front (length body), length-front (length body), rw (packet_lem, e) (simp append_assoc))
    | inr (empty, e) ↦
        (front 0xffffffff, length-front 0xffffffff, rw (packet_lem, e, empty) (simp append_assoc))
  ]
    where
      front : ℕ → Bytes
      front size =
          stream.put_u16 header_checksum
          ++ (stream.put_u8 id
              ++ (stream.put_u8 cmd ++ (stream.put_u8 flags ++ stream.put_u32 size)))

      length-front : (size : ℕ) → length (front size) ≡ 9
      length-front size =
          simp (length-append, stream.length-u16, stream.length-u8, stream.length-u32) (omega arith)

  pub length-packet : length (packet qt id cmd flags body) ≡ 9 + length body
  length-packet =
      let (prefix, nine, e) = packet_split [] in
      omega (
        arith,
        nine,
        ap length (sym (append-nil (packet qt id cmd flags body)) ∙ e),
        length-append prefix (body ++ []),
        ap length (append-nil body),
      )
