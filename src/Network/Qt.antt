-- ===== src/Network/Qt.antt =====
-- What the protocol uses of Qt, as parameters with the documented behaviour of the calls.
use helpz.Prelude.{
  ℕ, ◌+◌, ◌^◌, ◌≤◌, ◌<◌, max, ◌≡◌, ◌⊎◌, Option, none, some, [], ◌++◌, length, get_elem?, drop,
  Bytes,
}

-- A random-access QIODevice, by the bytes that it holds: `seek(pos)` and then `write(bytes)`.
pub record Device : Type 0 where
  pub write_at : Bytes → ℕ → Bytes → Bytes
  -- What is written can be read back, and what lies outside stays.
  pub written :
      (d : Bytes) (pos : ℕ) (bytes : Bytes) (i : ℕ)
      → i < length bytes
      → get_elem? (write_at d pos bytes) (pos + i) ≡ get_elem? bytes i
  pub kept :
      (d : Bytes) (pos : ℕ) (bytes : Bytes) (i : ℕ)
      → i < length d
      → (i < pos) ⊎ (pos + length bytes ≤ i)
      → get_elem? (write_at d pos bytes) i ≡ get_elem? d i
  -- The device grows as far as the data need.
  pub size :
      (d : Bytes) (pos : ℕ) (bytes : Bytes)
      → 0 < length bytes
      → length (write_at d pos bytes) ≡ max (length d) (pos + length bytes)

-- QDataStream at version Qt_5_6, by the bytes that it writes and reads. A read gives the value and
-- what follows it, or fails past the end.
pub record DataStream : Type 0 where
  pub put_u8 : ℕ → Bytes
  pub put_u16 : ℕ → Bytes
  pub put_u32 : ℕ → Bytes
  pub put_bytes : Bytes → Bytes
  pub get_u8 : Bytes → Option (ℕ × Bytes)
  pub get_u16 : Bytes → Option (ℕ × Bytes)
  pub get_u32 : Bytes → Option (ℕ × Bytes)
  pub length-u8 : (v : ℕ) → length (put_u8 v) ≡ 1
  pub length-u16 : (v : ℕ) → length (put_u16 v) ≡ 2
  pub length-u32 : (v : ℕ) → length (put_u32 v) ≡ 4
  -- A byte array is its size and its bytes; one that is null is the size 0xffffffff.
  pub bytes_lem :
      (d : Bytes)
      → (put_bytes d ≡ put_u32 (length d) ++ d) ⊎ ((d ≡ []) × (put_bytes d ≡ put_u32 0xffffffff))
  pub get-u8 : (v : ℕ) (rest : Bytes) → v < 2 ^ 8 → get_u8 (put_u8 v ++ rest) ≡ some (v, rest)
  pub get-u16 : (v : ℕ) (rest : Bytes) → v < 2 ^ 16 → get_u16 (put_u16 v ++ rest) ≡ some (v, rest)
  pub get-u32 : (v : ℕ) (rest : Bytes) → v < 2 ^ 32 → get_u32 (put_u32 v ++ rest) ≡ some (v, rest)
  -- A read takes just its bytes, and fails if there are not so many.
  pub read_u8 : (b : Bytes) → 1 ≤ length b → (v : ℕ) × (v < 2 ^ 8) × (get_u8 b ≡ some (v, drop 1 b))
  pub read_u16 :
      (b : Bytes) → 2 ≤ length b → (v : ℕ) × (v < 2 ^ 16) × (get_u16 b ≡ some (v, drop 2 b))
  pub read_u32 :
      (b : Bytes) → 4 ≤ length b → (v : ℕ) × (v < 2 ^ 32) × (get_u32 b ≡ some (v, drop 4 b))
  pub short_u8 : (b : Bytes) → length b < 1 → get_u8 b ≡ none
  pub short_u32 : (b : Bytes) → length b < 4 → get_u32 b ≡ none

-- `qChecksum`, `qCompress` and `qUncompress`, which gives no bytes for what it cannot read.
pub record Packing : Type 0 where
  pub checksum : Bytes → ℕ
  pub compress : Bytes → Bytes
  pub uncompress : Bytes → Bytes
  pub checksum_u16 : (b : Bytes) → checksum b < 2 ^ 16
  pub uncompress-compress : (b : Bytes) → uncompress (compress b) ≡ b
  pub compress_filled : (b : Bytes) → 0 < length b → 0 < length (compress b)

pub record Qt : Type 0 where
  pub device : Device
  pub stream : DataStream
  pub packing : Packing
