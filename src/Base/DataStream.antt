-- ===== src/Base/DataStream.antt =====
-- `Data_Stream` in Base/data_stream.h and data_stream.cpp, which reads numbers from bytes. A signed
-- number is its bit pattern.
pub mod Orders
use helpz.Prelude.{
  ℕ, zero, suc, ◌+◌, ◌*◌, ◌/◌, ◌%◌, ◌≤◌, Bool, true, false, not, ◌&&◌, List, [], ◌∷◌, Option, none,
  some, leb, ◌==◌, if◌then◌else◌, length, take, drop, Bytes,
}

pub data ByteOrder : Type 0 where
  big_endian little_endian : ByteOrder

abbrev pub same_order : ByteOrder → ByteOrder → Bool
same_order big_endian big_endian = true
same_order big_endian little_endian = false
same_order little_endian big_endian = false
same_order little_endian little_endian = true

-- `is_ok` is whether the status is Ok; it is ReadPastEnd otherwise.
pub record DataStream : Type 0 where
  pub bytes : Bytes
  pub idx : ℕ
  pub is_ok : Bool
  pub byte_order : ByteOrder

-- `systemByteOrder()`: the address of a number is tested, which is never null.
abbrev pub system_order : ByteOrder
system_order = little_endian

unfoldable pub data_stream : Bytes → DataStream
data_stream bytes = record { bytes = bytes; idx = 0; is_ok = true; byte_order = big_endian }

unfoldable pub set_byte_order : ByteOrder → DataStream → DataStream
set_byte_order order s = record s { byte_order = order }

unfoldable pub at_end : DataStream → Bool
at_end s = s.idx == length s.bytes

unfoldable pub has : ℕ → DataStream → Bool
has size s = leb (s.idx + size) (length s.bytes)

-- The loop that turns the bytes of `result` round, from its lowest byte on.
unfoldable pub swap_loop : ℕ → ℕ → ℕ → ℕ
swap_loop zero tmp result = tmp
swap_loop (suc n) tmp result = swap_loop n (tmp * 256 + result % 256) (result / 256)

-- What stands in memory as a number with its lowest byte first, and with its highest byte first.
unfoldable pub from_low : Bytes → ℕ
from_low [] = 0
from_low (b ∷ bytes) = b + 256 * from_low bytes

unfoldable pub from_high : ℕ → Bytes → ℕ
from_high acc [] = acc
from_high acc (b ∷ bytes) = from_high (acc * 256 + b) bytes

-- The number that the machine sees in the bytes.
unfoldable pub in_memory : ByteOrder → Bytes → ℕ
unfolding from_low from_high
in_memory big_endian bytes = from_high 0 bytes
in_memory little_endian bytes = from_low bytes

-- `read` of a number of so many bytes on a machine of the given order: the number, if it was read.
unfoldable pub read : ByteOrder → ℕ → DataStream → Option ℕ × DataStream
unfolding has swap_loop in_memory
read machine size s =
    let result = in_memory machine (take size (drop s.idx s.bytes)) in
    if has size s && s.is_ok
    then (
      some (if same_order s.byte_order system_order then result else swap_loop size 0 result),
      record s { idx = s.idx + size },
    )
    else (none, record s { is_ok = false })
