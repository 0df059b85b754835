-- ===== src/Network/Packet/Examples.antt =====
-- Messages at which the theorems on packets apply.
use helpz.Prelude.{
  ℕ, zero, suc, ◌+◌, ◌^◌, ◌≤◌, ◌<◌, ◌≡◌, refl, none, some, [], ◌∷◌, arith, length, Bytes,
}
use helpz.Network.Example.{test_qt}
use helpz.Network.Message.{
  Buffer, MessageItem, message_item, max_packet_data_size, max_udp_packet_size,
}
use helpz.Network.Packet.{draft, packed, packet}
use helpz.Network.Packet.Roundtrip.{length-draft, packet_bound, answer_fragment_too_long}

unfoldable copies : ℕ → ℕ → Bytes
copies zero b = []
copies (suc n) b = b ∷ copies n b

length-copies : (n b : ℕ) → length (copies n b) ≡ n
unfolding copies
length-copies zero b = refl
length-copies (suc n) b = omega (arith, length-copies n b)

-- A device with as many bytes as said, of which one is read.
abbrev filled : ℕ → Buffer
filled n = record { bytes = copies n 7; pos = 1 }

-- An answer to message 5 that is never compressed, in fragments of the size.
abbrev answer_in : ℕ → MessageItem
unfolding message_item
answer_in size = record (message_item 20 (some 5) none 3000) {
  fragment_size = size;
  min_compress_size = 2 ^ 32;
}

small_draft :
    (n size : ℕ)
    → 0 < n
    → n < 2 ^ 31
    → 32 ≤ size
    → size < 2 ^ 31
    → length (draft test_qt 9 (answer_in size) (filled n)).body ≤ 2 ^ 32
unfolding message_item
small_draft n size h small large le = omega (
  arith,
  length-draft test_qt 9 (answer_in size) (filled n) (omega (arith, length-copies n 7))
      (omega (arith, length-copies n 7)) large,
)

packet_bound_example :
    length (
      packet test_qt 3 20 0
        (packed test_qt (2 ^ 32) 0 (draft test_qt 9 (answer_in 32) (filled 40)).body).1)
    ≤ 50
unfolding message_item
packet_bound_example =
    packet_bound test_qt 9 3 20 0 (answer_in 32) (filled 40) (omega (arith, length-copies 40 7))
      (omega (arith, length-copies 40 7)) (omega arith)
      (small_draft 40 32 (omega arith) (omega arith) (omega arith) (omega arith))

answer_fragment_too_long_example :
    length (
      packet test_qt 3 20 0
        (packed test_qt
          (2 ^ 32)
          0
          (draft test_qt 9 (answer_in max_packet_data_size) (filled 65500)).body).1)
    ≡ max_udp_packet_size + 1
unfolding message_item
answer_fragment_too_long_example =
    answer_fragment_too_long test_qt 9 3 20 0 5 (answer_in max_packet_data_size) (filled 65500)
      (omega (arith, length-copies 65500 7)) refl refl (omega (arith, length-copies 65500 7))
      (omega arith)
      (small_draft 65500 max_packet_data_size (omega arith) (omega arith) (omega arith)
        (omega arith))
