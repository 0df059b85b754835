-- ===== src/Network/Fragment/Progress.antt =====
-- A fragment that starts at a missing byte is progress, however long it is. See `add_data` in
-- Network/net_fragmented_message.cpp.
use helpz.Prelude.{
  ℕ, ◌+◌, ◌^◌, ◌≤◌, ◌<◌, ◌≡◌, ◌≢◌, true, List, [], ◌∷◌, arith, length, Bytes, add32,
}
use helpz.Network.Qt.{Device}
use helpz.Network.Fragment.{
  Part, FragmentedMessage, remove_from_part_vect, add_data, next_of_parts, get_next_part,
}
use helpz.Network.Fragment.Missing.{missing, IsParts, missing_below}
use helpz.Network.Fragment.Reassembly.{IsSlice, IsConsistent}
use helpz.Network.Fragment.Fetch.{total, Below32-inside, next_of_parts_lem}

total-remove :
    (lo start end : ℕ) (parts : List Part)
    → IsParts lo parts
    → start ≤ end
    → total (remove_from_part_vect parts start end) ≤ total parts
unfolding total remove_from_part_vect
total-remove lo start end [] v h = omega arith
total-remove lo start end ((first, second) ∷ parts) v h =
    ground
      (arith, total-remove second start end parts v.2 h, total-remove second second end parts v.2)

total-remove_missing :
    (lo start end : ℕ) (parts : List Part)
    → IsParts lo parts
    → start < end
    → missing start parts ≡ true
    → total (remove_from_part_vect parts start end) < total parts
unfolding total missing remove_from_part_vect
total-remove_missing lo start end [] v h m = absurd (ground arith)
total-remove_missing lo start end ((first, second) ∷ parts) v h m = ground (
  arith,
  total-remove_missing second start end parts v.2 h,
  missing_below start second parts v.2,
  total-remove second second end parts v.2,
)

-- What is asked for next lies within the message, and starts at a missing byte.
pub get_next_part_lem :
    (full : Bytes) (msg : FragmentedMessage)
    → length full < 2 ^ 31
    → IsConsistent full msg
    → 0 < msg.max_fragment_size
    → msg.part_vect ≢ []
    → let (pos, size) = get_next_part msg in
      (missing pos msg.part_vect ≡ true) × (pos < length full) × (size ≤ msg.max_fragment_size)
unfolding get_next_part
get_next_part_lem full msg small c h some_left =
    let parts = msg.part_vect in
    let facts =
      next_of_parts_lem 0 msg.max_fragment_size parts c.ordered
        (Below32-inside 0 (length full) parts (omega arith) c.ordered c.inside) h some_left in
    let pos = (next_of_parts msg.max_fragment_size parts).0 in
    let gone : missing pos parts ≡ true = facts.2 pos (omega arith) (omega (arith, facts.0)) in
    (gone, c.inside pos gone, facts.1)

pub total-add_data :
    (device : Device) (full : Bytes) (msg : FragmentedMessage) (pos : ℕ) (bytes : Bytes)
    → length full < 2 ^ 31
    → IsConsistent full msg
    → IsSlice full pos bytes
    → missing pos msg.part_vect ≡ true
    → total (add_data device msg pos bytes).part_vect < total msg.part_vect
unfolding add_data
total-add_data device full msg pos bytes small c s gone =
    let end : add32 pos (length bytes) ≡ pos + length bytes = omega (arith, s.within, small) in
    rw end (
      total-remove_missing 0 pos (pos + length bytes) msg.part_vect c.ordered
        (omega (arith, s.filled)) gone)
