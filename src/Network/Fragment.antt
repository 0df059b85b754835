-- ===== src/Network/Fragment.antt =====
-- Network/net_fragmented_message.cpp: a message that arrives in parts, with the list of the ranges
-- that are still missing. The device that takes the data is `data_device_`, a QBuffer or a QFile.
pub mod Missing
pub mod Reassembly
pub mod Fetch
pub mod Progress
mod Examples
use helpz.Network.Qt.{Device}
use helpz.Prelude.{
  ℕ, Bool, true, false, List, [], ◌∷◌, ltb, leb, ◌==◌, if◌then◌else◌, length, Bytes, add32, sub32,
}

-- A half-open range of positions, first and second.
abbrev pub Part : Type 0
Part = ℕ × ℕ

pub record FragmentedMessage : Type 0 where
  pub id : ℕ
  pub cmd : ℕ
  pub max_fragment_size : ℕ
  pub data_device : Bytes
  pub last_part_time : ℕ
  pub part_vect : List Part

-- The constructor. `last_part_time_` is the epoch, the default of a time point.
unfoldable pub fragmented_message : ℕ → ℕ → ℕ → ℕ → FragmentedMessage
fragmented_message id cmd max_fragment_size full_size = record {
  id = id;
  cmd = cmd;
  max_fragment_size = max_fragment_size;
  data_device = [];
  last_part_time = 0;
  part_vect = (0, full_size) ∷ [];
}

-- `remove_from_part_vect`, the loop from the part that the iterator is at.
unfoldable pub remove_from_part_vect : List Part → ℕ → ℕ → List Part
remove_from_part_vect [] start end = []
remove_from_part_vect ((first, second) ∷ parts) start end =
    let beyond = remove_from_part_vect parts start end in
    let rest = remove_from_part_vect parts second end in
    if leb end first
    then (first, second) ∷ parts
    else if ltb second start
    then (first, second) ∷ beyond
    else if ltb start first
    then if ltb second end then rest else if end == second then parts else (end, second) ∷ parts
    else if ltb first start
    then if ltb second end
      then (first, start) ∷ rest
      else if ltb end second
      then (first, start) ∷ (end, second) ∷ parts
      else (first, start) ∷ parts
    else if ltb second end
    then rest
    else if ltb end second
    then (end, second) ∷ parts
    else parts

unfoldable pub is_parts_empty : FragmentedMessage → Bool
is_parts_empty msg = elim msg.part_vect [ [] ↦ true | _ ∷ _ ↦ false ]

-- The position and the size of what to ask for next.
unfoldable pub next_of_parts : ℕ → List Part → ℕ × ℕ
next_of_parts max_fragment_size [] = (0, 0)
next_of_parts max_fragment_size ((first, second) ∷ parts) =
    if ltb max_fragment_size (sub32 second first)
    then (first, max_fragment_size)
    else (first, sub32 second first)

unfoldable pub get_next_part : FragmentedMessage → ℕ × ℕ
unfolding next_of_parts
get_next_part msg = next_of_parts msg.max_fragment_size msg.part_vect

-- `add_data`: the range is no longer missing, and the device takes the bytes.
unfoldable pub add_data : Device → FragmentedMessage → ℕ → Bytes → FragmentedMessage
add_data device msg pos bytes = record msg {
  part_vect = remove_from_part_vect msg.part_vect pos (add32 pos (length bytes));
  data_device = device.write_at msg.data_device pos bytes;
}
