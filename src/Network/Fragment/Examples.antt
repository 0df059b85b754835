-- ===== src/Network/Fragment/Examples.antt =====
-- Inputs at which the theorems on fragments apply.
use helpz.Prelude.{ℕ, ◌<◌, ◌≡◌, refl, ◌↔◌, true, List, [], ◌∷◌, arith, Bytes}
use helpz.Network.Example.{list_device}
use helpz.Network.Fragment.{Part, fragmented_message, remove_from_part_vect, is_parts_empty}
use helpz.Network.Fragment.Reassembly.{covered, add_all, reassembly}
use helpz.Network.Fragment.Fetch.{take-drop-IsSlice}

abbrev gaps : List Part
gaps = (0, 4) ∷ (10, 20) ∷ []

removes_middle : remove_from_part_vect gaps 12 15 ≡ (0, 4) ∷ (10, 12) ∷ (15, 20) ∷ []
unfolding remove_from_part_vect
removes_middle = refl

abbrev text : Bytes
text = 1 ∷ 2 ∷ 3 ∷ 4 ∷ 5 ∷ []

-- The end first, then the beginning, with an overlap.
abbrev out_of_order : List (ℕ × Bytes)
out_of_order = (2, 3 ∷ 4 ∷ 5 ∷ []) ∷ (0, 1 ∷ 2 ∷ 3 ∷ []) ∷ []

reassembly_example :
    let msg = add_all list_device (fragmented_message 7 20 128 5) out_of_order in
    (is_parts_empty msg ≡ true)
    ↔ (((i : ℕ) → i < 5 → covered i out_of_order ≡ true) × (msg.data_device ≡ text))
reassembly_example = reassembly list_device text 7 20 128 out_of_order (omega arith) (omega arith) (
  take-drop-IsSlice text 2 3 (omega arith) (omega arith),
  (take-drop-IsSlice text 0 3 (omega arith) (omega arith), tt),
)
