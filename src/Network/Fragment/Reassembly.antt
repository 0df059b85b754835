-- ===== src/Network/Fragment/Reassembly.antt =====
-- A message put together from its fragments, in whatever order they come.
use helpz.Prelude.{
  ℕ, ◌+◌, ◌-◌, ◌^◌, ◌≤◌, ◌<◌, ◌≡◌, refl, sym, ◌∙◌, ◌↔◌, ◌⊎◌, inl, inr, Bool, true, false, not, ◌&&◌,
  ◌||◌, List, [], ◌∷◌, arith, ltb, leb, ltb→lt, Bool-cases, length, get_elem?, All, get_elem?-none,
  list_ext, Bytes, add32,
}
use helpz.Network.Qt.{Device}
use helpz.Network.Fragment.{Part, FragmentedMessage, fragmented_message, is_parts_empty, add_data}
use helpz.Network.Fragment.Missing.{missing, IsParts, missing-remove, remove-IsParts}

-- `bytes` is the stretch of `full` at `pos`, and is not empty.
pub record IsSlice (full : Bytes) (pos : ℕ) (bytes : Bytes) : Type 0 where
  pub within : pos + length bytes ≤ length full
  pub filled : 0 < length bytes
  pub same : (i : ℕ) → i < length bytes → get_elem? bytes i ≡ get_elem? full (pos + i)

-- The parts lie within the message, and the device holds all that is not missing.
pub record IsConsistent (full : Bytes) (msg : FragmentedMessage) : Type 0 where
  pub ordered : IsParts 0 msg.part_vect
  pub inside : (i : ℕ) → missing i msg.part_vect ≡ true → i < length full
  pub agrees :
      (i : ℕ)
      → i < length full
      → missing i msg.part_vect ≡ false
      → (i < length msg.data_device) × (get_elem? msg.data_device i ≡ get_elem? full i)
  pub fits : length msg.data_device ≤ length full

pub fresh-IsConsistent :
    (id cmd max_fragment_size : ℕ) (full : Bytes)
    → 0 < length full
    → IsConsistent full (fragmented_message id cmd max_fragment_size (length full))
unfolding fragmented_message missing
fresh-IsConsistent id cmd max_fragment_size full h = record {
  ordered = omega arith;
  inside = λ i m. ground arith;
  agrees = λ i lt m. ground arith;
  fits = omega arith;
}

-- Whether a fragment holds position `i`.
pub covered : ℕ → List (ℕ × Bytes) → Bool
covered i [] = false
covered i ((pos, bytes) ∷ rest) = (leb pos i && ltb i (pos + length bytes)) || covered i rest

-- Fragments in the order of their arrival.
pub add_all : Device → FragmentedMessage → List (ℕ × Bytes) → FragmentedMessage
add_all device msg [] = msg
add_all device msg ((pos, bytes) ∷ rest) = add_all device (add_data device msg pos bytes) rest

module _ (device : Device) (full : Bytes) (small : length full < 2 ^ 31) where
  -- The end of a slice does not wrap.
  no_wrap :
      (pos : ℕ) (bytes : Bytes)
      → IsSlice full pos bytes
      → add32 pos (length bytes) ≡ pos + length bytes
  no_wrap pos bytes s = omega arith

  missing-add_data :
      (msg : FragmentedMessage) (pos : ℕ) (bytes : Bytes) (i : ℕ)
      → IsConsistent full msg
      → IsSlice full pos bytes
      → missing i (add_data device msg pos bytes).part_vect
        ≡ (missing i msg.part_vect && not (leb pos i && ltb i (pos + length bytes)))
  unfolding add_data
  missing-add_data msg pos bytes i c s =
      rw (no_wrap pos bytes s)
        (missing-remove i 0 pos (pos + length bytes) msg.part_vect c.ordered (omega arith))

  agrees_at_new :
      (d : Bytes) (pos i j : ℕ) (bytes : Bytes)
      → IsSlice full pos bytes
      → j < length bytes
      → i ≡ pos + j
      → (i < length (device.write_at d pos bytes))
        × (get_elem? (device.write_at d pos bytes) i ≡ get_elem? full i)
  agrees_at_new d pos i j bytes s lt e = rw e (
    omega (arith, device.size d pos bytes s.filled),
    device.written d pos bytes j lt ∙ s.same j lt,
  )

  agrees_at_old :
      (d : Bytes) (pos i : ℕ) (bytes : Bytes)
      → IsSlice full pos bytes
      → (i < pos) ⊎ (pos + length bytes ≤ i)
      → (i < length d) × (get_elem? d i ≡ get_elem? full i)
      → (i < length (device.write_at d pos bytes))
        × (get_elem? (device.write_at d pos bytes) i ≡ get_elem? full i)
  agrees_at_old d pos i bytes s out old =
      (omega (arith, device.size d pos bytes s.filled), device.kept d pos bytes i old.0 out ∙ old.1)

  agrees-add_data :
      (msg : FragmentedMessage) (pos : ℕ) (bytes : Bytes) (i : ℕ)
      → IsConsistent full msg
      → IsSlice full pos bytes
      → i < length full
      → missing i (add_data device msg pos bytes).part_vect ≡ false
      → (i < length (device.write_at msg.data_device pos bytes))
        × (get_elem? (device.write_at msg.data_device pos bytes) i ≡ get_elem? full i)
  agrees-add_data msg pos bytes i c s lt m =
      elim (Bool-cases (leb pos i && ltb i (pos + length bytes))) [
        | inl e ↦
            agrees_at_new msg.data_device pos i (i - pos) bytes s (ground arith) (ground arith)
        | inr e ↦
            agrees_at_old msg.data_device pos i bytes s (ground arith)
              (c.agrees i lt (ground (arith, missing-add_data msg pos bytes i c s)))
      ]

  -- `add_data` with a slice of the message keeps the invariant.
  pub add_data-IsConsistent :
      (msg : FragmentedMessage) (pos : ℕ) (bytes : Bytes)
      → IsConsistent full msg
      → IsSlice full pos bytes
      → IsConsistent full (add_data device msg pos bytes)
  unfolding add_data
  add_data-IsConsistent msg pos bytes c s = record {
    ordered =
        rw (no_wrap pos bytes s)
          (remove-IsParts 0 pos (pos + length bytes) msg.part_vect c.ordered (omega arith));
    inside = λ i m. c.inside i (ground (arith, missing-add_data msg pos bytes i c s));
    agrees = λ i lt m. agrees-add_data msg pos bytes i c s lt m;
    fits = omega (arith, device.size msg.data_device pos bytes s.filled, s.within, c.fits);
  }

  pub add_all-IsConsistent :
      (msg : FragmentedMessage) (fragments : List (ℕ × Bytes))
      → All (λ f. IsSlice full f.0 f.1) fragments
      → IsConsistent full msg
      → IsConsistent full (add_all device msg fragments)
  unfolding add_all
  add_all-IsConsistent msg [] a c = c
  add_all-IsConsistent msg ((pos, bytes) ∷ rest) a c =
      add_all-IsConsistent (add_data device msg pos bytes) rest a.1
        (add_data-IsConsistent msg pos bytes c a.0)

  missing-add_all :
      (msg : FragmentedMessage) (fragments : List (ℕ × Bytes)) (i : ℕ)
      → All (λ f. IsSlice full f.0 f.1) fragments
      → IsConsistent full msg
      → missing i (add_all device msg fragments).part_vect
        ≡ (missing i msg.part_vect && not (covered i fragments))
  unfolding add_all covered
  missing-add_all msg [] i a c = ground arith
  missing-add_all msg ((pos, bytes) ∷ rest) i a c = ground (
    arith,
    missing-add_all (add_data device msg pos bytes) rest i a.1
        (add_data-IsConsistent msg pos bytes c a.0),
    missing-add_data msg pos bytes i c a.0,
  )

-- A list of parts with nothing missing is empty.
empty_of_none_missing :
    (parts : List Part) → IsParts 0 parts → ((i : ℕ) → missing i parts ≡ false) → parts ≡ []
unfolding missing
empty_of_none_missing [] v h = refl
empty_of_none_missing ((first, second) ∷ parts) v h = ground (arith, h first)

pub is_parts_empty_iff :
    (msg : FragmentedMessage) → (is_parts_empty msg ≡ true) ↔ (msg.part_vect ≡ [])
unfolding is_parts_empty
is_parts_empty_iff msg = ground arith

-- With no part left the device holds the message.
pub device_complete :
    (full : Bytes) (msg : FragmentedMessage)
    → IsConsistent full msg
    → is_parts_empty msg ≡ true
    → msg.data_device ≡ full
unfolding missing
device_complete full msg c e = list_ext msg.data_device full same
  where
    none_left : (i : ℕ) → missing i msg.part_vect ≡ false
    none_left i = rw ((is_parts_empty_iff msg).0 e)

    same : (i : ℕ) → get_elem? msg.data_device i ≡ get_elem? full i
    same i = elim (Bool-cases (ltb i (length full))) [
      | inl e ↦ (c.agrees i (ltb→lt i (length full) e) (none_left i)).1
      | inr e ↦
          get_elem?-none msg.data_device i (ground (arith, c.fits))
          ∙ sym (get_elem?-none full i (ground arith))
    ]

-- The fragments of a message are put together whatever their order, overlaps and repetitions: the
-- list of parts is empty exactly if every position is covered and the device holds the message. The
-- message is not empty and shorter than 2 GiB, and each fragment is a stretch of it.
pub reassembly :
    (device : Device) (full : Bytes) (id cmd max_fragment_size : ℕ) (fragments : List (ℕ × Bytes))
    → length full < 2 ^ 31
    → 0 < length full
    → All (λ f. IsSlice full f.0 f.1) fragments
    → let msg =
        add_all device (fragmented_message id cmd max_fragment_size (length full)) fragments in
      (is_parts_empty msg ≡ true)
      ↔ (((i : ℕ) → i < length full → covered i fragments ≡ true) × (msg.data_device ≡ full))
unfolding fragmented_message missing
reassembly device full id cmd max_fragment_size fragments small h a = (
  (λ e. (
    (λ i lt. ground (arith, gone i, (is_parts_empty_iff last).0 e)),
    device_complete full last c e,
  )),
  λ all.
      (is_parts_empty_iff last).1
        (empty_of_none_missing last.part_vect c.ordered (λ i. ground (arith, gone i, all.0 i))),
)
  where
    first : FragmentedMessage
    first = fragmented_message id cmd max_fragment_size (length full)

    last : FragmentedMessage
    last = add_all device first fragments

    c : IsConsistent full last
    c =
        add_all-IsConsistent device full small first fragments a
          (fresh-IsConsistent id cmd max_fragment_size full h)

    gone :
        (i : ℕ)
        → missing i last.part_vect ≡ (missing i first.part_vect && not (covered i fragments))
    gone i =
        missing-add_all device full small first fragments i a
          (fresh-IsConsistent id cmd max_fragment_size full h)
