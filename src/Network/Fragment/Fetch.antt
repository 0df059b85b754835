-- ===== src/Network/Fragment/Fetch.antt =====
-- Asking for the next part, again and again.
use helpz.Prelude.{
  ℕ, zero, suc, ◌+◌, ◌-◌, ◌^◌, ◌≤◌, ◌<◌, ◌≡◌, refl, ◌∙◌, ◌≢◌, inl, inr, true, List, [], ◌∷◌, arith,
  if◌then◌else◌, Bool-cases, length, take, drop, length-take, length-drop, get_elem?-take,
  get_elem?-drop, Bytes, add32,
}
use helpz.Network.Qt.{Device}
use helpz.Network.Fragment.{
  Part, FragmentedMessage, fragmented_message, remove_from_part_vect, is_parts_empty, add_data,
  next_of_parts, get_next_part,
}
use helpz.Network.Fragment.Missing.{missing, IsParts}
use helpz.Network.Fragment.Reassembly.{
  IsSlice, IsConsistent, fresh-IsConsistent, add_data-IsConsistent, is_parts_empty_iff,
  device_complete,
}

-- The number of missing bytes.
unfoldable pub total : List Part → ℕ
total [] = 0
total ((first, second) ∷ parts) = (second - first) + total parts

-- Positions are of 32 bits.
abbrev pub Below32 : List Part → Type 0
Below32 [] = Unit
Below32 ((first, second) ∷ parts) = (second < 2 ^ 32) × Below32 parts

pub Below32-inside :
    (lo bound : ℕ) (parts : List Part)
    → bound < 2 ^ 32
    → IsParts lo parts
    → ((i : ℕ) → missing i parts ≡ true → i < bound)
    → Below32 parts
unfolding missing
Below32-inside lo bound [] small v h = tt
Below32-inside lo bound ((first, second) ∷ parts) small v h = (
  ground (arith, h (second - 1)),
  Below32-inside second bound parts small v.2 (λ i m. h i (ground (arith, m))),
)

-- What is asked for next is one stretch of missing bytes, no longer than a fragment may be.
pub next_of_parts_lem :
    (lo size : ℕ) (parts : List Part)
    → IsParts lo parts
    → Below32 parts
    → 0 < size
    → parts ≢ []
    → let (pos, len) = next_of_parts size parts in
      (0 < len)
      × (len ≤ size)
      × ((i : ℕ) → pos ≤ i → i < pos + len → missing i parts ≡ true)
      × (total (remove_from_part_vect parts pos (pos + len)) + len ≡ total parts)
unfolding missing next_of_parts total remove_from_part_vect
next_of_parts_lem lo size [] v b h ne = absurd (ne refl)
next_of_parts_lem lo size ((first, second) ∷ parts) v b h ne =
    (ground arith, ground arith, (λ i p q. ground arith), ground arith)

pub take-drop-IsSlice :
    (full : Bytes) (pos len : ℕ)
    → 0 < len
    → pos + len ≤ length full
    → IsSlice full pos (take len (drop pos full))
take-drop-IsSlice full pos len h within = record {
  within = omega (arith, size);
  filled = omega (arith, size);
  same = λ i lt.
      get_elem?-take len (drop pos full) i (omega (arith, size)) ∙ get_elem?-drop pos full i;
}
  where
    size : length (take len (drop pos full)) ≡ len
    size = omega (arith, length-take len (drop pos full), length-drop pos full)

-- The sender answers a query with the bytes that it asks for.
pub answer_query : Device → Bytes → FragmentedMessage → FragmentedMessage
answer_query device full msg =
    let (pos, len) = get_next_part msg in add_data device msg pos (take len (drop pos full))

-- Queries until no part is left, `rounds` at most.
pub fetch : Device → Bytes → ℕ → FragmentedMessage → FragmentedMessage
fetch device full zero msg = msg
fetch device full (suc rounds) msg =
    let rest = fetch device full rounds (answer_query device full msg) in
    if is_parts_empty msg then msg else rest

module _ (device : Device) (full : Bytes) (small : length full < 2 ^ 31) where
  -- One answered query: the invariant stays and fewer bytes are missing.
  pub answer_query_lem :
      (msg : FragmentedMessage)
      → IsConsistent full msg
      → 0 < msg.max_fragment_size
      → msg.part_vect ≢ []
      → IsConsistent full (answer_query device full msg)
        × ((answer_query device full msg).max_fragment_size ≡ msg.max_fragment_size)
        × (total (answer_query device full msg).part_vect < total msg.part_vect)
  unfolding answer_query get_next_part add_data
  answer_query_lem msg c h ne = (
    add_data-IsConsistent device full small msg pos bytes c slice,
    refl,
    rw size (omega (arith, facts.3, facts.0)),
  )
    where
      pos : ℕ
      pos = (next_of_parts msg.max_fragment_size msg.part_vect).0

      len : ℕ
      len = (next_of_parts msg.max_fragment_size msg.part_vect).1

      bytes : Bytes
      bytes = take len (drop pos full)

      facts :
          (0 < len)
          × (len ≤ msg.max_fragment_size)
          × ((i : ℕ) → pos ≤ i → i < pos + len → missing i msg.part_vect ≡ true)
          × (total (remove_from_part_vect msg.part_vect pos (pos + len)) + len
              ≡ total msg.part_vect)
      facts =
          next_of_parts_lem 0 msg.max_fragment_size msg.part_vect c.ordered
            (Below32-inside 0 (length full) msg.part_vect (omega arith) c.ordered c.inside) h ne

      within : pos + len ≤ length full
      within = omega (
        arith,
        facts.0,
        c.inside (pos + len - 1)
            (facts.2 (pos + len - 1) (omega (arith, facts.0)) (omega (arith, facts.0))),
      )

      slice : IsSlice full pos bytes
      slice = take-drop-IsSlice full pos len facts.0 within

      size : add32 pos (length bytes) ≡ pos + len
      size = omega (arith, length-take len (drop pos full), length-drop pos full, within)

  pub none_missing : (parts : List Part) → IsParts 0 parts → total parts ≤ 0 → parts ≡ []
  unfolding total
  none_missing [] v t = refl
  none_missing ((first, second) ∷ parts) v t = absurd (omega (arith, v.1))

  fetch_lem :
      (rounds : ℕ) (msg : FragmentedMessage)
      → IsConsistent full msg
      → 0 < msg.max_fragment_size
      → total msg.part_vect ≤ rounds
      → IsConsistent full (fetch device full rounds msg)
        × (is_parts_empty (fetch device full rounds msg) ≡ true)
  unfolding fetch
  fetch_lem zero msg c h t =
      (c, (is_parts_empty_iff msg).1 (none_missing msg.part_vect c.ordered t))
  fetch_lem (suc rounds) msg c h t = elim (Bool-cases (is_parts_empty msg)) [
    | inl e ↦ rw e (c, e)
    | inr e ↦
        let a = answer_query_lem msg c h (λ none_left. cc ((is_parts_empty_iff msg).1 none_left)) in
        rw e (
          fetch_lem rounds (answer_query device full msg) a.0 (omega (arith, a.1))
            (omega (arith, a.2)))
  ]

-- Over a link that answers each query the receiver ends with the whole message, after no more
-- queries than bytes. The message is not empty and shorter than 2 GiB, and the fragment size that
-- the receiver asks for is not 0.
pub fetch_complete :
    (device : Device) (full : Bytes) (id cmd max_fragment_size : ℕ)
    → length full < 2 ^ 31
    → 0 < length full
    → 0 < max_fragment_size
    → let msg =
        fetch device full
          (length full)
          (fragmented_message id cmd max_fragment_size (length full)) in
      (is_parts_empty msg ≡ true) × (msg.data_device ≡ full)
unfolding fragmented_message total
fetch_complete device full id cmd max_fragment_size small h positive =
    (done.1, device_complete full _ done.0 done.1)
  where
    first : FragmentedMessage
    first = fragmented_message id cmd max_fragment_size (length full)

    done :
        IsConsistent full (fetch device full (length full) first)
        × (is_parts_empty (fetch device full (length full) first) ≡ true)
    done =
        fetch_lem device full small (length full) first
          (fresh-IsConsistent id cmd max_fragment_size full h) positive (omega arith)
