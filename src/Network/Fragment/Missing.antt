-- ===== src/Network/Fragment/Missing.antt =====
-- What `remove_from_part_vect` does to the set of missing bytes.
use helpz.Prelude.{
  ℕ, ◌≤◌, ◌<◌, ◌≡◌, refl, Bool, false, not, ◌&&◌, ◌||◌, List, [], ◌∷◌, arith, ltb, leb,
}
use helpz.Network.Fragment.{Part, remove_from_part_vect}

-- Whether position `i` lies in one of the parts.
unfoldable pub missing : ℕ → List Part → Bool
missing i [] = false
missing i ((first, second) ∷ parts) = (leb first i && ltb i second) || missing i parts

-- The parts are not empty, do not overlap and rise, from `lo` on.
abbrev pub IsParts : ℕ → List Part → Type 0
IsParts lo [] = Unit
IsParts lo ((first, second) ∷ parts) = (lo ≤ first) × (first < second) × IsParts second parts

pub IsParts-mono : {lo hi : ℕ} (parts : List Part) → lo ≤ hi → IsParts hi parts → IsParts lo parts
IsParts-mono [] h v = tt
IsParts-mono (p ∷ parts) h v = (omega arith, v.1, v.2)

pub missing_below :
    (i lo : ℕ) (parts : List Part) → IsParts lo parts → i < lo → missing i parts ≡ false
unfolding missing
missing_below i lo [] v h = refl
missing_below i lo ((first, second) ∷ parts) v h = ground (arith, missing_below i second parts v.2)

-- Of parts in order, disjoint and not empty, a byte is missing after `remove_from_part_vect` exactly if
-- it was and is not in the new part. The new part may be empty, but its end is not before its start.
pub missing-remove :
    (i lo start end : ℕ) (parts : List Part)
    → IsParts lo parts
    → start ≤ end
    → missing i (remove_from_part_vect parts start end)
      ≡ (missing i parts && not (leb start i && ltb i end))
unfolding missing remove_from_part_vect
missing-remove i lo start end [] v h = refl
missing-remove i lo start end ((first, second) ∷ parts) v h = ground (
  arith,
  missing_below i second parts v.2,
  missing-remove i second start end parts v.2 h,
  missing-remove i second second end parts v.2,
)

-- `remove_from_part_vect` keeps parts in order, disjoint and not empty, if the end of the new part is
-- not before its start.
pub remove-IsParts :
    (lo start end : ℕ) (parts : List Part)
    → IsParts lo parts
    → start ≤ end
    → IsParts lo (remove_from_part_vect parts start end)
unfolding remove_from_part_vect
remove-IsParts lo start end [] v h = tt
remove-IsParts lo start end ((first, second) ∷ parts) v h = ground (
  arith,
  remove-IsParts second start end parts v.2 h,
  remove-IsParts second second end parts v.2,
  IsParts-mono {lo = lo} {hi = second} (remove_from_part_vect parts second end),
  IsParts-mono {lo = start} {hi = second} (remove_from_part_vect parts second end),
  IsParts-mono {lo = lo} {hi = second} parts,
  IsParts-mono {lo = start} {hi = second} parts,
)
