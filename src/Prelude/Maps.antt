-- ===== src/Prelude/Maps.antt =====
-- `std::map` with numbers for keys: an association list, whose keys rise along it.
use Prim.Native.Nat.{ℕ, suc, ◌≤◌, ◌<◌}
use mathlib.Core.Path.{◌≡◌, refl}
use mathlib.Core.Bool.{Bool, false, ◌||◌}
use native.Mathlib.Omega.{arith}
use mathlib.Core.Option.{Option, none, some}
use mathlib.Core.List.{List, [], ◌∷◌}
use helpz.Prelude.Tests.{ltb, ◌==◌, if◌then◌else◌}

module _ {ℓ} {V : Type ℓ} where
  -- `m.find(k)`
  abbrev pub lookup : ℕ → List (ℕ × V) → Option V
  lookup k [] = none
  lookup k ((j, v) ∷ m) = if j == k then some v else lookup k m

  -- `m.emplace(k, v)`: a key that is there keeps its value.
  abbrev pub emplace : ℕ → V → List (ℕ × V) → List (ℕ × V)
  emplace k v [] = (k, v) ∷ []
  emplace k v ((j, w) ∷ m) =
      if j == k then (j, w) ∷ m else if ltb k j then (k, v) ∷ (j, w) ∷ m else (j, w) ∷ emplace k v m

  -- `m.find(k)->second = v`
  abbrev pub assign : ℕ → V → List (ℕ × V) → List (ℕ × V)
  assign k v [] = []
  assign k v ((j, w) ∷ m) = if j == k then (j, v) ∷ m else (j, w) ∷ assign k v m

  -- `m.erase(k)`
  abbrev pub erase : ℕ → List (ℕ × V) → List (ℕ × V)
  erase k [] = []
  erase k ((j, w) ∷ m) = if j == k then m else (j, w) ∷ erase k m

  -- The keys rise, from `lo` on.
  abbrev pub KeysFrom : ℕ → List (ℕ × V) → Type 0
  KeysFrom lo [] = Unit
  KeysFrom lo ((j, w) ∷ m) = (lo ≤ j) × KeysFrom (suc j) m

  abbrev pub has_key : ℕ → List (ℕ × V) → Bool
  has_key k [] = false
  has_key k ((j, v) ∷ m) = (j == k) || has_key k m

module _ {ℓ} {V : Type ℓ} where
  pub has_key-emplace :
      (k j : ℕ) (v : V) (m : List (ℕ × V)) → has_key j (emplace k v m) ≡ ((k == j) || has_key j m)
  has_key-emplace k j v [] = refl
  has_key-emplace k j v ((i, w) ∷ m) = ground (arith, has_key-emplace k j v m)

  pub KeysFrom-mono : {lo hi : ℕ} (m : List (ℕ × V)) → lo ≤ hi → KeysFrom hi m → KeysFrom lo m
  KeysFrom-mono [] h k = tt
  KeysFrom-mono ((j, w) ∷ m) h k = (omega arith, k.1)

  pub emplace-KeysFrom :
      (lo k : ℕ) (v : V) (m : List (ℕ × V)) → lo ≤ k → KeysFrom lo m → KeysFrom lo (emplace k v m)
  emplace-KeysFrom lo k v [] h s = (h, tt)
  emplace-KeysFrom lo k v ((j, w) ∷ m) h s = ground (arith, emplace-KeysFrom (suc j) k v m)

  pub erase-KeysFrom : (lo k : ℕ) (m : List (ℕ × V)) → KeysFrom lo m → KeysFrom lo (erase k m)
  erase-KeysFrom lo k [] s = tt
  erase-KeysFrom lo k ((j, w) ∷ m) s =
      ground (arith, erase-KeysFrom (suc j) k m s.1, KeysFrom-mono {lo = lo} {hi = suc j} m)

  pub assign-KeysFrom :
      (lo k : ℕ) (v : V) (m : List (ℕ × V)) → KeysFrom lo m → KeysFrom lo (assign k v m)
  assign-KeysFrom lo k v [] s = tt
  assign-KeysFrom lo k v ((j, w) ∷ m) s = ground (arith, assign-KeysFrom (suc j) k v m s.1)

  pub lookup-assign :
      (k : ℕ) (v w : V) (m : List (ℕ × V)) → lookup k m ≡ some w → lookup k (assign k v m) ≡ some v
  lookup-assign k v w [] h = cc h
  lookup-assign k v w ((j, u) ∷ m) h = ground (arith, h, lookup-assign k v w m)

  pub lookup_below : (k lo : ℕ) (m : List (ℕ × V)) → KeysFrom lo m → k < lo → lookup k m ≡ none
  lookup_below k lo [] s h = refl
  lookup_below k lo ((j, w) ∷ m) s h = ground (arith, lookup_below k (suc j) m s.1)

  pub lookup-erase : (lo k : ℕ) (m : List (ℕ × V)) → KeysFrom lo m → lookup k (erase k m) ≡ none
  lookup-erase lo k [] s = refl
  lookup-erase lo k ((j, w) ∷ m) s =
      ground (arith, lookup-erase (suc j) k m s.1, lookup_below k (suc j) m s.1)

  pub lookup-emplace :
      (lo k j : ℕ) (v : V) (m : List (ℕ × V))
      → KeysFrom lo m
      → lookup k m ≡ none
      → lookup j (emplace k v m) ≡ (if k == j then some v else lookup j m)
  lookup-emplace lo k j v [] s h = refl
  lookup-emplace lo k j v ((i, w) ∷ m) s h = ground (arith, lookup-emplace (suc i) k j v m s.1)

  pub erase_absent : (k : ℕ) (m : List (ℕ × V)) → lookup k m ≡ none → erase k m ≡ m
  erase_absent k [] h = refl
  erase_absent k ((j, w) ∷ m) h = ground (arith, erase_absent k m)

  pub emplace_taken :
      (lo k : ℕ) (v w : V) (m : List (ℕ × V))
      → KeysFrom lo m
      → lookup k m ≡ some w
      → emplace k v m ≡ m
  emplace_taken lo k v w [] s h = cc
  emplace_taken lo k v w ((j, u) ∷ m) s h =
      ground (arith, emplace_taken (suc j) k v w m s.1, lookup_below k (suc j) m s.1)

  -- To assign what is there changes nothing.
  pub assign_same : (k : ℕ) (v : V) (m : List (ℕ × V)) → lookup k m ≡ some v → assign k v m ≡ m
  assign_same k v [] h = refl
  assign_same k v ((j, w) ∷ m) h = ground (arith, h, assign_same k v m)

  pub lookup-erase_other :
      (k j : ℕ) (m : List (ℕ × V)) → (k == j) ≡ false → lookup j (erase k m) ≡ lookup j m
  lookup-erase_other k j [] h = refl
  lookup-erase_other k j ((i, w) ∷ m) h = ground (arith, h, lookup-erase_other k j m h)
