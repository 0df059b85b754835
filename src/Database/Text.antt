-- ===== src/Database/Text.antt =====
-- `QString` as a list of code points, and what the queries use of it. `QString::arg` is a parameter.
use Prim.Native.Char.{code}
use Prim.Native.String.{String}
use helpz.Prelude.{
  ℕ, ◌+◌, ◌<◌, ◌≡◌, Bool, true, false, not, ◌&&◌, ◌||◌, List, [], ◌∷◌, ◌++◌, arith, ltb, leb, ◌==◌,
  if◌then◌else◌,
}

abbrev pub Text : Type 0
Text = List ℕ

abbrev pub codes : String → Text
codes String.[] = []
codes (String.◌∷◌ c s) = code c ∷ codes s

-- `isEmpty()` of a text, a list of texts or a vector.
abbrev pub is_empty {ℓ} : {A : Type ℓ} → List A → Bool
is_empty [] = true
is_empty (x ∷ xs) = false

-- `operator==`.
unfoldable pub same_text : Text → Text → Bool
same_text [] [] = true
same_text [] (y ∷ ys) = false
same_text (x ∷ xs) [] = false
same_text (x ∷ xs) (y ∷ ys) = (x == y) && same_text xs ys

-- `count(c)`.
unfoldable pub count : ℕ → Text → ℕ
count c [] = 0
count c (x ∷ xs) = (if x == c then 1 else 0) + count c xs

-- `QStringList::join(',')`.
unfoldable pub join : List Text → Text
join [] = []
join (x ∷ []) = x
join (x ∷ (y ∷ rest)) = x ++ (b',' ∷ join (y ∷ rest))

unfoldable pub has_char : ℕ → Text → Bool
has_char c [] = false
has_char c (x ∷ xs) = (x == c) || has_char c xs

-- The texts that hold no place marker, and do not make one with what stands before them.
abbrev pub starts_with_digit : Text → Bool
starts_with_digit [] = false
starts_with_digit (c ∷ cs) = leb b'0' c && leb c b'9'

-- The place marker of one digit.
abbrev pub marker : ℕ → Text
marker k = b'%' ∷ (b'0' + k) ∷ []

-- The markers of a text are of one digit and above `k`.
abbrev pub markers_above : ℕ → Text → Bool
markers_above k [] = true
markers_above k (c ∷ []) = not (c == b'%')
markers_above k (c ∷ (d ∷ rest)) =
    if c == b'%'
    then ltb (b'0' + k) d
      && (leb d b'9' && (not (starts_with_digit rest) && markers_above k (d ∷ rest)))
    else markers_above k (d ∷ rest)

-- `QString::arg`: the lowest numbered place marker is replaced.
pub record Format : Type 0 where
  pub arg : Text → Text → Text
  pub arg_lem :
      (k : ℕ) (pre post a : Text)
      → k < 10
      → has_char b'%' pre ≡ false
      → starts_with_digit post ≡ false
      → markers_above k post ≡ true
      → arg (pre ++ (marker k ++ post)) a ≡ pre ++ (a ++ post)

pub count-append : (c : ℕ) (xs ys : Text) → count c (xs ++ ys) ≡ count c xs + count c ys
unfolding count
count-append c [] ys = omega arith
count-append c (x ∷ xs) ys = omega (arith, count-append c xs ys)

pub has_char-append :
    (c : ℕ) (xs ys : Text)
    → has_char c xs ≡ false
    → has_char c ys ≡ false
    → has_char c (xs ++ ys) ≡ false
unfolding has_char
has_char-append c [] ys hx hy = hy
has_char-append c (x ∷ xs) ys hx hy = ground (arith, hx, has_char-append c xs ys)
