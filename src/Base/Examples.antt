-- ===== src/Base/Examples.antt =====
-- Bytes, texts and calls at which the base library runs.
use helpz.Prelude.{
  ℕ, ◌+◌, ◌≡◌, refl, Bool, true, false, Option, none, some, [], ◌∷◌, ◌++◌, ◌==◌, Bytes,
}
use helpz.Base.DataStream.{little_endian, data_stream, read}
use helpz.Base.Trim.{trim}
use helpz.Base.ApplyParse.{Field, apply_parse_device}

-- The test of the comment in the header: 4 bytes, then an end.
big_endian_read : (read little_endian 4 (data_stream (1 ∷ 2 ∷ 3 ∷ 4 ∷ []))).0 ≡ some 0x01020304
unfolding read data_stream
big_endian_read = refl

abbrev is_blank : ℕ → Bool
is_blank c = c == 32

abbrev padded : Bytes
padded = 32 ∷ 32 ∷ 65 ∷ 32 ∷ 66 ∷ 32 ∷ []

trimmed_text : trim is_blank padded ≡ 65 ∷ 32 ∷ 66 ∷ []
unfolding trim
trimmed_text = refl

abbrev get_octet : Bytes → Option (ℕ × Bytes)
get_octet [] = none
get_octet (b ∷ rest) = some (b, rest)

abbrev get_bit : Bytes → Option (Bool × Bytes)
get_bit [] = none
get_bit (b ∷ rest) = some (b == 1, rest)

abbrev put_bit : Bool → Bytes
put_bit true = 1 ∷ []
put_bit false = 0 ∷ []

get_bit-put_bit : (v : Bool) (rest : Bytes) → get_bit (put_bit v ++ rest) ≡ some (v, rest)
get_bit-put_bit true rest = refl
get_bit-put_bit false rest = refl

abbrev octet : Field
octet = record { Value = ℕ; get = get_octet; put = λ b. b ∷ []; get-put = λ v rest. refl }

abbrev bit : Field
bit = record { Value = Bool; get = get_bit; put = put_bit; get-put = get_bit-put_bit }

-- A call with an octet and a bit, and a number that the caller adds.
abbrev handler : ℕ → Bool → ℕ → ℕ
handler n true extra = n + extra
handler n false extra = extra

-- The call takes a byte for each of its fields; bytes behind them are left.
called : apply_parse_device (octet ∷ bit ∷ []) false true handler 7 (5 ∷ 1 ∷ 9 ∷ []) ≡ some 12
unfolding apply_parse_device
called = refl
