-- ===== src/Base/ApplyParse.antt =====
-- `parse_out`, `parse` and `apply_parse` in Base/apply_parse.h: the arguments of a call are read from a
-- stream. `operator>>` of the types of the arguments is a parameter.
use helpz.Prelude.{
  ◌≡◌, refl, Bool, true, false, Option, none, some, List, [], ◌∷◌, ◌++◌, append_assoc,
  if◌then◌else◌, ◌>>=◌, Bytes,
}

-- A type with `operator>>`, which gives the value and what follows it, or sets the status, and with
-- `operator<<`.
pub record Field : Type 1 where
  pub Value : Type 0
  pub get : Bytes → Option (Value × Bytes)
  pub put : Value → Bytes
  pub get-put : (v : Value) (rest : Bytes) → get (put v ++ rest) ≡ some (v, rest)

-- `std::tuple` of the arguments.
abbrev pub Values : List Field → Type 0
Values [] = Unit
Values (f ∷ fields) = f.Value × Values fields

-- A member function: the arguments that are read, then those that the caller adds.
abbrev pub Call : List Field → Type 0 → Type 0
Call [] R = R
Call (f ∷ fields) R = f.Value → Call fields R

-- `std::invoke` with the elements of the tuple.
unfoldable pub invoke : {R : Type 0} (fields : List Field) → Call fields R → Values fields → R
invoke [] call values = call
invoke (f ∷ fields) call (v, values) = invoke fields (call v) values

-- A status other than Ok throws, which is `none`.
unfoldable pub parse_out : (fields : List Field) → Bytes → Option (Values fields × Bytes)
parse_out [] bytes = some (tt, bytes)
parse_out (f ∷ fields) bytes = do
  (v, rest) ← f.get bytes
  (values, left) ← parse_out fields rest
  some ((v, values), left)

-- `apply_parse` of a stream, with one argument that the caller adds.
unfoldable pub apply_parse :
    {R E : Type 0} (fields : List Field) → Call fields (E → R) → E → Bytes → Option R
unfolding parse_out invoke
apply_parse fields call extra bytes = do
  (values, rest) ← parse_out fields bytes
  some (invoke fields call values extra)

-- `apply_parse` of a device: one that is closed is opened, and throws if it cannot be.
unfoldable pub apply_parse_device :
    {R E : Type 0} (fields : List Field) → Bool → Bool → Call fields (E → R) → E → Bytes → Option R
unfolding apply_parse
apply_parse_device fields is_open opens call extra bytes =
    if is_open
    then apply_parse fields call extra bytes
    else if opens
    then apply_parse fields call extra bytes
    else none

-- The bytes of the arguments, one after the other.
unfoldable pub put_all : (fields : List Field) → Values fields → Bytes
put_all [] values = []
put_all (f ∷ fields) (v, values) = f.put v ++ put_all fields values

parse_out-put_all :
    (fields : List Field) (values : Values fields) (rest : Bytes)
    → parse_out fields (put_all fields values ++ rest) ≡ some (values, rest)
unfolding parse_out put_all
parse_out-put_all [] values rest = refl
parse_out-put_all (f ∷ fields) (v, values) rest =
    rw (append_assoc (f.put v) (put_all fields values) rest) (
      rw (f.get-put v (put_all fields values ++ rest))
        (rw (parse_out-put_all fields values rest) refl))

-- Arguments that were written one after the other, whatever follows them, reach the call as they were
-- and in their order, with the argument that is added behind them. The device is open or can be
-- opened.
pub apply_parse-put_all :
    {R E : Type 0} (fields : List Field) (is_open : Bool) (call : Call fields (E → R)) (extra : E)
    (values : Values fields) (rest : Bytes)
    → apply_parse_device fields is_open true call extra (put_all fields values ++ rest)
      ≡ some (invoke fields call values extra)
unfolding apply_parse_device apply_parse
apply_parse-put_all fields true call extra values rest =
    rw (parse_out-put_all fields values rest) refl
apply_parse-put_all fields false call extra values rest =
    rw (parse_out-put_all fields values rest) refl

parse_out_short :
    (first : List Field) (f : Field) (later : List Field) (values : Values first) (rest : Bytes)
    → f.get rest ≡ none
    → parse_out (first ++ f ∷ later) (put_all first values ++ rest) ≡ none
unfolding parse_out put_all
parse_out_short [] f later values rest h = rw h refl
parse_out_short (g ∷ first) f later (v, values) rest h =
    rw (append_assoc (g.put v) (put_all first values) rest) (
      rw (g.get-put v (put_all first values ++ rest))
        (rw (parse_out_short first f later values rest h) refl))

-- Bytes that end before the last argument do not reach the call: what was written for the first
-- arguments, followed by bytes from which the next argument cannot be read.
pub apply_parse_short :
    {R E : Type 0} (first : List Field) (f : Field) (later : List Field)
    (call : Call (first ++ f ∷ later) (E → R)) (extra : E) (values : Values first) (rest : Bytes)
    → f.get rest ≡ none
    → apply_parse (first ++ f ∷ later) call extra (put_all first values ++ rest) ≡ none
unfolding apply_parse
apply_parse_short first f later call extra values rest h =
    rw (parse_out_short first f later values rest h) refl
