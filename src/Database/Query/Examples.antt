-- ===== src/Database/Query/Examples.antt =====
-- Queries on a table of two fields, with a formatter of its own. See Database/db_base.cpp.
use helpz.Prelude.{ℕ, ◌≡◌, refl, false, [], ◌∷◌, ◌++◌, arith, ◌==◌, if◌then◌else◌, drop}
use helpz.Database.Text.{Text, Format, codes, count, has_char, has_char-append, marker}
use helpz.Database.Table.{Table, is_invalid}
use helpz.Database.Query.{escape_fields, insert_query}
use helpz.Database.Query.Fill.{IsPlain}
use helpz.Database.Query.Placeholders.{insert_placeholders}

-- The first place marker is replaced.
abbrev pub fill_first : Text → Text → Text
fill_first [] a = []
fill_first (c ∷ cs) a = let rest = fill_first cs a in if c == b'%' then a ++ drop 1 cs else c ∷ rest

pub fill_first_lem :
    (k : ℕ) (pre post a : Text)
    → has_char b'%' pre ≡ false
    → fill_first (pre ++ (marker k ++ post)) a ≡ pre ++ (a ++ post)
unfolding has_char
fill_first_lem k [] post a h = refl
fill_first_lem k (c ∷ pre) post a h = ground (arith, h, fill_first_lem k pre post a)

abbrev pub format : Format
format = record {
  arg = fill_first;
  arg_lem = λ k pre post a hk hp hs hm. fill_first_lem k pre post a hp;
}

abbrev pub quote : Text → Text
quote x = codes "`" ++ (x ++ codes "`")

quote-IsPlain : (x : Text) → IsPlain x → IsPlain (quote x)
unfolding has_char
quote-IsPlain x (p, q) =
    (has_char-append b'%' x (codes "`") p refl, has_char-append b'?' x (codes "`") q refl)

abbrev pub house : Table
house = record {
  name = codes "house";
  short_name = codes "h";
  field_names = codes "id" ∷ codes "name" ∷ [];
}

insert_placeholders_example :
    count b'?'
      (insert_query format quote house 3 (codes "ON DUPLICATE KEY UPDATE id=?") [] (codes "INSERT"))
    ≡ 3
unfolding is_invalid escape_fields has_char count
insert_placeholders_example =
    insert_placeholders format quote quote-IsPlain house 3 (codes "ON DUPLICATE KEY UPDATE id=?") []
      (codes "INSERT") refl refl refl (refl, refl) ((refl, refl), ((refl, refl), tt)) (refl, refl)
