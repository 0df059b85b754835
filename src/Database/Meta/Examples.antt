-- ===== src/Database/Meta/Examples.antt =====
-- Objects with an id and a parent, and their rows. See DBMeta/db_meta.h and Database/db_builder.h.
use helpz.Prelude.{
  ℕ, zero, suc, ◌<◌, ◌≡◌, refl, true, Option, none, some, List, [], ◌∷◌, map, arith, ◌==◌,
  if◌then◌else◌,
}
use helpz.Database.Text.{codes}
use helpz.Database.Meta.{
  Meta, column_count, value_getter, value_setter, to_variantlist, db_fill_item, db_build_list,
  db_table,
}
use helpz.Database.Meta.Fill.{Separate, IsStorable, cell, db_fill_item_lem}
use helpz.Database.Meta.Lists.{db_build_list-to_variantlist}

record Device : Type 0 where
  id : ℕ
  parent : ℕ

-- A value that is missing reads as 0.
abbrev to_number : Option ℕ → ℕ
to_number none = 0
to_number (some n) = n

-- DB_A(id), and DB_AN(parent), which stores a 0 as a value that is missing.
abbrev device : Meta Device (Option ℕ)
device = record {
  t_name = codes "device";
  t_short_name = codes "d";
  columns =
      record {
        column_name = codes "id";
        getter = λ d. some d.id;
        setter = λ v d. record d { id = to_number v };
      }
      ∷ (record {
        column_name = codes "parent";
        getter = λ d. if d.parent == 0 then none else some d.parent;
        setter = λ v d. record d { parent = to_number v };
      }
          ∷ []);
  is_table_use_common_prefix = true;
  default_item = record { id = 0; parent = 0 };
}

device-Separate : Separate device none
unfolding value_getter value_setter
device-Separate zero zero value obj h = absurd (ground (arith, h))
device-Separate zero (suc zero) value obj h = refl
device-Separate zero (suc (suc j)) value obj h = refl
device-Separate (suc zero) zero value obj h = refl
device-Separate (suc zero) (suc zero) value obj h = absurd (ground (arith, h))
device-Separate (suc zero) (suc (suc j)) value obj h = refl
device-Separate (suc (suc i)) j value obj h = refl

device-IsStorable : (d : Device) → IsStorable device none d
unfolding value_getter value_setter
device-IsStorable d zero h obj = refl
device-IsStorable d (suc zero) h obj = ground arith
device-IsStorable d (suc (suc j)) h obj = refl

abbrev devices : List Device
devices = record { id = 4; parent = 0 } ∷ (record { id = 5; parent = 4 } ∷ [])

db_build_list-to_variantlist_example :
    map
      (to_variantlist device none)
      (db_build_list device none (map (to_variantlist device none) devices))
    ≡ map (to_variantlist device none) devices
db_build_list-to_variantlist_example =
    db_build_list-to_variantlist device none devices device-Separate (
      device-IsStorable (record { id = 4; parent = 0 }),
      (device-IsStorable (record { id = 5; parent = 4 }), tt),
    )

rows_of_devices :
    map (to_variantlist device none) devices
    ≡ (some 4 ∷ (none ∷ [])) ∷ ((some 5 ∷ (some 4 ∷ [])) ∷ [])
unfolding to_variantlist
rows_of_devices = refl

short_row-keeps :
    (j : ℕ)
    → j < 1
    → (obj : Device)
    → value_getter device none (value_setter device obj j (cell none (some 9 ∷ []) j)) j
      ≡ cell none (some 9 ∷ []) j
unfolding value_getter value_setter
short_row-keeps zero h obj = refl
short_row-keeps (suc j) h obj = absurd (omega (arith, h))

-- A row that is too short leaves the parent alone.
short_row :
    value_getter device none
      (db_fill_item device none (some 9 ∷ []) (record { id = 5; parent = 4 }))
      1
    ≡ some 4
unfolding column_count value_getter
short_row =
    db_fill_item_lem device none (some 9 ∷ []) (record { id = 5; parent = 4 }) 1 device-Separate
      short_row-keeps

prefixed : db_table device (codes "das_") (codes "main") ≡ record {
  name = codes "main.das_device";
  short_name = codes "d";
  field_names = codes "id" ∷ (codes "parent" ∷ []);
}
unfolding db_table
prefixed = refl
