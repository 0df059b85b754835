-- ===== src/Database/Builder.antt =====
-- The conditions that Database/db_builder.h builds over lists of ids. `QString::number` is a parameter.
pub mod Lists
mod Examples
use helpz.Prelude.{
  ℕ, ◌+◌, ◌-◌, ◌%◌, ◌^◌, Bool, ◌||◌, Option, none, some, List, [], ◌∷◌, ◌++◌, map, leb, ◌==◌,
  if◌then◌else◌, length, get_elem?, take,
}
use helpz.Database.Text.{Text, codes, is_empty}
use helpz.Database.Table.{Table}

-- `remove(size() - 1, 1)` and `replace(size() - 1, 1, c)` of a text that is not empty.
unfoldable pub remove_last : Text → Text
remove_last text = take (length text - 1) text

unfoldable pub replace_last : ℕ → Text → Text
unfolding remove_last
replace_last c text = remove_last text ++ (c ∷ [])

-- `static_cast<uint32_t>` of the ids of a container.
abbrev pub as_uint32 : List ℕ → List ℕ
as_uint32 ids = map (λ id. id % 2 ^ 32) ids

module _ (number : ℕ → Text) where
  -- Each id with a comma behind it.
  unfoldable pub with_commas : List ℕ → Text
  with_commas [] = []
  with_commas (id ∷ ids) = number id ++ (b',' ∷ with_commas ids)

  -- `ids` are the further arguments of the call.
  unfoldable pub get_db_field_in_sql : Text → List ℕ → List ℕ → Text
  unfolding with_commas remove_last replace_last
  get_db_field_in_sql field_name id_list ids =
      let is_one = length ids + length id_list == 1 in
      let sql =
        field_name
        ++ ((if is_one then codes "=" else codes " IN (")
            ++ (with_commas (as_uint32 id_list) ++ with_commas ids)) in
      if is_one then remove_last sql else replace_last b')' sql

  -- The table is that of the type. Empty if there are no ids or no such column.
  unfoldable pub db_get_items_list_suffix : Table → List ℕ → ℕ → Text
  unfolding with_commas replace_last
  db_get_items_list_suffix table id_vect column_index =
      let prefix = if is_empty table.short_name then [] else table.short_name ++ (b'.' ∷ []) in
      if is_empty id_vect then [] else elim (get_elem? table.field_names column_index) [
        | none ↦ []
        | some name ↦
            replace_last b')'
              (codes "WHERE " ++ (prefix ++ (name ++ (codes " IN (" ++ with_commas id_vect))))
      ]
