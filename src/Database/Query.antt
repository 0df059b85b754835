-- ===== src/Database/Query.antt =====
-- The texts of the queries in Database/db_base.cpp. `QSqlDriver::escapeIdentifier` is a parameter.
mod Fill
mod Placeholders
mod Rows
pub mod Examples
use helpz.Prelude.{
  ℕ, zero, suc, ◌+◌, ◌-◌, Bool, true, false, not, ◌&&◌, ◌||◌, List, [], ◌∷◌, ◌++◌, map, ◌==◌,
  if◌then◌else◌, length,
}
use helpz.Database.Text.{Text, Format, codes, is_empty, count, join}
use helpz.Database.Table.{Table, is_invalid}

abbrev pub mem : ℕ → List ℕ → Bool
mem i [] = false
mem i (j ∷ js) = (j == i) || mem i js

-- `n` copies of '?', as in `QString(n, '?')`.
unfoldable pub question_marks : ℕ → Text
question_marks zero = []
question_marks (suc n) = b'?' ∷ question_marks n

-- The loop of `insert_query`: a comma at each odd place.
unfoldable pub put_commas : Text → Text
put_commas [] = []
put_commas (c ∷ []) = c ∷ []
put_commas (c ∷ (d ∷ rest)) = c ∷ b',' ∷ put_commas rest

-- `escapedFields.at(i) + "=?"`.
unfoldable pub set_params : List Text → List Text
set_params [] = []
set_params (f ∷ fs) = (f ++ codes "=?") ∷ set_params fs

-- "DELETE FROM ...": empty without a table.
unfoldable pub del_query : Text → Text → Text
del_query table_name where_ =
    let sql = codes "DELETE FROM " ++ table_name in
    if is_empty table_name
    then []
    else if is_empty where_
    then sql
    else sql ++ (codes " WHERE " ++ where_)

unfoldable pub truncate_query : Text → Text
truncate_query table_name = codes "TRUNCATE TABLE " ++ (table_name ++ codes ";")

-- The query of `row_count`.
unfoldable pub row_count_query : Text → Text → Text
row_count_query table_name where_ =
    let sql = codes "SELECT COUNT(*) FROM " ++ table_name in
    if is_empty where_ then sql else sql ++ (codes " WHERE " ++ where_)

module _ (format : Format) (escape_identifier : Text → Text) where
  open format use {arg}

  -- The loop of `escape_fields` from the field number `i` on.
  unfoldable pub escape_from : Text → List ℕ → ℕ → List Text → List Text
  escape_from prefix field_ids i [] = []
  escape_from prefix field_ids i (name ∷ names) =
      let rest = escape_from prefix field_ids (suc i) names in
      if is_empty field_ids || mem i field_ids
      then escape_identifier (prefix ++ name) ∷ rest
      else rest

  -- `escape_fields`: all the fields, or those that are listed, with the short name of the table.
  unfoldable pub escape_fields : Table → List ℕ → Bool → List Text
  unfolding escape_from
  escape_fields table field_ids use_short_name =
      escape_from
        (if use_short_name && not (is_empty table.short_name)
          then table.short_name ++ codes "."
          else [])
        field_ids 0 table.field_names

  unfoldable pub select_query : Table → Text → List ℕ → Text
  unfolding is_invalid
  select_query table suffix field_ids =
      let table_name =
        if is_empty table.short_name
        then table.name
        else table.name ++ (codes " " ++ table.short_name) in
      if is_invalid table
      then []
      else arg
          (arg (arg (codes "SELECT %1 FROM %2 %3;") (join (escape_fields table field_ids true)))
            table_name)
          suffix

  -- The text of `insert_query` behind its tests.
  unfoldable pub insert_text : Table → List Text → Text → Text → Text
  insert_text table fields suffix method =
      let q_str = put_commas (question_marks (length fields + (length fields - 1))) in
      let sql =
        arg (arg (arg (method ++ codes " INTO %1(%2) VALUES(%3)") table.name) (join fields))
          q_str in
      (if is_empty suffix then sql else sql ++ (codes " " ++ suffix)) ++ codes ";"

  -- `insert_query`: empty if the values are not as many as the place holders.
  unfoldable pub insert_query : Table → ℕ → Text → List ℕ → Text → Text
  unfolding is_invalid insert_text
  insert_query table values_size suffix field_ids method =
      let fields = escape_fields table field_ids false in
      if is_invalid table
        || (is_empty fields || not (count b'?' suffix + length fields == values_size))
      then []
      else insert_text table fields suffix method

  unfoldable pub update_text : Table → List Text → Text → Text
  update_text table fields where_ =
      let sql = arg (arg (codes "UPDATE %1 SET %2") table.name) (join (set_params fields)) in
      if is_empty where_ then sql else sql ++ (codes " WHERE " ++ where_)

  -- `update_query`: empty if the values are not as many as the place holders.
  unfoldable pub update_query : Table → ℕ → Text → List ℕ → Text
  unfolding is_invalid update_text
  update_query table values_size where_ field_ids =
      let fields = escape_fields table field_ids false in
      if is_invalid table
        || (is_empty fields || not (count b'?' where_ + length fields == values_size))
      then []
      else update_text table fields where_
