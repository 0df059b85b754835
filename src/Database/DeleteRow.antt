-- ===== src/Database/DeleteRow.antt =====
-- `Delete_Row_Helper` in Database/db_delete_row.h and db_delete_row.cpp. The database, the callback
-- on conditions and the driver are parameters.
mod Plan
mod Examples
use helpz.Prelude.{
  ℕ, Bool, true, false, ◌&&◌, List, [], ◌∷◌, ◌++◌, Option, none, some, get_elem?, ◌==◌,
  if◌then◌else◌,
}
use helpz.Database.Text.{Text, Format, codes, is_empty, same_text}
use helpz.Database.Table.{Table}
use helpz.Database.Query.{update_query, del_query}

-- A table whose rows refer to rows of another one, with the tables that refer to it. An index that
-- is not one of a field, as a negative one is, names no field.
mutual
  pub data RowInfo : Type 0 where
    row_info : Bool → ℕ → ℕ → Table → RowInfos → RowInfo

  pub data RowInfos : Type 0 where
    no_rows : RowInfos
    row : RowInfo → RowInfos → RowInfos

abbrev name_at : List Text → ℕ → Text
name_at names i = elim (get_elem? names i) [ none ↦ [] | some x ↦ x ]

abbrev pub set_null : RowInfo → Bool
set_null (row_info null field_i pk_i table childs) = null

abbrev pub childs_of : RowInfo → RowInfos
childs_of (row_info null field_i pk_i table childs) = childs

abbrev pub table_name : RowInfo → Text
table_name (row_info null field_i pk_i table childs) = table.name

abbrev pub field_name : RowInfo → Text
field_name (row_info null field_i pk_i table childs) = name_at table.field_names field_i

abbrev pub pk_name : RowInfo → Text
pk_name (row_info null field_i pk_i table childs) = name_at table.field_names pk_i

-- A step that goes on only if the one before it succeeded: a failure is thrown.
abbrev pub then_do {ℓ} : {W : Type ℓ} → Bool × W → (W → Bool × W) → Bool × W
then_do (true, w) f = f w
then_do (false, w) f = (false, w)

-- An empty query is not executed and is not active.
abbrev pub exec_query {ℓ} : {W : Type ℓ} → (Text → W → Bool × W) → Text → W → Bool × W
exec_query exec sql w = if is_empty sql then (false, w) else exec sql w

module _ (format : Format) (escape_identifier : Text → Text) (id : Text)
    (fill_where : RowInfo → Text → Text) where
  open format use {arg}

  -- The column set to NULL: one value and no other field in the table.
  unfoldable pub null_query : RowInfo → Text → Text
  null_query del where_ =
      update_query format escape_identifier
        (record { name = table_name del; short_name = []; field_names = field_name del ∷ [] }) 1
        where_ []

  -- The statement of `del` on a table that refers to the row.
  unfoldable pub child_query : RowInfo → Text
  unfolding null_query
  child_query del =
      let where_ = fill_where del (field_name del ++ (codes "=" ++ id)) in
      if set_null del then null_query del where_ else del_query (table_name del) where_

  -- The statement of `del_impl` on a table that refers to the one above it.
  unfoldable pub grandchild_query : RowInfo → RowInfo → Text
  unfolding null_query same_text
  grandchild_query parent del =
      let nested =
        field_name del
        ++ arg
            (arg
              (arg (arg (codes " IN(SELECT %1 FROM %2 WHERE %3 = %4)") (pk_name parent))
                (table_name parent))
              (field_name parent))
            id in
      let where_ = fill_where del (
        if set_null del && same_text (table_name del) (table_name parent)
        then pk_name parent ++ (codes "=" ++ id)
        else nested) in
      if set_null del then null_query del where_ else del_query (table_name del) where_

  -- The statement on the row itself.
  unfoldable pub row_query : RowInfo → Text
  row_query info = del_query (table_name info) (fill_where info (pk_name info ++ (codes "=" ++ id)))

  module _ {ℓ} {W : Type ℓ} (exec : Text → W → Bool × W) where
    unfoldable pub del_impl : RowInfo → RowInfos → W → Bool × W
    del_impl parent no_rows w = (true, w)
    del_impl parent (row (row_info null field_i pk_i table childs) rest) w =
        let del = row_info null field_i pk_i table childs in
        then_do (del_impl del childs w)
          (λ w1. then_do (exec_query exec (grandchild_query parent del) w1) (del_impl parent rest))

    -- The loop of `del`.
    unfoldable pub del_childs : RowInfos → W → Bool × W
    unfolding del_impl
    del_childs no_rows w = (true, w)
    del_childs (row del rest) w =
        then_do
          (if set_null del
            then exec_query exec (child_query del) w
            else then_do (del_impl del (childs_of del) w) (exec_query exec (child_query del)))
          (del_childs rest)

    unfoldable pub del : RowInfo → W → Bool × W
    unfolding del_childs
    del info w = then_do (del_childs (childs_of info) w) (exec_query exec (row_query info))
