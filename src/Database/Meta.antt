-- ===== src/Database/Meta.antt =====
-- The types that stand for rows: what HELPZ_DB_META of DBMeta/db_meta.h gives a type, `db_table` of
-- DBMeta/db_table.h, and the functions of Database/db_builder.h that read objects from queries. A QVariant
-- is of any type, with a value for an invalid one; `QString::number` is a parameter.
pub mod Fill
pub mod Lists
mod Examples
use helpz.Prelude.{
  ℕ, zero, suc, ◌+◌, ◌<◌, min, Bool, Option, none, some, List, [], ◌∷◌, ◌++◌, map, if◌then◌else◌,
  length, get_elem?,
}
use helpz.Database.Text.{Text, Format, codes, is_empty}
use helpz.Database.Table.{Table}
use helpz.Database.Builder.{db_get_items_list_suffix}
use helpz.Database.Connection.{SqlDriver, select}

-- A column: the name, and its cases in the switches of `value_getter` and `value_setter`.
pub record Column (T V : Type 0) : Type 0 where
  pub column_name : Text
  pub getter : T → V
  pub setter : V → T → T

-- What HELPZ_DB_META is told of a type, `is_table_use_common_prefix` of it and its default object.
pub record Meta (T V : Type 0) : Type 0 where
  pub t_name : Text
  pub t_short_name : Text
  pub columns : List (Column T V)
  pub is_table_use_common_prefix : Bool
  pub default_item : T

-- The rows that a query gives: `record().count()` is the length of the row, `value(i)` its elements.
abbrev pub Row : Type 0 → Type 0
Row V = List V

module _ {T V : Type 0} where
  -- HELPZ_DB_QUOTE.
  unfoldable pub quoted : List (Column T V) → List Text
  quoted [] = []
  quoted (column ∷ columns) = column.column_name ∷ quoted columns

  -- HELPZ_DB_GETTER_CASE: the cases of the switch in their order, and `QVariant()` behind it.
  unfoldable pub getter_case : V → List (Column T V) → T → ℕ → V
  getter_case invalid [] obj pos = invalid
  getter_case invalid (column ∷ columns) obj zero = column.getter obj
  getter_case invalid (column ∷ columns) obj (suc pos) = getter_case invalid columns obj pos

  -- HELPZ_DB_SETTER_CASE.
  unfoldable pub setter_case : List (Column T V) → T → ℕ → V → T
  setter_case [] obj pos value = obj
  setter_case (column ∷ columns) obj zero value = column.setter value obj
  setter_case (column ∷ columns) obj (suc pos) value = setter_case columns obj pos value

module _ {T V : Type 0} (meta : Meta T V) where
  unfoldable pub table_name : Text → Text
  table_name common_prefix =
      if meta.is_table_use_common_prefix then common_prefix ++ meta.t_name else meta.t_name

  unfoldable pub table_column_names : List Text
  unfolding quoted
  table_column_names = quoted meta.columns

  -- `COL_COUNT`.
  unfoldable pub column_count : ℕ
  column_count = length meta.columns

  unfoldable pub db_table_name : Text → Text → Text
  unfolding table_name
  db_table_name common_prefix db_name =
      if is_empty db_name
      then table_name common_prefix
      else db_name ++ (b'.' ∷ table_name common_prefix)

  unfoldable pub db_table : Text → Text → Table
  unfolding db_table_name table_column_names
  db_table common_prefix db_name = record {
    name = db_table_name common_prefix db_name;
    short_name = meta.t_short_name;
    field_names = table_column_names;
  }

  -- `invalid` is `QVariant()`.
  unfoldable pub value_getter : V → T → ℕ → V
  unfolding getter_case
  value_getter invalid obj pos = getter_case invalid meta.columns obj pos

  unfoldable pub value_setter : T → ℕ → V → T
  unfolding setter_case
  value_setter obj pos value = setter_case meta.columns obj pos value

  -- The loop of `to_variantlist` from `i` on, with so many rounds left.
  unfoldable pub variants_from : V → ℕ → ℕ → T → List V
  unfolding value_getter
  variants_from invalid zero i obj = []
  variants_from invalid (suc rounds) i obj =
      value_getter invalid obj i ∷ variants_from invalid rounds (suc i) obj

  unfoldable pub to_variantlist : V → T → List V
  unfolding variants_from column_count
  to_variantlist invalid obj = variants_from invalid column_count 0 obj

  -- The loop of `db_fill_item` from `i` on, with so many rounds left.
  unfoldable pub fill_from : V → ℕ → ℕ → Row V → T → T
  unfolding value_setter
  fill_from invalid zero i row item = item
  fill_from invalid (suc rounds) i row item =
      fill_from invalid rounds (suc i) row
        (value_setter item i (elim (get_elem? row i) [ none ↦ invalid | some value ↦ value ]))

  unfoldable pub db_fill_item : V → Row V → T → T
  unfolding fill_from column_count
  db_fill_item invalid row item = fill_from invalid (min column_count (length row)) 0 row item

  unfoldable pub db_build : V → Row V → T
  unfolding db_fill_item
  db_build invalid row = db_fill_item invalid row meta.default_item

  -- The loop of `db_build_list` over the rows, with what is built already.
  unfoldable pub build_rows : V → List (Row V) → List T → List T
  unfolding db_build
  build_rows invalid [] built = built
  build_rows invalid (row ∷ rows) built =
      build_rows invalid rows (built ++ (db_build invalid row ∷ []))

  unfoldable pub db_build_list : V → List (Row V) → List T
  unfolding build_rows
  db_build_list invalid rows = build_rows invalid rows []

  -- The condition of `db_build_item`; the first column is there.
  unfoldable pub item_suffix : (ℕ → Text) → ℕ → Text
  unfolding table_column_names
  item_suffix number id =
      codes "WHERE "
      ++ ((if is_empty meta.t_short_name then [] else meta.t_short_name ++ (b'.' ∷ []))
          ++ (elim (get_elem? table_column_names 0) [ none ↦ [] | some name ↦ name ]
              ++ (b'=' ∷ number id)))

  module _ {W R : Type 0} (driver : SqlDriver W V R) (format : Format)
      (escape_identifier : Text → Text) (rows : Option R → List (Row V)) where
    -- `db_build_list` of a condition. `rows` is what `next` and `value` of a query give, in order.
    unfoldable pub db_build_where : V → Text → Text → Text → W → List T × W
    unfolding select db_table db_build_list
    db_build_where invalid common_prefix suffix db_name w =
        let (q, w1) =
          select driver format escape_identifier (db_table common_prefix db_name) suffix [] [] w in
        (db_build_list invalid (rows q), w1)

    -- `db_build_list` of ids in a column: without a query if there is no condition.
    unfoldable pub db_build_ids : (ℕ → Text) → V → Text → List ℕ → Text → ℕ → W → List T × W
    unfolding db_get_items_list_suffix db_build_where
    db_build_ids number invalid common_prefix id_vect db_name column_index w =
        let suffix =
          db_get_items_list_suffix number (db_table common_prefix db_name) id_vect column_index in
        if is_empty suffix then ([], w) else db_build_where invalid common_prefix suffix db_name w

    unfoldable pub db_build_item : (ℕ → Text) → V → Text → ℕ → Text → W → T × W
    unfolding select db_table item_suffix db_build
    db_build_item number invalid common_prefix id db_name w =
        let (q, w1) =
          select driver format escape_identifier (db_table common_prefix db_name)
            (item_suffix number id) [] [] w in
        (
          elim (get_elem? (rows q) 0) [
            | none ↦ meta.default_item
            | some row ↦ db_build invalid row
          ],
          w1,
        )
