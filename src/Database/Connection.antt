-- ===== src/Database/Connection.antt =====
-- `Base` in Database/db_base.cpp: its connection and what it executes. The SQL driver is a
-- parameter; the registry of connections and their names are not modelled.
mod Attempts
mod Examples
use helpz.Prelude.{
  ℕ, zero, suc, ◌≡◌, Bool, true, false, not, ◌&&◌, ◌||◌, List, [], ◌∷◌, ◌++◌, Option, none, some,
  ◌==◌, if◌then◌else◌, length,
}
use helpz.Database.Text.{Text, Format, codes, is_empty, join}
use helpz.Database.Table.{Table, is_invalid}
use helpz.Database.Query.{
  select_query, insert_query, update_query, del_query, truncate_query, row_count_query,
}

-- `QSqlDatabase` and `QSqlQuery` on a state: a query gives its result if it succeeds.
pub record SqlDriver {ℓ} (W V R : Type ℓ) : Type ℓ where
  pub is_open : W → Bool
  pub open_database : W → Bool × W
  pub close : W → W
  pub run : Text → List V → W → Option R × W

abbrev pub is_some {ℓ} : {A : Type ℓ} → Option A → Bool
is_some none = false
is_some (some a) = true

-- `isActive()` of what `exec` gives.
abbrev pub active {ℓ} : {W R : Type ℓ} → Option R × W → Bool × W
active (r, w) = (is_some r, w)

-- The columns of `create_table`.
unfoldable pub columns_info : List Text → List Text → List Text
columns_info [] types = []
columns_info (name ∷ names) [] = []
columns_info (name ∷ names) (type ∷ types) =
    (name ++ (codes " " ++ type)) ∷ columns_info names types

module _ {ℓ} {W V R : Type ℓ} (driver : SqlDriver W V R) where
  open driver use {is_open, open_database, close, run}

  unfoldable pub create_connection : W → Bool × W
  create_connection w = open_database (if is_open w then close w else w)

  -- What follows the execution of a query: the connection is closed behind a failure.
  abbrev pub after_run : Option R × W → (W → Option R × W) → Option R × W
  after_run (some r, w) again = (some r, w)
  after_run (none, w) again = again (close w)

  -- What follows `is_open() || create_connection()`.
  abbrev pub after_connect : Text → List V → Bool × W → (W → Option R × W) → Option R × W
  after_connect sql values (false, w) again = again w
  after_connect sql values (true, w) again = after_run (run sql values w) again

  unfoldable pub connect : W → Bool × W
  unfolding create_connection
  connect w = if is_open w then (true, w) else create_connection w

  -- The loop of `exec` with so many attempts left.
  unfoldable pub exec_attempts : ℕ → Text → List V → W → Option R × W
  unfolding connect
  exec_attempts zero sql values w = (none, w)
  exec_attempts (suc n) sql values w =
      after_connect sql values (connect w) (exec_attempts n sql values)

  unfoldable pub exec : Text → List V → W → Option R × W
  unfolding exec_attempts
  exec sql values w = if is_empty sql then (none, w) else exec_attempts 3 sql values w

  module _ (format : Format) (escape_identifier : Text → Text) where
    open format use {arg}

    unfoldable pub create_table : Table → List Text → W → Bool × W
    unfolding exec is_invalid columns_info
    create_table table types w =
        if is_invalid table || not (length table.field_names == length types)
        then (false, w)
        else active (
            exec
              (arg (arg (codes "create table if not exists %1 (%2)") table.name)
                (join (columns_info table.field_names types)))
              [] w)

    unfoldable pub select : Table → Text → List V → List ℕ → W → Option R × W
    unfolding exec select_query
    select table suffix values field_ids w =
        let sql = select_query format escape_identifier table suffix field_ids in
        if is_empty sql then (none, w) else exec sql values w

    unfoldable pub insert : Table → List V → Text → List ℕ → Text → W → Bool × W
    unfolding exec insert_query
    insert table values suffix field_ids method w =
        let sql =
          insert_query format escape_identifier table (length values) suffix field_ids method in
        if is_empty sql then (false, w) else active (exec sql values w)

    unfoldable pub replace : Table → List V → List ℕ → W → Bool × W
    unfolding insert
    replace table values field_ids w = insert table values [] field_ids (codes "REPLACE") w

    unfoldable pub update : Table → List V → Text → List ℕ → W → Option R × W
    unfolding exec update_query
    update table values where_ field_ids w =
        exec (update_query format escape_identifier table (length values) where_ field_ids) values w

    unfoldable pub delete : Text → Text → List V → W → Option R × W
    unfolding exec del_query
    delete table_name where_ values w =
        let sql = del_query table_name where_ in
        if is_empty sql then (none, w) else exec sql values w

    unfoldable pub truncate : Text → W → Option R × W
    unfolding exec truncate_query
    truncate table_name w = exec (truncate_query table_name) [] w

    -- `first_value` is `toUInt()` of the first row's first column, if there is a row.
    unfoldable pub row_count : (R → Option ℕ) → Text → Text → List V → W → ℕ × W
    unfolding exec row_count_query
    row_count first_value table_name where_ values w =
        let (r, w1) = exec (row_count_query table_name where_) values w in
        if is_empty table_name
        then (0, w)
        else (elim r [ none ↦ 0 | some q ↦ elim (first_value q) [ none ↦ 0 | some n ↦ n ] ], w1)
