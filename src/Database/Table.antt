-- ===== src/Database/Table.antt =====
-- `Table` in DBMeta/db_table.h and DBMeta/db_table.cpp.
use helpz.Prelude.{Bool, ◌||◌, List}
use helpz.Database.Text.{Text, is_empty}

pub record Table : Type 0 where
  pub name : Text
  pub short_name : Text
  pub field_names : List Text

-- `operator !`: a table with no name or no fields.
unfoldable pub is_invalid : Table → Bool
is_invalid t = is_empty t.name || is_empty t.field_names
