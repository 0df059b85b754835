-- ===== src/Database/Builder/Examples.antt =====
-- Conditions over ids, with numbers below 10. See Database/db_builder.h.
use helpz.Prelude.{ℕ, ◌+◌, ◌≡◌, refl, [], ◌∷◌}
use helpz.Database.Text.{Text, codes}
use helpz.Database.Table.{Table}
use helpz.Database.Builder.{get_db_field_in_sql, db_get_items_list_suffix}

abbrev digit : ℕ → Text
digit n = (b'0' + n) ∷ []

one : get_db_field_in_sql digit (codes "id") (1 ∷ []) [] ≡ codes "id=1"
unfolding get_db_field_in_sql
one = refl

no_ids : get_db_field_in_sql digit (codes "id") [] [] ≡ codes "id IN )"
unfolding get_db_field_in_sql
no_ids = refl

abbrev devices : Table
devices = record {
  name = codes "devices";
  short_name = codes "d";
  field_names = codes "id" ∷ codes "name" ∷ [];
}

suffix : db_get_items_list_suffix digit devices (4 ∷ 5 ∷ []) 0 ≡ codes "WHERE d.id IN (4,5)"
unfolding db_get_items_list_suffix
suffix = refl
