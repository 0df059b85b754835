-- ===== src/Database/DeleteRow/Examples.antt =====
-- A house with its devices and their values. See Database/db_delete_row.cpp.
use helpz.Prelude.{ℕ, zero, suc, ◌≡◌, refl, ◌⊎◌, Bool, true, false, [], ◌∷◌}
use helpz.Database.Text.{Text, codes}
use helpz.Database.Table.{Table}
use helpz.Database.Query.Examples.{format, quote}
use helpz.Database.DeleteRow.{RowInfo, row_info, RowInfos, no_rows, row, del}
use helpz.Database.DeleteRow.Plan.{Succeeds, FailsAt, plan, del_outcome}

abbrev table : Text → Text → Table
table name field = record { name = name; short_name = []; field_names = codes "id" ∷ field ∷ [] }

-- The values refer to the devices, and the devices and the users to the house.
abbrev house : RowInfo
house = row_info false 1 0 (table (codes "house") (codes "name")) (
    row
      (row_info false 1 0 (table (codes "device") (codes "house_id"))
        (row (row_info false 1 0 (table (codes "value") (codes "device_id")) no_rows) no_rows))
      (row (row_info true 1 0 (table (codes "user") (codes "house_id")) no_rows) no_rows))

-- The database counts its statements and refuses the third.
abbrev refuse_third : Text → ℕ → Bool × ℕ
refuse_third sql (suc (suc zero)) = (false, 2)
refuse_third sql n = (true, suc n)

abbrev same_where : RowInfo → Text → Text
same_where info where_ = where_

plan_of_house :
    plan format quote (codes "7") same_where house
    ≡ codes "DELETE FROM value WHERE device_id IN(SELECT id FROM device WHERE house_id = 7)"
      ∷ codes "DELETE FROM device WHERE house_id=7"
      ∷ codes "UPDATE user SET `house_id`=? WHERE house_id=7"
      ∷ codes "DELETE FROM house WHERE id=7"
      ∷ []
unfolding plan helpz.Database.DeleteRow.Plan.child_plan helpz.Database.DeleteRow.Plan.nested_plan
    helpz.Database.DeleteRow.grandchild_query helpz.Database.DeleteRow.child_query
    helpz.Database.DeleteRow.row_query helpz.Database.Query.del_query
    helpz.Database.Query.update_query helpz.Database.Query.escape_fields helpz.Database.Text.count
    helpz.Database.Text.join helpz.Database.Query.set_params
plan_of_house = refl

del_outcome_example :
    ((w1 : ℕ) × (Succeeds refuse_third (plan format quote (codes "7") same_where house) 0 w1
        × (del format quote (codes "7") same_where refuse_third house 0 ≡ (true, w1))))
    ⊎ FailsAt refuse_third
        (plan format quote (codes "7") same_where house)
        0
        (del format quote (codes "7") same_where refuse_third house 0)
del_outcome_example = del_outcome format quote (codes "7") same_where refuse_third house 0
