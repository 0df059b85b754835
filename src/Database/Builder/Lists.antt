-- ===== src/Database/Builder/Lists.antt =====
-- The texts of the conditions. See Database/db_builder.h.
use helpz.Prelude.{
  ℕ, suc, ◌+◌, ◌≡◌, refl, sym, ap, ◌∙◌, Bool, false, some, List, [], ◌∷◌, ◌++◌, map, append_assoc,
  arith, ◌==◌, if◌then◌else◌, length, get_elem?, take, length-append, take-append_length,
}
use helpz.Database.Text.{Text, codes, is_empty, join}
use helpz.Database.Table.{Table}
use helpz.Database.Builder.{
  remove_last, replace_last, as_uint32, with_commas, get_db_field_in_sql, db_get_items_list_suffix,
}

remove_last-append : (text : Text) (c : ℕ) → remove_last (text ++ (c ∷ [])) ≡ text
unfolding remove_last
remove_last-append text c =
    ap (λ n. take n (text ++ (c ∷ []))) (omega (arith, length-append text (c ∷ [])))
    ∙ take-append_length text (c ∷ [])

replace_last-append : (text : Text) (c d : ℕ) → replace_last d (text ++ (c ∷ [])) ≡ text ++ (d ∷ [])
unfolding replace_last
replace_last-append text c d = ap (λ t. t ++ (d ∷ [])) (remove_last-append text c)

-- The last character of a text in parts.
shift : (f m b : Text) (c : ℕ) → f ++ (m ++ (b ++ (c ∷ []))) ≡ (f ++ (m ++ b)) ++ (c ∷ [])
shift f m b c =
    ap (λ t. f ++ t) (sym (append_assoc m b (c ∷ []))) ∙ sym (append_assoc f (m ++ b) (c ∷ []))

length-as_uint32 : (ids : List ℕ) → length (as_uint32 ids) ≡ length ids
length-as_uint32 [] = refl
length-as_uint32 (id ∷ ids) = ap suc (length-as_uint32 ids)

module _ (number : ℕ → Text) where
  -- The ids joined by commas, and a comma.
  with_commas-join :
      (id : ℕ) (ids : List ℕ)
      → with_commas number (id ∷ ids) ≡ join (map number (id ∷ ids)) ++ (b',' ∷ [])
  unfolding with_commas join
  with_commas-join id [] = refl
  with_commas-join id (next ∷ ids) =
      ap (λ t. number id ++ (b',' ∷ t)) (with_commas-join next ids)
      ∙ sym (append_assoc (number id) (b',' ∷ join (map number (next ∷ ids))) (b',' ∷ []))

  with_commas-append :
      (ids more : List ℕ)
      → with_commas number ids ++ with_commas number more ≡ with_commas number (ids ++ more)
  unfolding with_commas
  with_commas-append [] more = refl
  with_commas-append (id ∷ ids) more =
      append_assoc (number id) (b',' ∷ with_commas number ids) (with_commas number more)
      ∙ ap (λ t. number id ++ (b',' ∷ t)) (with_commas-append ids more)

  -- The condition that a field is one of the ids: nothing stands in the parentheses without ids.
  abbrev pub in_condition : Text → List ℕ → Text
  in_condition field_name [] = field_name ++ codes " IN )"
  in_condition field_name (id ∷ []) = field_name ++ (codes "=" ++ number id)
  in_condition field_name (id ∷ (next ∷ ids)) =
      field_name ++ (codes " IN (" ++ (join (map number (id ∷ next ∷ ids)) ++ codes ")"))

  -- The text of the code, where the two lists are one.
  abbrev field_text : Bool → Text → List ℕ → Text
  field_text is_one field_name all =
      let sql =
        field_name ++ ((if is_one then codes "=" else codes " IN (") ++ with_commas number all) in
      if is_one then remove_last sql else replace_last b')' sql

  field_text_lem :
      (field_name : Text) (all : List ℕ)
      → field_text (length all == 1) field_name all ≡ in_condition field_name all
  unfolding with_commas
  field_text_lem field_name [] =
      ap (replace_last b')') (shift field_name (codes " IN ") [] b'(')
      ∙ (replace_last-append (field_name ++ codes " IN ") b'(' b')'
          ∙ append_assoc field_name (codes " IN ") (b')' ∷ []))
  field_text_lem field_name (id ∷ []) =
      ap remove_last (shift field_name (codes "=") (number id) b',')
      ∙ remove_last-append (field_name ++ (codes "=" ++ number id)) b','
  field_text_lem field_name (id ∷ (next ∷ ids)) =
      let list = join (map number (id ∷ next ∷ ids)) in
      let many : (length (id ∷ next ∷ ids) == 1) ≡ false = ground arith in
      rw (many, with_commas-join id (next ∷ ids))
        (ap (replace_last b')') (shift field_name (codes " IN (") list b',')
          ∙ (replace_last-append (field_name ++ (codes " IN (" ++ list)) b',' b')'
              ∙ sym (shift field_name (codes " IN (") list b')')))

  -- The lists of ids are joined by commas after the field, the container before the further arguments,
  -- with each id of the container modulo 2 ^ 32: in parentheses after " IN " if there are two or more,
  -- after "=" if there is one. With no id at all the text ends in " IN )", which is no SQL.
  pub get_db_field_in_sql_lem :
      (field_name : Text) (id_list ids : List ℕ)
      → get_db_field_in_sql number field_name id_list ids
        ≡ in_condition field_name (as_uint32 id_list ++ ids)
  unfolding get_db_field_in_sql
  get_db_field_in_sql_lem field_name id_list ids =
      let all = as_uint32 id_list ++ ids in
      let size : length ids + length id_list ≡ length all =
        omega (arith, length-append (as_uint32 id_list) ids, length-as_uint32 id_list) in
      rw (get_db_field_in_sql, size, with_commas-append (as_uint32 id_list) ids)
        (field_text_lem field_name all)

  -- The suffix of a query for rows by their ids: the prefix is the short name and a dot, or nothing.
  pub db_get_items_list_suffix_lem :
      (table : Table) (id : ℕ) (ids : List ℕ) (column_index : ℕ) (name : Text)
      → get_elem? table.field_names column_index ≡ some name
      → let prefix = if is_empty table.short_name then [] else table.short_name ++ (b'.' ∷ []) in
        db_get_items_list_suffix number table (id ∷ ids) column_index
        ≡ codes "WHERE "
          ++ (prefix ++ (name ++ (codes " IN (" ++ (join (map number (id ∷ ids)) ++ codes ")"))))
  unfolding db_get_items_list_suffix
  db_get_items_list_suffix_lem table id ids column_index name e =
      let list = join (map number (id ∷ ids)) in
      let prefix = if is_empty table.short_name then [] else table.short_name ++ (b'.' ∷ []) in
      let moved : (c : ℕ)
          → codes "WHERE " ++ (prefix ++ (name ++ (codes " IN (" ++ (list ++ (c ∷ [])))))
            ≡ (codes "WHERE " ++ (prefix ++ (name ++ (codes " IN (" ++ list)))) ++ (c ∷ []) =
        λ c.
          ap (λ t. codes "WHERE " ++ (prefix ++ t)) (shift name (codes " IN (") list c)
          ∙ shift (codes "WHERE ") prefix (name ++ (codes " IN (" ++ list)) c in
      rw (db_get_items_list_suffix, e, with_commas-join id ids)
        (ap (replace_last b')') (moved b',')
          ∙ (replace_last-append (codes "WHERE " ++ (prefix ++ (name ++ (codes " IN (" ++ list))))
                b',' b')'
              ∙ sym (moved b')')))
