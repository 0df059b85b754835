-- ===== src/Database/Meta/Lists.antt =====
-- Lists of objects in Database/db_builder.h.
use helpz.Prelude.{
  ◌≡◌, refl, ap, ap₂, sym, ◌∙◌, List, [], ◌∷◌, ◌++◌, map, append-nil, append_assoc, All,
}
use helpz.Database.Meta.{Meta, Row, to_variantlist, db_build, build_rows, db_build_list}
use helpz.Database.Meta.Fill.{Separate, IsStorable, db_fill_item-to_variantlist}

module _ {T V : Type 0} (meta : Meta T V) (invalid : V) where
  build_rows_lem :
      (rows : List (Row V)) (built : List T)
      → build_rows meta invalid rows built ≡ built ++ map (db_build meta invalid) rows
  unfolding build_rows
  build_rows_lem [] built = sym (append-nil built)
  build_rows_lem (row ∷ rows) built =
      build_rows_lem rows (built ++ (db_build meta invalid row ∷ []))
      ∙ append_assoc built (db_build meta invalid row ∷ []) (map (db_build meta invalid) rows)

  -- Of each row an object, in the order of the rows.
  db_build_list-eq-map :
      (rows : List (Row V)) → db_build_list meta invalid rows ≡ map (db_build meta invalid) rows
  unfolding db_build_list
  db_build_list-eq-map rows = build_rows_lem rows []

  map_built :
      (objs : List T)
      → Separate meta invalid
      → All (IsStorable meta invalid) objs
      → map
          (to_variantlist meta invalid)
          (map (db_build meta invalid) (map (to_variantlist meta invalid) objs))
        ≡ map (to_variantlist meta invalid) objs
  unfolding db_build
  map_built [] separate storable = refl
  map_built (obj ∷ objs) separate (here, behind) =
      ap₂ ◌∷◌ (db_fill_item-to_variantlist meta invalid obj meta.default_item separate here)
        (map_built objs separate behind)

  -- The rows that `to_variantlist` makes of objects, read back with `db_build_list`, give objects
  -- with the same values, as many and in the same order. The setter of a column changes no other
  -- column, and each column of the objects gives its value back to whatever object it is stored in.
  pub db_build_list-to_variantlist :
      (objs : List T)
      → Separate meta invalid
      → All (IsStorable meta invalid) objs
      → map
          (to_variantlist meta invalid)
          (db_build_list meta invalid (map (to_variantlist meta invalid) objs))
        ≡ map (to_variantlist meta invalid) objs
  db_build_list-to_variantlist objs separate storable =
      ap (map (to_variantlist meta invalid))
        (db_build_list-eq-map (map (to_variantlist meta invalid) objs))
      ∙ map_built objs separate storable
