-- ===== src/Database/Meta/Fill.antt =====
-- What `db_fill_item` of Database/db_builder.h stores in an object, and what `to_variantlist` of
-- DBMeta/db_meta.h gives.
use helpz.Prelude.{
  ℕ, zero, suc, ◌+◌, ◌<◌, min, ◌≡◌, refl, ap, sym, subst, ltb→lt, ◌∙◌, false, ◌&&◌, none, some,
  arith, ltb, leb, ◌==◌, if◌then◌else◌, if_pos, if_neg, length, get_elem?, list_ext, Bool-cases,
  inl, inr,
}
use helpz.Database.Meta.{
  Meta, Row, column_count, value_getter, value_setter, variants_from, to_variantlist, fill_from,
  db_fill_item,
}

-- The value of a row at a position.
abbrev pub cell : {V : Type 0} → V → Row V → ℕ → V
cell invalid row pos = elim (get_elem? row pos) [ none ↦ invalid | some value ↦ value ]

module _ {T V : Type 0} (meta : Meta T V) (invalid : V) where
  -- The setter of a column changes no other column.
  abbrev pub Separate : Type 0
  Separate =
      (i j : ℕ) (value : V) (obj : T)
      → (i == j) ≡ false
      → value_getter meta invalid (value_setter meta obj i value) j
        ≡ value_getter meta invalid obj j

  -- A column gives a value back that it is given.
  abbrev pub Keeps : ℕ → V → Type 0
  Keeps pos value =
      (obj : T) → value_getter meta invalid (value_setter meta obj pos value) pos ≡ value

  fill_from_lem :
      (rounds i : ℕ) (row : Row V) (item : T) (pos : ℕ)
      → Separate
      → ((j : ℕ) → j < i + rounds → Keeps j (cell invalid row j))
      → value_getter meta invalid (fill_from meta invalid rounds i row item) pos ≡ (
          if leb i pos && ltb pos (i + rounds)
          then cell invalid row pos
          else value_getter meta invalid item pos)
  unfolding fill_from
  fill_from_lem zero i row item pos separate keeps = ground arith
  fill_from_lem (suc rounds) i row item pos separate keeps =
      let next = value_setter meta item i (cell invalid row i) in
      let rest =
        fill_from_lem rounds (suc i) row next pos separate (λ j h. keeps j (omega (arith, h))) in
      elim (Bool-cases (i == pos)) [
        | inl here ↦
            let same : i ≡ pos = ground (arith, here) in
            rest
            ∙ (if_neg (leb (suc i) pos && ltb pos (suc i + rounds)) _ _ (ground (arith, same))
                ∙ (ap (λ k. value_getter meta invalid next k) (sym same)
                    ∙ (keeps i (omega arith) item
                        ∙ (ap (cell invalid row) same
                            ∙ sym (
                                if_pos (leb i pos && ltb pos (i + suc rounds)) _ _
                                  (ground (arith, same)))))))
        | inr there ↦
            rest
            ∙ (ap
                  (λ v.
                    if leb (suc i) pos && ltb pos (suc i + rounds) then cell invalid row pos else v)
                  (separate i pos (cell invalid row i) item there)
                ∙ ap (λ b. if b then cell invalid row pos else value_getter meta invalid item pos)
                    (let e : (leb (suc i) pos && ltb pos (suc i + rounds))
                          ≡ (leb i pos && ltb pos (i + suc rounds)) =
                        ground (arith, there) in
                      e))
      ]

  -- After `db_fill_item` the columns for which the row has a value have that value, and the other columns
  -- have theirs, as before; so it is with a row that is shorter or longer than the columns. The setter of a
  -- column changes no other column, and a column gives the values of the row back.
  pub db_fill_item_lem :
      (row : Row V) (item : T) (pos : ℕ)
      → Separate
      → ((j : ℕ) → j < min (column_count meta) (length row) → Keeps j (cell invalid row j))
      → value_getter meta invalid (db_fill_item meta invalid row item) pos ≡ (
          if ltb pos (min (column_count meta) (length row))
          then cell invalid row pos
          else value_getter meta invalid item pos)
  unfolding db_fill_item
  db_fill_item_lem row item pos separate keeps =
      fill_from_lem (min (column_count meta) (length row)) 0 row item pos separate
        (λ j h. keeps j (omega (arith, h)))
      ∙ ap (λ b. if b then cell invalid row pos else value_getter meta invalid item pos)
          (let e : (leb 0 pos && ltb pos (0 + min (column_count meta) (length row)))
                ≡ ltb pos (min (column_count meta) (length row)) =
              ground arith in
            e)

  get_elem?-variants_from :
      (rounds i : ℕ) (obj : T) (pos : ℕ)
      → get_elem? (variants_from meta invalid rounds i obj) pos
        ≡ (if ltb pos rounds then some (value_getter meta invalid obj (i + pos)) else none)
  unfolding variants_from
  get_elem?-variants_from zero i obj pos = ground arith
  get_elem?-variants_from (suc rounds) i obj zero =
      ap (λ k. some (value_getter meta invalid obj k)) (let e : i ≡ i + 0 = omega arith in e)
      ∙ sym (if_pos (ltb 0 (suc rounds)) _ _ (ground arith))
  get_elem?-variants_from (suc rounds) i obj (suc pos) =
      get_elem?-variants_from rounds (suc i) obj pos
      ∙ (ap (λ k. if ltb pos rounds then some (value_getter meta invalid obj k) else none)
            (let e : suc i + pos ≡ i + suc pos = omega arith in e)
          ∙ ap (λ b. if b then some (value_getter meta invalid obj (i + suc pos)) else none)
              (let e : ltb pos rounds ≡ ltb (suc pos) (suc rounds) = ground arith in e))

  length-variants_from :
      (rounds i : ℕ) (obj : T) → length (variants_from meta invalid rounds i obj) ≡ rounds
  unfolding variants_from
  length-variants_from zero i obj = refl
  length-variants_from (suc rounds) i obj = omega (arith, length-variants_from rounds (suc i) obj)

  length-to_variantlist : (obj : T) → length (to_variantlist meta invalid obj) ≡ column_count meta
  unfolding to_variantlist
  length-to_variantlist obj = length-variants_from (column_count meta) 0 obj

  get_elem?-to_variantlist :
      (obj : T) (pos : ℕ)
      → get_elem? (to_variantlist meta invalid obj) pos
        ≡ (if ltb pos (column_count meta) then some (value_getter meta invalid obj pos) else none)
  unfolding to_variantlist
  get_elem?-to_variantlist obj pos =
      get_elem?-variants_from (column_count meta) 0 obj pos
      ∙ ap
          (λ k.
            if ltb pos (column_count meta) then some (value_getter meta invalid obj k) else none)
          (let e : 0 + pos ≡ pos = omega arith in e)

  cell-to_variantlist :
      (obj : T) (pos : ℕ)
      → pos < column_count meta
      → cell invalid (to_variantlist meta invalid obj) pos ≡ value_getter meta invalid obj pos
  cell-to_variantlist obj pos h =
      ap (λ o. elim o as (λ x. V) [ none ↦ invalid | some value ↦ value ])
        (get_elem?-to_variantlist obj pos ∙ if_pos (ltb pos (column_count meta)) _ _ (ground arith))

  -- Each column of an object gives its value back to whatever object it is stored in.
  abbrev pub IsStorable : T → Type 0
  IsStorable obj = (j : ℕ) → j < column_count meta → Keeps j (value_getter meta invalid obj j)

  -- An object that is filled with the values of another has these values.
  pub db_fill_item-to_variantlist :
      (obj item : T)
      → Separate
      → IsStorable obj
      → to_variantlist meta invalid
          (db_fill_item meta invalid (to_variantlist meta invalid obj) item)
        ≡ to_variantlist meta invalid obj
  db_fill_item-to_variantlist obj item separate storable =
      let row = to_variantlist meta invalid obj in
      let filled = db_fill_item meta invalid row item in
      let long : min (column_count meta) (length row) ≡ column_count meta =
        omega (arith, length-to_variantlist obj) in
      let keeps : (j : ℕ)
          → j < min (column_count meta) (length row)
          → Keeps j (cell invalid row j) =
        λ j h.
          subst (Keeps j) (sym (cell-to_variantlist obj j (omega (arith, h, long))))
            (storable j (omega (arith, h, long))) in
      list_ext _ _ λ pos.
        get_elem?-to_variantlist filled pos
        ∙ (elim (Bool-cases (ltb pos (column_count meta))) [
          | inl within ↦
              ap (λ v. if ltb pos (column_count meta) then some v else none)
                (db_fill_item_lem row item pos separate keeps
                  ∙ (if_pos (ltb pos (min (column_count meta) (length row))) _ _ (rw (long) within)
                      ∙ cell-to_variantlist obj pos (ltb→lt pos (column_count meta) within)))
          | inr beyond ↦
              if_neg (ltb pos (column_count meta)) _ _ beyond
              ∙ sym (if_neg (ltb pos (column_count meta)) _ _ beyond)
        ]
            ∙ sym (get_elem?-to_variantlist obj pos))
