-- ===== src/Database/Query/Placeholders.antt =====
-- The texts of `insert_query`, `update_query` and `select_query` in Database/db_base.cpp.
use helpz.Prelude.{
  ℕ, suc, ◌+◌, ◌-◌, ◌≡◌, refl, sym, ap, ◌∙◌, true, false, not, ◌&&◌, List, [], ◌∷◌, ◌++◌,
  append_assoc, arith, if◌then◌else◌, length, All,
}
use helpz.Database.Text.{
  Text, Format, codes, is_empty, count, join, has_char, count-append, has_char-append,
}
use helpz.Database.Table.{Table, is_invalid}
use helpz.Database.Query.{
  question_marks, put_commas, set_params, escape_from, escape_fields, insert_text, insert_query,
  update_text, update_query, select_query,
}
use helpz.Database.Query.Fill.{
  IsPlain, count-no_char, IsPlain-append, join-IsPlain, count-put_commas, fill_two, fill_three,
}

-- A text and, if there is one, what follows it.
abbrev pub with_suffix : Text → Text → Text → Text
with_suffix t separator s = if is_empty s then t else t ++ (separator ++ s)

count-with_suffix :
    (t separator s : Text)
    → count b'?' separator ≡ 0
    → count b'?' (with_suffix t separator s) ≡ count b'?' t + count b'?' s
unfolding count
count-with_suffix t separator [] h = omega arith
count-with_suffix t separator (c ∷ cs) h =
    omega
      (arith, h, count-append b'?' t (separator ++ (c ∷ cs)), count-append b'?' separator (c ∷ cs))

count-set_params : (fs : List Text) → All IsPlain fs → count b'?' (join (set_params fs)) ≡ length fs
unfolding count join set_params
count-set_params [] h = refl
count-set_params (f ∷ []) (h, hs) =
    omega (arith, count-append b'?' f (codes "=?"), count-no_char b'?' f h.1)
count-set_params (f ∷ (g ∷ rest)) (h, hs) = omega (
  arith,
  count-append b'?' (f ++ codes "=?") (b',' ∷ join (set_params (g ∷ rest))),
  count-append b'?' f (codes "=?"),
  count-no_char b'?' f h.1,
  count-set_params (g ∷ rest) hs,
)

module _ (format : Format) (escape_identifier : Text → Text)
    (escape_plain : (x : Text) → IsPlain x → IsPlain (escape_identifier x)) where
  escape_from-IsPlain :
      (prefix : Text) (field_ids : List ℕ) (i : ℕ) (names : List Text)
      → IsPlain prefix
      → All IsPlain names
      → All IsPlain (escape_from format escape_identifier prefix field_ids i names)
  unfolding escape_from
  escape_from-IsPlain prefix field_ids i [] hp h = tt
  escape_from-IsPlain prefix field_ids i (name ∷ names) hp (h, hs) =
      let rest = escape_from-IsPlain prefix field_ids (suc i) names hp hs in
      ground (arith, rest, escape_plain (prefix ++ name) (IsPlain-append prefix name hp h))

  -- The text of the INSERT before the suffix.
  insert_filled :
      (name q_str method : Text) (fields : List Text)
      → IsPlain name
      → All IsPlain fields
      → IsPlain method
      → format.arg
          (format.arg (format.arg (method ++ codes " INTO %1(%2) VALUES(%3)") name) (join fields))
          q_str
        ≡ (method ++ codes " INTO ")
          ++ (name ++ (codes "(" ++ (join fields ++ (codes ") VALUES(" ++ (q_str ++ codes ")")))))
  unfolding has_char
  insert_filled name q_str method fields (hn, _) hf (hm, _) =
      ap (λ t. format.arg (format.arg (format.arg t name) (join fields)) q_str)
        (sym (append_assoc method (codes " INTO ") (codes "%1(%2) VALUES(%3)")))
      ∙ fill_three format (method ++ codes " INTO ") (codes "(") (codes ") VALUES(") (codes ")")
          name (join fields) q_str (has_char-append b'%' method (codes " INTO ") hm refl) refl refl
          hn (join-IsPlain fields hf).0 refl refl refl refl refl refl

  insert_text_lem :
      (table : Table) (fields : List Text) (suffix method : Text)
      → IsPlain table.name
      → All IsPlain fields
      → IsPlain method
      → count b'?' (insert_text format escape_identifier table fields suffix method)
        ≡ length fields + count b'?' suffix
  unfolding insert_text count
  insert_text_lem table fields suffix method hn hf hm =
      rw (insert_filled table.name q_str method fields hn hf hm) (
        omega (
          arith,
          count-append b'?' (with_suffix filled (codes " ") suffix) (codes ";"),
          count-with_suffix filled (codes " ") suffix refl,
          count_filled,
        ))
    where
      q_str : Text
      q_str = put_commas (question_marks (length fields + (length fields - 1)))

      filled : Text
      filled =
          (method ++ codes " INTO ")
          ++ (table.name
              ++ (codes "(" ++ (join fields ++ (codes ") VALUES(" ++ (q_str ++ codes ")")))))

      count_filled : count b'?' filled ≡ length fields
      count_filled = omega (
        arith,
        count-append b'?' (method ++ codes " INTO ") (
            table.name
            ++ (codes "(" ++ (join fields ++ (codes ") VALUES(" ++ (q_str ++ codes ")"))))),
        count-append b'?' method (codes " INTO "),
        count-append b'?' table.name
            (codes "(" ++ (join fields ++ (codes ") VALUES(" ++ (q_str ++ codes ")")))),
        count-append b'?' (join fields) (codes ") VALUES(" ++ (q_str ++ codes ")")),
        count-append b'?' q_str (codes ")"),
        count-put_commas (length fields),
        count-no_char b'?' method hm.1,
        count-no_char b'?' table.name hn.1,
        count-no_char b'?' (join fields) (join-IsPlain fields hf).1,
      )

  update_filled :
      (name a : Text)
      → IsPlain name
      → format.arg (format.arg (codes "UPDATE %1 SET %2") name) a
        ≡ codes "UPDATE " ++ (name ++ (codes " SET " ++ (a ++ [])))
  unfolding has_char
  update_filled name a (hn, _) =
      fill_two format (codes "UPDATE ") (codes " SET ") [] name a refl refl hn refl refl refl refl

  update_text_lem :
      (table : Table) (fields : List Text) (where_ : Text)
      → IsPlain table.name
      → All IsPlain fields
      → count b'?' (update_text format escape_identifier table fields where_)
        ≡ length fields + count b'?' where_
  unfolding update_text count
  update_text_lem table fields where_ hn hf =
      rw (update_filled table.name (join (set_params fields)) hn) (
        omega (
          arith,
          count-with_suffix
              (codes "UPDATE "
                ++ (table.name ++ (codes " SET " ++ (join (set_params fields) ++ []))))
              (codes " WHERE ") where_ refl,
          count-append b'?' table.name (codes " SET " ++ (join (set_params fields) ++ [])),
          count-append b'?' (join (set_params fields)) [],
          count-no_char b'?' table.name hn.1,
          count-set_params fields hf,
        ))

  -- An INSERT that is not refused has as many place holders as there are values. The table's and
  -- the fields' names and the method hold no '?' and no '%', which the driver's escaping keeps; the
  -- suffix is any text.
  pub insert_placeholders :
      (table : Table) (values_size : ℕ) (suffix : Text) (field_ids : List ℕ) (method : Text)
      → is_invalid table ≡ false
      → is_empty (escape_fields format escape_identifier table field_ids false) ≡ false
      → count b'?' suffix + length (escape_fields format escape_identifier table field_ids false)
        ≡ values_size
      → IsPlain table.name
      → All IsPlain table.field_names
      → IsPlain method
      → count b'?' (insert_query format escape_identifier table values_size suffix field_ids method)
        ≡ values_size
  unfolding insert_query escape_fields has_char
  insert_placeholders table values_size suffix field_ids method hv he hs hn hf hm =
      let text =
        insert_text_lem table
          (escape_from format escape_identifier [] field_ids 0 table.field_names) suffix method hn
          (escape_from-IsPlain [] field_ids 0 table.field_names (refl, refl) hf) hm in
      ground (arith, hv, he, hs, text)

  -- The same for an UPDATE, its condition being any text.
  pub update_placeholders :
      (table : Table) (values_size : ℕ) (where_ : Text) (field_ids : List ℕ)
      → is_invalid table ≡ false
      → is_empty (escape_fields format escape_identifier table field_ids false) ≡ false
      → count b'?' where_ + length (escape_fields format escape_identifier table field_ids false)
        ≡ values_size
      → IsPlain table.name
      → All IsPlain table.field_names
      → count b'?' (update_query format escape_identifier table values_size where_ field_ids)
        ≡ values_size
  unfolding update_query escape_fields has_char
  update_placeholders table values_size where_ field_ids hv he hs hn hf =
      let text =
        update_text_lem table
          (escape_from format escape_identifier [] field_ids 0 table.field_names) where_ hn
          (escape_from-IsPlain [] field_ids 0 table.field_names (refl, refl) hf) in
      ground (arith, hv, he, hs, text)

  -- A SELECT names the fields, the table and its short name, and then the suffix as it is, place
  -- markers in it included. The names hold no '?' and no '%', which the driver's escaping keeps.
  pub select_query_lem :
      (table : Table) (suffix : Text) (field_ids : List ℕ)
      → is_invalid table ≡ false
      → IsPlain table.name
      → IsPlain table.short_name
      → All IsPlain table.field_names
      → select_query format escape_identifier table suffix field_ids
        ≡ codes "SELECT "
          ++ (join (escape_fields format escape_identifier table field_ids true)
              ++ (codes " FROM "
                  ++ (with_suffix table.name (codes " ") table.short_name
                      ++ (codes " " ++ (suffix ++ codes ";")))))
  unfolding select_query escape_fields has_char
  select_query_lem table suffix field_ids hv hn hs hf = rw hv (
      fill_three format (codes "SELECT ") (codes " FROM ") (codes " ") (codes ";") (join fields)
        (with_suffix table.name (codes " ") table.short_name) suffix refl refl refl
        (join-IsPlain fields plain).0 plain_name refl refl refl refl refl refl)
    where
      prefix : Text
      prefix = if true && not (is_empty table.short_name) then table.short_name ++ codes "." else []

      fields : List Text
      fields = escape_from format escape_identifier prefix field_ids 0 table.field_names

      plain_prefix : IsPlain prefix
      plain_prefix = ground (arith, IsPlain-append table.short_name (codes ".") hs (refl, refl))

      plain : All IsPlain fields
      plain = escape_from-IsPlain prefix field_ids 0 table.field_names plain_prefix hf

      plain_name : has_char b'%' (with_suffix table.name (codes " ") table.short_name) ≡ false
      plain_name =
          ground
            (arith, hn, has_char-append b'%' table.name (codes " " ++ table.short_name) hn.0 hs.0)
