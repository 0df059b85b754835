-- ===== src/Database/DeleteRow/Plan.antt =====
-- The statements of `Delete_Row_Helper::del` in Database/db_delete_row.cpp and their order.
use helpz.Prelude.{
  ◌≡◌, refl, sym, ap, ◌∙◌, ◌⊎◌, inl, inr, Bool, true, false, List, [], ◌∷◌, ◌++◌, if◌then◌else◌,
}
use helpz.Database.Text.{Text, Format}
use helpz.Database.DeleteRow.{
  RowInfo, row_info, RowInfos, no_rows, row, set_null, childs_of, then_do, child_query,
  grandchild_query, row_query, exec_query, del_impl, del_childs, del,
}

-- The statements one after the other, up to the first that fails.
unfoldable pub run_all {ℓ} : {W : Type ℓ} → (Text → W → Bool × W) → List Text → W → Bool × W
run_all exec [] w = (true, w)
run_all exec (s ∷ ss) w = then_do (exec_query exec s w) (run_all exec ss)

-- Each of the statements succeeds, from the first database to the second one.
unfoldable pub Succeeds {ℓ} : {W : Type ℓ} → (Text → W → Bool × W) → List Text → W → W → Type ℓ
Succeeds exec [] w w1 = w ≡ w1
Succeeds {W} exec (s ∷ ss) w w1 =
    (w2 : W) × ((exec_query exec s w ≡ (true, w2)) × Succeeds exec ss w2 w1)

-- The statements succeed up to one that fails, which gives the result.
pub record FailsAt {ℓ} {W : Type ℓ} (exec : Text → W → Bool × W) (ss : List Text) (w : W)
    (r : Bool × W) : Type ℓ where
  pub before : List Text
  pub failed : Text
  pub behind : List Text
  pub reached : W
  pub left : W
  pub statements : ss ≡ before ++ (failed ∷ behind)
  pub done : Succeeds exec before w reached
  pub fails : exec_query exec failed reached ≡ (false, left)
  pub result : r ≡ (false, left)

module _ {ℓ} {W : Type ℓ} where
  then_do_ext :
      {r s : Bool × W} {f g : W → Bool × W}
      → r ≡ s
      → ((w : W) → f w ≡ g w)
      → then_do r f ≡ then_do s g
  then_do_ext {s = (true, w)} e h = rw e (h w)
  then_do_ext {s = (false, w)} e h = rw e refl

  then_do-true : (r : Bool × W) → then_do r (λ w. (true, w)) ≡ r
  then_do-true (true, w) = refl
  then_do-true (false, w) = refl

  then_do-then_do :
      (r : Bool × W) (f g : W → Bool × W)
      → then_do (then_do r f) g ≡ then_do r (λ w. then_do (f w) g)
  then_do-then_do (true, w) f g = refl
  then_do-then_do (false, w) f g = refl

  run_all-append :
      (exec : Text → W → Bool × W) (ss ts : List Text) (w : W)
      → run_all exec (ss ++ ts) w ≡ then_do (run_all exec ss w) (run_all exec ts)
  unfolding run_all
  run_all-append exec [] ts w = refl
  run_all-append exec (s ∷ ss) ts w =
      then_do_ext {r = exec_query exec s w} refl (run_all-append exec ss ts)
      ∙ sym (then_do-then_do (exec_query exec s w) (run_all exec ss) (run_all exec ts))

  run_all_outcome :
      (exec : Text → W → Bool × W) (ss : List Text) (w : W)
      → ((w1 : W) × (Succeeds exec ss w w1 × (run_all exec ss w ≡ (true, w1))))
        ⊎ FailsAt exec ss w (run_all exec ss w)
  unfolding run_all Succeeds
  run_all_outcome exec [] w = inl (w, (refl, refl))
  run_all_outcome exec (s ∷ ss) w = outcome (run_all_outcome exec ss) (exec_query exec s w) refl
    where
      outcome :
          (rest : (w2 : W)
            → ((w1 : W) × (Succeeds exec ss w2 w1 × (run_all exec ss w2 ≡ (true, w1))))
              ⊎ FailsAt exec ss w2 (run_all exec ss w2))
          (r : Bool × W) (e : exec_query exec s w ≡ r)
          → ((w1 : W) × (Succeeds exec (s ∷ ss) w w1 × (then_do r (run_all exec ss) ≡ (true, w1))))
            ⊎ FailsAt exec (s ∷ ss) w (then_do r (run_all exec ss))
      outcome rest (false, w2) e = inr (record {
        before = [];
        failed = s;
        behind = ss;
        reached = w;
        left = w2;
        statements = refl;
        done = refl;
        fails = e;
        result = refl;
      })
      outcome rest (true, w2) e = elim (rest w2) [
        | inl (w1, (all_done, e1)) ↦ inl (w1, ((w2, (e, all_done)), e1))
        | inr stop ↦ inr (record {
          before = s ∷ stop.before;
          failed = stop.failed;
          behind = stop.behind;
          reached = stop.reached;
          left = stop.left;
          statements = ap (λ t. s ∷ t) stop.statements;
          done = (w2, (e, stop.done));
          fails = stop.fails;
          result = stop.result;
        })
      ]

module _ (format : Format) (escape_identifier : Text → Text) (id : Text)
    (fill_where : RowInfo → Text → Text) where
  -- The statements below `parent`: those of a table stand behind those of the tables that refer to it.
  unfoldable pub nested_plan : RowInfo → RowInfos → List Text
  nested_plan parent no_rows = []
  nested_plan parent (row (row_info null field_i pk_i table childs) rest) =
      let info = row_info null field_i pk_i table childs in
      nested_plan info childs
      ++ (grandchild_query format escape_identifier id fill_where parent info
          ∷ nested_plan parent rest)

  -- The statements on the tables that refer to the row. What refers to a table whose column is set
  -- to NULL stays.
  unfoldable pub child_plan : RowInfos → List Text
  child_plan no_rows = []
  child_plan (row info rest) =
      (if set_null info then [] else nested_plan info (childs_of info))
      ++ (child_query format escape_identifier id fill_where info ∷ child_plan rest)

  -- All the statements: the row itself is deleted at the end.
  unfoldable pub plan : RowInfo → List Text
  plan info =
      child_plan (childs_of info) ++ (row_query format escape_identifier id fill_where info ∷ [])

  module _ {ℓ} {W : Type ℓ} (exec : Text → W → Bool × W) where
    del_impl_lem :
        (parent : RowInfo) (infos : RowInfos) (w : W)
        → del_impl format escape_identifier id fill_where exec parent infos w
          ≡ run_all exec (nested_plan parent infos) w
    unfolding del_impl nested_plan run_all
    del_impl_lem parent no_rows w = refl
    del_impl_lem parent (row (row_info null field_i pk_i table childs) rest) w =
        let info = row_info null field_i pk_i table childs in
        then_do_ext (del_impl_lem info childs w) (λ w1. then_do_ext refl (del_impl_lem parent rest))
        ∙ sym (run_all-append exec (nested_plan info childs) _ w)

    del_childs_lem :
        (infos : RowInfos) (w : W)
        → del_childs format escape_identifier id fill_where exec infos w
          ≡ run_all exec (child_plan infos) w
    unfolding del_childs child_plan run_all
    del_childs_lem no_rows w = refl
    del_childs_lem (row (row_info true field_i pk_i table childs) rest) w =
        then_do_ext refl (del_childs_lem rest)
    del_childs_lem (row (row_info false field_i pk_i table childs) rest) w =
        let info = row_info false field_i pk_i table childs in
        then_do_ext (then_do_ext (del_impl_lem info childs w) (λ w1. refl)) (del_childs_lem rest)
        ∙ (then_do-then_do (run_all exec (nested_plan info childs) w) _ _
            ∙ sym (run_all-append exec (nested_plan info childs) _ w))

    del_lem :
        (info : RowInfo) (w : W)
        → del format escape_identifier id fill_where exec info w ≡ run_all exec (plan info) w
    unfolding del plan run_all
    del_lem info w =
        then_do_ext (del_childs_lem (childs_of info) w) (λ w1. sym (then_do-true _))
        ∙ sym (run_all-append exec (child_plan (childs_of info)) _ w)

    -- `del` runs the statements of the plan in their order, up to the first that fails: either all
    -- of them succeed and it returns true, or it returns false with what the statements up to the
    -- one that failed have made of the database, and runs none of those behind it.
    pub del_outcome :
        (info : RowInfo) (w : W)
        → ((w1 : W) × (Succeeds exec (plan info) w w1
              × (del format escape_identifier id fill_where exec info w ≡ (true, w1))))
          ⊎ FailsAt exec (plan info) w (del format escape_identifier id fill_where exec info w)
    del_outcome info w = rw (del_lem info w) (run_all_outcome exec (plan info) w)
