-- ===== src/Base/Settings/Twice.antt =====
-- Settings that are read again. See Base/settingshelper.h.
use helpz.Prelude.{
  ◌≡◌, refl, ap, sym, ◌∙◌, true, List, [], ◌∷◌, ◌++◌, if◌then◌else◌, Bool-cases, inl, inr,
}
use helpz.Database.Text.{Text, is_empty}
use helpz.Base.Settings.{
  QSettings, Argument, constant, param, normalized, get_value, parse, read_settings,
}

module _ {S V A : Type 0} (qt : QSettings S V) (group : List Text) where
  -- The argument is there and reads as `a`.
  abbrev IsStored : Argument V A → A → S → Type 0
  IsStored (constant b) a s = b ≡ a
  IsStored (param name default_value normalize cast) a s =
      (qt.contains group name s ≡ true)
      × (cast (normalized normalize (qt.value group name default_value s)) ≡ a)

  get_value-IsStored :
      (argument : Argument V A) (s : S)
      → IsStored argument (get_value qt group argument s).0 (get_value qt group argument s).1
  unfolding get_value
  get_value-IsStored (constant b) s = refl
  get_value-IsStored (param name default_value normalize cast) s =
      elim (Bool-cases (qt.contains group name s)) [
        | inl there ↦ rw (there) (there, refl)
        | inr absent ↦ rw (absent) (
          qt.contains_set group name default_value s,
          ap (λ v. cast (normalized normalize v))
              (qt.value_set group name default_value default_value s),
        )
      ]

  stored_get_value :
      (argument : Argument V A) (a : A) (s : S)
      → IsStored argument a s
      → get_value qt group argument s ≡ (a, s)
  unfolding get_value
  stored_get_value (constant b) a s h = ap (λ x. (x, s)) h
  stored_get_value (param name default_value normalize cast) a s (there, reads) =
      rw (there) (ap (λ x. (x, s)) reads)

  -- What is stored stays so when another argument is read.
  get_value-keeps :
      (argument other : Argument V A) (a : A) (s : S)
      → IsStored argument a s
      → IsStored argument a (get_value qt group other s).1
  unfolding get_value
  get_value-keeps argument (constant b) a s h = h
  get_value-keeps (constant c) (param name default_value normalize cast) a s h = h
  get_value-keeps (param key default_key normalize_key cast_key)
        (param name default_value normalize cast) a s (there, reads) =
      elim (Bool-cases (qt.contains group name s)) [
        | inl present ↦ rw (present) (there, reads)
        | inr absent ↦ rw (absent) (
          qt.contains_stays group key name default_value s there,
          ap (λ v. cast_key (normalized normalize_key v))
                (qt.value_stays group key name default_value default_key s there absent)
              ∙ reads,
        )
      ]

  -- So it does when any arguments are read.
  parse-keeps :
      (argument : Argument V A) (others : List (Argument V A)) (a : A) (s : S)
      → IsStored argument a s
      → IsStored argument a (parse qt group others s).1
  unfolding parse
  parse-keeps argument [] a s h = h
  parse-keeps argument (other ∷ others) a s h =
      parse-keeps argument others a (get_value qt group other s).1
        (get_value-keeps argument other a s h)

  -- The results of all arguments, and each of them is stored.
  AllStored : List (Argument V A) → List A → S → Type 0
  AllStored [] results s = results ≡ []
  AllStored (argument ∷ arguments) [] s = ⊥
  AllStored (argument ∷ arguments) (a ∷ results) s =
      IsStored argument a s × AllStored arguments results s

  parse-AllStored :
      (arguments : List (Argument V A)) (s : S)
      → AllStored arguments (parse qt group arguments s).0 (parse qt group arguments s).1
  unfolding parse AllStored
  parse-AllStored [] s = refl
  parse-AllStored (argument ∷ arguments) s =
      let s1 = (get_value qt group argument s).1 in
      (
        parse-keeps argument arguments (get_value qt group argument s).0 s1
            (get_value-IsStored argument s),
        parse-AllStored arguments s1,
      )

  stored_parse :
      (arguments : List (Argument V A)) (results : List A) (s : S)
      → AllStored arguments results s
      → parse qt group arguments s ≡ (results, s)
  unfolding parse AllStored
  stored_parse [] results s h = ap (λ r. (r, s)) (sym h)
  stored_parse (argument ∷ arguments) [] s h = absurd h
  stored_parse (argument ∷ arguments) (a ∷ results) s (here, behind) =
      ap (λ r. (r.0 ∷ (parse qt group arguments r.1).0, (parse qt group arguments r.1).1))
        (stored_get_value argument a s here)
      ∙ ap (λ r. (a ∷ r.0, r.1)) (stored_parse arguments results s behind)

module _ {S V A : Type 0} (qt : QSettings S V) where
  -- Settings that are read a second time, with the same arguments, have the values that they had the first
  -- time, whether they were there before or were stored as the defaults then; and nothing
  -- is stored the second time.
  pub read_settings_twice :
      (outer : List Text) (begin_group : Text) (arguments : List (Argument V A)) (s : S)
      → read_settings qt outer begin_group arguments
          (read_settings qt outer begin_group arguments s).1
        ≡ read_settings qt outer begin_group arguments s
  unfolding read_settings
  read_settings_twice outer begin_group arguments s =
      let group = if is_empty begin_group then outer else outer ++ (begin_group ∷ []) in
      stored_parse qt group arguments _ _ (parse-AllStored qt group arguments s)
