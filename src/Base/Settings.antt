-- ===== src/Base/Settings.antt =====
-- `SettingsHelper` and `Param` in Base/settingshelper.h. `QSettings` is a parameter with the behaviour
-- that is documented for it; its current group is an argument of its functions. The values of the
-- types are of one type, and `qvariant_cast` to the type of a parameter is a field of it.
mod Twice
mod Examples
use helpz.Prelude.{
  ℕ, ◌≡◌, Bool, true, false, Option, none, some, List, [], ◌∷◌, ◌++◌, if◌then◌else◌,
}
use helpz.Database.Text.{Text, is_empty}

-- `contains`, `value` and `setValue` of a key in a group. A value that is set is there, and is given
-- whatever the default; a key that is there stays there with its value when one that is not there is set.
pub record QSettings (S V : Type 0) : Type 0 where
  pub contains : List Text → Text → S → Bool
  pub value : List Text → Text → V → S → V
  pub set_value : List Text → Text → V → S → S
  pub contains_set :
      (group : List Text) (key : Text) (v : V) (s : S)
      → contains group key (set_value group key v s) ≡ true
  pub value_set :
      (group : List Text) (key : Text) (v default : V) (s : S)
      → value group key default (set_value group key v s) ≡ v
  pub contains_stays :
      (group : List Text) (key other : Text) (v : V) (s : S)
      → contains group key s ≡ true
      → contains group key (set_value group other v s) ≡ true
  pub value_stays :
      (group : List Text) (key other : Text) (v default : V) (s : S)
      → contains group key s ≡ true
      → contains group other s ≡ false
      → value group key default (set_value group other v s) ≡ value group key default s

-- An argument of the helper: a value, or a parameter with its name, its default, what makes it normal,
-- if it is given, and the cast to its type.
pub data Argument (V A : Type 0) : Type 0 where
  constant : A → Argument V A
  param : Text → V → Option (V → V) → (V → A) → Argument V A

abbrev pub normalized : {V : Type 0} → Option (V → V) → V → V
normalized none v = v
normalized (some normalize) v = normalize v

module _ {S V A : Type 0} (qt : QSettings S V) where
  -- `getValue`: the default of a key that is not there is stored, as it is.
  unfoldable pub get_value : List Text → Argument V A → S → A × S
  get_value group (constant a) s = (a, s)
  get_value group (param name default_value normalize cast) s =
      if qt.contains group name s
      then (cast (normalized normalize (qt.value group name default_value s)), s)
      else (cast (normalized normalize default_value), qt.set_value group name default_value s)

  -- `parse`: the arguments in their order.
  unfoldable pub parse : List Text → List (Argument V A) → S → List A × S
  unfolding get_value
  parse group [] s = ([], s)
  parse group (argument ∷ arguments) s =
      let (a, s1) = get_value group argument s in
      let (rest, s2) = parse group arguments s1 in (a ∷ rest, s2)

  -- The constructor, `operator ()` and the destructor: the group is left again.
  unfoldable pub read_settings : List Text → Text → List (Argument V A) → S → List A × S
  unfolding parse
  read_settings outer begin_group arguments s =
      parse (if is_empty begin_group then outer else outer ++ (begin_group ∷ [])) arguments s
