-- ===== src/Base/Settings/Examples.antt =====
-- Settings with numbers for values, in a store that knows a key by its first letter. See
-- Base/settingshelper.h.
use helpz.Prelude.{
  ℕ, ◌*◌, ◌≡◌, refl, ap, Bool-cases, inl, inr, ==_iff, Bool, true, false, Option, none, some, List,
  [], ◌∷◌, ◌==◌, if◌then◌else◌, arith,
}
use helpz.Database.Text.{Text, codes}
use helpz.Base.Settings.{QSettings, Argument, constant, param, read_settings}
use helpz.Base.Settings.Twice.{read_settings_twice}

abbrev Store : Type 0
Store = ℕ → Option ℕ

abbrev letter : Text → ℕ
letter [] = 0
letter (c ∷ text) = c

abbrev is_there : Option ℕ → Bool
is_there none = false
is_there (some v) = true

abbrev or_default : ℕ → Option ℕ → ℕ
or_default default none = default
or_default default (some v) = v

abbrev put : ℕ → ℕ → Store → Store
put k v s j = if j == k then some v else s j

is_there-put : (k v : ℕ) (s : Store) → is_there (put k v s k) ≡ true
is_there-put k v s = ground arith

or_default-put : (k v default : ℕ) (s : Store) → or_default default (put k v s k) ≡ v
or_default-put k v default s = ground arith

is_there-stays : (k j v : ℕ) (s : Store) → is_there (s k) ≡ true → is_there (put j v s k) ≡ true
is_there-stays k j v s h = ground arith

or_default-stays :
    (k j v default : ℕ) (s : Store)
    → is_there (s k) ≡ true
    → is_there (s j) ≡ false
    → or_default default (put j v s k) ≡ or_default default (s k)
or_default-stays k j v default s h a = elim (Bool-cases (k == j)) [
  | inl same ↦ absurd (clash (ap (λ i. is_there (s i)) ((==_iff k j).0 same)))
  | inr differs ↦ rw (differs) refl
]
  where
    clash : is_there (s k) ≡ is_there (s j) → ⊥
    clash e = cc

abbrev letters : QSettings Store ℕ
letters = record {
  contains = λ group key s. is_there (s (letter key));
  value = λ group key default s. or_default default (s (letter key));
  set_value = λ group key v s. put (letter key) v s;
  contains_set = λ group key v s. is_there-put (letter key) v s;
  value_set = λ group key v default s. or_default-put (letter key) v default s;
  contains_stays = λ group key other v s h. is_there-stays (letter key) (letter other) v s h;
  value_stays = λ group key other v default s h a.
      or_default-stays (letter key) (letter other) v default s h a;
}

-- A port that is there, an interval that is not and is read in thousands, and a value.
abbrev arguments : List (Argument ℕ ℕ)
arguments =
    param (codes "port") 1 none (λ v. v)
    ∷ (param (codes "interval") 5 (some (λ v. v * 1000)) (λ v. v) ∷ (constant 8 ∷ []))

abbrev stored : Store
stored = put b'p' 25588 (λ k. none)

first_time :
    (read_settings letters [] (codes "Remote") arguments stored).0 ≡ 25588 ∷ (5000 ∷ (8 ∷ []))
unfolding read_settings
first_time = refl

read_settings_twice_example :
    read_settings letters []
      (codes "Remote")
      arguments
      (read_settings letters [] (codes "Remote") arguments stored).1
    ≡ read_settings letters [] (codes "Remote") arguments stored
read_settings_twice_example = read_settings_twice letters [] (codes "Remote") arguments stored
