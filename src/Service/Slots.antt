-- ===== src/Service/Slots.antt =====
-- The slots of a worker and the arguments of the program. See Service/service.h.
use helpz.Prelude.{
  ◌≡◌, refl, Bool, true, false, not, ◌&&◌, ◌||◌, List, [], ◌∷◌, arith, subst, sym, Bool-cases, inl,
  inr,
}
use helpz.Database.Text.{Text, codes, same_text}
use helpz.Service.{find_slots, has_exec, is_immediately}

-- Whether a text is in a list.
unfoldable pub has_text : Text → List Text → Bool
has_text x [] = false
has_text x (y ∷ ys) = same_text y x || has_text x ys

same_text_lem : (x y : Text) → same_text x y ≡ true → x ≡ y
unfolding same_text
same_text_lem [] [] h = refl
same_text_lem [] (c ∷ cs) h = cc
same_text_lem (b ∷ bs) [] h = cc
same_text_lem (b ∷ bs) (c ∷ cs) h =
    let head : b ≡ c = ground (arith, h) in
    let tail : bs ≡ cs = same_text_lem bs cs (ground (arith, h)) in cc

-- No name is both.
one_slot :
    (name : Text)
    → (same_text name (codes "logMessage") && same_text name (codes "serviceRestart")) ≡ false
unfolding same_text
one_slot name = elim (Bool-cases (same_text name (codes "logMessage"))) [
  | inl log ↦
      subst
        (λ x. (same_text x (codes "logMessage") && same_text x (codes "serviceRestart")) ≡ false)
        (sym (same_text_lem name (codes "logMessage") log)) refl
  | inr other ↦ ground (arith, other)
]

-- The loop over the methods finds each of the two slots, wherever it is and whatever the order: that it
-- ends when it has found both loses nothing.
pub find_slots_lem :
    (names : List Text) (has_log has_restart : Bool)
    → find_slots names has_log has_restart ≡ (
      has_log || has_text (codes "logMessage") names,
      has_restart || has_text (codes "serviceRestart") names,
    )
unfolding find_slots has_text
find_slots_lem [] has_log has_restart = ground arith
find_slots_lem (name ∷ names) has_log has_restart =
    let is_log = same_text name (codes "logMessage") in
    let is_restart = not is_log && same_text name (codes "serviceRestart") in
    ground
      (arith, one_slot name, find_slots_lem names (has_log || is_log) (has_restart || is_restart))

any_exec :
    (arguments : List Text)
    → has_exec arguments ≡ (has_text (codes "-e") arguments || has_text (codes "-exec") arguments)
unfolding has_exec has_text
any_exec [] = ground arith
any_exec (a ∷ arguments) = ground (arith, any_exec arguments)

-- The option for running at once is found wherever it stands behind the name of the program.
pub has_exec_lem :
    (name : Text) (arguments : List Text)
    → is_immediately (name ∷ arguments)
      ≡ (has_text (codes "-e") arguments || has_text (codes "-exec") arguments)
unfolding is_immediately
has_exec_lem name arguments = any_exec arguments
