-- ===== src/Network/Timer/Conservation.antt =====
-- What becomes of the items that are added.
use mathlib.Core.List.{Perm, perm_append_comm}
use mathlib.Core.List.Perm
use helpz.Prelude.{
  ℕ, ◌+◌, ◌≡◌, refl, sym, ◌∙◌, inl, inr, Bool, false, ◌||◌, none, some, List, [], ◌∷◌, ◌++◌, map,
  append-nil, append_assoc, arith, ◌==◌, Option-cases, lookup, emplace, emplace_taken, KeysFrom,
  KeysFrom-mono, emplace-KeysFrom, suc,
}
use helpz.Network.Message.{ms}
use helpz.Network.Timer.{
  Timer, Item, Action, stops, adds, wakes, stop, add, wake, expired_items, later_items, act,
  act_all,
}

abbrev pub pending : List (ℕ × Item) → List Item
pending items = map (λ e. e.1) items

-- What was called for, and what still waits.
abbrev pub known : Timer → List Item
known t = t.calls ++ pending t.items

-- The items of the calls of `add` whose time point was free.
abbrev pub accepts : Action → Timer → List Item
accepts stops t = []
accepts (adds time_point item) t = elim (lookup time_point t.items) [
  | none ↦ item ∷ []
  | some _ ↦ []
]
accepts (wakes now) t = []

pub accepted : List Action → Timer → List Item
accepted [] t = []
accepted (a ∷ rest) t = accepts a t ++ accepted rest (act a t)

pending-emplace :
    (time : ℕ) (item : Item) (items : List (ℕ × Item))
    → lookup time items ≡ none
    → Perm (pending (emplace time item items)) (item ∷ pending items)
pending-emplace time item [] free = Perm.refl _
pending-emplace time item ((t, i) ∷ rest) free = ground (
  arith,
  Perm.refl (item ∷ i ∷ pending rest),
  Perm.trans (Perm.cons i (pending-emplace time item rest (ground arith))) (Perm.swap item i _),
)

expired-later :
    (limit : ℕ) (items : List (ℕ × Item))
    → expired_items limit items ++ pending (later_items limit items) ≡ pending items
unfolding expired_items later_items
expired-later limit [] = refl
expired-later limit ((time, item) ∷ rest) = ground (arith, expired-later limit rest)

known-wake : (now : ℕ) (t : Timer) → known (wake now t) ≡ known t
unfolding wake
known-wake now t = ground (
  arith,
  append_assoc t.calls (expired_items (now + ms 10) t.items)
      (pending (later_items (now + ms 10) t.items)),
  expired-later (now + ms 10) t.items,
)

Perm-of_eq : {xs ys : List Item} → xs ≡ ys → Perm xs ys
Perm-of_eq {xs} e = rw (← e) (Perm.refl xs)

known-add :
    (time : ℕ) (item : Item) (t : Timer)
    → KeysFrom 0 t.items
    → Perm (known (add time item t)) (known t ++ accepts (adds time item) t)
unfolding add
known-add time item t k = elim (Option-cases (lookup time t.items)) [
  | inl free ↦
      rw (free, accepts)
        (Perm.trans (Perm.append_left t.calls (pending-emplace time item t.items free)) (
          Perm.trans (Perm.append_left t.calls (perm_append_comm (item ∷ []) (pending t.items)))
            (Perm-of_eq (sym (append_assoc t.calls (pending t.items) (item ∷ []))))))
  | inr (other, taken) ↦
      rw (taken, accepts, emplace_taken 0 time item other t.items k taken)
        (Perm-of_eq (sym (append-nil _)))
]

known-act :
    (a : Action) (t : Timer) → KeysFrom 0 t.items → Perm (known (act a t)) (known t ++ accepts a t)
unfolding act stop
known-act stops t k = Perm-of_eq (sym (append-nil (known t)))
known-act (adds time item) t k = known-add time item t k
known-act (wakes now) t k = Perm-of_eq (known-wake now t ∙ sym (append-nil (known t)))

later-KeysFrom :
    (limit lo : ℕ) (items : List (ℕ × Item))
    → KeysFrom lo items
    → KeysFrom lo (later_items limit items)
unfolding later_items
later-KeysFrom limit lo [] k = tt
later-KeysFrom limit lo ((time, item) ∷ rest) k = ground (
  arith,
  later-KeysFrom limit (suc time) rest k.1,
  KeysFrom-mono {lo = lo} {hi = suc time} (later_items limit rest),
)

act-KeysFrom : (a : Action) (t : Timer) → KeysFrom 0 t.items → KeysFrom 0 (act a t).items
unfolding act stop add wake
act-KeysFrom stops t k = k
act-KeysFrom (adds time item) t k = emplace-KeysFrom 0 time item t.items (omega arith) k
act-KeysFrom (wakes now) t k = ground (arith, later-KeysFrom (now + ms 10) 0 t.items k)

-- No item is lost and none is called for twice: after any sequence of stops, adds and wakes of the
-- thread, what was called for and what still waits are, as often, what was called for and waited
-- before and the items whose time point was free when they were added. The map is in the order of time.
pub known-act_all :
    (actions : List Action) (t : Timer)
    → KeysFrom 0 t.items
    → Perm (known (act_all actions t)) (known t ++ accepted actions t)
unfolding act_all accepted
known-act_all [] t k = Perm-of_eq (sym (append-nil (known t)))
known-act_all (a ∷ rest) t k = Perm.trans (known-act_all rest (act a t) (act-KeysFrom a t k)) (
    Perm.trans (Perm.append_right (accepted rest (act a t)) (known-act a t k))
      (Perm-of_eq (append_assoc (known t) (accepts a t) (accepted rest (act a t)))))

-- Whether an item has the endpoint.
abbrev pub names : ℕ → List Item → Bool
names endpoint [] = false
names endpoint (item ∷ rest) = (item.endpoint == endpoint) || names endpoint rest

abbrev pub wake_all : List ℕ → Timer → Timer
wake_all times t = act_all (map wakes times) t

known-wake_all : (times : List ℕ) (t : Timer) → known (wake_all times t) ≡ known t
unfolding act_all act
known-wake_all [] t = refl
known-wake_all (now ∷ times) t = known-wake_all times (wake now t) ∙ known-wake now t

names-append_left :
    (endpoint : ℕ) (xs ys : List Item)
    → names endpoint (xs ++ ys) ≡ false
    → names endpoint xs ≡ false
names-append_left endpoint [] ys h = refl
names-append_left endpoint (x ∷ xs) ys h = ground (arith, names-append_left endpoint xs ys)

-- An item whose time point is taken by another is never called for: if nothing that was called for or
-- waits has its endpoint, then nothing that is called for in any later wakes of the thread has. The
-- map is in the order of time.
pub add_taken :
    (time : ℕ) (item other : Item) (t : Timer) (times : List ℕ)
    → KeysFrom 0 t.items
    → lookup time t.items ≡ some other
    → names item.endpoint (known t) ≡ false
    → names item.endpoint (wake_all times (add time item t)).calls ≡ false
unfolding add
add_taken time item other t times k taken unknown =
    names-append_left item.endpoint _ (pending (wake_all times (add time item t)).items) (
      rw
        (
          known-wake_all times (add time item t),
          add,
          emplace_taken 0 time item other t.items k taken,
        )
        unknown)
