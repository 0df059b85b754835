-- ===== src/Network/WaitHelper.antt =====
-- `WaitHelper` and `Waiter` in Network/waithelper.h and waithelper.cpp. The loop of Qt is the list of what
-- it handles, in order: the timer and calls of `finish`. A call of `finish` when the loop does not run only
-- stores the value.
mod Answers
mod Examples
use helpz.Prelude.{ℕ, Bool, true, false, Option, none, some, List, [], ◌∷◌, lookup, emplace, erase}

pub data LoopEvent (V : Type 0) : Type 0 where
  timed_out : LoopEvent V
  finished : V → LoopEvent V

-- `m_result`.
pub record WaitHelper (V : Type 0) : Type 0 where
  pub result : V

-- A waiter in the map of waiters by command; `it` is its command, if it has a place in the map.
pub record Waiter : Type 0 where
  pub has_helper : Bool
  pub it : Option ℕ

module _ {V : Type 0} where
  unfoldable pub finish : V → WaitHelper V → WaitHelper V
  finish value helper = record helper { result = value }

  -- `wait`: whether the loop ends by `finish`; `none`: it does not end.
  unfoldable pub wait : List (LoopEvent V) → WaitHelper V → Option (Bool × WaitHelper V)
  unfolding finish
  wait [] helper = none
  wait (timed_out ∷ events) helper = some (false, helper)
  wait (finished value ∷ events) helper = some (true, finish value helper)

-- `operator bool`.
unfoldable pub is_waiting : Waiter → Bool
is_waiting w = elim w.it [ none ↦ false | some cmd ↦ w.has_helper ]

module _ {H : Type 0} where
  -- The constructor of `Waiter`.
  unfoldable pub make_waiter : ℕ → H → List (ℕ × H) → Waiter × List (ℕ × H)
  make_waiter cmd helper wait_map = elim (lookup cmd wait_map) [
    | some other ↦ (record { has_helper = false; it = none }, wait_map)
    | none ↦ (record { has_helper = true; it = some cmd }, emplace cmd helper wait_map)
  ]

  unfoldable pub destroy_waiter : Waiter → List (ℕ × H) → List (ℕ × H)
  destroy_waiter w wait_map = elim w.it [ none ↦ wait_map | some cmd ↦ erase cmd wait_map ]
