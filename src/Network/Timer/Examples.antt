-- ===== src/Network/Timer/Examples.antt =====
-- Timers at which the theorems apply.
use mathlib.Core.List.{Perm}
use helpz.Prelude.{ℕ, List, [], ◌∷◌, ◌++◌, arith}
use helpz.Network.Message.{ms}
use helpz.Network.Timer.{Timer, Item, Action, stops, adds, wakes, timer, act_all}
use helpz.Network.Timer.Conservation.{known, accepted, known-act_all}

abbrev at_endpoint : ℕ → Item
at_endpoint n = record { endpoint = n; data_ptr = 0 }

-- Endpoint 1 waits until 5 ms, endpoint 2 until 90 ms.
abbrev two_items : Timer
unfolding timer
two_items = record timer { items = (ms 5, at_endpoint 1) ∷ (ms 90, at_endpoint 2) ∷ [] }

abbrev script : List Action
script =
    adds (ms 40) (at_endpoint 3)
    ∷ wakes (ms 6)
    ∷ wakes (ms 7)
    ∷ adds (ms 90) (at_endpoint 4)
    ∷ stops
    ∷ []

known-act_all_example :
    Perm (known (act_all script two_items)) (known two_items ++ accepted script two_items)
unfolding timer
known-act_all_example = known-act_all script two_items (omega arith)
