-- ===== src/Network/WaitHelper/Examples.antt =====
-- Waits with and without an answer. See Network/waithelper.cpp.
use helpz.Prelude.{ℕ, ◌≡◌, refl, true, false, some, [], ◌∷◌}
use helpz.Network.WaitHelper.{WaitHelper, timed_out, finished, finish, wait}

abbrev empty : WaitHelper ℕ
empty = record { result = 0 }

answered_in_time : wait (finished 7 ∷ timed_out ∷ []) empty ≡ some (true, record { result = 7 })
unfolding wait
answered_in_time = refl

-- The answer comes before the wait: the wait runs into its end, although the result is there.
answered_too_early : wait (timed_out ∷ []) (finish 7 empty) ≡ some (false, record { result = 7 })
unfolding wait finish
answered_too_early = refl
