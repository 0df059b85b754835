-- ===== src/Network/WaitHelper/Answers.antt =====
-- Waiters for the same command. See Network/waithelper.cpp.
use helpz.Prelude.{
  ℕ, ◌≡◌, true, false, none, some, List, [], ◌∷◌, arith, lookup, emplace, erase, KeysFrom,
  lookup-emplace,
}
use helpz.Network.WaitHelper.{make_waiter, destroy_waiter, is_waiting}

module _ {H : Type 0} where
  erase-emplace :
      (k : ℕ) (v : H) (m : List (ℕ × H)) → lookup k m ≡ none → erase k (emplace k v m) ≡ m
  erase-emplace k v [] h = ground arith
  erase-emplace k v ((j, w) ∷ m) h = ground (arith, h, erase-emplace k v m)

  -- A command for which nobody waits: a waiter for it is waiting, a second one that is made meanwhile is
  -- not, and leaves the map as it is, also when it is destroyed; and when the first is destroyed the map is
  -- as before both.
  pub second_waiter :
      (cmd : ℕ) (one two : H) (wait_map : List (ℕ × H))
      → KeysFrom 0 wait_map
      → lookup cmd wait_map ≡ none
      → let (first, map1) = make_waiter cmd one wait_map in
        let (second, map2) = make_waiter cmd two map1 in
        (is_waiting first ≡ true)
        × ((is_waiting second ≡ false)
            × ((map2 ≡ map1)
                × ((destroy_waiter second map2 ≡ map1) × (destroy_waiter first map1 ≡ wait_map))))
  unfolding make_waiter destroy_waiter is_waiting
  second_waiter cmd one two wait_map sorted absent =
      let there : lookup cmd (emplace cmd one wait_map) ≡ some one =
        ground (arith, absent, lookup-emplace 0 cmd cmd one wait_map sorted absent) in
      let back = erase-emplace cmd one wait_map absent in
      (
        ground (arith, absent),
        (
          ground (arith, absent, there),
          (
            ground (arith, absent, there),
            (ground (arith, absent, there), ground (arith, absent, back)),
          ),
        ),
      )
