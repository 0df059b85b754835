-- ===== src/Network/Sequence/Examples.antt =====
-- Ids at which the theorems on the sequence apply.
use helpz.Prelude.{
  if◌then◌else◌, ltb, ◌-◌, ℕ, ◌+◌, ◌<◌, ◌≡◌, refl, ◌↔◌, true, false, List, ◌||◌, some, [], ◌∷◌,
  arith, lookup, erase, has_key,
}
use helpz.Network.Message.{seconds}
use helpz.Network.Protocol.{Protocol, protocol, repeated_flag}
use helpz.Network.Sequence.{fill_lost_msg, drop_outdated, accept_id}
use helpz.Network.Sequence.Gap.{IsSequence, in_gap, fill_lost_msg_lem, accept_id_ahead}
use helpz.Network.Sequence.Repeats.{accept_id_repeated}
use helpz.Network.Sequence.Runs.{accept_all, numbered, lost_once, accept_all_in_order}

-- The expected id is 3, and 1 was lost at the time 7000.
abbrev lost_one : Protocol
unfolding protocol
lost_one = record protocol { next_rx_msg_id = 3; lost_msg_list = (1, 7000) ∷ [] }

lost_one-IsSequence : IsSequence lost_one
unfolding protocol
lost_one-IsSequence = record { next_u8 = omega arith; sorted = (omega arith, tt) }

fill_lost_msg_lem_example :
    (IsSequence (fill_lost_msg 8000 6 lost_one))
    × ((fill_lost_msg 8000 6 lost_one).next_rx_msg_id ≡ 6)
    × (has_key 4 (fill_lost_msg 8000 6 lost_one).lost_msg_list ≡ (
        has_key 4 (drop_outdated 8000 6 lost_one.lost_msg_list lost_one).lost_msg_list
        || in_gap
            (if ltb (lost_one.next_rx_msg_id + 100) 6 then 6 - 100 else lost_one.next_rx_msg_id)
            6
            4))
fill_lost_msg_lem_example =
    fill_lost_msg_lem 8000 6 4 lost_one lost_one-IsSequence (omega arith) (omega arith)

accept_id_ahead_example :
    ((accept_id 8000 6 0 lost_one).0 ≡ true) × ((accept_id 8000 6 0 lost_one).1.next_rx_msg_id ≡ 7)
unfolding protocol
accept_id_ahead_example =
    accept_id_ahead 8000 6 0 lost_one (omega arith) lost_one-IsSequence refl (omega arith)

accept_id_repeated_example :
    (((accept_id 8000 1 repeated_flag lost_one).0 ≡ true)
      ↔ ((tp : ℕ) × (lookup 1 lost_one.lost_msg_list ≡ some tp) × (8000 < tp + seconds 10)))
    × ((accept_id 8000 1 repeated_flag lost_one).1
        ≡ record lost_one { lost_msg_list = erase 1 lost_one.lost_msg_list })
accept_id_repeated_example = accept_id_repeated 8000 1 repeated_flag lost_one refl

lost_once_example :
    let q = (accept_id 8000 6 0 lost_one).1 in
    let (goes_on, r) = accept_id 9000 4 repeated_flag q in
    (goes_on ≡ true) × ((accept_id 9500 4 repeated_flag r).0 ≡ false) × (r.next_rx_msg_id ≡ 7)
unfolding lost_one
lost_once_example =
    lost_once 8000 9000 9500 6 4 0 repeated_flag lost_one (omega arith) lost_one-IsSequence refl
      refl (omega arith) (omega arith) (omega arith) refl (omega arith)

-- Three messages around the end of the ids.
abbrev three : List (ℕ × ℕ)
three = (10, 0) ∷ (20, 0) ∷ (15, 0x40) ∷ []

accept_all_in_order_example :
    accept_all (numbered 510 three) (record lost_one { next_rx_msg_id = 254 })
    ≡ (true, record lost_one { next_rx_msg_id = 1 })
unfolding protocol
accept_all_in_order_example =
    accept_all_in_order 510 three (record lost_one { next_rx_msg_id = 254 }) refl
      (refl, (refl, (refl, tt)))
