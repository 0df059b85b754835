-- ===== src/Network/Sequence/Repeats.antt =====
-- Repetitions: a message with the flag REPEATED.
use helpz.Prelude.{
  ℕ, ◌+◌, ◌<◌, ◌≡◌, ◌↔◌, inl, inr, true, false, some, arith, Option-cases, lookup, erase,
  lookup-erase, erase_absent, has_flag,
}
use helpz.Network.Message.{seconds}
use helpz.Network.Protocol.{Protocol, repeated_flag}
use helpz.Network.Sequence.{is_lost_message, accept_id}
use helpz.Network.Sequence.Gap.{IsSequence}

-- A message with the flag REPEATED is gone on with exactly if its id was marked as lost less than 10 s
-- ago. The mark goes, and nothing else changes.
pub accept_id_repeated :
    (now msg_id flags : ℕ) (p : Protocol)
    → has_flag repeated_flag flags ≡ true
    → (((accept_id now msg_id flags p).0 ≡ true)
        ↔ ((tp : ℕ) × (lookup msg_id p.lost_msg_list ≡ some tp) × (now < tp + seconds 10)))
      × ((accept_id now msg_id flags p).1
          ≡ record p { lost_msg_list = erase msg_id p.lost_msg_list })
unfolding accept_id is_lost_message
accept_id_repeated now msg_id flags p rep = elim (Option-cases (lookup msg_id p.lost_msg_list)) [
  | inl e ↦ (
    ((λ a. ground (arith, a, e)), λ (tp, found, young). ground (arith, e, found)),
    ground (arith, e, erase_absent msg_id p.lost_msg_list e),
  )
  | inr (tp, e) ↦ (
    ((λ a. (tp, e, ground (arith, a, e))), λ (tp', found, young). ground (arith, e, found, young)),
    ground (arith, e),
  )
]

-- Of two messages with the flag REPEATED and one id, the second, right after the first, is dropped.
-- The list of lost ids is a map.
pub accept_id_repeated_twice :
    (now later msg_id flags : ℕ) (p : Protocol)
    → IsSequence p
    → has_flag repeated_flag flags ≡ true
    → (accept_id later msg_id flags (accept_id now msg_id flags p).1).0 ≡ false
unfolding accept_id is_lost_message
accept_id_repeated_twice now later msg_id flags p s rep =
    ground (arith, lookup-erase 0 msg_id p.lost_msg_list s.sorted)
