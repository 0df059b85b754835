-- ===== src/Network/Sequence.antt =====
-- The message ids that a receiver expects and has lost: `is_lost_message`, `fill_lost_msg` and the
-- first part of `internal_process_message` in Network/net_protocol.cpp. An id is a `uint8_t`.
pub mod Gap
pub mod Repeats
pub mod Runs
mod Examples
use helpz.Prelude.{
  ℕ, zero, suc, ◌+◌, ◌-◌, ◌%◌, Bool, true, false, not, ◌&&◌, ◌||◌, Option, none, some, List, [],
  ◌∷◌, ltb, leb, ◌==◌, if◌then◌else◌, lookup, emplace, erase, has_flag,
}
use helpz.Network.Message.{seconds}
use helpz.Network.Protocol.{Protocol, repeated_flag, lost_msg_detected, emit}

-- `is_lost_message`: whether the id is in the list, for less than 10 s. It leaves the list anyway.
unfoldable pub is_lost_message : ℕ → ℕ → Protocol → Bool × Protocol
is_lost_message now msg_id p = elim (lookup msg_id p.lost_msg_list) [
  | none ↦ (false, p)
  | some tp ↦ (ltb now (tp + seconds 10), record p { lost_msg_list = erase msg_id p.lost_msg_list })
]

-- The test of the first loop of `fill_lost_msg`. `now - 10 s > tp` is written without the subtraction.
unfoldable pub is_outdated : ℕ → ℕ → ℕ → ℕ → Bool
is_outdated now msg_id id tp =
    let min_id = 255 + (msg_id + 256 - 100) % 256 in
    let max_id = 255 + msg_id in
    ltb (tp + seconds 10) now || (ltb (255 + id) min_id && ltb max_id (255 + id))

-- A lost id that is out of date leaves the list, and its fragments with it.
unfoldable pub drop_if_outdated : ℕ → ℕ → ℕ → ℕ → Protocol → Protocol
unfolding is_outdated
drop_if_outdated now msg_id id tp p =
    if is_outdated now msg_id id tp
    then record p {
      lost_msg_list = erase id p.lost_msg_list;
      fragmented_messages = erase id p.fragmented_messages;
    }
    else p

unfoldable pub drop_outdated : ℕ → ℕ → List (ℕ × ℕ) → Protocol → Protocol
unfolding drop_if_outdated
drop_outdated now msg_id [] p = p
drop_outdated now msg_id ((id, tp) ∷ rest) p =
    drop_outdated now msg_id rest (drop_if_outdated now msg_id id tp p)

-- `while (msg_id != next_rx_msg_id_) lost_msg_list_.emplace(next_rx_msg_id_++, now);`
unfoldable pub mark_lost : ℕ → ℕ → ℕ → ℕ → List (ℕ × ℕ) → Option (List (ℕ × ℕ))
mark_lost zero now msg_id next lost = none
mark_lost (suc fuel) now msg_id next lost =
    let rest = mark_lost fuel now msg_id ((next + 1) % 256) (emplace next now lost) in
    if msg_id == next then some lost else rest

-- A message id more than 100 ahead moves the start of the gap.
unfoldable pub gap_start : ℕ → ℕ → ℕ
gap_start msg_id next = if ltb (next + 100) msg_id then (msg_id + 256 - 100) % 256 else next

-- `fill_lost_msg`. The loop makes at most 255 rounds, so the fuel of 256 is enough.
unfoldable pub fill_lost_msg : ℕ → ℕ → Protocol → Protocol
fill_lost_msg now msg_id p =
    let q = drop_outdated now msg_id p.lost_msg_list p in
    elim (mark_lost 256 now msg_id (gap_start msg_id q.next_rx_msg_id) q.lost_msg_list) [
      | none ↦ q
      | some lost ↦ record q { next_rx_msg_id = msg_id; lost_msg_list = lost }
    ]

-- `next_rx_msg_id_ = msg_id + 1`, if the message is not behind.
unfoldable pub advance : ℕ → Protocol → Protocol
advance msg_id p =
    if leb (p.next_rx_msg_id + 1) (msg_id + 1)
    then record p { next_rx_msg_id = (msg_id + 1) % 256 }
    else p

-- What `internal_process_message` does with the id before it looks at the message: whether it goes
-- on with the message, and the new state.
unfoldable pub accept_id : ℕ → ℕ → ℕ → Protocol → Bool × Protocol
accept_id now msg_id flags p =
    let (found, q) = is_lost_message now msg_id p in
    let next = p.next_rx_msg_id in
    if has_flag repeated_flag flags || (ltb msg_id next && ltb (next - msg_id) 100)
    then (found || not (has_flag repeated_flag flags), q)
    else (
      true,
      advance msg_id (
          if ltb next msg_id || ltb 100 (next - msg_id)
          then fill_lost_msg now msg_id (emit (lost_msg_detected msg_id next) p)
          else p),
    )
