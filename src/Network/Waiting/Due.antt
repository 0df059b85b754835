-- ===== src/Network/Waiting/Due.antt =====
-- The messages whose time has come.
use helpz.Network.Waiting.Entries.{IsWaiting}
use helpz.Prelude.{
  ℕ, suc, ◌+◌, ◌≤◌, ◌<◌, ◌≡◌, refl, ap, inl, inr, List, [], ◌∷◌, ◌++◌, map, arith, ltb, ltb→lt,
  Bool-cases, length, take, All, KeysFrom,
}
use helpz.Network.Message.{MessageItem, ms}
use helpz.Network.Protocol.{Protocol}
use helpz.Network.Waiting.{due_messages, later_messages, pop_waiting_messages}

later-All :
    (limit time : ℕ) (ws : List (ℕ × MessageItem))
    → KeysFrom (suc time) ws
    → limit < time
    → All (λ (e : ℕ × MessageItem). limit < e.0) ws
later-All limit time [] k h = tt
later-All limit time ((t, m) ∷ rest) k h = (omega arith, later-All limit t rest k.1 (omega arith))

-- The list up to the limit, and behind it.
pub split_due :
    (limit lo : ℕ) (ws : List (ℕ × MessageItem))
    → KeysFrom lo ws
    → let n = length (due_messages limit ws) in
      (ws ≡ take n ws ++ later_messages limit ws)
      × (map (λ (e : ℕ × MessageItem). e.1) (take n ws) ≡ due_messages limit ws)
      × All (λ e. e.0 ≤ limit) (take n ws)
      × All (λ e. limit < e.0) (later_messages limit ws)
unfolding due_messages later_messages
split_due limit lo [] k = (refl, refl, tt, tt)
split_due limit lo ((time, msg) ∷ rest) k = elim (Bool-cases (ltb limit time)) [
  | inl e ↦
      rw e
        (refl, refl, tt, (ltb→lt limit time e, later-All limit time rest k.1 (ltb→lt limit time e)))
  | inr e ↦
      let ih = split_due limit (suc time) rest k.1 in
      rw e (ap (◌∷◌ (time, msg)) ih.0, ap (◌∷◌ msg) ih.1, (ground (arith, e), ih.2), ih.3)
]

-- `pop_waiting_messages` takes just the messages whose time comes within 20 ms, in the order of time,
-- and leaves the others. The list is in the order of time, with no two messages under one id.
pub pop_waiting_messages_lem :
    (now : ℕ) (p : Protocol)
    → IsWaiting p.waiting_messages
    → let (messages, q) = pop_waiting_messages now p in
      let popped = take (length messages) p.waiting_messages in
      (p.waiting_messages ≡ popped ++ q.waiting_messages)
      × (map (λ (e : ℕ × MessageItem). e.1) popped ≡ messages)
      × All (λ e. e.0 ≤ now + ms 20) popped
      × All (λ e. now + ms 20 < e.0) q.waiting_messages
unfolding pop_waiting_messages
pop_waiting_messages_lem now p w = split_due (now + ms 20) 0 p.waiting_messages w.sorted
