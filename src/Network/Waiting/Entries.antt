-- ===== src/Network/Waiting/Entries.antt =====
-- What waits, and what leaves the waiting list.
use helpz.Prelude.{
  ℕ, suc, ◌≡◌, refl, inl, inr, Bool, false, ◌||◌, Option, none, some, List, [], ◌∷◌, arith, ◌==◌,
  Option-cases, lookup, emplace, KeysFrom, KeysFrom-mono, emplace-KeysFrom,
}
use helpz.Network.Message.{MessageItem}
use helpz.Network.Protocol.{Protocol, destroy}
use helpz.Network.Waiting.{
  id_or_zero, find_waiting, drop_waiting, pop_waiting_fragment, destroy_popped, emplace_waiting,
  add_to_waiting,
}

-- The messages that wait under an id.
abbrev pub waits : ℕ → List (ℕ × MessageItem) → Bool
waits id [] = false
waits id ((time, msg) ∷ rest) = (id_or_zero msg == id) || waits id rest

-- No two messages wait under one id.
abbrev pub IsDistinct : List (ℕ × MessageItem) → Type 0
IsDistinct [] = Unit
IsDistinct ((time, msg) ∷ rest) = (waits (id_or_zero msg) rest ≡ false) × IsDistinct rest

-- The messages are in the order of time, and no two have one id.
pub record IsWaiting (ws : List (ℕ × MessageItem)) : Type 0 where
  pub sorted : KeysFrom 0 ws
  pub distinct : IsDistinct ws

abbrev same_id : ℕ → MessageItem → Bool
same_id id item = id_or_zero item == id

waits-drop :
    (id other : ℕ) (ws : List (ℕ × MessageItem))
    → waits other ws ≡ false
    → waits other (drop_waiting (same_id id) ws) ≡ false
unfolding drop_waiting
waits-drop id other [] h = refl
waits-drop id other ((time, msg) ∷ rest) h = ground (arith, waits-drop id other rest)

-- Where ids are distinct, none waits under the id that was popped.
waits-drop_self :
    (id : ℕ) (ws : List (ℕ × MessageItem))
    → IsDistinct ws
    → waits id (drop_waiting (same_id id) ws) ≡ false
unfolding drop_waiting
waits-drop_self id [] d = refl
waits-drop_self id ((time, msg) ∷ rest) d = ground (arith, waits-drop_self id rest d.1)

drop-IsDistinct :
    (id : ℕ) (ws : List (ℕ × MessageItem))
    → IsDistinct ws
    → IsDistinct (drop_waiting (same_id id) ws)
unfolding drop_waiting
drop-IsDistinct id [] d = tt
drop-IsDistinct id ((time, msg) ∷ rest) d =
    ground (arith, drop-IsDistinct id rest d.1, waits-drop id (id_or_zero msg) rest d.0)

drop-KeysFrom :
    (lo id : ℕ) (ws : List (ℕ × MessageItem))
    → KeysFrom lo ws
    → KeysFrom lo (drop_waiting (same_id id) ws)
unfolding drop_waiting
drop-KeysFrom lo id [] k = tt
drop-KeysFrom lo id ((time, msg) ∷ rest) k =
    ground
      (arith, drop-KeysFrom (suc time) id rest k.1, KeysFrom-mono {lo = lo} {hi = suc time} rest)

waits-emplace :
    (time id : ℕ) (msg : MessageItem) (ws : List (ℕ × MessageItem))
    → waits id ws ≡ false
    → (id_or_zero msg == id) ≡ false
    → waits id (emplace time msg ws) ≡ false
waits-emplace time id msg [] h n = ground arith
waits-emplace time id msg ((t, m) ∷ rest) h n = ground (arith, waits-emplace time id msg rest)

emplace-IsDistinct :
    (time : ℕ) (msg : MessageItem) (ws : List (ℕ × MessageItem))
    → IsDistinct ws
    → waits (id_or_zero msg) ws ≡ false
    → IsDistinct (emplace time msg ws)
emplace-IsDistinct time msg [] d h = (refl, tt)
emplace-IsDistinct time msg ((t, m) ∷ rest) d h =
    ground
      (arith, emplace-IsDistinct time msg rest d.1, waits-emplace time (id_or_zero m) msg rest d.0)

waiting-destroy :
    (msg : MessageItem) (p : Protocol) → (destroy msg p).waiting_messages ≡ p.waiting_messages
unfolding destroy
waiting-destroy msg p = ground arith

waiting-destroy_popped :
    (msg : Option MessageItem) (p : Protocol)
    → (destroy_popped msg p).waiting_messages ≡ p.waiting_messages
unfolding destroy_popped
waiting-destroy_popped none p = refl
waiting-destroy_popped (some msg) p = waiting-destroy msg p

-- What `add_to_waiting` leaves in the list: the others, and the message if its time is free. A message
-- whose time is taken by another is not kept.
pub waiting-add_to_waiting :
    (time : ℕ) (msg : MessageItem) (p : Protocol)
    → let others = drop_waiting (same_id (id_or_zero msg)) p.waiting_messages in
      (lookup time others ≡ none
        → (add_to_waiting time msg p).waiting_messages ≡ emplace time msg others)
      × ((other : MessageItem)
          → lookup time others ≡ some other
          → (add_to_waiting time msg p).waiting_messages ≡ others)
unfolding add_to_waiting emplace_waiting pop_waiting_fragment
waiting-add_to_waiting time msg p =
    let others = drop_waiting (same_id (id_or_zero msg)) p.waiting_messages in
    let q : Protocol = record p { waiting_messages = others } in
    let old = find_waiting (same_id (id_or_zero msg)) p.waiting_messages in
    let kept = waiting-destroy_popped old q in
    (
      (λ free. ground (arith, kept, free)),
      λ other taken. ground (arith, kept, taken, waiting-destroy msg (destroy_popped old q)),
    )

lookup-drop_other :
    (id time : ℕ) (other : MessageItem) (ws : List (ℕ × MessageItem))
    → lookup time ws ≡ some other
    → (id_or_zero other == id) ≡ false
    → lookup time (drop_waiting (same_id id) ws) ≡ some other
unfolding drop_waiting
lookup-drop_other id time other [] l n = cc
lookup-drop_other id time other ((t, m) ∷ rest) l n =
    ground (arith, lookup-drop_other id time other rest)

-- `add_to_waiting` keeps a waiting list in the order of time and with no two messages under one id.
pub add_to_waiting-IsWaiting :
    (time : ℕ) (msg : MessageItem) (p : Protocol)
    → IsWaiting p.waiting_messages
    → IsWaiting (add_to_waiting time msg p).waiting_messages
add_to_waiting-IsWaiting time msg p w = elim (Option-cases (lookup time others)) [
  | inl free ↦ rw ((waiting-add_to_waiting time msg p).0 free) (record {
    sorted = emplace-KeysFrom 0 time msg others (omega arith) rest.sorted;
    distinct = emplace-IsDistinct time msg others rest.distinct gone;
  })
  | inr (other, taken) ↦ rw ((waiting-add_to_waiting time msg p).1 other taken) rest
]
  where
    others : List (ℕ × MessageItem)
    others = drop_waiting (same_id (id_or_zero msg)) p.waiting_messages

    rest : IsWaiting others
    rest = record {
      sorted = drop-KeysFrom 0 (id_or_zero msg) p.waiting_messages w.sorted;
      distinct = drop-IsDistinct (id_or_zero msg) p.waiting_messages w.distinct;
    }

    gone : waits (id_or_zero msg) others ≡ false
    gone = waits-drop_self (id_or_zero msg) p.waiting_messages w.distinct

-- A message that is to wait until a time at which another, with another id, waits already is waiting
-- nowhere after `add_to_waiting`. The list is in the order of time, with no two messages under one id.
pub add_to_waiting_taken :
    (time : ℕ) (msg other : MessageItem) (p : Protocol)
    → IsWaiting p.waiting_messages
    → lookup time p.waiting_messages ≡ some other
    → (id_or_zero other == id_or_zero msg) ≡ false
    → waits (id_or_zero msg) (add_to_waiting time msg p).waiting_messages ≡ false
add_to_waiting_taken time msg other p w taken apart =
    rw
      ((waiting-add_to_waiting time msg p).1 other
        (lookup-drop_other (id_or_zero msg) time other p.waiting_messages taken apart))
      (waits-drop_self (id_or_zero msg) p.waiting_messages w.distinct)
