-- ===== src/Network/Timeouts/Outcomes.antt =====
-- What becomes of the messages whose time has come, and of the fragments that stalled.
use helpz.Prelude.{
  ◌≡◌, refl, ap, ap₂, ◌∙◌, inl, inr, false, not, none, some, sym, take, length, KeysFrom, ◌≤◌, ◌<◌,
  List, [], ◌∷◌, ◌++◌, map, ℕ, ◌%◌, ◌/◌, ◌+◌, min, max, leb, ◌==◌, ltb, append-nil, append_assoc,
  arith, if◌then◌else◌, Bool-cases, Option-cases, All,
}
use helpz.Network.Qt.{Qt}
use helpz.Network.Message.{MessageItem}
use helpz.Network.Fragment.{FragmentedMessage, is_parts_empty}
use helpz.Network.Protocol.{
  Protocol, Writer, Event, write, timed_out, finally, emit, destroy, send_message,
}
use helpz.Network.Waiting.{due_messages, later_messages, pop_waiting_messages}
use helpz.Network.Waiting.Due.{split_due}
use helpz.Network.Timeouts.{
  shrink, is_stalled, ask_again, ask_stalled, process_fragment_timeout, is_alive, repeat,
  process_due, destroy_expired, process_message_timeout,
}

-- What the loop does with one message: it goes again, or its timeout callback is called.
abbrev pub outcome : ℕ → MessageItem → List Event
outcome now msg =
    if is_alive now msg
    then write (repeat msg) ∷ []
    else if msg.timeout_func
    then timed_out msg ∷ []
    else []

-- And what it does when the message goes.
abbrev pub farewell : ℕ → MessageItem → List Event
farewell now msg =
    if is_alive now msg
    then []
    else if msg.finally_func
    then finally msg (not msg.answer_func) ∷ []
    else []

abbrev pub all_events : (MessageItem → List Event) → List MessageItem → List Event
all_events f [] = []
all_events f (msg ∷ rest) = f msg ++ all_events f rest

process_one :
    (now : ℕ) (msg : MessageItem) (p : Protocol) (w : Writer)
    → p.writer ≡ some w
    → (if is_alive now msg
        then send_message (repeat msg) p
        else if msg.timeout_func
        then emit (timed_out msg) p
        else p)
      ≡ record p { log = p.log ++ outcome now msg }
unfolding is_alive send_message emit repeat
process_one now msg p w e = elim (Option-cases msg.data_device) [
  | inl d ↦ ground (arith, d, e, append-nil p.log)
  | inr (b, d) ↦ ground (arith, d, e, append-nil p.log)
]

process_due-log :
    (now : ℕ) (messages : List MessageItem) (p : Protocol) (w : Writer)
    → p.writer ≡ some w
    → process_due now messages p ≡ record p { log = p.log ++ all_events (outcome now) messages }
unfolding process_due
process_due-log now [] p w e = ground (arith, append-nil p.log)
process_due-log now (msg ∷ rest) p w e = rw (process_one now msg p w e) (
    process_due-log now rest (record p { log = p.log ++ outcome now msg }) w e
    ∙ ap (λ (l : List Event). record p { log = l })
        (append_assoc p.log (outcome now msg) (all_events (outcome now) rest)))

destroy_one :
    (now : ℕ) (msg : MessageItem) (p : Protocol)
    → (if is_alive now msg then p else destroy msg p) ≡ record p { log = p.log ++ farewell now msg }
unfolding destroy
destroy_one now msg p = ground (arith, append-nil p.log)

destroy_expired-log :
    (now : ℕ) (messages : List MessageItem) (p : Protocol)
    → destroy_expired now messages p
      ≡ record p { log = p.log ++ all_events (farewell now) messages }
unfolding destroy_expired
destroy_expired-log now [] p = ground (arith, append-nil p.log)
destroy_expired-log now (msg ∷ rest) p = rw (destroy_one now msg p) (
    destroy_expired-log now rest (record p { log = p.log ++ farewell now msg })
    ∙ ap (λ (l : List Event). record p { log = l })
        (append_assoc p.log (farewell now msg) (all_events (farewell now) rest)))

-- A message as it goes again: half the fragment size, but 32 at least and what a packet holds at most, and
-- the flag REPEATED, which is 8.
abbrev pub resent : MessageItem → MessageItem
resent msg = record msg {
  fragment_size = min (max (msg.fragment_size / 2) 32) 65490;
  flags = if msg.flags / 8 % 2 == 1 then msg.flags else msg.flags + 8;
}

-- What is done with a message: with time left and a device it is written again, else its timeout callback
-- is called if it has one.
abbrev pub treatment : ℕ → MessageItem → List Event
treatment now msg = elim msg.data_device [
  | none ↦ if msg.timeout_func then timed_out msg ∷ [] else []
  | some device ↦
      if leb msg.end_time now
      then if msg.timeout_func then timed_out msg ∷ [] else []
      else write (resent msg) ∷ []
]

-- And when it is let go: its final callback, if it has one.
abbrev pub parting : ℕ → MessageItem → List Event
parting now msg = elim msg.data_device [
  | none ↦ if msg.finally_func then finally msg (not msg.answer_func) ∷ [] else []
  | some device ↦
      if leb msg.end_time now
      then if msg.finally_func then finally msg (not msg.answer_func) ∷ [] else []
      else []
]

kept_size :
    (n : ℕ) → (if ltb n 32 then 32 else if ltb 65490 n then 65490 else n) ≡ min (max n 32) 65490
kept_size n = ground arith

repeat_lem : (msg : MessageItem) → repeat msg ≡ resent msg
unfolding repeat
repeat_lem msg =
    ap
      (λ (size : ℕ). record msg {
        flags = if msg.flags / 8 % 2 == 1 then msg.flags else msg.flags + 8;
        fragment_size = size;
      })
      (kept_size (msg.fragment_size / 2))

outcome_lem : (now : ℕ) (msg : MessageItem) → outcome now msg ≡ treatment now msg
unfolding is_alive
outcome_lem now msg = elim (Option-cases msg.data_device) [
  | inl d ↦ ground (arith, d)
  | inr (b, d) ↦ ground (arith, d, repeat_lem msg)
]

farewell_lem : (now : ℕ) (msg : MessageItem) → farewell now msg ≡ parting now msg
unfolding is_alive
farewell_lem now msg = elim (Option-cases msg.data_device) [
  | inl d ↦ ground (arith, d)
  | inr (b, d) ↦ ground (arith, d)
]

all_events-map :
    (f g : MessageItem → List Event) (messages : List MessageItem)
    → ((msg : MessageItem) → f msg ≡ g msg)
    → all_events f messages ≡ all_events g messages
all_events-map f g [] h = refl
all_events-map f g (msg ∷ rest) h = ap₂ ◌++◌ (h msg) (all_events-map f g rest h)

process_message_timeout-log :
    (now : ℕ) (p : Protocol) (w : Writer)
    → p.writer ≡ some w
    → let (messages, q) = pop_waiting_messages now p in
      process_message_timeout now p ≡ record q {
        log = (p.log ++ all_events (outcome now) messages) ++ all_events (farewell now) messages;
      }
unfolding process_message_timeout pop_waiting_messages
process_message_timeout-log now p w e =
    let (messages, q) = pop_waiting_messages now p in
    rw (process_due-log now messages q w e) (destroy_expired-log now messages _)

-- At a timeout the messages whose time comes within 20 ms leave the waiting list, and the others stay. Of
-- those that leave, in the order of the list, one with time left and a device is written again, marked as
-- repeated and with half the fragment size, which is 32 at least and 65490 at most; another one gets its
-- timeout callback if it has one. The final callbacks of these others come last. Nothing else changes. There
-- is a writer, and the list is in the order of time.
pub process_message_timeout_lem :
    (now : ℕ) (p : Protocol) (w : Writer)
    → p.writer ≡ some w
    → KeysFrom 0 p.waiting_messages
    → (due later : List (ℕ × MessageItem)) × (p.waiting_messages ≡ due ++ later)
      × All (λ e. e.0 ≤ now + 20000000) due
      × All (λ e. now + 20000000 < e.0) later
      × (let messages = map (λ (e : ℕ × MessageItem). e.1) due in
          process_message_timeout now p ≡ record p {
            waiting_messages = later;
            log =
                (p.log ++ all_events (treatment now) messages) ++ all_events (parting now) messages;
          })
unfolding pop_waiting_messages
process_message_timeout_lem now p w e sorted =
    let ws = p.waiting_messages in
    let messages = due_messages (now + 20000000) ws in
    let due = take (length messages) ws in
    let later = later_messages (now + 20000000) ws in
    let split = split_due (now + 20000000) 0 ws sorted in
    (
      due,
      later,
      split.0,
      split.2,
      split.3,
      process_message_timeout-log now p w e
          ∙ (ap₂
                (λ (a b : List Event). record p {
                  waiting_messages = later;
                  log = (p.log ++ a) ++ b;
                })
                (all_events-map (outcome now) (treatment now) messages (outcome_lem now))
                (all_events-map (farewell now) (parting now) messages (farewell_lem now))
              ∙ ap
                  (λ (ms : List MessageItem). record p {
                    waiting_messages = later;
                    log = (p.log ++ all_events (treatment now) ms) ++ all_events (parting now) ms;
                  })
                  (sym split.1)),
    )

-- A stalled message asks for its part again, in half the size.
abbrev pub asked_again : ℕ → FragmentedMessage → FragmentedMessage
asked_again now msg =
    if is_stalled now msg
    then record msg { max_fragment_size = shrink msg.max_fragment_size; last_part_time = now }
    else msg

module _ (qt : Qt) where
  ask_again_fst :
      (now : ℕ) (msg : FragmentedMessage) (p : Protocol)
      → (ask_again qt now msg p).0
        ≡ record msg { max_fragment_size = shrink msg.max_fragment_size; last_part_time = now }
  unfolding ask_again
  ask_again_fst now msg p = refl

  ask_stalled_fst :
      (now : ℕ) (ms : List (ℕ × FragmentedMessage)) (p : Protocol)
      → (ask_stalled qt now ms p).0
        ≡ map (λ (e : ℕ × FragmentedMessage). (e.0, asked_again now e.1)) ms
  unfolding ask_stalled
  ask_stalled_fst now [] p = refl
  ask_stalled_fst now ((id, msg) ∷ rest) p = elim (Bool-cases (is_stalled now msg)) [
    | inl e ↦ rw e (
        ap₂ ◌∷◌ (ap (λ m. (id, m)) (ask_again_fst now msg p))
          (ask_stalled_fst now rest (ask_again qt now msg p).1))
    | inr e ↦ rw e (ap (◌∷◌ (id, msg)) (ask_stalled_fst now rest p))
  ]

  -- At a timeout of fragments, of the messages in fragments those that stalled, and only those, are
  -- changed: the size to ask for is halved, down to 128, and the time set.
  pub process_fragment_timeout_lem :
      (now : ℕ) (p : Protocol)
      → (process_fragment_timeout qt now p).fragmented_messages
        ≡ map (λ (e : ℕ × FragmentedMessage). (e.0, asked_again now e.1)) p.fragmented_messages
  unfolding process_fragment_timeout
  process_fragment_timeout_lem now p = ask_stalled_fst now p.fragmented_messages p

  none_stalled :
      (now : ℕ) (ms : List (ℕ × FragmentedMessage))
      → All
          (λ (e : ℕ × FragmentedMessage). is_stalled now e.1 ≡ false)
          (map (λ (e : ℕ × FragmentedMessage). (e.0, asked_again now e.1)) ms)
  unfolding is_stalled is_parts_empty
  none_stalled now [] = tt
  none_stalled now ((id, msg) ∷ rest) = (ground arith, none_stalled now rest)

  -- After a timeout of fragments no message in fragments is stalled at that time.
  pub process_fragment_timeout_rests :
      (now : ℕ) (p : Protocol)
      → All
          (λ e. is_stalled now e.1 ≡ false)
          (process_fragment_timeout qt now p).fragmented_messages
  process_fragment_timeout_rests now p =
      rw (process_fragment_timeout_lem now p) (none_stalled now p.fragmented_messages)
