-- ===== src/Network/Receive.antt =====
-- What a receiver does with one message: `internal_process_message` and `process_fragment_query` in
-- Network/net_protocol.cpp.
pub mod Frame
use helpz.Prelude.{
  ℕ, ◌+◌, ◌/◌, Bool, true, false, not, ◌&&◌, ◌||◌, Option, none, some, List, [], ◌∷◌, ◌++◌, ltb,
  leb, ◌==◌, if◌then◌else◌, ◌>>=◌, length, drop, lookup, emplace, assign, erase, Bytes, add32,
  has_flag,
}
use helpz.Network.Qt.{Qt, DataStream, Device}
use helpz.Network.Message.{
  Buffer, MessageItem, set_fragment_size, seconds, ms, protocol_max_message_size,
  max_packet_data_size, max_message_data_size,
}
use helpz.Network.Fragment.{
  FragmentedMessage, fragmented_message, add_data, is_parts_empty, get_next_part,
}
use helpz.Network.Sender.{send_with}
use helpz.Network.Protocol.{
  Protocol, Event, answered, process_message, process_answer_message, emit, destroy, send_message,
  request_timeout, repeated_flag, fragment_flag, fragment_query_flag, answer_flag, compressed_flag,
  ping_cmd, remove_fragment_cmd,
}
use helpz.Network.Waiting.{pop_waiting_answer, pop_waiting_fragment, share_waiting, destroy_popped}
use helpz.Network.Sequence.{accept_id}

-- The program that derives from `Protocol` and sets the callbacks: which calls of it throw. And which
-- devices of fragments cannot be opened.
pub record App : Type 0 where
  pub throws : Event → Bool
  pub open_fails : FragmentedMessage → Bool

-- A call that may throw: whether it returns, and the state.
abbrev pub Attempt : Type 0
Attempt = Bool × Protocol

-- The entry of the map, or a new one. A size to ask for that is 0 or too big is replaced.
unfoldable pub find_fragmented : ℕ → ℕ → ℕ → ℕ → Protocol → FragmentedMessage
find_fragmented msg_id cmd max_fragment_size full_size p =
    elim (lookup msg_id p.fragmented_messages) [
      | some msg ↦ msg
      | none ↦
          fragmented_message msg_id cmd
            (if (max_fragment_size == 0) || ltb max_packet_data_size max_fragment_size
              then max_message_data_size
              else max_fragment_size)
            full_size
    ]

-- A fragment that came in time lets the next ones grow by a fifth, up to the size of a message.
unfoldable pub grow : ℕ → ℕ
grow size =
    if ltb size max_message_data_size
    then if ltb max_message_data_size (add32 size (size / 5))
      then max_message_data_size
      else add32 size (size / 5)
    else size

-- `emplace`, and the assignment if the key is there.
unfoldable pub put_lost : ℕ → ℕ → List (ℕ × ℕ) → List (ℕ × ℕ)
put_lost id now lost = elim (lookup id lost) [
  | none ↦ emplace id now lost
  | some _ ↦ assign id now lost
]

unfoldable pub put_fragmented : FragmentedMessage → ℕ → Protocol → Protocol
put_fragmented msg id p = record p {
  fragmented_messages = elim (lookup id p.fragmented_messages) [
    | none ↦ emplace id msg p.fragmented_messages
    | some _ ↦ assign id msg p.fragmented_messages
  ];
}

-- The body of a fragment query.
unfoldable pub query_bytes : Qt → ℕ → ℕ → ℕ → Bytes
query_bytes qt msg_id a b = qt.stream.put_u8 msg_id ++ (qt.stream.put_u32 a ++ qt.stream.put_u32 b)

module _ (qt : Qt) (app : App) where
  open qt use {device, stream, packing}

  unfoldable pub call : Event → Protocol → Attempt
  unfolding emit
  call e p = (not (app.throws e), emit e p)

  -- A message that came as an answer meets the one that waits for it. The callback is cleared when it
  -- has returned, and the message goes in any case.
  unfoldable pub answer_waiting : MessageItem → Bytes → Protocol → Attempt
  unfolding call destroy
  answer_waiting msg bytes p =
      let (returns, q) = call (answered msg bytes) p in
      (returns, destroy (record msg { answer_func = msg.answer_func && not returns }) q)

  unfoldable pub process_answer : ℕ → ℕ → Bytes → Protocol → Attempt
  unfolding answer_waiting pop_waiting_answer destroy
  process_answer answer_id cmd bytes p =
      let (waiting, q) = pop_waiting_answer answer_id cmd p in
      elim waiting [
        | none ↦ (true, q)
        | some msg ↦
            if msg.answer_func then answer_waiting msg (drop 1 bytes) q else (true, destroy msg q)
      ]

  -- A message with all its parts is handed over.
  unfoldable pub deliver : ℕ → ℕ → Option ℕ → Bytes → Protocol → Attempt
  unfolding call answer_waiting pop_waiting_answer destroy destroy_popped
  deliver msg_id cmd answer_id bytes p = elim answer_id [
    | none ↦ call (process_message msg_id cmd bytes) p
    | some id ↦
        let (waiting, q) = pop_waiting_answer id cmd p in
        let (returns, r) = call (process_answer_message msg_id cmd bytes) q in
        elim waiting [
          | none ↦ (returns, r)
          | some msg ↦
              if msg.answer_func then answer_waiting msg bytes q else (returns, destroy msg r)
        ]
  ]

  -- The last fragment: the message is delivered and leaves the map, and the reply tells the sender. If
  -- the program throws, the message stays, and the reply goes all the same.
  unfoldable pub finish_fragmented : ℕ → ℕ → Option ℕ → ℕ → FragmentedMessage → Protocol → Attempt
  finish_fragmented msg_id cmd answer_id full_size msg p =
      let (returns, q) = deliver msg_id cmd answer_id msg.data_device p in
      let r =
        if returns
        then record q { fragmented_messages = erase msg_id q.fragmented_messages }
        else q in
      (
        returns,
        send_with device cmd none fragment_query_flag
            (query_bytes qt msg_id full_size msg.max_fragment_size) r,
      )

  -- Parts are missing: the next is asked for, and again after 1.5 s.
  unfoldable pub ask_next_part : ℕ → ℕ → ℕ → FragmentedMessage → Protocol → Attempt
  unfolding query_bytes send_with request_timeout put_lost put_fragmented grow
  ask_next_part now msg_id cmd msg p =
      let next = record msg {
        last_part_time = now;
        max_fragment_size = grow msg.max_fragment_size;
      } in
      let (pos, size) = get_next_part next in
      let q =
        put_fragmented next msg_id
          (record p { lost_msg_list = put_lost msg_id now p.lost_msg_list }) in
      (
        true,
        send_with device cmd none fragment_query_flag (query_bytes qt msg_id pos size)
            (request_timeout (now + ms 1505) true q),
      )

  unfoldable pub add_bytes : ℕ → Bytes → FragmentedMessage → FragmentedMessage
  add_bytes pos [] msg = msg
  add_bytes pos (b ∷ bytes) msg = add_data device msg pos (b ∷ bytes)

  unfoldable pub take_fragment : ℕ → ℕ → ℕ → Option ℕ → ℕ → ℕ → ℕ → Bytes → Protocol → Attempt
  take_fragment now msg_id cmd answer_id full_size pos max_fragment_size bytes p =
      let found = find_fragmented msg_id cmd max_fragment_size full_size p in
      let msg = add_bytes pos bytes found in
      let q = put_fragmented msg msg_id p in
      if leb protocol_max_message_size full_size || app.open_fails found
      then (true, record p { fragmented_messages = erase msg_id p.fragmented_messages })
      else if is_parts_empty msg
      then finish_fragmented msg_id cmd answer_id full_size msg q
      else ask_next_part now msg_id cmd msg q

  -- The sizes of a fragment, then its bytes. A fragment at the end offers the message, and carries the
  -- size to ask for.
  unfoldable pub parse_sizes : Bytes → Option (ℕ × ℕ × ℕ × Bytes)
  parse_sizes bytes = do
    (full_size, b) ← stream.get_u32 bytes
    (pos, c) ← stream.get_u32 b
    let offer = do (size, d) ← stream.get_u32 c; some (full_size, pos, size, d)
    if full_size == pos then offer else some (full_size, pos, 0, c)

  unfoldable pub process_fragment : ℕ → ℕ → ℕ → Option ℕ → Bytes → Protocol → Attempt
  process_fragment now msg_id cmd answer_id bytes p = elim (parse_sizes bytes) [
    | none ↦ (false, p)
    | some (full_size, pos, size, rest) ↦
        take_fragment now msg_id cmd answer_id full_size pos size rest p
  ]

  -- `process_fragment_query`: the message that waits is sent on from the position that is asked for. One
  -- that is not there, or too short, is taken back.
  unfoldable pub process_fragment_query : ℕ → ℕ → ℕ → Protocol → Attempt
  unfolding pop_waiting_fragment send_message send_with share_waiting set_fragment_size destroy
  process_fragment_query fragmented_msg_id pos fragmented_size p =
      let (waiting, q) = pop_waiting_fragment fragmented_msg_id p in
      let refuse = send_with device remove_fragment_cmd none 0 (stream.put_u8 fragmented_msg_id) in
      elim waiting [
        | none ↦ (true, refuse q)
        | some msg ↦
            let (kept, r) = share_waiting msg.end_time msg q in
            let waits = if kept then refuse r else destroy msg (refuse r) in
            let back = if msg.answer_func then waits else destroy msg (refuse q) in
            elim msg.data_device [
              | none ↦ (true, back)
              | some d ↦
                  if ltb pos (length d.bytes)
                  then (
                    true,
                    send_message
                        (record (set_fragment_size fragmented_size msg) {
                          data_device = some (record d { pos = pos });
                        })
                        q,
                  )
                  else (true, back)
            ]
      ]

  unfoldable pub parse_query : Bytes → Option (ℕ × ℕ × ℕ)
  parse_query bytes = do
    (id, b) ← stream.get_u8 bytes
    (pos, c) ← stream.get_u32 b
    (size, d) ← stream.get_u32 c
    some (id, pos, size)

  unfoldable pub apply_query : Bytes → Protocol → Attempt
  apply_query bytes p = elim (parse_query bytes) [
    | none ↦ (false, p)
    | some (id, pos, size) ↦ process_fragment_query id pos size p
  ]

  -- The answer id stands first.
  unfoldable pub process_answer_or_fragment : ℕ → ℕ → ℕ → ℕ → Bytes → Protocol → Attempt
  process_answer_or_fragment now msg_id cmd flags bytes p =
      if has_flag answer_flag flags
      then elim (stream.get_u8 bytes) [
        | none ↦ (false, p)
        | some (answer_id, rest) ↦
            if has_flag fragment_flag flags
            then process_fragment now msg_id cmd (some answer_id) rest p
            else process_answer answer_id cmd bytes p
      ]
      else process_fragment now msg_id cmd none bytes p

  unfoldable pub remove_fragment : Bytes → Protocol → Attempt
  remove_fragment bytes p = elim (stream.get_u8 bytes) [
    | none ↦ (false, p)
    | some (id, rest) ↦ (true, record p { fragmented_messages = erase id p.fragmented_messages })
  ]

  -- A message without its compression.
  unfoldable pub process_content : ℕ → ℕ → ℕ → ℕ → Bytes → Protocol → Attempt
  process_content now msg_id cmd flags bytes p =
      if cmd == remove_fragment_cmd
      then remove_fragment bytes p
      else if has_flag fragment_query_flag flags
      then apply_query bytes p
      else if has_flag fragment_flag flags || has_flag answer_flag flags
      then process_answer_or_fragment now msg_id cmd flags bytes p
      else if cmd == ping_cmd
      then (true, send_with device cmd (some msg_id) 0 [] p)
      else call (process_message msg_id cmd bytes) p

  -- `internal_process_message`. It throws (the result is false) where the bytes are too few for what
  -- they should hold, where they do not decompress, and where the program does.
  unfoldable pub internal_process_message : ℕ → ℕ → ℕ → ℕ → Bytes → Protocol → Attempt
  internal_process_message now msg_id cmd flags payload p =
      let (accepted, q) = accept_id now msg_id flags p in
      let plain = packing.uncompress payload in
      if not accepted
      then (true, q)
      else if (length payload == 0)
          && (has_flag compressed_flag flags || has_flag fragment_flag flags)
      then (true, q)
      else if has_flag compressed_flag flags
      then if length plain == 0 then (false, q) else process_content now msg_id cmd flags plain q
      else process_content now msg_id cmd flags payload q
