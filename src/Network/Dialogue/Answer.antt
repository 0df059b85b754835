-- ===== src/Network/Dialogue/Answer.antt =====
-- The fragment that answers a query, from the sender to the receiver. See `process_fragment_query`,
-- `prepare_packet_to_send` and `internal_process_message` in Network/net_protocol.cpp.
use helpz.Prelude.{
  ℕ, ◌+◌, ◌-◌, ◌%◌, ◌^◌, min, ◌<◌, ◌≡◌, refl, ap, ◌∙◌, true, false, none, some, [], ◌∷◌, ◌++◌,
  append_assoc, arith, ltb, lt→ltb, leb, ◌==◌, ==_refl, length, take, drop, Bytes, sub32,
}
use helpz.Network.Qt.{Qt}
use helpz.Network.Message.{Buffer, MessageItem, set_fragment_size, seconds}
use helpz.Network.Protocol.{
  Protocol, Writer, write, add_timeout, emit, send_message, request_timeout, fragment_flag,
}
use helpz.Network.Waiting.{
  id_or_zero, find_waiting, drop_waiting, pop_waiting_fragment, add_to_waiting,
}
use helpz.Network.Packet.{
  draft, raw_data, take_id, prepare_packet_to_send, wait_for_resend, resend_time, is_fragment,
  answer_flags, answer_part,
}
use helpz.Network.Receive.{
  App, process_content, process_answer_or_fragment, process_fragment, parse_sizes, take_fragment,
  process_fragment_query,
}

abbrev pub buffer : Bytes → ℕ → Buffer
buffer full pos = record { bytes = full; pos = pos }

-- A long message that answers nothing.
abbrev pub long_item : MessageItem → ℕ → ℕ → Buffer → MessageItem
long_item base id cmd d = record base {
  id = some id;
  answer_id = none;
  data_device = some d;
  cmd = cmd;
  flags = 0;
}

-- A sender at which one message waits.
abbrev pub waiting_for : Protocol → Writer → ℕ → MessageItem → Protocol
waiting_for p w time item = record p { waiting_messages = (time, item) ∷ []; writer = some w }

-- The message of a sender that offers it: nothing else waits.
pub record IsOffering (id cmd : ℕ) (full : Bytes) (s : Protocol) : Type 0 where
  pub rest : Protocol
  pub w : Writer
  pub time : ℕ
  pub base : MessageItem
  pub pos : ℕ
  pub state : s ≡ waiting_for rest w time (long_item base id cmd (buffer full pos))

module _ (qt : Qt) (app : App) where
  open qt use {device, stream}

  popped :
      (id time : ℕ) (item : MessageItem) (p : Protocol) (w : Writer)
      → item.id ≡ some id
      → pop_waiting_fragment id (waiting_for p w time item)
        ≡ (some item, record p { waiting_messages = []; writer = some w })
  unfolding pop_waiting_fragment
  popped id time item p w e =
      let passes : (id_or_zero item == id) ≡ true = rw e (==_refl id) in
      rw (pop_waiting_fragment, find_waiting, drop_waiting, passes) refl

  process_fragment_query_found :
      (id pos size : ℕ) (item : MessageItem) (d : Buffer) (s : Protocol)
      → (pop_waiting_fragment id s).0 ≡ some item
      → item.data_device ≡ some d
      → pos < length d.bytes
      → process_fragment_query qt app id pos size s ≡ (
        true,
        send_message
            (record (set_fragment_size size item) { data_device = some (record d { pos = pos }) })
            (pop_waiting_fragment id s).1,
      )
  unfolding process_fragment_query pop_waiting_fragment
  process_fragment_query_found id pos size item d s found on_device inside =
      rw (process_fragment_query, found, on_device, lt→ltb pos (length d.bytes) inside) refl

  -- The message leaves the list, and is written at the position that was asked for.
  pub process_fragment_query_answered :
      (id cmd pos at size time : ℕ) (full : Bytes) (base : MessageItem) (p : Protocol) (w : Writer)
      → pos < length full
      → process_fragment_query qt app id pos size
          (waiting_for p w time (long_item base id cmd (buffer full at)))
        ≡ (
          true,
          emit
              (write (long_item (set_fragment_size size base) id cmd (buffer full pos)))
              (record p { waiting_messages = []; writer = some w }),
        )
  unfolding send_message set_fragment_size
  process_fragment_query_answered id cmd pos at size time full base p w inside =
      let item = long_item base id cmd (buffer full at) in
      let taken = popped id time item p w refl in
      process_fragment_query_found id pos size item (buffer full at) (waiting_for p w time item)
        (ap (λ x. x.0) taken) refl inside
      ∙ ap
          (λ x. (
            true,
            send_message (long_item (set_fragment_size size base) id cmd (buffer full pos)) x.1,
          ))
          taken

  -- The bytes that the sender sends from a position on.
  abbrev pub fragment : MessageItem → ℕ → Bytes → Bytes
  fragment base pos full = take (min base.fragment_size (length full - pos)) (drop pos full)

  pub draft-fragment :
      (now id cmd pos : ℕ) (full : Bytes) (base : MessageItem)
      → length full < 2 ^ 31
      → base.fragment_size < length full
      → pos < length full
      → draft qt now (long_item base id cmd (buffer full pos)) (buffer full pos) ≡ record {
        flags = fragment_flag;
        body = stream.put_u32 (length full) ++ (stream.put_u32 pos ++ fragment base pos full);
        device = buffer full (pos + length (fragment base pos full));
        end_time = now + seconds 10;
      }
  unfolding draft is_fragment answer_part answer_flags raw_data
  draft-fragment now id cmd pos full base small long inside =
      let longer : ltb base.fragment_size (length full) ≡ true = ground arith in
      let before : leb (length full) pos ≡ false = ground arith in
      let same_size : length full % 2 ^ 32 ≡ length full = omega arith in
      let same_pos : pos % 2 ^ 32 ≡ pos = omega arith in
      let left : sub32 (length full) pos ≡ length full - pos = omega arith in
      rw (draft, longer, before, same_size, same_pos, left)
        (rw
          (append_assoc (stream.put_u32 (length full)) (stream.put_u32 pos)
            (fragment base pos full))
          refl)

  -- What the sender is left with when its packet is made: the message waits again.
  pub answer_prepared :
      (now id cmd pos : ℕ) (full : Bytes) (base : MessageItem) (p : Protocol) (w : Writer)
      → length full < 2 ^ 31
      → base.fragment_size < length full
      → pos < length full
      → IsOffering id cmd full
          (prepare_packet_to_send qt now
            (long_item base id cmd (buffer full pos))
            (record p { waiting_messages = []; writer = some w })).1
  unfolding prepare_packet_to_send take_id wait_for_resend add_to_waiting request_timeout
  answer_prepared now id cmd pos full base p w small long inside =
      let ends_later : ltb now (now + seconds 10) ≡ true = ground arith in
      let behind = pos + length (fragment base pos full) in
      let later = record base { end_time = now + seconds 10 } in
      let time = resend_time now (long_item later id cmd (buffer full behind)) in
      rw
        (
          prepare_packet_to_send,
          draft-fragment now id cmd pos full base small long inside,
          wait_for_resend,
          ends_later,
        )
        (record {
          rest = record p {
            last_msg_send_time = now;
            log = p.log ++ (add_timeout time false ∷ []);
          };
          w = w;
          time = time;
          base = later;
          pos = behind;
          state = refl;
        })

  -- The receiver reads the sizes, and takes the bytes behind them.
  pub process_content-fragment :
      (now msg_id cmd pos size : ℕ) (bytes : Bytes) (r : Protocol)
      → (cmd == 2) ≡ false
      → pos < size
      → size < 2 ^ 31
      → process_content qt app now msg_id cmd fragment_flag
          (stream.put_u32 size ++ (stream.put_u32 pos ++ bytes))
          r
        ≡ take_fragment qt app now msg_id cmd none size pos 0 bytes r
  unfolding process_content process_answer_or_fragment process_fragment parse_sizes
  process_content-fragment now msg_id cmd pos size bytes r other inside small =
      rw
        (
          other,
          process_answer_or_fragment,
          process_fragment,
          parse_sizes,
          stream.get-u32 size (stream.put_u32 pos ++ bytes) (omega arith),
          stream.get-u32 pos bytes (omega arith),
          let differ : (size == pos) ≡ false = ground arith in differ,
        )
        refl
