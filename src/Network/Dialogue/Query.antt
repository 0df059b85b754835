-- ===== src/Network/Dialogue/Query.antt =====
-- The query for a fragment, from the receiver to the sender. See `process_fragment_query` in
-- Network/net_protocol.cpp.
use helpz.Prelude.{
  ℕ, ◌+◌, ◌%◌, ◌^◌, ◌≤◌, ◌<◌, ◌≡◌, refl, sym, ap, ◌∙◌, inl, inr, ◌⊎◌, false, none, some, List, [],
  ◌∷◌, ◌++◌, append-nil, arith, Bool-cases, ltb, ◌==◌, length, get_elem?, list_ext, length-append,
  get_elem?-none, Bytes,
}
use helpz.Network.Qt.{Qt, Device}
use helpz.Network.Message.{Buffer, MessageItem, max_message_data_size, ms}
use helpz.Network.Protocol.{Protocol, Event, Writer, write, emit, fragment_query_flag}
use helpz.Network.Sender.{send_with}
use helpz.Network.Packet.{
  draft, take_id, prepare_packet_to_send, wait_for_resend, is_fragment, answer_flags, answer_part,
}
use helpz.Network.Packet.Roundtrip.{draft_whole}
use helpz.Network.Receive.{
  App, query_bytes, parse_query, apply_query, process_content, process_fragment_query,
}
use helpz.Network.Dialogue.{last_write, hand_over}

pub last_write-append :
    (log : List Event) (msg : MessageItem) → last_write (log ++ (write msg ∷ [])) ≡ some msg
unfolding last_write
last_write-append [] msg = refl
last_write-append (e ∷ log) msg = rw (last_write-append log msg) refl

lt_or_le : (i n : ℕ) → (i < n) ⊎ (n ≤ i)
lt_or_le i n = elim (Bool-cases (ltb i n)) [
  | inl h ↦ inl (ground (arith, h))
  | inr h ↦ inr (ground (arith, h))
]

-- What is written to an empty device is all that it holds.
written_first :
    (device : Device) (bytes : Bytes) → 0 < length bytes → device.write_at [] 0 bytes ≡ bytes
written_first device bytes h = list_ext _ _ same
  where
    size : length (device.write_at [] 0 bytes) ≡ length bytes
    size = omega (arith, device.size [] 0 bytes h)

    same : (i : ℕ) → get_elem? (device.write_at [] 0 bytes) i ≡ get_elem? bytes i
    same i = elim (lt_or_le i (length bytes)) [
      | inl lt ↦
          ap (get_elem? (device.write_at [] 0 bytes)) (omega arith) ∙ device.written [] 0 bytes i lt
      | inr le ↦
          get_elem?-none (device.write_at [] 0 bytes) i (omega (arith, size, le))
          ∙ sym (get_elem?-none bytes i le)
    ]

module _ (qt : Qt) where
  open qt use {device, stream}

  abbrev pub query_device : ℕ → ℕ → ℕ → Buffer
  query_device id pos size = record {
    bytes = query_bytes qt id pos size;
    pos = length (query_bytes qt id pos size);
  }

  -- The message of a query.
  abbrev pub query : ℕ → ℕ → ℕ → ℕ → MessageItem
  query cmd id pos size = record {
    id = none;
    answer_id = none;
    resend_timeout = ms 3000;
    end_time = 0;
    data_device = some (query_device id pos size);
    answer_func = false;
    timeout_func = false;
    finally_func = false;
    cmd = cmd;
    flags = fragment_query_flag;
    fragment_size = max_message_data_size;
    min_compress_size = 512;
  }

  length-query_bytes : (id pos size : ℕ) → length (query_bytes qt id pos size) ≡ 9
  unfolding query_bytes
  length-query_bytes id pos size = omega (
    arith,
    length-append (stream.put_u8 id) (stream.put_u32 pos ++ stream.put_u32 size),
    length-append (stream.put_u32 pos) (stream.put_u32 size),
    stream.length-u8 id,
    stream.length-u32 pos,
    stream.length-u32 size,
  )

  -- A query that a side with a writer sends is written.
  pub send_with-query :
      (cmd id pos size : ℕ) (w : Writer) (p : Protocol)
      → p.writer ≡ some w
      → send_with device cmd none fragment_query_flag (query_bytes qt id pos size) p
        ≡ emit (write (query cmd id pos size)) p
  unfolding send_with
  send_with-query cmd id pos size w p h =
      rw (send_with, h)
        (rw
          (written_first device (query_bytes qt id pos size)
            (omega (arith, length-query_bytes id pos size)))
          refl)

  query_whole :
      (cmd id pos size : ℕ) → is_fragment (query cmd id pos size) (query_device id pos size) ≡ false
  unfolding is_fragment
  query_whole cmd id pos size = ground (arith, length-query_bytes id pos size)

  draft-query :
      (now cmd id pos size : ℕ)
      → let out = draft qt now (query cmd id pos size) (query_device id pos size) in
        (out.flags ≡ fragment_query_flag)
        × ((out.body ≡ query_bytes qt id pos size) × (out.end_time ≡ 0))
  unfolding draft answer_part answer_flags
  draft-query now cmd id pos size =
      let nine = length-query_bytes id pos size in
      (
        rw (draft, query_whole cmd id pos size) refl,
        (
          draft_whole qt now (query cmd id pos size) (query_device id pos size)
              (omega (arith, nine)) (omega (arith, nine)),
          rw (draft, query_whole cmd id pos size) refl,
        ),
      )

  never : (now : ℕ) → ltb now 0 ≡ false
  never now = ground arith

  -- A side that has sent a message that waits for nothing.
  abbrev pub sent : ℕ → Protocol → Protocol
  sent now p = record p { next_tx_msg_id = (p.next_tx_msg_id + 1) % 256; last_msg_send_time = now }

  prepare_packet_to_send-query :
      (now cmd id pos size : ℕ) (p : Protocol)
      → (prepare_packet_to_send qt now (query cmd id pos size) p).1 ≡ sent now p
  unfolding prepare_packet_to_send take_id wait_for_resend draft is_fragment
  prepare_packet_to_send-query now cmd id pos size p =
      let out = draft-query now cmd id pos size in
      rw (prepare_packet_to_send, wait_for_resend, out.1.1, never now) refl

  module _ (app : App) where
    parse-query :
        (id pos size : ℕ)
        → id < 2 ^ 8
        → pos < 2 ^ 32
        → size < 2 ^ 32
        → parse_query qt app (query_bytes qt id pos size) ≡ some (id, pos, size)
    unfolding parse_query query_bytes
    parse-query id pos size small_id small_pos small_size =
        let last =
          ap stream.get_u32 (sym (append-nil (stream.put_u32 size)))
          ∙ stream.get-u32 size [] small_size in
        rw
          (
            stream.get-u8 id (stream.put_u32 pos ++ stream.put_u32 size) small_id,
            stream.get-u32 pos (stream.put_u32 size) small_pos,
            last,
          )
          refl

    process_content-query_bytes :
        (now msg_id cmd id pos size : ℕ) (p : Protocol)
        → (cmd == 2) ≡ false
        → id < 2 ^ 8
        → pos < 2 ^ 32
        → size < 2 ^ 32
        → process_content qt app now msg_id cmd fragment_query_flag (query_bytes qt id pos size) p
          ≡ process_fragment_query qt app id pos size p
    unfolding process_content apply_query
    process_content-query_bytes now msg_id cmd id pos size p other small_id small_pos small_size =
        rw (other, apply_query, parse-query id pos size small_id small_pos small_size) refl

    -- The side that wrote a query last sends it, and the other one looks for the message.
    pub query_over :
        (now cmd id pos size : ℕ) (from to : Protocol)
        → last_write from.log ≡ some (query cmd id pos size)
        → (cmd == 2) ≡ false
        → id < 2 ^ 8
        → pos < 2 ^ 32
        → size < 2 ^ 32
        → hand_over qt app now from to
          ≡ (sent now from, (process_fragment_query qt app id pos size to).1)
    unfolding hand_over
    query_over now cmd id pos size from to e other small_id small_pos small_size =
        let out = draft-query now cmd id pos size in
        rw
          (
            hand_over,
            e,
            prepare_packet_to_send-query now cmd id pos size from,
            out.0,
            out.1.0,
            process_content-query_bytes now (take_id (query cmd id pos size) from).0 cmd id pos size
                to other small_id small_pos small_size,
          )
          refl
