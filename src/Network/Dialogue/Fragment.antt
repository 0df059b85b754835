-- ===== src/Network/Dialogue/Fragment.antt =====
-- What a receiver that waits for parts of a message does with a fragment. See
-- `internal_process_message` in Network/net_protocol.cpp.
use helpz.Prelude.{
  ℕ, ◌+◌, ◌^◌, ◌<◌, ◌≡◌, ◌≢◌, refl, sym, ap, ◌∙◌, true, false, Option, none, some, List, [], ◌∷◌,
  ◌++◌, append_assoc, append-nil, arith, leb, if◌then◌else◌, length, lookup, erase, KeysFrom,
  lookup-assign, assign-KeysFrom, lookup-erase, Bytes,
}
use helpz.Network.Qt.{Qt}
use helpz.Network.Message.{ms, max_message_data_size, protocol_max_message_size}
use helpz.Network.Protocol.{
  Protocol, Event, Writer, write, add_timeout, process_message, emit, request_timeout,
  fragment_query_flag,
}
use helpz.Network.Sender.{send_with}
use helpz.Network.Fragment.{FragmentedMessage, is_parts_empty, add_data, get_next_part}
use helpz.Network.Fragment.Reassembly.{IsConsistent}
use helpz.Network.Receive.{
  App, query_bytes, find_fragmented, grow, put_fragmented, put_lost, call, deliver,
  finish_fragmented, ask_next_part, add_bytes, take_fragment,
}
use helpz.Network.Dialogue.{last_write, deliveries, delivery}
use helpz.Network.Dialogue.Query.{last_write-append, query, send_with-query}

pub deliveries-append :
    (log more : List Event) → deliveries (log ++ more) ≡ deliveries log ++ deliveries more
unfolding deliveries
deliveries-append [] more = refl
deliveries-append (e ∷ log) more =
    ap (λ t. delivery e ++ t) (deliveries-append log more)
    ∙ sym (append_assoc (delivery e) (deliveries log) (deliveries more))

module _ (qt : Qt) (id cmd : ℕ) (full : Bytes) where
  -- A receiver that has parts of the message, and wrote a query for the next part last.
  pub record IsAwaiting (r : Protocol) : Type 0 where
    pub w : Writer
    pub msg : FragmentedMessage
    pub has_writer : r.writer ≡ some w
    pub in_order : KeysFrom 0 r.fragmented_messages
    pub entry : lookup id r.fragmented_messages ≡ some msg
    pub consistent : IsConsistent full msg
    pub some_left : msg.part_vect ≢ []
    pub size_bounds : (0 < msg.max_fragment_size) × (msg.max_fragment_size < length full)
    pub asks : last_write r.log ≡ some (query qt cmd id (get_next_part msg).0 (get_next_part msg).1)

  -- A receiver that has delivered the message once since it had the log `before`, and has no parts of it
  -- any more.
  pub record IsDone (before : List Event) (q : Protocol) : Type 0 where
    pub delivered : deliveries q.log ≡ deliveries before ++ (process_message id cmd full ∷ [])
    pub gone : lookup id q.fragmented_messages ≡ none

pub grow_bounds :
    (size : ℕ) (full : Bytes)
    → max_message_data_size < length full
    → 0 < size
    → size < length full
    → (0 < grow size) × (grow size < length full)
unfolding grow
grow_bounds size full long h k = (ground arith, ground arith)

pub lookup-put_fragmented :
    (m old : FragmentedMessage) (id : ℕ) (p : Protocol)
    → lookup id p.fragmented_messages ≡ some old
    → KeysFrom 0 p.fragmented_messages
    → (lookup id (put_fragmented m id p).fragmented_messages ≡ some m)
      × KeysFrom 0 (put_fragmented m id p).fragmented_messages
unfolding put_fragmented
lookup-put_fragmented m old id p e k =
    rw (put_fragmented, e)
      (
        lookup-assign id m old p.fragmented_messages e,
        assign-KeysFrom 0 id m p.fragmented_messages k,
      )

module _ (qt : Qt) (app : App) where
  open qt use {device}

  add_bytes-filled :
      (pos : ℕ) (bytes : Bytes) (msg : FragmentedMessage)
      → 0 < length bytes
      → add_bytes qt app pos bytes msg ≡ add_data device msg pos bytes
  unfolding add_bytes
  add_bytes-filled pos [] msg h = absurd (omega arith)
  add_bytes-filled pos (b ∷ bytes) msg h = refl

  -- A fragment of a message that the receiver has parts of.
  pub take_fragment_found :
      (now id cmd size pos : ℕ) (bytes : Bytes) (msg : FragmentedMessage) (r : Protocol)
      → lookup id r.fragmented_messages ≡ some msg
      → app.open_fails msg ≡ false
      → size < 2 ^ 31
      → 0 < length bytes
      → let added = add_data device msg pos bytes in
        let q = put_fragmented added id r in
        take_fragment qt app now id cmd none size pos 0 bytes r ≡ (
          if is_parts_empty added
          then finish_fragmented qt app id cmd none size added q
          else ask_next_part qt app now id cmd added q)
  unfolding take_fragment find_fragmented
  take_fragment_found now id cmd size pos bytes msg r entry opens small filled =
      let fits : leb protocol_max_message_size size ≡ false = ground arith in
      rw (take_fragment, find_fragmented, entry, opens, fits, add_bytes-filled pos bytes msg filled)
        refl

  -- The message with the size for its next parts.
  abbrev pub grown : ℕ → FragmentedMessage → FragmentedMessage
  grown now m = record m { last_part_time = now; max_fragment_size = grow m.max_fragment_size }

  requested :
      (time : ℕ) (w : Writer) (p : Protocol)
      → p.writer ≡ some w
      → request_timeout time true p ≡ emit (add_timeout time true) p
  unfolding request_timeout
  requested time w p e =
      ap (λ (o : Option Writer). elim o [ none ↦ p | some x ↦ emit (add_timeout time true) p ]) e

  asked :
      (now id cmd : ℕ) (m : FragmentedMessage) (w : Writer) (q : Protocol)
      → q.writer ≡ some w
      → let next = grown now m in
        let (pos, size) = get_next_part next in
        (ask_next_part qt app now id cmd m q).1
        ≡ emit (write (query qt cmd id pos size)) (
            emit (add_timeout (now + ms 1505) true) (
              put_fragmented next id
                (record q { lost_msg_list = put_lost id now q.lost_msg_list })))
  unfolding ask_next_part put_fragmented emit
  asked now id cmd m w q e =
      let next = grown now m in
      let (pos, size) = get_next_part next in
      let placed =
        put_fragmented next id (record q { lost_msg_list = put_lost id now q.lost_msg_list }) in
      ap (send_with device cmd none fragment_query_flag (query_bytes qt id pos size))
        (requested (now + ms 1505) w placed e)
      ∙ send_with-query qt cmd id pos size w (emit (add_timeout (now + ms 1505) true) placed) e

  -- The receiver after it has asked for the next part.
  pub asked_state :
      (now id cmd : ℕ) (full : Bytes) (m old : FragmentedMessage) (w : Writer) (q : Protocol)
      → q.writer ≡ some w
      → KeysFrom 0 q.fragmented_messages
      → lookup id q.fragmented_messages ≡ some old
      → IsConsistent full m
      → m.part_vect ≢ []
      → (0 < grow m.max_fragment_size) × (grow m.max_fragment_size < length full)
      → (a : IsAwaiting qt id cmd full (ask_next_part qt app now id cmd m q).1) × (a.msg.part_vect
          ≡ m.part_vect)
  unfolding put_fragmented emit get_next_part
  asked_state now id cmd full m old w q e k entry c some_left bounds =
      let next = grown now m in
      let placed =
        lookup-put_fragmented next old id
          (record q { lost_msg_list = put_lost id now q.lost_msg_list }) entry k in
      rw (asked now id cmd m w q e) (
        record {
          w = w;
          msg = next;
          has_writer = e;
          in_order = placed.1;
          entry = placed.0;
          consistent = record {
            ordered = c.ordered;
            inside = c.inside;
            agrees = c.agrees;
            fits = c.fits;
          };
          some_left = some_left;
          size_bounds = bounds;
          asks = last_write-append _ _;
        },
        refl,
      )

  pub deliveries_asked :
      (now id cmd : ℕ) (m : FragmentedMessage) (w : Writer) (q : Protocol)
      → q.writer ≡ some w
      → deliveries (ask_next_part qt app now id cmd m q).1.log ≡ deliveries q.log
  unfolding put_fragmented emit deliveries
  deliveries_asked now id cmd m w q e =
      let (pos, size) = get_next_part (grown now m) in
      rw (asked now id cmd m w q e) (
        deliveries-append (q.log ++ (add_timeout (now + ms 1505) true ∷ []))
          (write (query qt cmd id pos size) ∷ [])
        ∙ (append-nil _
            ∙ (deliveries-append q.log (add_timeout (now + ms 1505) true ∷ []) ∙ append-nil _)))

  -- The receiver after its last part: the message is handed over, once, and leaves the map.
  pub finished :
      (id cmd : ℕ) (full : Bytes) (m : FragmentedMessage) (w : Writer) (q : Protocol)
      → q.writer ≡ some w
      → KeysFrom 0 q.fragmented_messages
      → m.data_device ≡ full
      → app.throws (process_message id cmd full) ≡ false
      → IsDone qt id cmd full q.log (finish_fragmented qt app id cmd none (length full) m q).1
  unfolding finish_fragmented deliver call emit deliveries
  finished id cmd full m w q e k complete returns =
      let handed = record q {
        fragmented_messages = erase id q.fragmented_messages;
        log = q.log ++ (process_message id cmd full ∷ []);
      } in
      let last = query qt cmd id (length full) m.max_fragment_size in
      rw
        (
          finish_fragmented,
          complete,
          returns,
          send_with-query qt cmd id (length full) m.max_fragment_size w handed e,
        )
        (record {
          delivered =
              deliveries-append handed.log (write last ∷ [])
              ∙ (append-nil _ ∙ deliveries-append q.log (process_message id cmd full ∷ []));
          gone = lookup-erase 0 id q.fragmented_messages k;
        })
