-- ===== src/Network/Stream/Delivery.antt =====
-- A stream of prepared packets, from the datagram to the handling of its messages.
use helpz.Network.Stream.Look.{look-packet, body_behind}
use helpz.Prelude.{
  ℕ, zero, suc, ◌+◌, ◌*◌, ◌^◌, ◌≤◌, ◌<◌, ◌≡◌, refl, ap, ◌∙◌, true, false, some, List, [], ◌∷◌, ◌++◌,
  arith, if◌then◌else◌, length, drop, All, length-append, length-drop, Bytes,
}
use helpz.Network.Qt.{Qt}
use helpz.Network.Message.{protocol_max_message_size}
use helpz.Network.Protocol.{Protocol}
use helpz.Network.Packet.{packet}
use helpz.Network.Packet.Header.{length-packet}
use helpz.Network.Receive.{Attempt, App, internal_process_message}
use helpz.Network.Receive.Frame.{SameInput, SameInput-refl, internal_process_message-SameInput}
use helpz.Network.Stream.{
  Stop, process_stream, done, enqueue, retry, after_retry, process_bytes, drop_read, drop_packets,
  first_packet_read,
}

-- A message on the wire, and a stream of them.
pub record Wire : Type 0 where
  pub id : ℕ
  pub cmd : ℕ
  pub flags : ℕ
  pub body : Bytes

pub record IsWire (w : Wire) : Type 0 where
  pub id_u8 : w.id < 2 ^ 8
  pub cmd_u8 : w.cmd < 2 ^ 8
  pub flags_u8 : w.flags < 2 ^ 8
  pub sized : length w.body ≤ protocol_max_message_size

module _ (qt : Qt) (app : App) where
  abbrev pub wire_bytes : List Wire → Bytes
  wire_bytes [] = []
  wire_bytes (w ∷ ws) = packet qt w.id w.cmd w.flags w.body ++ wire_bytes ws

  -- The messages handled one by one, until one throws.
  unfoldable pub handle_all : ℕ → List Wire → Protocol → Attempt
  handle_all now [] p = (true, p)
  handle_all now (w ∷ ws) p =
      let (returns, q) = internal_process_message qt app now w.id w.cmd w.flags w.body p in
      let rest = handle_all now ws q in if returns then rest else (false, q)

  process_stream-wires :
      (fuel now pos : ℕ) (ws : List Wire) (p : Protocol)
      → drop pos p.device ≡ wire_bytes ws
      → pos ≤ length p.device
      → All IsWire ws
      → length ws < fuel
      → (handle_all now ws p).0 ≡ true
      → process_stream qt app fuel now pos p
        ≡ some (record { ok = true; pos = length p.device; protocol = (handle_all now ws p).1 })
  unfolding process_stream handle_all
  process_stream-wires zero now pos ws p e le ok h r = absurd (omega arith)
  process_stream-wires (suc fuel) now pos [] p e le ok h r =
      ground (arith, ap length e, length-drop pos p.device)
  process_stream-wires (suc fuel) now pos (w ∷ ws) p e le ok h r =
      let seen =
        look-packet qt w.id w.cmd w.flags w.body ok.0.id_u8 ok.0.cmd_u8 ok.0.flags_u8 ok.0.sized pos
          p.device (wire_bytes ws) e in
      let behind =
        body_behind qt w.id w.cmd w.flags w.body ok.0.id_u8 ok.0.cmd_u8 ok.0.flags_u8 ok.0.sized pos
          p.device (wire_bytes ws) e in
      let (returns, q) = internal_process_message qt app now w.id w.cmd w.flags w.body p in
      let same = internal_process_message-SameInput qt app now w.id w.cmd w.flags w.body p in
      rw (seen, process_stream)
        (ground (
          arith,
          behind.2,
          same,
          process_stream-wires fuel now (pos + 9 + length w.body) ws q
              (ap (drop (pos + 9 + length w.body)) same.same_device ∙ behind.1)
              (omega (arith, behind.2, ap length same.same_device)) ok.1 (omega arith),
        ))

  handle_all-SameInput :
      (now : ℕ) (ws : List Wire) (p : Protocol) → SameInput p (handle_all now ws p).1
  unfolding handle_all
  handle_all-SameInput now [] p = SameInput-refl p
  handle_all-SameInput now (w ∷ ws) p =
      let q = (internal_process_message qt app now w.id w.cmd w.flags w.body p).1 in
      ground (
        arith,
        internal_process_message-SameInput qt app now w.id w.cmd w.flags w.body p,
        handle_all-SameInput now ws q,
      )

  -- Data that come in are a new packet of the queue.
  pub process_bytes_cons :
      (now : ℕ) (bytes : Bytes) (p : Protocol)
      → 0 < length bytes
      → process_bytes qt app now bytes p
        ≡ after_retry (
            retry qt app
              (suc (length (enqueue now bytes p).packet_end_position))
              now
              (enqueue now bytes p))
  unfolding process_bytes
  process_bytes_cons now [] p h = absurd (omega arith)
  process_bytes_cons now (b ∷ bytes) p h = refl

  length-wires : (ws : List Wire) → 9 * length ws ≤ length (wire_bytes ws)
  length-wires [] = omega arith
  length-wires (w ∷ ws) = omega (
    arith,
    length-wires ws,
    length-packet qt w.id w.cmd w.flags w.body,
    length-append (packet qt w.id w.cmd w.flags w.body) (wire_bytes ws),
  )

  -- A stream that is read without a failure ends the loop.
  pub retry_ok :
      (fuel now : ℕ) (p : Protocol) (s : Stop)
      → process_stream qt app (suc (length p.device)) now 0 p ≡ some s
      → s.ok ≡ true
      → retry qt app (suc fuel) now p ≡ done s
  unfolding retry
  retry_ok fuel now p s e ok = rw (e, retry) (rw ok)

  drop_read_all :
      (p : Protocol) (size : ℕ)
      → p.packet_end_position ≡ size ∷ []
      → length p.device ≡ size
      → drop_read size p ≡ record p { device = []; packet_end_position = [] }
  unfolding drop_read drop_packets first_packet_read
  drop_read_all p size e l = ground arith

  -- A datagram of one or more packets, at a receiver with nothing left over, is handled message by
  -- message in order, and nothing is left over, if the handling of none of them throws. Ids, commands
  -- and flags are bytes, and the bodies have at most 2 GiB.
  pub process_bytes-wires :
      (now : ℕ) (w : Wire) (ws : List Wire) (p : Protocol)
      → All IsWire (w ∷ ws)
      → p.device ≡ []
      → p.packet_end_position ≡ []
      → (handle_all now (w ∷ ws) (enqueue now (wire_bytes (w ∷ ws)) p)).0 ≡ true
      → process_bytes qt app now (wire_bytes (w ∷ ws)) p
        ≡ done (record ((handle_all now (w ∷ ws) (enqueue now (wire_bytes (w ∷ ws)) p)).1) {
          device = [];
          packet_end_position = [];
        })
  unfolding enqueue after_retry
  process_bytes-wires now w ws p ok empty idle returns =
      process_bytes_cons now bytes p (omega (arith, length-wires (w ∷ ws)))
      ∙ (ap after_retry (retry_ok _ now q _ whole refl)
          ∙ ap done (
              drop_read_all (handle_all now (w ∷ ws) q).1 (length q.device)
                (same.same_packets ∙ ground (arith, device)) (ap length same.same_device)))
    where
      bytes : Bytes
      bytes = wire_bytes (w ∷ ws)

      q : Protocol
      q = enqueue now bytes p

      same : SameInput q (handle_all now (w ∷ ws) q).1
      same = handle_all-SameInput now (w ∷ ws) q

      device : q.device ≡ bytes
      device = rw empty

      whole :
          process_stream qt app (suc (length q.device)) now 0 q
          ≡ some (record {
            ok = true;
            pos = length q.device;
            protocol = (handle_all now (w ∷ ws) q).1;
          })
      whole =
          process_stream-wires (suc (length q.device)) now 0 (w ∷ ws) q device (omega arith) ok
            (omega (arith, length-wires (w ∷ ws), ap length device)) returns
