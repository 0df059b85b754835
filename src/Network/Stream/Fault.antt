-- ===== src/Network/Stream/Fault.antt =====
-- A message without a body that throws takes the whole packet with it.
use helpz.Prelude.{
  ℕ, suc, ◌^◌, ◌≤◌, ◌<◌, ◌≡◌, refl, ap, ◌∙◌, false, some, [], ◌∷◌, ◌++◌, append-nil, arith, length,
  drop, length-append, Bytes,
}
use helpz.Network.Qt.{Qt}
use helpz.Network.Protocol.{Protocol, remove_fragment_cmd}
use helpz.Network.Sequence.{accept_id}
use helpz.Network.Packet.{packet}
use helpz.Network.Packet.Header.{length-packet}
use helpz.Network.Receive.{App, remove_fragment, process_content, internal_process_message}
use helpz.Network.Receive.Frame.{SameInput, internal_process_message-SameInput}
use helpz.Network.Stream.{
  empty_front, Stop, process_stream, drop_packets, retry, enqueue, after_retry, process_bytes,
}
use helpz.Network.Stream.Look.{look-packet}
use helpz.Network.Stream.Delivery.{process_bytes_cons}

module _ (qt : Qt) (app : App) where
  process_stream_throws :
      (now fuel : ℕ) (q : Protocol) (id cmd flags : ℕ)
      → id < 2 ^ 8
      → cmd < 2 ^ 8
      → flags < 2 ^ 8
      → drop 0 q.device ≡ packet qt id cmd flags [] ++ []
      → 9 ≤ length q.device
      → (internal_process_message qt app now id cmd flags [] q).0 ≡ false
      → process_stream qt app (suc fuel) now 0 q
        ≡ some (record {
          ok = false;
          pos = 9;
          protocol = (internal_process_message qt app now id cmd flags [] q).1;
        })
  unfolding process_stream
  process_stream_throws now fuel q id cmd flags id_u8 cmd_u8 flags_u8 device long throws =
      rw
        (
          look-packet qt id cmd flags [] id_u8 cmd_u8 flags_u8 (omega arith) 0 q.device [] device,
          process_stream,
        )
        (ground (arith, throws, long))

  retry_throws :
      (fuel now : ℕ) (q : Protocol) (s : Stop)
      → process_stream qt app (suc (length q.device)) now 0 q ≡ some s
      → s.ok ≡ false
      → s.protocol.packet_end_position ≡ s.pos ∷ []
      → retry qt app (suc fuel) now q ≡ empty_front
  unfolding retry drop_packets
  retry_throws fuel now q s e bad queue = rw (e, retry) (ground (arith, bad, queue))

  remove_fragment_throws :
      (now id : ℕ) (q : Protocol)
      → (internal_process_message qt app now id remove_fragment_cmd 0 [] q).0 ≡ false
  unfolding internal_process_message process_content remove_fragment accept_id
  remove_fragment_throws now id q = ground (arith, qt.stream.short_u8 [] (omega arith))

  -- The device stands behind the header when the exception is caught, which is the end of the packet:
  -- the packet is popped as read, and the front of the empty queue is read.
  throwing_faults :
      (now id cmd flags : ℕ) (p : Protocol)
      → id < 2 ^ 8
      → cmd < 2 ^ 8
      → flags < 2 ^ 8
      → p.device ≡ []
      → p.packet_end_position ≡ []
      → (internal_process_message qt app now id cmd flags []
          (enqueue now (packet qt id cmd flags []) p)).0
        ≡ false
      → process_bytes qt app now (packet qt id cmd flags []) p ≡ empty_front
  unfolding after_retry enqueue
  throwing_faults now id cmd flags p id_u8 cmd_u8 flags_u8 empty idle throws =
      process_bytes_cons qt app now bytes p (omega (arith, nine)) ∙ ap after_retry faults
    where
      bytes : Bytes
      bytes = packet qt id cmd flags []

      nine : length bytes ≡ 9
      nine = length-packet qt id cmd flags []

      q : Protocol
      q = enqueue now bytes p

      r : Protocol
      r = (internal_process_message qt app now id cmd flags [] q).1

      same : SameInput q r
      same = internal_process_message-SameInput qt app now id cmd flags [] q

      device : drop 0 q.device ≡ packet qt id cmd flags [] ++ []
      device = rw (empty, append-nil)

      stops :
          process_stream qt app (suc (length q.device)) now 0 q
          ≡ some (record { ok = false; pos = 9; protocol = r })
      stops =
          process_stream_throws now (length q.device) q id cmd flags id_u8 cmd_u8 flags_u8 device
            (omega (arith, ap length device, length-append bytes [], nine)) throws

      faults : retry qt app (suc (length q.packet_end_position)) now q ≡ empty_front
      faults = retry_throws _ now q _ stops refl (same.same_packets ∙ ground (arith, idle, nine))

  -- A packet with the command REMOVE_FRAGMENT and no body, whatever its id, makes `process_bytes` read
  -- the front of an empty queue, at a receiver with nothing left over. The id is a byte.
  pub remove_fragment_faults :
      (now id : ℕ) (p : Protocol)
      → id < 2 ^ 8
      → p.device ≡ []
      → p.packet_end_position ≡ []
      → process_bytes qt app now (packet qt id remove_fragment_cmd 0 []) p ≡ empty_front
  remove_fragment_faults now id p id_u8 empty idle =
      throwing_faults now id remove_fragment_cmd 0 p id_u8 (omega arith) (omega arith) empty idle
        (throws (enqueue now (packet qt id remove_fragment_cmd 0 []) p))
    where
      throws :
          (q : Protocol)
          → (internal_process_message qt app now id remove_fragment_cmd 0 [] q).0 ≡ false
      throws q = remove_fragment_throws now id q
