-- ===== src/Network/Stream/Sync.antt =====
-- The queue of packet sizes and the bytes in the device.
use helpz.Prelude.{
  ℕ, suc, ◌+◌, ◌-◌, ◌≤◌, ◌<◌, ◌≡◌, refl, ap, ◌∙◌, subst, inl, inr, true, false, Option, some, List,
  [], ◌∷◌, ◌++◌, arith, leb, leb→le, Bool-cases, length, length-append, length-drop, Bytes,
}
use helpz.Network.Qt.{Qt}
use helpz.Network.Protocol.{Protocol}
use helpz.Network.Receive.{App}
use helpz.Network.Receive.Frame.{SameInput}
use helpz.Network.Stream.{
  Stop, done, process_stream, drop_packets, first_packet_read, drop_read, discard, retry, enqueue,
  after_retry, process_bytes,
}
use helpz.Network.Stream.Delivery.{process_bytes_cons, retry_ok}
use helpz.Network.Stream.Termination.{Stops, process_stream-Stops}

abbrev pub sum : List ℕ → ℕ
sum [] = 0
sum (n ∷ ns) = n + sum ns

-- Each byte of the device is accounted for by a packet of the queue.
abbrev pub InSync : Protocol → Type 0
InSync p = sum p.packet_end_position ≡ length p.device

sum-append : (ms ns : List ℕ) → sum (ms ++ ns) ≡ sum ms + sum ns
sum-append [] ns = omega arith
sum-append (m ∷ ms) ns = omega (arith, sum-append ms ns)

-- What is read leaves the queue, whole packets first.
sum-drop_packets :
    (packets : List ℕ) (pos : ℕ)
    → pos ≤ sum packets
    → sum (first_packet_read (drop_packets packets pos).1 (drop_packets packets pos).0) + pos
      ≡ sum packets
unfolding drop_packets first_packet_read
sum-drop_packets [] pos h = omega arith
sum-drop_packets (size ∷ packets) pos h = elim (Bool-cases (leb size pos)) [
  | inl e ↦
      rw e (omega (arith, sum-drop_packets packets (pos - size) (omega (arith)), leb→le size pos e))
  | inr e ↦ rw e (ground (arith, e))
]

drop_read-InSync :
    (pos : ℕ) (p : Protocol) → InSync p → pos ≤ length p.device → InSync (drop_read pos p)
unfolding drop_read
drop_read-InSync pos p sync le =
    ground
      (arith, sum-drop_packets p.packet_end_position pos (omega arith), length-drop pos p.device)

module _ (qt : Qt) (app : App) where
  enqueue-InSync :
      (now : ℕ) (bytes : Bytes) (p : Protocol) → InSync p → InSync (enqueue now bytes p)
  unfolding enqueue
  enqueue-InSync now bytes p sync =
      omega
        (arith, sum-append p.packet_end_position (length bytes ∷ []), length-append p.device bytes)

  stop_facts :
      (p : Protocol) (r : Option Stop) (s : Stop)
      → Stops qt app p r
      → r ≡ some s
      → (s.pos ≤ length p.device) × SameInput p s.protocol
  stop_facts p r s stops e =
      let eq : stops.stop ≡ s = cc (stops.is_some) in
      subst (λ (x : Stop). (x.pos ≤ length p.device) × SameInput p x.protocol) eq
        (stops.within, stops.same)

  -- If the packets of the queue add up to the bytes of the device, and data come in that are not
  -- empty and are read without a failure, then `process_bytes` ends, and they add up again.
  pub process_bytes-InSync :
      (now : ℕ) (bytes : Bytes) (p : Protocol) (s : Stop)
      → InSync p
      → 0 < length bytes
      → process_stream qt app
          (suc (length (enqueue now bytes p).device))
          now
          0
          (enqueue now bytes p)
        ≡ some s
      → s.ok ≡ true
      → (q : Protocol) × (process_bytes qt app now bytes p ≡ done q) × InSync q
  unfolding after_retry
  process_bytes-InSync now bytes p s sync filled e ok =
      let q = enqueue now bytes p in
      let facts =
        stop_facts q _ s
          (process_stream-Stops qt app (suc (length q.device)) now 0 q (omega arith) (omega arith))
          e in
      let synced = enqueue-InSync now bytes p sync in
      (
        drop_read s.pos s.protocol,
        process_bytes_cons qt app now bytes p filled
            ∙ ap after_retry (retry_ok qt app _ now q s e ok),
        drop_read-InSync s.pos s.protocol (ground (arith, facts.1, synced))
            (omega (arith, facts.0, ap length facts.1.same_device)),
      )

  -- Two packets are in the queue and add up to the bytes of the device, and reading stops with a
  -- failure behind the first and within the second: both leave the queue, yet as many bytes as the
  -- first had stay in the device, and no packet accounts for them.
  pub retry_out_of_sync :
      (fuel now first second : ℕ) (p : Protocol) (s : Stop)
      → InSync p
      → p.packet_end_position ≡ first ∷ second ∷ []
      → process_stream qt app (suc (length p.device)) now 0 p ≡ some s
      → s.ok ≡ false
      → first ≤ s.pos
      → s.pos < first + second
      → (q : Protocol) × (retry qt app (suc fuel) now p ≡ retry qt app fuel now q)
        × (q.packet_end_position ≡ [])
        × (length q.device ≡ first)
  unfolding retry discard drop_packets
  retry_out_of_sync fuel now first second p s sync queue e bad le lt = (
    discard second [] s.protocol,
    rw (e, retry) (ground (arith, queue, same.same_packets, bad)),
    refl,
    omega (arith, length-drop second s.protocol.device, ap length same.same_device, ap sum queue),
  )
    where
      same : SameInput p s.protocol
      same =
          (stop_facts p _ s
            (process_stream-Stops qt app (suc (length p.device)) now 0 p (omega arith)
              (omega arith))
            e).1
