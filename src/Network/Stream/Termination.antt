-- ===== src/Network/Stream/Termination.antt =====
-- The loops of `process_stream` and `process_bytes` end.
use helpz.Prelude.{
  ℕ, zero, suc, ◌+◌, ◌-◌, ◌≤◌, ◌<◌, ◌≡◌, refl, sym, ap, ◌∙◌, ◌≢◌, inl, inr, Bool, true, false, ◌||◌,
  Option, some, List, [], ◌∷◌, arith, ltb, ◌==◌, if◌then◌else◌, Bool-cases, Option-cases, length,
  drop, Bytes,
}
use helpz.Network.Qt.{Qt}
use helpz.Network.Protocol.{Protocol}
use helpz.Network.Receive.{Attempt, App, internal_process_message}
use helpz.Network.Receive.Frame.{
  SameInput, SameInput-refl, SameInput-trans, internal_process_message-SameInput,
}
use helpz.Network.Stream.{
  Header, Stop, Seen, message, too_big, corrupt, incomplete, unreadable, parse_header, Outcome,
  empty_front, no_fuel, look, process_stream, drop_packets, discard, retry, enqueue, after_retry,
  process_bytes,
}

module _ (qt : Qt) (app : App) where
  -- A message that is seen is all there.
  message_within :
      (pos : ℕ) (buffer : Bytes) (h : Header) (payload : Bytes)
      → look qt pos buffer ≡ message h payload
      → pos + 9 ≤ length buffer
      → pos + 9 + h.buffer_size ≤ length buffer
  unfolding look
  message_within pos buffer h payload e le =
      elim (Option-cases (parse_header qt (drop pos buffer))) [
        | inl missing ↦ cc (
            let none_seen : look qt pos buffer ≡ unreadable = rw (missing, look) in
            sym e ∙ none_seen)
        | inr (h', found) ↦ ground (arith, e, found)
      ]

  -- `process_stream` stops, inside the device, and leaves the input as it is.
  pub record Stops (p : Protocol) (r : Option Stop) : Type 0 where
    pub stop : Stop
    pub is_some : r ≡ some stop
    pub within : stop.pos ≤ length p.device
    pub same : SameInput p stop.protocol

  Stops-some :
      (p : Protocol) (ok : Bool) (pos : ℕ) (q : Protocol)
      → pos ≤ length p.device
      → SameInput p q
      → Stops p (some (record { ok = ok; pos = pos; protocol = q }))
  Stops-some p ok pos q le same = record {
    stop = record { ok = ok; pos = pos; protocol = q };
    is_some = refl;
    within = le;
    same = same;
  }

  Stops-after : (p q : Protocol) (r : Option Stop) → SameInput p q → Stops q r → Stops p r
  Stops-after p q r same s = record {
    stop = s.stop;
    is_some = s.is_some;
    within = omega (arith, s.within, ap length same.same_device);
    same = SameInput-trans same s.same;
  }

  -- A message that returns is followed by the rest of the stream.
  round_message :
      (pos : ℕ) (p : Protocol) (a : Attempt) (rest : Option Stop)
      → pos ≤ length p.device
      → SameInput p a.1
      → Stops p rest
      → Stops p (if a.0 then rest else some (record { ok = false; pos = pos; protocol = a.1 }))
  round_message pos p (true, q) rest le same s = s
  round_message pos p (false, q) rest le same s = Stops-some p false pos q le same

  -- One round, by what is seen.
  round-Stops :
      (fuel now pos : ℕ) (p : Protocol) (s : Seen)
      → look qt pos p.device ≡ s
      → ltb (length p.device - pos) 9 ≡ false
      → ((next : ℕ) (q : Protocol)
          → SameInput p q
          → pos + 9 ≤ next
          → next ≤ length p.device
          → Stops q (process_stream qt app fuel now next q))
      → Stops p (process_stream qt app (suc fuel) now pos p)
  unfolding process_stream
  round-Stops fuel now pos p too_big e far rec =
      rw (e, process_stream)
        (rw far (Stops-some p true (length p.device) p (omega arith) (SameInput-refl p)))
  round-Stops fuel now pos p corrupt e far rec =
      rw (e, process_stream) (rw far (Stops-some p false pos p (ground arith) (SameInput-refl p)))
  round-Stops fuel now pos p incomplete e far rec =
      rw (e, process_stream) (rw far (Stops-some p true pos p (ground arith) (SameInput-refl p)))
  round-Stops fuel now pos p unreadable e far rec =
      rw (e, process_stream) (rw far (Stops-some p true pos p (ground arith) (SameInput-refl p)))
  round-Stops fuel now pos p (message h payload) e far rec =
      let within = message_within pos p.device h payload e (ground arith) in
      let a = internal_process_message qt app now h.msg_id h.cmd h.flags payload p in
      let same = internal_process_message-SameInput qt app now h.msg_id h.cmd h.flags payload p in
      let next = pos + 9 + h.buffer_size in
      rw (e, process_stream)
        (rw far (
          round_message (pos + 9) p a (process_stream qt app fuel now next a.1) (omega arith) same
            (Stops-after p a.1 _ same (rec next a.1 same (omega arith) within))))

  -- With a round more than bytes `process_stream` ends, inside the device, and leaves it as it was.
  pub process_stream-Stops :
      (fuel now pos : ℕ) (p : Protocol)
      → pos ≤ length p.device
      → length p.device - pos < fuel
      → Stops p (process_stream qt app fuel now pos p)
  unfolding process_stream
  process_stream-Stops zero now pos p le h = absurd (omega arith)
  process_stream-Stops (suc fuel) now pos p le h =
      elim (Bool-cases (ltb (length p.device - pos) 9)) [
        | inl near ↦ rw near (Stops-some p true pos p le (SameInput-refl p))
        | inr far ↦
            round-Stops fuel now pos p (look qt pos p.device) refl far λ next q same ahead le'.
              process_stream-Stops fuel now next q (omega (arith, ap length same.same_device))
                (ground (arith, far, ap length same.same_device))
      ]

  length-drop_packets :
      (packets : List ℕ) (pos : ℕ) → length (drop_packets packets pos).0 ≤ length packets
  unfolding drop_packets
  length-drop_packets [] pos = omega arith
  length-drop_packets (size ∷ packets) pos =
      ground (arith, length-drop_packets packets (pos - size))

  -- The loop of `process_bytes` ends by success, by the last packet or by a fault, never for want of fuel.
  -- One round of it after a failure.
  again_ends :
      (fuel now : ℕ) (q : Protocol) (packets : List ℕ)
      → ((front : ℕ) (rest : List ℕ)
          → packets ≡ front ∷ rest
          → retry qt app fuel now (discard front rest q) ≢ no_fuel)
      → elim packets as (λ _. Outcome Stop) [
        | [] ↦ empty_front
        | front ∷ rest ↦ retry qt app fuel now (discard front rest q)
      ]
        ≢ no_fuel
  again_ends fuel now q [] rec e = cc
  again_ends fuel now q (front ∷ rest) rec e = rec front rest refl e

  retry_ends :
      (fuel now : ℕ) (p : Protocol)
      → length p.packet_end_position < fuel
      → retry qt app fuel now p ≢ no_fuel
  unfolding retry discard
  retry_ends zero now p h = absurd (omega arith)
  retry_ends (suc fuel) now p h =
      let s = process_stream-Stops (suc (length p.device)) now 0 p (omega arith) (omega arith) in
      let q = s.stop.protocol in
      let queue : q.packet_end_position ≡ p.packet_end_position = s.same.same_packets in
      let shorter = length-drop_packets q.packet_end_position s.stop.pos in
      let again =
        again_ends fuel now q (drop_packets q.packet_end_position s.stop.pos).0 (λ front rest e.
          retry_ends fuel now (discard front rest q)
            (ground (arith, shorter, ap length e, ap length queue))) in
      rw (s.is_some, retry)
        (elim (Bool-cases (s.stop.ok || (length q.packet_end_position == 0))) [
          | inl e ↦ rw e (λ f. cc)
          | inr e ↦ rw e again
        ])

  -- `process_bytes` never runs out of fuel, whatever the data and the state: its loops end.
  pub process_bytes_ends :
      (now : ℕ) (bytes : Bytes) (p : Protocol) → process_bytes qt app now bytes p ≢ no_fuel
  unfolding process_bytes after_retry
  process_bytes_ends now [] p e = cc
  process_bytes_ends now (b ∷ bytes) p e =
      let q = enqueue now (b ∷ bytes) p in
      ground (arith, e, retry_ends (suc (length q.packet_end_position)) now q (omega arith))
