-- ===== src/Network/Dialogue/Talk.antt =====
-- The whole talk of a sender and a receiver about a long message. See Network/net_protocol.cpp.
use helpz.Prelude.{
  ℕ, ◌^◌, ◌≤◌, ◌<◌, ◌≡◌, refl, ap, ◌∙◌, inl, inr, ◌⊎◌, true, false, none, some, List, [], ◌∷◌, ◌++◌,
  arith, Bool-cases, ◌==◌, length, lookup, KeysFrom, Bytes,
}
use helpz.Network.Qt.{Qt}
use helpz.Network.Message.{max_message_data_size}
use helpz.Network.Protocol.{Protocol, process_message}
use helpz.Network.Fragment.{FragmentedMessage, is_parts_empty, add_data, get_next_part}
use helpz.Network.Fragment.Missing.{missing}
use helpz.Network.Fragment.Reassembly.{
  IsSlice, IsConsistent, add_data-IsConsistent, is_parts_empty_iff, device_complete,
}
use helpz.Network.Fragment.Fetch.{total, none_missing}
use helpz.Network.Fragment.Progress.{get_next_part_lem, total-add_data}
use helpz.Network.Receive.{
  App, put_fragmented, finish_fragmented, ask_next_part, take_fragment, process_fragment_query,
}
use helpz.Network.Dialogue.{deliveries, hand_over, ask_and_answer, talk}
use helpz.Network.Dialogue.Query.{sent, query_over}
use helpz.Network.Dialogue.Answer.{IsOffering}
use helpz.Network.Dialogue.Reply.{answer_over}
use helpz.Network.Dialogue.Fragment.{
  IsAwaiting, IsDone, grow_bounds, lookup-put_fragmented, take_fragment_found, asked_state,
  deliveries_asked, finished,
}

-- The size of a message, its command and the program, on which the talk does not depend.
module _ (qt : Qt) (app : App) (id cmd : ℕ) (full : Bytes) (small : length full < 2 ^ 31)
    (long : max_message_data_size < length full) (small_id : id < 2 ^ 8)
    (other : (cmd == 2) ≡ false) (opens : (m : FragmentedMessage) → app.open_fails m ≡ false)
    (returns : app.throws (process_message id cmd full) ≡ false) where
  open qt use {device}

  -- Either the message is delivered, or fewer bytes are missing than were of `msg`.
  abbrev Progress : FragmentedMessage → Protocol → Protocol → Type 0
  Progress msg r q =
      IsDone qt id cmd full r.log q
      ⊎ ((a : IsAwaiting qt id cmd full q) × (deliveries q.log ≡ deliveries r.log)
          × (total a.msg.part_vect < total msg.part_vect))

  progress :
      (now : ℕ) (chunk : Bytes) (r : Protocol) (a : IsAwaiting qt id cmd full r)
      → IsSlice full (get_next_part a.msg).0 chunk
      → Progress a.msg r
          (take_fragment qt app now id cmd none (length full) (get_next_part a.msg).0 0 chunk r).1
  unfolding put_fragmented add_data
  progress now chunk r a slice =
      rw
        (ap (λ x. x.1)
          (take_fragment_found qt app now id cmd (length full) pos chunk a.msg r a.entry
            (opens a.msg) small slice.filled))
        (elim (Bool-cases (is_parts_empty added)) [
          | inl empty ↦ rw empty (inl (done empty))
          | inr left ↦ rw left (
              inr (
                (state left).0,
                deliveries_asked qt app now id cmd added a.w q a.has_writer,
                rw (state left).1 fewer,
              ))
        ])
    where
      pos : ℕ
      pos = (get_next_part a.msg).0

      added : FragmentedMessage
      added = add_data device a.msg pos chunk

      q : Protocol
      q = put_fragmented added id r

      c : IsConsistent full added
      c = add_data-IsConsistent device full small a.msg pos chunk a.consistent slice

      fewer : total added.part_vect < total a.msg.part_vect
      fewer =
          total-add_data device full a.msg pos chunk small a.consistent slice
            (get_next_part_lem full a.msg small a.consistent a.size_bounds.0 a.some_left).0

      placed : (lookup id q.fragmented_messages ≡ some added) × KeysFrom 0 q.fragmented_messages
      placed = lookup-put_fragmented added a.msg id r a.entry a.in_order

      done :
          is_parts_empty added ≡ true
          → IsDone qt id cmd full r.log
              (finish_fragmented qt app id cmd none (length full) added q).1
      done empty =
          let d =
            finished qt app id cmd full added a.w q a.has_writer placed.1
              (device_complete full added c empty) returns in
          record { delivered = d.delivered; gone = d.gone }

      state :
          is_parts_empty added ≡ false
          → (b : IsAwaiting qt id cmd full (ask_next_part qt app now id cmd added q).1)
            × (b.msg.part_vect ≡ added.part_vect)
      state left =
          asked_state qt app now id cmd full added added a.w q a.has_writer placed.1 placed.0 c
            (λ none_left. cc ((is_parts_empty_iff added).1 none_left))
            (grow_bounds a.msg.max_fragment_size full long a.size_bounds.0 a.size_bounds.1)

  -- One query and its answer.
  round :
      (now : ℕ) (s r : Protocol) (a : IsAwaiting qt id cmd full r)
      → IsOffering id cmd full s
      → let sides = ask_and_answer qt app now (s, r) in
        IsOffering id cmd full sides.0 × Progress a.msg r sides.1
  unfolding ask_and_answer
  round now s r a offering =
      rw
        (ap (λ x. hand_over qt app now x.1 x.0)
            (query_over qt app now cmd id pos size r s a.asks other small_id (omega (arith, next.1))
              (omega (arith, next.2)))
          ∙ answer.4)
        (answer.3, progress now answer.0 (sent qt now r) waits answer.1)
    where
      pos : ℕ
      pos = (get_next_part a.msg).0

      size : ℕ
      size = (get_next_part a.msg).1

      next :
          (missing pos a.msg.part_vect ≡ true)
          × (pos < length full)
          × (size ≤ a.msg.max_fragment_size)
      next = get_next_part_lem full a.msg small a.consistent a.size_bounds.0 a.some_left

      waits : IsAwaiting qt id cmd full (sent qt now r)
      waits = record {
        w = a.w;
        msg = a.msg;
        has_writer = a.has_writer;
        in_order = a.in_order;
        entry = a.entry;
        consistent = a.consistent;
        some_left = a.some_left;
        size_bounds = a.size_bounds;
        asks = a.asks;
      }

      answer :
          (chunk : Bytes) × IsSlice full pos chunk
          × (t : Protocol) × IsOffering id cmd full t
          × (hand_over qt app now (process_fragment_query qt app id pos size s).1 (sent qt now r)
              ≡ (
                t,
                (take_fragment qt app now id cmd none (length full) pos 0 chunk (sent qt now r)).1,
              ))
      answer =
          answer_over qt app now id cmd full small long other pos size s (sent qt now r) next.1
            (omega (arith, next.2, a.size_bounds)) offering

  talk_over :
      (times : List ℕ) (s r : Protocol)
      → lookup id r.fragmented_messages ≡ none
      → talk qt app id times (s, r) ≡ (s, r)
  unfolding talk
  talk_over [] s r gone = refl
  talk_over (now ∷ times) s r gone = rw (talk, gone) refl

  -- A sender at which the message waits, and a receiver that has parts of it and has asked for the next
  -- one: after as many queries as bytes are missing, or more, at any times, the receiver has handed the
  -- whole message to the program, once, and has no parts of it any more. The message is longer than 32745
  -- bytes and shorter than 2 GiB, nothing else waits at the sender, the size that the receiver asks for
  -- is at least 1 and less than the message, the program does not throw, and the device of the parts can
  -- be opened.
  pub talk_delivers :
      (times : List ℕ) (s r : Protocol) (a : IsAwaiting qt id cmd full r)
      → IsOffering id cmd full s
      → total a.msg.part_vect ≤ length times
      → IsDone qt id cmd full r.log (talk qt app id times (s, r)).1
  unfolding talk
  talk_delivers [] s r a offering enough =
      absurd
        (a.some_left (none_missing device full small a.msg.part_vect a.consistent.ordered enough))
  talk_delivers (now ∷ times) s r a offering enough =
      let sides = ask_and_answer qt app now (s, r) in
      let step = round now s r a offering in
      rw (talk, a.entry)
        (elim step.1 [
          | inl done ↦ rw (talk_over times sides.0 sides.1 done.gone) done
          | inr (b, same, fewer) ↦
              let rest =
                talk_delivers times sides.0 sides.1 b step.0 (omega (arith, fewer, enough)) in
              record {
                delivered = rest.delivered ∙ ap (λ t. t ++ (process_message id cmd full ∷ [])) same;
                gone = rest.gone;
              }
        ])
