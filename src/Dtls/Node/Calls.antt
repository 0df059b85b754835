-- ===== src/Dtls/Node/Calls.antt =====
-- The calls on a `Node` of DTLS/dtls_node.h, one after another.
use helpz.Prelude.{
  bind-some, some-injective, ℕ, ◌≡◌, ◌⊎◌, not, ◌&&◌, ◌||◌, refl, Bool, true, false, Option, some,
  ◌>>=◌, List, [], ◌∷◌, ◌++◌, arith, Bool-cases, Option-cases, inl, inr,
}
use helpz.Dtls.Node.{Notice, Node, close}
use helpz.Dtls.Node.Channel.{
  Callback, check_handshake, Channel, Kind, After, handle, handle_all, send, after_received,
  process_received_data, write_bytes, write_message,
}

-- A datagram that came in, bytes or a message to write, of which each protocol makes a packet, and
-- the end.
pub data NodeCall : Type 0 where
  received : List ℕ → NodeCall
  bytes_written : List ℕ → NodeCall
  message_written : (ℕ → List ℕ) → NodeCall
  closed : NodeCall

-- `close` from outside of a callback. The channel is gone then, whatever `c` is.
unfoldable pub close_node : {C : Type 0} → C → Node → After C
unfolding close
close_node c node = record {
  notices = (close node).0;
  channel = c;
  node = (close node).1;
  throws = false;
}

module _ {C : Type 0} (ch : Channel C) (kind : Kind C) where
  unfoldable pub call : NodeCall → C → Node → Option (After C)
  unfolding close_node process_received_data write_bytes write_message
  call (received bytes) c node = process_received_data ch kind bytes c node
  call (bytes_written bytes) c node = write_bytes ch kind bytes c node
  call (message_written packet) c node = write_message ch kind packet c node
  call closed c node = some (close_node c node)

  -- `throws` is whether the last call throws: the caller goes on.
  unfoldable pub calls : List NodeCall → C → Node → Option (After C)
  unfolding call
  calls [] c node = some (record { notices = []; channel = c; node = node; throws = false })
  calls (op ∷ ops) c node = call op c node >>= λ a.
      calls ops a.channel a.node >>= λ b. some (record b { notices = a.notices ++ b.notices })

module _ {C : Type 0} (kind : Kind C) where
  -- What is known when the callbacks of a call are handled without a fault.
  pub handle_all-cons :
      (callback : Callback) (callbacks : List Callback) (node : Node) (told : List Notice × Node)
      → handle_all kind (callback ∷ callbacks) node ≡ some told
      → (node.has_channel ≡ true)
        × (rest : List Notice × Node) × (handle_all kind callbacks (handle kind callback node).1
            ≡ some rest)
        × (((handle kind callback node).0 ++ rest.0, rest.1) ≡ told)
  unfolding handle_all
  handle_all-cons callback callbacks node told e =
      elim (Option-cases (handle_all kind callbacks (handle kind callback node).1)) [
        | inl faults ↦ absurd (ground (arith, faults, e))
        | inr (rest, handled) ↦ (ground (arith, e), rest, handled, ground (arith, e, handled))
      ]

-- A call that does nothing.
abbrev pub idle : {C : Type 0} → C → Node → After C
idle c node = record { notices = []; channel = c; node = node; throws = false }

module _ {C : Type 0} (ch : Channel C) (kind : Kind C) where
  pub process_received_data-some :
      (bytes : List ℕ) (c : C) (node : Node) (a : After C)
      → process_received_data ch kind bytes c node ≡ some a
      → (idle c node ≡ a)
        ⊎ ((told : List Notice × Node) × (handle_all kind (ch.received_data bytes c).callbacks node
              ≡ some told)
            × (after_received ch kind
                  (not (ch.is_active c))
                  (ch.received_data bytes c).throws
                  (ch.received_data bytes c).channel
                  told
                ≡ a))
  unfolding process_received_data
  process_received_data-some bytes c node a e =
      elim (Option-cases (handle_all kind (ch.received_data bytes c).callbacks node)) [
        | inl faults ↦ inl (ground (arith, faults, e))
        | inr (told, handled) ↦ elim (Bool-cases node.has_channel) [
          | inl has ↦ inr (told, handled, ground (arith, has, handled, e))
          | inr hasnt ↦ inl (ground (arith, hasnt, e))
        ]
      ]

  -- A call whose callbacks are handled, with the check of the handshake and without.
  pub process_received_data_checks :
      (bytes : List ℕ) (c : C) (node : Node) (told : List Notice × Node)
      → node.has_channel ≡ true
      → handle_all kind (ch.received_data bytes c).callbacks node ≡ some told
      → (ch.received_data bytes c).throws ≡ false
      → ch.is_active c ≡ false
      → told.1.has_channel ≡ true
      → process_received_data ch kind bytes c node
        ≡ some (
            let checked = check_handshake ch kind (ch.received_data bytes c).channel told.1 in
            record checked { notices = told.0 ++ checked.notices })
  unfolding process_received_data after_received
  process_received_data_checks bytes c node told has handled returns was stays =
      ground (arith, has, handled, returns, was, stays)

  pub after_received_rests :
      (active throws : Bool) (c : C) (told : List Notice × Node)
      → (throws || active) ≡ true
      → after_received ch kind (not active) throws c told
        ≡ record { notices = told.0; channel = c; node = told.1; throws = false }
  unfolding after_received
  after_received_rests true true c told h = refl
  after_received_rests true false c told h = refl
  after_received_rests false true c told h = refl
  after_received_rests false false c told h = absurd (cc)

  pub process_received_data_rests :
      (bytes : List ℕ) (c : C) (node : Node) (told : List Notice × Node)
      → node.has_channel ≡ true
      → handle_all kind (ch.received_data bytes c).callbacks node ≡ some told
      → ((ch.received_data bytes c).throws || ch.is_active c) ≡ true
      → process_received_data ch kind bytes c node
        ≡ some (record {
          notices = told.0;
          channel = (ch.received_data bytes c).channel;
          node = told.1;
          throws = false;
        })
  unfolding process_received_data after_received
  process_received_data_rests bytes c node told has handled rests =
      ground (arith, has, handled, rests)

  pub send-some :
      (bytes : List ℕ) (c : C) (node : Node) (a : After C)
      → send ch kind bytes c node ≡ some a
      → (told : List Notice × Node) × (handle_all kind (ch.send bytes c).callbacks node ≡ some told)
        × (a.notices ≡ told.0)
        × (a.node ≡ told.1)
  unfolding send
  send-some bytes c node a e =
      let (told, handled, same) =
        bind-some (handle_all kind (ch.send bytes c).callbacks node) _ a e in
      (told, handled, cc, cc)

  pub write_bytes-some :
      (bytes : List ℕ) (c : C) (node : Node) (a : After C)
      → write_bytes ch kind bytes c node ≡ some a
      → (idle c node ≡ a) ⊎ (send ch kind bytes c node ≡ some a)
  unfolding write_bytes
  write_bytes-some bytes c node a e = elim (Bool-cases (node.has_channel && ch.is_active c)) [
    | inl open_channel ↦ inr (ground (arith, open_channel, e))
    | inr shut ↦ inl (ground (arith, shut, e))
  ]

  pub write_message-some :
      (packet : ℕ → List ℕ) (c : C) (node : Node) (a : After C)
      → write_message ch kind packet c node ≡ some a
      → (idle c node ≡ a) ⊎ ((p : ℕ) × (send ch kind (packet p) c node ≡ some a))
  unfolding write_message
  write_message-some packet c node a e = elim (Option-cases node.protocol) [
    | inl nobody ↦ inl (ground (arith, nobody, e))
    | inr (p, there) ↦ elim (Bool-cases (node.has_channel && ch.is_active c)) [
      | inl open_channel ↦ inr (p, ground (arith, there, open_channel, e))
      | inr shut ↦ inl (ground (arith, there, shut, e))
    ]
  ]

  pub calls-cons :
      (op : NodeCall) (ops : List NodeCall) (c : C) (node : Node) (z : After C)
      → calls ch kind (op ∷ ops) c node ≡ some z
      → (a : After C) × (call ch kind op c node ≡ some a)
        × (b : After C) × (calls ch kind ops a.channel a.node ≡ some b)
        × (record b { notices = a.notices ++ b.notices } ≡ z)
  unfolding calls
  calls-cons op ops c node z e =
      let (a, first, more) = bind-some (call ch kind op c node) _ z e in
      let (b, rest, same) = bind-some (calls ch kind ops a.channel a.node) _ z more in
      (a, first, b, rest, some-injective _ _ same)

  pub calls_step :
      (op : NodeCall) (ops : List NodeCall) (c : C) (node : Node) (a b : After C)
      → call ch kind op c node ≡ some a
      → calls ch kind ops a.channel a.node ≡ some b
      → calls ch kind (op ∷ ops) c node ≡ some (record b { notices = a.notices ++ b.notices })
  unfolding calls
  calls_step op ops c node a b first rest = cc
