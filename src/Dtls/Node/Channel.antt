-- ===== src/Dtls/Node/Channel.antt =====
-- `process_received_data` and `write_impl` of `Node` in DTLS/dtls_node.cpp, with the callbacks of
-- DTLS/dtls_server_node.cpp and `create_protocol` of DTLS/dtls_client_node.cpp. The TLS channel and the
-- functions that create protocols are parameters; of the exceptions those are told that leave
-- `received_data` or `send`.
use helpz.Prelude.{
  ℕ, Bool, false, not, ◌&&◌, Option, none, some, ◌>>=◌, List, [], ◌∷◌, ◌++◌, if◌then◌else◌,
}
use helpz.Dtls.Node.{
  Notice, Node, tls_alert, set_protocol, ready_write, bytes_processed, sent, record_added,
  remove_posted,
}

-- What a channel calls back in a call of it: a record, an alert, of which it is told whether it is the
-- close notification, bytes to send, and, at a server, the protocols that a client offers.
pub data Callback : Type 0 where
  record_received : List ℕ → Callback
  alert : Bool → Callback
  emit_data : List ℕ → Callback
  choose_protocol : ℕ → Callback

-- What a call of a channel does: its callbacks in their order, whether an exception leaves it, and the
-- channel after it.
pub record Call (C : Type 0) : Type 0 where
  pub callbacks : List Callback
  pub throws : Bool
  pub channel : C

-- `Botan::TLS::Channel`. A check of the timeouts may send again, and so emits data.
pub record Channel (C : Type 0) : Type 0 where
  pub is_active : C → Bool
  pub received_data : List ℕ → C → Call C
  pub timeout_check : C → List (List ℕ) × C
  pub send : List ℕ → C → Call C

-- The class of the node: `Server_Node` with `create_protocol` of its controller for what a client
-- offers, or `Client_Node` with that of its controller for what the channel has agreed on.
pub data Kind (C : Type 0) : Type 0 where
  server : (ℕ → Option ℕ) → Kind C
  client : (C → Option ℕ) → Kind C

-- What a call on the node tells, the channel and the node after it, and whether it throws.
pub record After (C : Type 0) : Type 0 where
  pub notices : List Notice
  pub channel : C
  pub node : Node
  pub throws : Bool

-- `tls_emit_data`.
unfoldable pub tls_emit_data : List ℕ → Node → List Notice
tls_emit_data bytes node = sent node.receiver_endpoint bytes ∷ []

-- The bytes of a flight.
unfoldable pub emit_all : List (List ℕ) → Node → List Notice
unfolding tls_emit_data
emit_all [] node = []
emit_all (bytes ∷ flight) node = tls_emit_data bytes node ++ emit_all flight node

module _ {C : Type 0} where
  -- `tls_record_received`: a server puts the record into its queue.
  unfoldable pub tls_record_received : Kind C → List ℕ → Node → List Notice
  tls_record_received (server create) bytes node = record_added node.receiver_endpoint bytes ∷ []
  tls_record_received (client create) bytes node = elim node.protocol [
    | none ↦ []
    | some p ↦ bytes_processed p bytes ∷ []
  ]

  -- The alert of each class: that of a server has its client removed.
  unfoldable pub alert_received : Kind C → Bool → Node → List Notice × Node
  unfolding tls_alert
  alert_received (server create) is_close_notify node =
      let (notices, after) = tls_alert is_close_notify node in
      (
        notices ++ (if is_close_notify then remove_posted node.receiver_endpoint ∷ [] else []),
        after,
      )
  alert_received (client create) is_close_notify node = tls_alert is_close_notify node

  -- `tls_server_choose_app_protocol`; a client is not asked.
  unfoldable pub choose_app_protocol : Kind C → ℕ → Node → List Notice × Node
  unfolding set_protocol
  choose_app_protocol (server create) offer node = elim (create offer) [
    | some p ↦ set_protocol (some p) node
    | none ↦ (remove_posted node.receiver_endpoint ∷ [], node)
  ]
  choose_app_protocol (client create) offer node = ([], node)

  -- `create_protocol`: a server has created its protocol before.
  unfoldable pub create_protocol : Kind C → C → Option ℕ
  create_protocol (server create) c = none
  create_protocol (client create) c = create c

  unfoldable pub handle : Kind C → Callback → Node → List Notice × Node
  unfolding tls_record_received alert_received tls_emit_data choose_app_protocol
  handle kind (record_received bytes) node = (tls_record_received kind bytes node, node)
  handle kind (alert is_close_notify) node = alert_received kind is_close_notify node
  handle kind (emit_data bytes) node = (tls_emit_data bytes node, node)
  handle kind (choose_protocol offer) node = choose_app_protocol kind offer node

  -- The callbacks of a call. `none`: one comes from a channel that the node has destroyed.
  unfoldable pub handle_all : Kind C → List Callback → Node → Option (List Notice × Node)
  unfolding handle
  handle_all kind [] node = some ([], node)
  handle_all kind (callback ∷ callbacks) node =
      if node.has_channel
      then (handle_all kind callbacks (handle kind callback node).1 >>= λ rest.
          some ((handle kind callback node).0 ++ rest.0, rest.1))
      else none

  unfoldable pub create_if_none : Kind C → C → Option ℕ → Node → List Notice × Node
  unfolding create_protocol set_protocol
  create_if_none kind c none node = set_protocol (create_protocol kind c) node
  create_if_none kind c (some p) node = ([], node)

  -- A channel that is active now and was not before: the protocol is created, if there is none, and told.
  unfoldable pub start_protocol : Kind C → C → Node → List Notice × Node
  unfolding create_if_none
  start_protocol kind c node =
      let (notices, after) = create_if_none kind c node.protocol node in
      (notices ++ elim after.protocol [ none ↦ [] | some p ↦ ready_write p ∷ [] ], after)

  module _ (ch : Channel C) (kind : Kind C) where
    -- What `process_received_data` does behind `received_data`, if the channel was not active.
    unfoldable pub check_handshake : C → Node → After C
    unfolding emit_all start_protocol
    check_handshake c node =
        let (flight, c1) = ch.timeout_check c in
        let (started, after) =
          if ch.is_active c1 then start_protocol kind c1 node else ([], node) in
        record {
          notices = emit_all flight node ++ started;
          channel = c1;
          node = after;
          throws = false;
        }

    -- What is done behind the callbacks: an exception is caught.
    unfoldable pub after_received : Bool → Bool → C → List Notice × Node → After C
    unfolding check_handshake
    after_received first_active throws c (notices, node) =
        if not throws && (first_active && node.has_channel)
        then record (check_handshake c node) {
          notices = notices ++ (check_handshake c node).notices;
        }
        else record { notices = notices; channel = c; node = node; throws = false }

    unfoldable pub process_received_data : List ℕ → C → Node → Option (After C)
    unfolding handle_all after_received
    process_received_data bytes c node =
        let call = ch.received_data bytes c in
        if node.has_channel
        then (handle_all kind call.callbacks node >>= λ told.
            some (after_received (not (ch.is_active c)) call.throws call.channel told))
        else some (record { notices = []; channel = c; node = node; throws = false })

    -- `dtls_->send`: an exception of it leaves the call.
    unfoldable pub send : List ℕ → C → Node → Option (After C)
    unfolding handle_all
    send bytes c node =
        let call = ch.send bytes c in
        handle_all kind call.callbacks node >>= λ told.
        some
          (record { notices = told.0; channel = call.channel; node = told.1; throws = call.throws })

    -- `write_impl` of bytes.
    unfoldable pub write_bytes : List ℕ → C → Node → Option (After C)
    unfolding send
    write_bytes bytes c node =
        if node.has_channel && ch.is_active c
        then send bytes c node
        else some (record { notices = []; channel = c; node = node; throws = false })

    -- `write_impl` of a message, with `prepare_packet_to_send` of the protocol.
    unfoldable pub write_message : (ℕ → List ℕ) → C → Node → Option (After C)
    unfolding send
    write_message prepare_packet_to_send c node = elim node.protocol [
      | none ↦ some (record { notices = []; channel = c; node = node; throws = false })
      | some p ↦
          if node.has_channel && ch.is_active c
          then send (prepare_packet_to_send p) c node
          else some (record { notices = []; channel = c; node = node; throws = false })
    ]
