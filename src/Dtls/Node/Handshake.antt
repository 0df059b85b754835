-- ===== src/Dtls/Node/Handshake.antt =====
-- The end of the handshake of a client, in `process_received_data` of DTLS/dtls_node.cpp.
use helpz.Prelude.{
  ℕ, ◌+◌, ◌≡◌, refl, ◌∙◌, Bool, true, false, not, Option, none, some, List, [], ◌∷◌, ◌++◌, map,
  arith, if◌then◌else◌, Bool-cases, inl, inr, All,
}
use helpz.Dtls.Node.{Notice, Node, tally, tally-append, tls_alert, set_protocol, ready_write}
use helpz.Dtls.Node.Calls.{
  received, calls, idle, calls_step, process_received_data_rests, process_received_data_checks,
}
use helpz.Dtls.Node.Channel.{
  Callback, record_received, alert, emit_data, choose_protocol, Channel, client, After, handle,
  handle_all, alert_received, choose_app_protocol, create_protocol, start_protocol, create_if_none,
  tls_record_received, tls_emit_data, emit_all, check_handshake, process_received_data,
}

-- Whether a notice is `ready_write`.
abbrev pub tells_ready : Notice → ℕ
tells_ready (ready_write q) = 1
tells_ready _ = 0

-- Whether a callback is not the close notification.
abbrev pub is_gentle : Callback → Bool
is_gentle (alert is_close_notify) = not is_close_notify
is_gentle _ = true

-- A channel in a handshake that goes well, and behind it: once active it stays active, a check of the
-- timeouts does not change that, no call of it throws, and the other side does not end the connection.
pub record Steady {C : Type 0} (ch : Channel C) : Type 0 where
  pub stays :
      (bytes : List ℕ) (c : C)
      → ch.is_active c ≡ true
      → ch.is_active (ch.received_data bytes c).channel ≡ true
  pub checked : (c : C) → ch.is_active (ch.timeout_check c).1 ≡ ch.is_active c
  pub returns : (bytes : List ℕ) (c : C) → (ch.received_data bytes c).throws ≡ false
  pub gentle :
      (bytes : List ℕ) (c : C)
      → All (λ callback. is_gentle callback ≡ true) (ch.received_data bytes c).callbacks

module _ {C : Type 0} (create : C → Option ℕ) where
  handle_gentle :
      (callback : Callback) (node : Node)
      → is_gentle callback ≡ true
      → ((handle (client create) callback node).1 ≡ node)
        × (tally tells_ready (handle (client create) callback node).0 ≡ 0)
  unfolding handle tally tls_record_received tls_emit_data alert_received choose_app_protocol
      tls_alert
  handle_gentle (record_received bytes) node h = (refl, ground arith)
  handle_gentle (alert true) node h = absurd (cc)
  handle_gentle (alert false) node h = ground arith
  handle_gentle (emit_data bytes) node h = (refl, ground arith)
  handle_gentle (choose_protocol offer) node h = (refl, refl)

  handle_all_gentle :
      (callbacks : List Callback) (node : Node)
      → node.has_channel ≡ true
      → All (λ callback. is_gentle callback ≡ true) callbacks
      → (notices : List Notice) × (handle_all (client create) callbacks node ≡ some (notices, node))
        × (tally tells_ready notices ≡ 0)
  unfolding handle_all tally
  handle_all_gentle [] node open_channel h = ([], refl, refl)
  handle_all_gentle (callback ∷ callbacks) node open_channel (g, h) =
      let (same, silent) = handle_gentle callback node g in
      let (notices, handled, none_ready) = handle_all_gentle callbacks node open_channel h in
      (
        (handle (client create) callback node).0 ++ notices,
        ground (arith, open_channel, same, handled),
        omega (
          arith,
          silent,
          none_ready,
          tally-append tells_ready (handle (client create) callback node).0 notices,
        ),
      )

  emit_all_silent :
      (flight : List (List ℕ)) (node : Node) → tally tells_ready (emit_all flight node) ≡ 0
  unfolding emit_all tally tls_emit_data
  emit_all_silent [] node = refl
  emit_all_silent (bytes ∷ flight) node = omega (arith, emit_all_silent flight node)

  module _ (ch : Channel C) (p : ℕ) (created : (c : C) → create c ≡ some p)
      (steady : Steady ch) where
    -- The protocol that the node of a client has in the course of the handshake.
    abbrev protocol_of : C → Option ℕ
    protocol_of c = if ch.is_active c then some p else none

    abbrev active : C → ℕ
    active c = if ch.is_active c then 1 else 0

    record IsOpen (c : C) (node : Node) : Type 0 where
      has : node.has_channel ≡ true
      holds_protocol : node.protocol ≡ protocol_of c

    start_lem :
        (b : Bool) (c : C) (node : Node)
        → node.has_channel ≡ true
        → node.protocol ≡ none
        → ((if b then start_protocol (client create) c node else ([], node)).1.has_channel ≡ true)
          × ((if b then start_protocol (client create) c node else ([], node)).1.protocol
              ≡ (if b then some p else none))
          × (tally tells_ready (if b then start_protocol (client create) c node else ([], node)).0
              ≡ (if b then 1 else 0))
    unfolding start_protocol create_if_none create_protocol set_protocol tally
    start_lem true c node h k = ground (arith, created c)
    start_lem false c node h k = (h, k, refl)

    check_lem :
        (c : C) (node : Node)
        → node.has_channel ≡ true
        → node.protocol ≡ none
        → IsOpen
            (check_handshake ch (client create) c node).channel
            (check_handshake ch (client create) c node).node
          × (tally tells_ready (check_handshake ch (client create) c node).notices
              ≡ active (check_handshake ch (client create) c node).channel)
    unfolding check_handshake
    check_lem c node h k =
        let (has, holds, told) =
          start_lem (ch.is_active (ch.timeout_check c).1) (ch.timeout_check c).1 node h k in
        (
          record { has = has; holds_protocol = holds },
          tally-append tells_ready (emit_all (ch.timeout_check c).0 node) _
              ∙ omega (arith, emit_all_silent (ch.timeout_check c).0 node, told),
        )

    -- One datagram.
    receive_lem :
        (bytes : List ℕ) (c : C) (node : Node)
        → IsOpen c node
        → (a : After C) × (process_received_data ch (client create) bytes c node ≡ some a)
          × IsOpen a.channel a.node
          × (tally tells_ready a.notices + active c ≡ active a.channel)
    receive_lem bytes c node o =
        let (notices, handled, silent) =
          handle_all_gentle (ch.received_data bytes c).callbacks node o.has
            (steady.gentle bytes c) in
        elim (Bool-cases (ch.is_active c)) [
          | inl was ↦ (
            record {
              notices = notices;
              channel = (ch.received_data bytes c).channel;
              node = node;
              throws = false;
            },
            process_received_data_rests ch (client create) bytes c node (notices, node) o.has
                handled (ground (arith, was)),
            record {
              has = o.has;
              holds_protocol = ground (arith, was, o.holds_protocol, steady.stays bytes c was);
            },
            ground (arith, was, silent, steady.stays bytes c was),
          )
          | inr was_not ↦
              let (opened, told) =
                check_lem (ch.received_data bytes c).channel node o.has
                  (ground (arith, was_not, o.holds_protocol)) in
              (
                _,
                process_received_data_checks ch (client create) bytes c node (notices, node) o.has
                    handled (steady.returns bytes c) was_not o.has,
                opened,
                ground (
                  arith,
                  was_not,
                  silent,
                  told,
                  tally-append tells_ready notices
                      (check_handshake ch (client create) (ch.received_data bytes c).channel
                        node).notices,
                ),
              )
        ]

    receive_datagrams :
        (datagrams : List (List ℕ)) (c : C) (node : Node)
        → IsOpen c node
        → (a : After C) × (calls ch (client create) (map received datagrams) c node ≡ some a)
          × IsOpen a.channel a.node
          × (tally tells_ready a.notices + active c ≡ active a.channel)
    unfolding calls tally
    receive_datagrams [] c node o = (idle c node, refl, o, omega arith)
    receive_datagrams (bytes ∷ datagrams) c node o =
        let (a, first, opened, told) = receive_lem bytes c node o in
        let (b, rest, after, more) = receive_datagrams datagrams a.channel a.node opened in
        (
          record b { notices = a.notices ++ b.notices },
          calls_step ch (client create) (received bytes) (map received datagrams) c node a b first
              rest,
          after,
          omega (arith, tally-append tells_ready a.notices b.notices, told, more),
        )

    -- A client whose channel is not active yet, and which has no protocol, receives any datagrams: none
    -- of the calls faults; the node has its protocol behind them exactly if the channel is active
    -- then, and the protocol was told just once that it can write if so, and not at all if not. The channel
    -- is in a handshake that goes well, and the program creates a protocol.
    pub handshake_lem :
        (datagrams : List (List ℕ)) (c : C) (node : Node)
        → ch.is_active c ≡ false
        → node.has_channel ≡ true
        → node.protocol ≡ none
        → (a : After C) × (calls ch (client create) (map received datagrams) c node ≡ some a)
          × (a.node.protocol ≡ (if ch.is_active a.channel then some p else none))
          × (tally tells_ready a.notices ≡ (if ch.is_active a.channel then 1 else 0))
    handshake_lem datagrams c node was_not has nobody =
        let (a, handled, opened, told) =
          receive_datagrams datagrams c node
            (record { has = has; holds_protocol = ground (arith, was_not, nobody) }) in
        (a, handled, opened.holds_protocol, ground (arith, was_not, told))
