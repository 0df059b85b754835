-- ===== src/Dtls/Node/Writers.antt =====
-- The writers that protocols are given and lose, in DTLS/dtls_node.cpp.
use helpz.Prelude.{
  ℕ, ◌+◌, not, ◌&&◌, subst, some-injective, ◌≡◌, refl, Bool, true, false, Option, none, some, List,
  [], ◌∷◌, ◌++◌, arith, ◌==◌, if◌then◌else◌, Bool-cases, inl, inr,
}
use helpz.Dtls.Node.{
  Notice, Node, tally, tally-append, close, close_notices, tls_alert, set_protocol, writer_reset,
  writer_set,
}
use helpz.Dtls.Node.Calls.{
  NodeCall, received, bytes_written, message_written, closed, call, calls, calls-cons, idle,
  send-some, process_received_data-some, write_bytes-some, write_message-some, handle_all-cons,
}
use helpz.Dtls.Node.Channel.{
  emit_all, check_handshake, after_received, send, Callback, record_received, alert, emit_data,
  choose_protocol, Channel, client, After, handle, handle_all, alert_received, choose_app_protocol,
  create_protocol, start_protocol, create_if_none, tls_record_received, tls_emit_data,
}

-- Whether a notice gives the protocol a writer, or takes it away.
abbrev pub gives_writer : ℕ → Notice → ℕ
gives_writer p (writer_set q) = if q == p then 1 else 0
gives_writer p _ = 0

abbrev pub takes_writer : ℕ → Notice → ℕ
takes_writer p (writer_reset q) = if q == p then 1 else 0
takes_writer p _ = 0

abbrev pub holds : ℕ → Option ℕ → ℕ
holds p none = 0
holds p (some q) = if q == p then 1 else 0

-- What is told while the protocol of a node goes from one to another.
abbrev pub Balanced : ℕ → List Notice → Option ℕ → Option ℕ → Type 0
Balanced p notices before after =
    tally (gives_writer p) notices + holds p before ≡ tally (takes_writer p) notices + holds p after

pub Balanced-append :
    (p : ℕ) (xs ys : List Notice) (a b c : Option ℕ)
    → Balanced p xs a b
    → Balanced p ys b c
    → Balanced p (xs ++ ys) a c
Balanced-append p xs ys a b c h k =
    omega (arith, tally-append (gives_writer p) xs ys, tally-append (takes_writer p) xs ys)

pub close-Balanced : (p : ℕ) (node : Node) → Balanced p (close_notices node) node.protocol none
unfolding tally
close-Balanced p node = ground arith

tls_alert-Balanced :
    (p : ℕ) (n : Bool) (node : Node)
    → Balanced p (tls_alert n node).0 node.protocol (tls_alert n node).1.protocol
unfolding tls_alert close tally
tls_alert-Balanced p n node = ground arith

idle-Balanced :
    {C : Type 0} (p : ℕ) (c : C) (node : Node) (a : After C)
    → idle c node ≡ a
    → Balanced p a.notices node.protocol a.node.protocol
unfolding tally
idle-Balanced p c node a same =
    subst (λ b. Balanced p b.notices node.protocol b.node.protocol) same refl

module _ {C : Type 0} (create : C → Option ℕ) where
  handle-Balanced :
      (p : ℕ) (callback : Callback) (node : Node)
      → Balanced p
          (handle (client create) callback node).0
          node.protocol
          (handle (client create) callback node).1.protocol
  unfolding handle tally tls_record_received tls_emit_data alert_received choose_app_protocol
  handle-Balanced p (record_received bytes) node = ground arith
  handle-Balanced p (alert n) node = tls_alert-Balanced p n node
  handle-Balanced p (emit_data bytes) node = ground arith
  handle-Balanced p (choose_protocol offer) node = ground arith

  pub handle_all-Balanced :
      (p : ℕ) (callbacks : List Callback) (node : Node) (told : List Notice × Node)
      → handle_all (client create) callbacks node ≡ some told
      → Balanced p told.0 node.protocol told.1.protocol
  unfolding handle_all tally
  handle_all-Balanced p [] node told e = ground arith
  handle_all-Balanced p (callback ∷ callbacks) node told e =
      let (open_before, rest, handled, same) =
        handle_all-cons (client create) callback callbacks node told e in
      let here = handle-Balanced p callback node in
      let behind =
        handle_all-Balanced p callbacks (handle (client create) callback node).1 rest handled in
      subst (λ t. Balanced p t.0 node.protocol t.1.protocol) same
        (Balanced-append p _ _ _ _ _ here behind)

  start_protocol-Balanced :
      (p : ℕ) (c : C) (node : Node)
      → Balanced p
          (start_protocol (client create) c node).0
          node.protocol
          (start_protocol (client create) c node).1.protocol
  unfolding start_protocol tally create_if_none create_protocol set_protocol
  start_protocol-Balanced p c node = ground arith

  emit_all-Balanced :
      (p : ℕ) (flight : List (List ℕ)) (node : Node) (o : Option ℕ)
      → Balanced p (emit_all flight node) o o
  unfolding emit_all tally tls_emit_data
  emit_all-Balanced p [] node o = refl
  emit_all-Balanced p (bytes ∷ flight) node o = omega (arith, emit_all-Balanced p flight node o)

  module _ (ch : Channel C) where
    start-Balanced :
        (p : ℕ) (active : Bool) (c : C) (node : Node)
        → Balanced p
            (if active then start_protocol (client create) c node else ([], node)).0
            node.protocol
            (if active then start_protocol (client create) c node else ([], node)).1.protocol
    unfolding tally
    start-Balanced p true c node = start_protocol-Balanced p c node
    start-Balanced p false c node = refl

    check_handshake-Balanced :
        (p : ℕ) (c : C) (node : Node)
        → Balanced p
            (check_handshake ch (client create) c node).notices
            node.protocol
            (check_handshake ch (client create) c node).node.protocol
    unfolding check_handshake
    check_handshake-Balanced p c node =
        Balanced-append p (emit_all (ch.timeout_check c).0 node) _ node.protocol node.protocol _
          (emit_all-Balanced p (ch.timeout_check c).0 node node.protocol)
          (start-Balanced p (ch.is_active (ch.timeout_check c).1) (ch.timeout_check c).1 node)

    after_received-Balanced :
        (p : ℕ) (first_active throws : Bool) (c : C) (notices : List Notice) (node : Node)
        (o : Option ℕ)
        → Balanced p notices o node.protocol
        → Balanced p
            (after_received ch (client create) first_active throws c (notices, node)).notices
            o
            (after_received ch (client create) first_active throws c (notices, node)).node.protocol
    unfolding after_received
    after_received-Balanced p first_active throws c notices node o h =
        elim (Bool-cases (not throws && (first_active && node.has_channel))) [
          | inl checks ↦
              rw (checks) (
                Balanced-append p notices _ o node.protocol _ h (check_handshake-Balanced p c node))
          | inr stops ↦ rw (stops) h
        ]

    send-Balanced :
        (p : ℕ) (bytes : List ℕ) (c : C) (node : Node) (a : After C)
        → send ch (client create) bytes c node ≡ some a
        → Balanced p a.notices node.protocol a.node.protocol
    send-Balanced p bytes c node a e =
        let (told, handled, same, at) = send-some ch (client create) bytes c node a e in
        rw (same, at) (handle_all-Balanced p _ node told handled)

    -- Of one call.
    call-Balanced :
        (p : ℕ) (op : NodeCall) (c : C) (node : Node) (a : After C)
        → call ch (client create) op c node ≡ some a
        → Balanced p a.notices node.protocol a.node.protocol
    unfolding call
    call-Balanced p (received bytes) c node a e =
        elim (process_received_data-some ch (client create) bytes c node a e) [
          | inl same ↦ idle-Balanced p c node a same
          | inr (told, handled, same) ↦
              subst (λ b. Balanced p b.notices node.protocol b.node.protocol) same
                (after_received-Balanced p _ _ _ told.0 told.1 node.protocol
                  (handle_all-Balanced p _ node told handled))
        ]
    call-Balanced p (bytes_written bytes) c node a e =
        elim (write_bytes-some ch (client create) bytes c node a e) [
          | inl same ↦ idle-Balanced p c node a same
          | inr sends ↦ send-Balanced p bytes c node a sends
        ]
    call-Balanced p (message_written packet) c node a e =
        elim (write_message-some ch (client create) packet c node a e) [
          | inl same ↦ idle-Balanced p c node a same
          | inr (q, sends) ↦ send-Balanced p (packet q) c node a sends
        ]
    call-Balanced p closed c node a e =
        subst (λ b. Balanced p b.notices node.protocol b.node.protocol) (some-injective _ _ e)
          (close-Balanced p node)

    -- After any calls on the node of a client, a protocol has been given its writer as often as it has
    -- lost it, and once more if it is the protocol of the node and was not before; nothing is assumed of
    -- the channel but that it does not call back when it is destroyed.
    pub calls-Balanced :
        (p : ℕ) (ops : List NodeCall) (c : C) (node : Node) (a : After C)
        → calls ch (client create) ops c node ≡ some a
        → Balanced p a.notices node.protocol a.node.protocol
    unfolding calls
    calls-Balanced p [] c node a e = idle-Balanced p c node a (some-injective _ _ e)
    calls-Balanced p (op ∷ ops) c node a e =
        let (x, first, y, rest, same) = calls-cons ch (client create) op ops c node a e in
        subst (λ b. Balanced p b.notices node.protocol b.node.protocol) same
          (Balanced-append p x.notices y.notices _ _ _ (call-Balanced p op c node x first)
            (calls-Balanced p ops x.channel x.node y rest))
