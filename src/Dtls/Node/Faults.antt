-- ===== src/Dtls/Node/Faults.antt =====
-- What the close notification does in `process_received_data` of DTLS/dtls_node.cpp.
use helpz.Prelude.{
  ℕ, ◌≡◌, ◌⊎◌, ap, ◌∙◌, Bool, true, false, none, some, List, [], ◌∷◌, ◌++◌, arith, Option-cases,
  inl, inr,
}
use helpz.Dtls.Node.{Node, tls_alert, close, set_protocol}
use helpz.Dtls.Node.Channel.{
  Callback, record_received, alert, emit_data, choose_protocol, Channel, Kind, client, server,
  handle, handle_all, alert_received, choose_app_protocol, process_received_data,
}

module _ {C : Type 0} where
  alert_keeps :
      (kind : Kind C) (n : Bool) (node : Node) (p : ℕ)
      → node.protocol ≡ some p
      → ((alert_received kind n node).1.protocol ≡ some p)
        ⊎ ((alert_received kind n node).1.has_channel ≡ false)
  unfolding alert_received tls_alert close
  alert_keeps (server create) true node p e = inr (ground (arith, e))
  alert_keeps (server create) false node p e = inl (ground (arith, e))
  alert_keeps (client create) true node p e = inr (ground (arith, e))
  alert_keeps (client create) false node p e = inl (ground (arith, e))

  alert_closes :
      (kind : Kind C) (node : Node) (p : ℕ)
      → node.protocol ≡ some p
      → (alert_received kind true node).1.has_channel ≡ false
  unfolding alert_received tls_alert close
  alert_closes (server create) node p e = ground (arith, e)
  alert_closes (client create) node p e = ground (arith, e)

  choose_keeps :
      (kind : Kind C) (offer : ℕ) (node : Node) (p : ℕ)
      → node.protocol ≡ some p
      → (q : ℕ) × ((choose_app_protocol kind offer node).1.protocol ≡ some q)
  unfolding choose_app_protocol set_protocol
  choose_keeps (server create) offer node p e = elim (Option-cases (create offer)) [
    | inl nobody ↦ (p, ground (arith, nobody, e))
    | inr (q, created) ↦ (q, ground (arith, created))
  ]
  choose_keeps (client create) offer node p e = (p, e)

module _ {C : Type 0} (kind : Kind C) where
  -- A callback takes the protocol from the node only with the channel.
  handle_keeps :
      (callback : Callback) (node : Node) (p : ℕ)
      → node.protocol ≡ some p
      → ((q : ℕ) × ((handle kind callback node).1.protocol ≡ some q))
        ⊎ ((handle kind callback node).1.has_channel ≡ false)
  unfolding handle
  handle_keeps (record_received bytes) node p e = inl (p, e)
  handle_keeps (alert n) node p e = elim (alert_keeps kind n node p e) [
    | inl keeps ↦ inl (p, keeps)
    | inr closes ↦ inr closes
  ]
  handle_keeps (emit_data bytes) node p e = inl (p, e)
  handle_keeps (choose_protocol offer) node p e = inl (choose_keeps kind offer node p e)

  handle_all_closed :
      (before : List Callback) (next : Callback) (behind : List Callback) (node : Node)
      → node.has_channel ≡ false
      → handle_all kind (before ++ (next ∷ behind)) node ≡ none
  unfolding handle_all
  handle_all_closed [] next behind node e = ground (arith, e)
  handle_all_closed (callback ∷ before) next behind node e = ground (arith, e)

  handle_all_faults :
      (callback : Callback) (callbacks : List Callback) (node : Node)
      → handle_all kind callbacks (handle kind callback node).1 ≡ none
      → handle_all kind (callback ∷ callbacks) node ≡ none
  unfolding handle_all
  handle_all_faults callback callbacks node e = ground (arith, e)

  -- A channel that calls back behind the close notification, at a node with a protocol.
  close_notify_all :
      (before : List Callback) (next : Callback) (behind : List Callback) (node : Node) (p : ℕ)
      → node.protocol ≡ some p
      → handle_all kind (before ++ (alert true ∷ (next ∷ behind))) node ≡ none
  close_notify_all [] next behind node p e =
      handle_all_faults (alert true) (next ∷ behind) node
        (handle_all_closed [] next behind (handle kind (alert true) node).1 (closes e))
    where
      closes : node.protocol ≡ some p → (handle kind (alert true) node).1.has_channel ≡ false
      closes h = unfold handle in alert_closes kind node p h
  close_notify_all (callback ∷ before) next behind node p e =
      handle_all_faults callback (before ++ (alert true ∷ (next ∷ behind))) node
        (elim (handle_keeps callback node p e) [
          | inl (q, has) ↦ close_notify_all before next behind (handle kind callback node).1 q has
          | inr closed ↦
              handle_all_closed before (alert true) (next ∷ behind) (handle kind callback node).1
                closed
        ])

  -- A channel that calls back again after a close notification does so when the node, which has a
  -- protocol, has destroyed it: the call faults, whatever came before the notification and comes behind.
  pub close_notify_faults :
      (ch : Channel C) (bytes : List ℕ) (c : C) (node : Node) (p : ℕ) (before : List Callback)
      (next : Callback) (behind : List Callback)
      → (ch.received_data bytes c).callbacks ≡ before ++ (alert true ∷ (next ∷ behind))
      → node.has_channel ≡ true
      → node.protocol ≡ some p
      → process_received_data ch kind bytes c node ≡ none
  unfolding process_received_data
  close_notify_faults ch bytes c node p before next behind told has there =
      let faults : handle_all kind (ch.received_data bytes c).callbacks node ≡ none =
        ap (λ callbacks. handle_all kind callbacks node) told
        ∙ close_notify_all before next behind node p there in
      ground (arith, has, faults)
