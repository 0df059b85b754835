-- ===== src/Dtls/Tasks/Removed.antt =====
-- A write that waits behind the removal of its client, in the tasks of DTLS/dtls_node.cpp and
-- DTLS/dtls_server_node.cpp.
use helpz.Prelude.{
  ℕ, ◌≡◌, refl, ap, ap₂, ◌∙◌, false, none, some, ◌>>=◌, List, [], ◌∷◌, ◌++◌, arith, ◌==◌, ==_refl,
  Bool-cases, Option-cases, append-nil, inl, inr, assign_same, lookup-erase_other, if◌then◌else◌,
  KeysFrom, lookup, erase, emplace, assign, lookup-erase, lookup-emplace, erase-KeysFrom,
}
use helpz.Dtls.Node.{Node, channel_closed}
use helpz.Dtls.Node.Channel.{Channel, Kind, write_bytes}
use helpz.Dtls.Clients.{Clients, server_node, find_client, remove_client}
use helpz.Dtls.Node.Calls.{idle}
use helpz.Dtls.Clients.Lookup.{new_client}
use helpz.Dtls.Tasks.{
  with_channel, channels_with, on_node, Server, Task, data_write, removal, Ran, with_node, run_task,
  run_tasks,
}

if_congr :
    (endpoint e : ℕ) (node : Node) (clients : Clients)
    → (if endpoint == e then some node else lookup e (erase endpoint clients))
      ≡ (if endpoint == e then some node else lookup e clients)
if_congr endpoint e node clients = elim (Bool-cases (endpoint == e)) [
  | inl same ↦ rw (same) refl
  | inr differs ↦ rw (differs) (lookup-erase_other endpoint e clients differs)
]

released_lem :
    (endpoint : ℕ) (clients : Clients)
    → (remove_client endpoint clients).0 ≡ (elim (lookup endpoint clients) [
      | none ↦ []
      | some node ↦ elim node.protocol [
        | none ↦ if node.has_channel then channel_closed node.receiver_endpoint ∷ [] else []
        | some p ↦ []
      ]
    ])
unfolding remove_client
released_lem endpoint clients = elim (Option-cases (lookup endpoint clients)) [
  | inl absent ↦ rw (remove_client, absent) refl
  | inr (node, there) ↦ elim (Option-cases node.protocol) [
    | inl nobody ↦ rw (remove_client, there, nobody) refl
    | inr (p, has) ↦ rw (remove_client, there, has) refl
  ]
]

module _ {C : Type 0} (ch : Channel C) (kind : Kind C) where
  write_inactive :
      (content : List ℕ) (c : C) (node : Node)
      → ch.is_active c ≡ false
      → write_bytes ch kind content c node ≡ some (idle c node)
  unfolding write_bytes
  write_inactive content c node inactive = ground (arith, inactive)

module _ {C : Type 0} (ch : Channel C) (kind : Kind C) (fresh : C) where
  -- The channels behind a write to an endpoint that is not known.
  abbrev channels_then : ℕ → (ℕ → C) → ℕ → C
  channels_then endpoint channels =
      with_channel endpoint (with_channel endpoint fresh channels endpoint)
        (with_channel endpoint fresh channels)

  -- A write to an endpoint that is not known makes a client, whose channel is not active.
  write_unknown :
      (endpoint : ℕ) (content : List ℕ) (s : Server C)
      → KeysFrom 0 s.clients
      → lookup endpoint s.clients ≡ none
      → ch.is_active fresh ≡ false
      → run_task ch kind fresh (data_write endpoint content) s
        ≡ some (record {
          notices = [];
          throws = false;
          server = record {
            clients = emplace endpoint (server_node endpoint) s.clients;
            channels = channels_then endpoint s.channels;
          };
        })
  unfolding run_task with_node on_node find_client
  write_unknown endpoint content s keys unknown inactive =
      let new = server_node endpoint in
      let channels = with_channel endpoint fresh s.channels in
      let there : lookup endpoint (emplace endpoint new s.clients) ≡ some new =
        lookup-emplace 0 endpoint endpoint new s.clients keys unknown
        ∙ rw (==_refl endpoint) refl in
      let is_fresh : channels endpoint ≡ fresh = rw (==_refl endpoint) refl in
      ap₂
        (λ found o.
          on_node endpoint (write_bytes ch kind content) found
            (channels_with o endpoint fresh s.channels))
        (new_client endpoint s.clients keys unknown) unknown
      ∙ (ap
            (λ r. r >>= λ a. some (record {
              notices = a.notices;
              throws = a.throws;
              server = record {
                clients = assign endpoint a.node (emplace endpoint new s.clients);
                channels = with_channel endpoint a.channel channels;
              };
            }))
            (write_inactive ch kind content (channels endpoint) new
              (ap ch.is_active is_fresh ∙ inactive))
          ∙ ap
              (λ m. some (record {
                notices = [];
                throws = false;
                server = record { clients = m; channels = channels_then endpoint s.channels };
              }))
              (assign_same endpoint new _ there))

  tasks_step :
      (task : Task) (tasks : List Task) (s : Server C) (a b : Ran C)
      → run_task ch kind fresh task s ≡ some a
      → run_tasks ch kind fresh tasks a.server ≡ some b
      → run_tasks ch kind fresh (task ∷ tasks) s
        ≡ some (record b { notices = a.notices ++ b.notices })
  unfolding run_tasks
  tasks_step task tasks s a b first rest = cc

  -- A write that waits in the queue behind the removal of its client makes the client again: behind
  -- both tasks the endpoint has a new node, whose handshake has not begun; the write sends nothing, no
  -- exception leaves the tasks, and the other clients are as they were. All that is told is that the channel
  -- of the client that was removed, if it had one and had no protocol, is closed. The channel of a new
  -- client is not active, and the keys of the map rise.
  pub removed_client_returns :
      (endpoint : ℕ) (content : List ℕ) (s : Server C)
      → KeysFrom 0 s.clients
      → ch.is_active fresh ≡ false
      → (a : Ran C) × (run_tasks ch kind fresh
            (removal endpoint ∷ (data_write endpoint content ∷ []))
            s
          ≡ some a)
        × (a.notices ≡ (elim (lookup endpoint s.clients) [
          | none ↦ []
          | some node ↦ elim node.protocol [
            | none ↦ if node.has_channel then channel_closed node.receiver_endpoint ∷ [] else []
            | some p ↦ []
          ]
        ]))
        × (a.throws ≡ false)
        × ((e : ℕ)
            → lookup e a.server.clients
              ≡ (if endpoint == e then some (server_node endpoint) else lookup e s.clients))
  unfolding run_tasks run_task remove_client
  removed_client_returns endpoint content s keys inactive =
      let removed = erase endpoint s.clients in
      let told = (remove_client endpoint s.clients).0 in
      let gone = lookup-erase 0 endpoint s.clients keys in
      let rises = erase-KeysFrom 0 endpoint s.clients keys in
      (
        record {
          notices = told ++ [];
          throws = false;
          server = record {
            clients = emplace endpoint (server_node endpoint) removed;
            channels = channels_then endpoint s.channels;
          };
        },
        tasks_step (removal endpoint) (data_write endpoint content ∷ []) s _ _ refl (
            tasks_step (data_write endpoint content) [] (record s { clients = removed }) _ _
              (write_unknown endpoint content (record s { clients = removed }) rises gone inactive)
              refl),
        append-nil told ∙ released_lem endpoint s.clients,
        refl,
        λ e.
            lookup-emplace 0 endpoint e (server_node endpoint) removed rises gone
            ∙ if_congr endpoint e (server_node endpoint) s.clients,
      )
