-- ===== src/Dtls/Tasks.antt =====
-- The tasks that a server runs in its io_context: those that `write` of DTLS/dtls_node.cpp posts, and
-- `remove_client`, which DTLS/dtls_server_node.cpp posts. The clients are those of
-- DTLS/dtls_server_controller.cpp.
pub mod Removed
mod Examples
use helpz.Prelude.{
  ℕ, Bool, false, Option, none, some, ◌>>=◌, List, [], ◌∷◌, ◌++◌, ◌==◌, if◌then◌else◌, lookup,
  assign,
}
use helpz.Dtls.Node.{Notice, Node}
use helpz.Dtls.Node.Channel.{Channel, Kind, After, write_bytes, write_message}
use helpz.Dtls.Clients.{Clients, find_client, get_node, remove_client}

-- The clients, and the channel of each endpoint whose node has one.
pub record Server (C : Type 0) : Type 0 where
  pub clients : Clients
  pub channels : ℕ → C

-- `write` of bytes, and of a message, of which a protocol makes a packet; `remove_client`.
pub data Task : Type 0 where
  data_write : ℕ → List ℕ → Task
  item_write : ℕ → (ℕ → List ℕ) → Task
  removal : ℕ → Task

-- What a task tells, whether an exception leaves it, and the server.
pub record Ran (C : Type 0) : Type 0 where
  pub notices : List Notice
  pub throws : Bool
  pub server : Server C

module _ {C : Type 0} where
  abbrev pub with_channel : ℕ → C → (ℕ → C) → ℕ → C
  with_channel endpoint c channels e = if e == endpoint then c else channels e

  -- The channels when a node has been asked for: that of a new client is a new one.
  abbrev pub channels_with : Option Node → ℕ → C → (ℕ → C) → ℕ → C
  channels_with none endpoint fresh channels = with_channel endpoint fresh channels
  channels_with (some node) endpoint fresh channels = channels

  -- A call on the node that `get_node` gave.
  unfoldable pub on_node :
      ℕ → (C → Node → Option (After C)) → Option Node × Clients → (ℕ → C) → Option (Ran C)
  on_node endpoint write_impl (none, clients) channels = some (record {
    notices = [];
    throws = false;
    server = record { clients = clients; channels = channels };
  })
  on_node endpoint write_impl (some node, clients) channels =
      write_impl (channels endpoint) node >>= λ a. some (record {
        notices = a.notices;
        throws = a.throws;
        server = record {
          clients = assign endpoint a.node clients;
          channels = with_channel endpoint a.channel channels;
        };
      })

  -- `get_node`, and a call on the node that it gives. `fresh` is a new channel.
  unfoldable pub with_node : C → ℕ → (C → Node → Option (After C)) → Server C → Option (Ran C)
  unfolding on_node get_node find_client
  with_node fresh endpoint write_impl s =
      on_node endpoint write_impl (get_node endpoint s.clients)
        (channels_with (find_client endpoint s.clients) endpoint fresh s.channels)

module _ {C : Type 0} (ch : Channel C) (kind : Kind C) (fresh : C) where
  unfoldable pub run_task : Task → Server C → Option (Ran C)
  unfolding with_node write_bytes write_message remove_client
  run_task (data_write endpoint content) s =
      with_node fresh endpoint (write_bytes ch kind content) s
  run_task (item_write endpoint packet) s =
      with_node fresh endpoint (write_message ch kind packet) s
  run_task (removal endpoint) s =
      let (notices, left) = remove_client endpoint s.clients in
      some (record { notices = notices; throws = false; server = record s { clients = left } })

  -- One task after another.
  unfoldable pub run_tasks : List Task → Server C → Option (Ran C)
  unfolding run_task
  run_tasks [] s = some (record { notices = []; throws = false; server = s })
  run_tasks (task ∷ tasks) s = run_task task s >>= λ a.
      run_tasks tasks a.server >>= λ b. some (record b { notices = a.notices ++ b.notices })
