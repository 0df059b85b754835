-- ===== src/Dtls/Tasks/Examples.antt =====
-- The theorem on the tasks of a server at a small input. See DTLS/dtls_node.cpp.
use helpz.Prelude.{ℕ, ◌≡◌, refl, false, some, [], ◌∷◌, ◌==◌, if◌then◌else◌, lookup, ltb, arith}
use helpz.Dtls.Node.{Node, channel_closed}
use helpz.Dtls.Node.Channel.{emit_data, Channel, Kind, server}
use helpz.Dtls.Clients.{server_node}
use helpz.Dtls.Tasks.{Server, data_write, removal, Ran, run_tasks}
use helpz.Dtls.Tasks.Removed.{removed_client_returns}

-- A channel that is active when it has got a datagram.
abbrev counting : Channel ℕ
counting = record {
  is_active = λ c. ltb 0 c;
  received_data = λ data_bytes c. record { callbacks = []; throws = false; channel = 1 };
  timeout_check = λ c. ([], c);
  send =
      λ data_bytes c. record { callbacks = emit_data data_bytes ∷ []; throws = false; channel = c };
}

abbrev kind : Kind ℕ
kind = server (λ offer. some offer)

abbrev known : ℕ → Node
known endpoint = record (server_node endpoint) { protocol = some 7; last_msg_recv_time = 100 }

abbrev two_clients : Server ℕ
two_clients = record { clients = (1, known 1) ∷ ((2, known 2) ∷ []); channels = λ e. 1 }

-- A client whose handshake has begun, behind one with a protocol.
abbrev pending : Server ℕ
pending = record two_clients { clients = (1, known 1) ∷ ((2, server_node 2) ∷ []) }

removed_client_returns_example :
    (a : Ran ℕ) × (run_tasks counting kind 0 (removal 2 ∷ (data_write 2 (5 ∷ []) ∷ [])) pending
      ≡ some a)
    × (a.notices ≡ channel_closed 2 ∷ [])
    × (a.throws ≡ false)
    × ((e : ℕ)
        → lookup e a.server.clients
          ≡ (if 2 == e then some (server_node 2) else lookup e pending.clients))
removed_client_returns_example =
    removed_client_returns counting kind 0 2 (5 ∷ []) pending (omega arith, (omega arith, tt)) refl
