-- ===== src/Dtls/Examples.antt =====
-- Three clients of a server, two of them with equal protocols, and a client of its own. See
-- DTLS/dtls_server_controller.cpp and DTLS/dtls_client.cpp.
use helpz.Prelude.{
  ℕ, ◌-◌, ◌<◌, ◌≢◌, ◌⊎◌, All, ◌%◌, ◌≡◌, refl, Bool, true, false, [], ◌∷◌, none, some, arith, ◌==◌,
  KeysFrom,
}
use helpz.Dtls.Node.{Node, before_remove_copy, proto_closed, writer_reset, channel_closed}
use helpz.Dtls.Clients.{Clients, find_client, remove_copy, remove_frozen_clients}
use helpz.Network.Message.{seconds}
use helpz.Dtls.Client.{Client, check_deadline}
use helpz.Dtls.Client.Silence.{silence_lem}
use helpz.Dtls.Clients.Removed.{farewells, remove_copy_lem}
use helpz.Dtls.Clients.Frozen.{IsHeard, remove_frozen_clients_lem}

abbrev client : ℕ → ℕ → ℕ → Node
client endpoint p time = record {
  receiver_endpoint = endpoint;
  protocol = some p;
  has_channel = true;
  last_msg_recv_time = time;
}

abbrev clients : Clients
clients = (1, client 1 10 100) ∷ (4, client 4 20 50) ∷ (6, client 6 11 90) ∷ []

clients-KeysFrom : KeysFrom 0 clients
clients-KeysFrom = (omega arith, (omega arith, (omega arith, tt)))

-- Protocols are equal up to their last digit.
abbrev same : ℕ → ℕ → Bool
same p q = p % 10 == q % 10

copies : remove_copy same 20 clients ≡ (
  before_remove_copy 10 ∷ proto_closed 10 ∷ writer_reset 10 ∷ channel_closed 1 ∷ [],
  (4, client 4 20 50) ∷ (6, client 6 11 90) ∷ [],
)
unfolding remove_copy
copies = refl

remove_copy_lem_example :
    let before = find_client 1 clients in
    let after = find_client 1 (remove_copy same 20 clients).1 in
    (((before ≡ none) × (after ≡ none))
      ⊎ ((node : Node) × (before ≡ some node)
          × (((p : ℕ) × (node.protocol ≡ some p) × (p ≢ 20) × (same p 20 ≡ true) × (after ≡ none))
              ⊎ (((node.protocol ≡ none)
                    ⊎ ((p : ℕ) × (node.protocol ≡ some p) × ((p ≡ 20) ⊎ (same p 20 ≡ false))))
                  × (after ≡ some node)))))
    × (KeysFrom 0 (remove_copy same 20 clients).1
        × ((remove_copy same 20 clients).0 ≡ farewells same 20 clients))
remove_copy_lem_example = remove_copy_lem same 20 1 clients clients-KeysFrom

remove_frozen_clients_lem_example :
    All (IsHeard 120 60) (remove_frozen_clients 120 121 60 clients).1
    × ((find_client 4 (remove_frozen_clients 120 121 60 clients).1 ≡ find_client 4 clients)
        ⊎ ((node : Node) × (find_client 4 clients ≡ some node)
            × (60 < 121 - node.last_msg_recv_time)
            × (find_client 4 (remove_frozen_clients 120 121 60 clients).1 ≡ none)))
remove_frozen_clients_lem_example =
    remove_frozen_clients_lem 120 121 60 4 clients clients-KeysFrom (omega arith)

-- A client that heard its server at 1 s and has its deadline at 25 s.
abbrev lonely : Client
lonely = record {
  node = record {
    is_active = true;
    has_protocol = true;
    last_msg_recv_time = seconds 1;
    ping_flag = false;
    pings = 0;
  };
  deadline = some (seconds 25);
  is_cancelled = false;
}

silence_lem_example :
    let once = check_deadline (seconds 25) false lonely in
    let twice = check_deadline (seconds 36) false once in
    (once.node.pings ≡ 1)
    × ((once.is_cancelled ≡ false)
        × ((twice.is_cancelled ≡ true) × ((twice.deadline ≡ none) × (twice.node.pings ≡ 1))))
silence_lem_example =
    silence_lem (seconds 25) (seconds 36) lonely (record { active = refl; protocol = refl }) refl
      refl refl (omega arith) (omega arith)
