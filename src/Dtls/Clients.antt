-- ===== src/Dtls/Clients.antt =====
-- `Server_Controller` in DTLS/dtls_server_controller.h and dtls_server_controller.cpp: its clients.
-- The comparison of protocols is a parameter. The mutex is not modelled: each call is one step.
pub mod Lookup
pub mod Removed
pub mod Frozen
use helpz.Prelude.{
  ℕ, ◌+◌, ◌-◌, Bool, true, false, not, ◌&&◌, ◌||◌, List, [], ◌∷◌, ◌++◌, Option, none, some, ltb,
  ◌==◌, if◌then◌else◌, lookup, emplace, erase,
}
use helpz.Dtls.Node.{Node, Notice, before_remove_copy, close_notices}

-- By their endpoints.
abbrev pub Clients : Type 0
Clients = List (ℕ × Node)

-- `find_client` of an endpoint.
unfoldable pub find_client : ℕ → Clients → Option Node
find_client remote_endpoint clients = lookup remote_endpoint clients

-- `find_client` of a test on protocols.
unfoldable pub find_client_by : (ℕ → Bool) → Clients → Option Node
find_client_by check_protocol_func [] = none
find_client_by check_protocol_func ((endpoint, node) ∷ rest) =
    let found = find_client_by check_protocol_func rest in
    if elim node.protocol [ none ↦ false | some p ↦ check_protocol_func p ]
    then some node
    else found

-- The constructor of Server_Node: it has a channel and no protocol yet, and the time of the last
-- message is the epoch, the default of a time point.
abbrev pub server_node : ℕ → Node
server_node endpoint = record {
  receiver_endpoint = endpoint;
  protocol = none;
  has_channel = true;
  last_msg_recv_time = 0;
}

unfoldable pub create_client : ℕ → Clients → Option Node × Clients
create_client remote_endpoint clients =
    let clients1 = emplace remote_endpoint (server_node remote_endpoint) clients in
    elim (lookup remote_endpoint clients) [
      | some node ↦ (some node, clients)
      | none ↦ (lookup remote_endpoint clients1, clients1)
    ]

unfoldable pub get_node : ℕ → Clients → Option Node × Clients
unfolding create_client find_client
get_node remote_endpoint clients = elim (find_client remote_endpoint clients) [
  | some node ↦ (some node, clients)
  | none ↦ create_client remote_endpoint clients
]

-- The destructor of a node closes it. It runs when the map lets the node go, if no record or call holds
-- the node then: a protocol holds it as its writer, so that a node with a protocol is not destroyed.
abbrev pub released_notices : Node → List Notice
released_notices node = elim node.protocol [ none ↦ close_notices node | some p ↦ [] ]

unfoldable pub remove_client : ℕ → Clients → List Notice × Clients
remove_client remote_endpoint clients = (
  elim (lookup remote_endpoint clients) [ none ↦ [] | some node ↦ released_notices node ],
  erase remote_endpoint clients,
)

-- The test of `check_copy`: another protocol that is equal to `client`.
abbrev pub is_copy : (ℕ → ℕ → Bool) → ℕ → Node → Bool
is_copy same client node = elim node.protocol [
  | none ↦ false
  | some p ↦ not (p == client) && same p client
]

unfoldable pub check_copy : (ℕ → ℕ → Bool) → ℕ → Clients → Bool
check_copy same client [] = false
check_copy same client ((endpoint, node) ∷ rest) =
    is_copy same client node || check_copy same client rest

-- What a copy is told.
abbrev pub copy_notices : Node → List Notice
copy_notices node =
    elim node.protocol [ none ↦ [] | some p ↦ before_remove_copy p ∷ [] ] ++ close_notices node

-- The loop of `remove_copy`.
unfoldable pub erase_copies : (ℕ → ℕ → Bool) → ℕ → Clients → List Notice × Clients
erase_copies same client [] = ([], [])
erase_copies same client ((endpoint, node) ∷ rest) =
    let (notices, kept) = erase_copies same client rest in
    if is_copy same client node
    then (copy_notices node ++ notices, kept)
    else (notices, (endpoint, node) ∷ kept)

unfoldable pub remove_copy : (ℕ → ℕ → Bool) → ℕ → Clients → List Notice × Clients
unfolding check_copy erase_copies
remove_copy same client clients =
    if check_copy same client clients then erase_copies same client clients else ([], clients)

abbrev pub is_frozen : ℕ → ℕ → Node → Bool
is_frozen now frozen_timeout node = ltb frozen_timeout (now - node.last_msg_recv_time)

unfoldable pub check_frozen_clients : ℕ → ℕ → Clients → Bool
check_frozen_clients now frozen_timeout [] = false
check_frozen_clients now frozen_timeout ((endpoint, node) ∷ rest) =
    is_frozen now frozen_timeout node || check_frozen_clients now frozen_timeout rest

-- The loop of `remove_frozen_clients`.
unfoldable pub erase_frozen : ℕ → ℕ → Clients → List Notice × Clients
erase_frozen now frozen_timeout [] = ([], [])
erase_frozen now frozen_timeout ((endpoint, node) ∷ rest) =
    let (notices, kept) = erase_frozen now frozen_timeout rest in
    if is_frozen now frozen_timeout node
    then (close_notices node ++ notices, kept)
    else (notices, (endpoint, node) ∷ kept)

-- The clock is read in the check and again before the loop.
unfoldable pub remove_frozen_clients : ℕ → ℕ → ℕ → Clients → List Notice × Clients
unfolding check_frozen_clients erase_frozen
remove_frozen_clients checked now frozen_timeout clients =
    if check_frozen_clients checked frozen_timeout clients
    then erase_frozen now frozen_timeout clients
    else ([], clients)
