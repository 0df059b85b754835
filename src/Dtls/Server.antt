-- ===== src/Dtls/Server.antt =====
-- The cleaning of `Server` in DTLS/dtls_server.h and dtls_server.cpp: its timer removes the clients that are
-- frozen. Times are in nanoseconds.
mod Cleaning
use helpz.Prelude.{
  ℕ, zero, suc, ◌+◌, Bool, true, false, Option, none, some, List, [], ◌∷◌, ◌++◌, if◌then◌else◌,
}
use helpz.Dtls.Node.{Notice}
use helpz.Dtls.Clients.{Clients, remove_frozen_clients}

-- `expiry` is when the timer ends; `is_armed` is whether its handler waits for that.
pub record Server : Type 0 where
  pub clients : Clients
  pub cleaning_timeout : ℕ
  pub expiry : ℕ
  pub is_armed : Bool

-- The constructor, at a time.
unfoldable pub make_server : ℕ → ℕ → Server
make_server now cleaning_timeout = record {
  clients = [];
  cleaning_timeout = cleaning_timeout;
  expiry = now + cleaning_timeout;
  is_armed = true;
}

-- The handler of the timer, with the two times at which the clock is read for the clients.
unfoldable pub cleaning : Bool → ℕ → ℕ → Server → Server × List Notice
unfolding remove_frozen_clients
cleaning err checked now server =
    let (notices, left) =
      remove_frozen_clients checked now server.cleaning_timeout server.clients in
    if err then (record server { is_armed = false }, []) else (
      record server { clients = left; expiry = server.expiry + server.cleaning_timeout },
      notices,
    )

-- The handler runs again and again, each time with an error or not and at its times, while it is armed.
unfoldable pub cleanings : List (Bool × (ℕ × ℕ)) → Server → Server × List Notice
unfolding cleaning
cleanings [] server = (server, [])
cleanings ((err, (checked, now)) ∷ rounds) server =
    let (server1, notices) = cleaning err checked now server in
    let (server2, later) = cleanings rounds server1 in
    if server.is_armed then (server2, notices ++ later) else (server, [])
