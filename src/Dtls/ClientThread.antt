-- ===== src/Dtls/ClientThread.antt =====
-- `Client_Thread` in DTLS/dtls_client_thread.h and dtls_client_thread.cpp: its loop of connections. What
-- becomes of each round, and when another thread calls `stop`, is given. A client is known by a number.
mod Stops
mod Examples
use helpz.Prelude.{
  ℕ, zero, suc, ◌+◌, ◌≡◌, Bool, true, false, not, ◌&&◌, ◌||◌, Option, none, some, List, [], ◌∷◌,
  ◌++◌, ◌==◌, if◌then◌else◌,
}

-- What is done with clients: one is made, which is to connect, one runs, and one is closed.
pub data Event : Type 0 where
  made : ℕ → Event
  ran : ℕ → Event
  client_closed : ℕ → Event

-- `made_clients` counts the clients so far; `log` is what was done.
pub record ClientThread : Type 0 where
  pub stop_flag : Bool
  pub client : Option ℕ
  pub made_clients : ℕ
  pub sleeps : ℕ
  pub log : List Event

-- A round: whether `stop` is called before `start` has the lock, whether the connection cannot be
-- started, whether `stop` is called behind `start`. A client that runs ends by itself, by an exception
-- or by `stop`.
pub record Round : Type 0 where
  pub stops_before : Bool
  pub start_throws : Bool
  pub stops_then : Bool

unfoldable pub close_client : Option ℕ → List Event
close_client none = []
close_client (some c) = client_closed c ∷ []

unfoldable pub stop : ClientThread → ClientThread
unfolding close_client
stop t = record t { stop_flag = true; log = t.log ++ close_client t.client }

-- A call of `stop` by another thread, if there is one.
abbrev pub stop_if : Bool → ClientThread → ClientThread
stop_if true t = stop t
stop_if false t = t

-- `start` behind its test of the flag: the client that was there is closed, and a new one is made.
unfoldable pub make_client : ClientThread → ClientThread
unfolding close_client
make_client t = record t {
  client = some t.made_clients;
  made_clients = suc t.made_clients;
  log = t.log ++ (close_client t.client ++ (made t.made_clients ∷ []));
}

-- `start`: whether the client is to run; an exception is as if it is not, since it is caught.
unfoldable pub start : Bool → ClientThread → Bool × ClientThread
unfolding make_client
start start_throws t = if t.stop_flag then (false, t) else (not start_throws, make_client t)

-- `client_->run()`, with what is told of the client.
unfoldable pub run_client : Bool × ClientThread → ClientThread
run_client (false, t) = t
run_client (true, t) = record t { log = t.log ++ elim t.client [ none ↦ [] | some c ↦ ran c ∷ [] ] }

-- The body of the loop.
unfoldable pub round : Bool → Round → ClientThread → ClientThread
unfolding stop start run_client
round is_first_connect r t =
    let slept = record t { sleeps = if is_first_connect then t.sleeps else suc t.sleeps } in
    let started = start r.start_throws (stop_if r.stops_before slept) in
    stop_if r.stops_then (run_client started)

-- The loop over given rounds: whether it has ended, and the state.
unfoldable pub rounds : Bool → List Round → ClientThread → Bool × ClientThread
unfolding round
rounds is_first_connect [] t = (t.stop_flag, t)
rounds is_first_connect (r ∷ rs) t = elim t.stop_flag [
  | true ↦ (true, t)
  | false ↦ rounds false rs (round is_first_connect r t)
]

-- What follows the loop.
unfoldable pub finish : ClientThread → ClientThread
unfolding stop
finish t = record (stop t) { client = none }

-- `run`, with whether the tools can be made.
unfoldable pub run : Bool → List Round → ClientThread → Bool × ClientThread
unfolding rounds finish
run tools_throw rs t =
    let (ended, t1) = rounds true rs t in
    if tools_throw then (true, finish t) else (ended, if ended then finish t1 else t1)

-- The constructor.
unfoldable pub client_thread : ClientThread
client_thread = record { stop_flag = false; client = none; made_clients = 0; sleeps = 0; log = [] }
