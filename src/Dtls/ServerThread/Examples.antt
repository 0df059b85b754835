-- ===== src/Dtls/ServerThread/Examples.antt =====
-- Threads of a server with two additional threads, and of one whose port is taken. See
-- DTLS/dtls_server_thread.cpp.
use helpz.Prelude.{◌≡◌, refl, true, false, some, ◌>>=◌, List, [], ◌∷◌, ◌++◌}
use helpz.Dtls.ServerThread.{Event, server_destroyed, Setup, run}
use helpz.Dtls.ServerThread.Ends.{values, started, joined, run_lem, server_destroyed_early}

abbrev three_threads : Setup
three_threads = record {
  context_throws = false;
  tools_throw = false;
  server_throws = false;
  receive_throws = false;
  receive_thread_count = 3;
  is_stopped = true;
}

abbrev port_taken : Setup
port_taken = record three_threads { server_throws = true; is_stopped = false }

promise_of_port_taken :
    (run port_taken >>= λ (events : List Event). some (values events)) ≡ some (false ∷ [])
promise_of_port_taken = run_lem port_taken

destroyed_before_join :
    (before behind : List Event) × (run three_threads
      ≡ some (before ++ (server_destroyed ∷ behind)))
    × (started before ≡ 1 ∷ (2 ∷ []))
    × (joined before ≡ [])
    × (joined behind ≡ 1 ∷ (2 ∷ []))
destroyed_before_join = server_destroyed_early three_threads refl refl refl refl
