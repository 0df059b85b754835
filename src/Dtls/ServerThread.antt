-- ===== src/Dtls/ServerThread.antt =====
-- `Server_Thread` in DTLS/dtls_server_thread.h and dtls_server_thread.cpp, with `Thread_Promises` of
-- Base/simplethread.h: what its thread does, in order, for what may throw. The reading of the
-- priority and the log output are left out.
mod Ends
mod Examples
use helpz.Prelude.{
  ℕ, zero, suc, ◌+◌, ◌-◌, ◌≡◌, Bool, true, false, not, ◌&&◌, Option, none, some, List, [], ◌∷◌,
  ◌++◌, if◌then◌else◌,
}

-- What is done: the contexts run in the thread itself (number 0) and in additional ones.
pub data Event : Type 0 where
  context_made server_made server_stored : Event
  value_set : Bool → Event
  promises_deleted receive_started : Event
  thread_started : ℕ → Event
  own_context_ran : Event
  server_destroyed context_stopped : Event
  thread_joined : ℕ → Event
  context_deleted : Event

-- What throws, and the number of receiving threads. `is_stopped` is whether the context is stopped when
-- the thread asks for that. An exception of a handler is caught where the context runs.
pub record Setup : Type 0 where
  pub context_throws : Bool
  pub tools_throw : Bool
  pub server_throws : Bool
  pub receive_throws : Bool
  pub receive_thread_count : ℕ
  pub is_stopped : Bool

-- The loop that starts the additional threads, from `i` on with so many left, and the one that joins
-- them.
unfoldable pub start_threads : ℕ → ℕ → List Event
start_threads zero i = []
start_threads (suc n) i = thread_started i ∷ start_threads n (suc i)

unfoldable pub join_threads : ℕ → ℕ → List Event
join_threads zero i = []
join_threads (suc n) i = thread_joined i ∷ join_threads n (suc i)

-- The body of the `try`, with what the destructors do at its end, whether the value of the promise was
-- set, and how many additional threads there are.
unfoldable pub try_body : Setup → List Event × Bool × ℕ
unfolding start_threads
try_body s =
    let additional = s.receive_thread_count - 1 in
    let begun =
      context_made ∷ (server_made ∷ (server_stored ∷ (value_set true ∷ (promises_deleted ∷ [])))) in
    if s.context_throws
    then ([], false, 0)
    else if s.tools_throw
    then (context_made ∷ [], false, 0)
    else if s.server_throws
    then (context_made ∷ [], false, 0)
    else if s.receive_throws
    then (begun ++ (server_destroyed ∷ []), true, 0)
    else (
      begun
          ++ (receive_started
              ∷ (start_threads additional 1 ++ (own_context_ran ∷ (server_destroyed ∷ [])))),
      true,
      additional,
    )

-- `run`. `none`: it asks a context that is not there whether it is stopped.
unfoldable pub run : Setup → Option (List Event)
unfolding try_body join_threads
run s =
    let (events, is_set, additional) = try_body s in
    if s.context_throws
    then none
    else some (
        events
        ++ ((if is_set then [] else value_set false ∷ (promises_deleted ∷ []))
            ++ ((if s.is_stopped then [] else context_stopped ∷ [])
                ++ (join_threads additional 1 ++ (context_deleted ∷ [])))))
