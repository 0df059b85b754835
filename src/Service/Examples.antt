-- ===== src/Service/Examples.antt =====
-- A service whose worker has both slots. See Service/service.cpp.
use helpz.Prelude.{◌≡◌, refl, true, false, none, some, [], ◌∷◌}
use helpz.Database.Text.{codes}
use helpz.Service.{
  Service, Program, starts, stops, commands, restarts, log_thread_started, logging_set,
  worker_created, log_connected, restart_connected, log_disconnected, worker_deleted,
  log_thread_quit, log_thread_deleted, commands_queued, signal_caught, calls, is_immediately,
}

abbrev daemon : Program
daemon = record {
  methods = codes "logMessage" ∷ codes "run" ∷ codes "serviceRestart" ∷ [];
  immediately = false;
  signal_catch_disabled = true;
}

abbrev stopped : Service
stopped = record { service = none; workers = 0 }

restarted_daemon :
    calls daemon (starts true ∷ restarts ∷ commands (codes "go" ∷ []) ∷ stops true ∷ []) stopped
    ≡ some (
      record { service = none; workers = 2 },
      log_thread_started
          ∷ logging_set false
          ∷ worker_created 0
          ∷ log_connected 0
          ∷ restart_connected 0
          ∷ signal_caught 15
          ∷ signal_caught 2
          ∷ worker_deleted 0
          ∷ worker_created 1
          ∷ log_connected 1
          ∷ restart_connected 1
          ∷ commands_queued 1 (codes "go" ∷ [])
          ∷ log_disconnected
          ∷ worker_deleted 1
          ∷ log_thread_quit
          ∷ log_thread_deleted
          ∷ [],
    )
unfolding calls
restarted_daemon = refl

commands_before_start : calls daemon (commands [] ∷ []) stopped ≡ none
unfolding calls
commands_before_start = refl

exec_argument : is_immediately (codes "daemon" ∷ codes "-v" ∷ codes "-exec" ∷ []) ≡ true
unfolding is_immediately
exec_argument = refl
