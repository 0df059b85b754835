-- ===== src/Service.antt =====
-- The service of a program: Service/service.h and service.cpp, on top of the service library of qtservice/.
-- What is done is a list of effects, and workers are numbered in the order in which they are made. The log
-- output, and that a signal can come at any time, are left out.
mod Slots
mod Workers
mod Examples
use helpz.Prelude.{
  ℕ, zero, suc, ◌+◌, ◌≡◌, Bool, true, false, not, ◌&&◌, ◌||◌, Option, none, some, List, [], ◌∷◌,
  ◌++◌, ◌==◌, if◌then◌else◌, drop, ◌>>=◌,
}
use helpz.Database.Text.{Text, codes, same_text}

-- The loop of `Impl::create_worker` over the names of the methods, with the two flags so far: whether there
-- is a `logMessage` and a `serviceRestart`.
unfoldable pub find_slots : List Text → Bool → Bool → Bool × Bool
unfolding same_text
find_slots [] has_log has_restart = (has_log, has_restart)
find_slots (name ∷ names) has_log has_restart =
    let is_log = same_text name (codes "logMessage") in
    let is_restart = not is_log && same_text name (codes "serviceRestart") in
    let rest = find_slots names (has_log || is_log) (has_restart || is_restart) in
    if (has_log || is_log) && (has_restart || is_restart) then (true, true) else rest

-- The loop of the constructor of `Base_Template` over the arguments behind the name of the program.
unfoldable pub has_exec : List Text → Bool
unfolding same_text
has_exec [] = false
has_exec (a ∷ arguments) =
    let rest = has_exec arguments in
    if same_text a (codes "-e") || same_text a (codes "-exec") then true else rest

unfoldable pub is_immediately : List Text → Bool
unfolding has_exec
is_immediately argv = has_exec (drop 1 argv)

-- `logging_set`: `set_debug` of the logging with this value, and `set_syslog(true)`.
pub data Effect : Type 0 where
  log_thread_started : Effect
  logging_set : Bool → Effect
  worker_created log_connected restart_connected : ℕ → Effect
  log_disconnected : Effect
  worker_deleted : ℕ → Effect
  log_thread_quit log_thread_terminated log_thread_deleted : Effect
  commands_queued : ℕ → List Text → Effect
  signal_caught : ℕ → Effect
  backtrace_printed : ℕ → Effect
  exited : ℕ → Effect

-- `Base`, with its `service_`, an `Object` by the number of its worker, and how many workers were made.
pub record Service : Type 0 where
  pub service : Option ℕ
  pub workers : ℕ

-- What a program is: the names of the methods of its worker, and whether it runs at once.
pub record Program : Type 0 where
  pub methods : List Text
  pub immediately : Bool
  pub signal_catch_disabled : Bool

module _ (program : Program) where
  -- `Object::create_worker`.
  unfoldable pub create_worker : ℕ → List Effect
  unfolding find_slots
  create_worker n =
      let (has_log, has_restart) = find_slots program.methods false false in
      worker_created n
      ∷ ((if has_log then log_connected n ∷ [] else [])
          ++ (if has_restart then restart_connected n ∷ [] else []))

  -- The constructor of `Object`.
  unfoldable pub make_object : ℕ → List Effect
  unfolding create_worker
  make_object n = log_thread_started ∷ (logging_set program.immediately ∷ create_worker n)

  -- The destructor of `Object`; `quits` is whether the thread ends within 15 seconds.
  unfoldable pub destroy_object : Bool → ℕ → List Effect
  destroy_object quits n =
      log_disconnected
      ∷ (worker_deleted n
          ∷ (log_thread_quit
              ∷ ((if quits then [] else log_thread_terminated ∷ []) ++ (log_thread_deleted ∷ []))))

  unfoldable pub destroy_service : Bool → Option ℕ → List Effect
  unfolding destroy_object
  destroy_service quits none = []
  destroy_service quits (some n) = destroy_object quits n

  -- SIGTERM, SIGINT, SIGSEGV and SIGFPE.
  abbrev pub sigterm : ℕ
  sigterm = 15

  abbrev pub sigint : ℕ
  sigint = 2

  abbrev pub sigsegv : ℕ
  sigsegv = 11

  abbrev pub sigfpe : ℕ
  sigfpe = 8

  -- `Base::start`: the new object is made before the old one, if there is one, is destroyed.
  unfoldable pub start : Bool → Service → Service × List Effect
  unfolding make_object destroy_service
  start quits b = (
    record { service = some b.workers; workers = suc b.workers },
    make_object b.workers
        ++ (destroy_service quits b.service
            ++ (signal_caught sigterm
                ∷ (signal_caught sigint
                    ∷ (if program.signal_catch_disabled
                        then []
                        else signal_caught sigsegv ∷ (signal_caught sigfpe ∷ []))))),
  )

  unfoldable pub stop : Bool → Service → Service × List Effect
  unfolding destroy_service
  stop quits b = (record b { service = none }, destroy_service quits b.service)

  -- `Base::processCommands`; `none`: there is no service.
  unfoldable pub process_commands : List Text → Service → Option (Service × List Effect)
  process_commands commands b = elim b.service [
    | none ↦ none
    | some n ↦ some (b, commands_queued n commands ∷ [])
  ]

  -- `Object::restart`, a slot, which is not called when there is no object.
  unfoldable pub restart : Service → Service × List Effect
  unfolding create_worker
  restart b = elim b.service [
    | none ↦ (b, [])
    | some n ↦ (
      record { service = some b.workers; workers = suc b.workers },
      worker_deleted n ∷ create_worker b.workers,
    )
  ]

  -- `term_handler`, with the service that the global pointer points to.
  unfoldable pub term_handler : Bool → ℕ → Service → Service × List Effect
  unfolding stop
  term_handler quits signal b =
      let is_fault = (signal == sigsegv) || (signal == sigfpe) in
      let (b1, effects) = stop quits b in
      (
        b1,
        (if is_fault then backtrace_printed signal ∷ [] else [])
            ++ (effects ++ (exited (if is_fault then 1 else 0) ∷ [])),
      )

-- The calls of a `Base`.
pub data ServiceCall : Type 0 where
  starts stops : Bool → ServiceCall
  commands : List Text → ServiceCall
  restarts : ServiceCall

module _ (program : Program) where
  unfoldable pub call : ServiceCall → Service → Option (Service × List Effect)
  unfolding start stop process_commands restart
  call (starts quits) b = some (start program quits b)
  call (stops quits) b = some (stop program quits b)
  call (commands list) b = process_commands program list b
  call restarts b = some (restart program b)

  unfoldable pub calls : List ServiceCall → Service → Option (Service × List Effect)
  unfolding call
  calls [] b = some (b, [])
  calls (c ∷ cs) b = call c b >>= λ one. calls cs one.0 >>= λ rest. some (rest.0, one.1 ++ rest.1)
