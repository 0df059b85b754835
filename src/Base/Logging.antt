-- ===== src/Base/Logging.antt =====
-- `Logging` in Base/logging.h and logging.cpp, as on a system with syslog. What is done outside is a list
-- of effects; the clock is a parameter, the current time in a given format. The registration of types, the
-- name of the log file and `operator <<` are left out.
mod Closed
mod Lines
mod Examples
use helpz.Prelude.{
  ℕ, ◌≡◌, Bool, true, false, not, ◌&&◌, ◌||◌, Option, none, some, List, [], ◌∷◌, ◌++◌,
  if◌then◌else◌,
}
use helpz.Database.Text.{Text, codes}

-- `QtMsgType`.
pub data MsgType : Type 0 where
  debug_msg warning_msg critical_msg fatal_msg info_msg : MsgType

-- The levels of syslog.
pub data Level : Type 0 where
  log_info log_debug log_warning log_err log_crit : Level

-- The two handlers of Qt's messages that are installed, what is printed and emitted, the calls of syslog,
-- and what is done with the log file.
pub data Effect : Type 0 where
  handler_installed default_installed : Effect
  printed : Text → Effect
  emitted : MsgType → Text → Text → Effect
  log_opened log_closed : Effect
  logged : Level → Text → Text → Effect
  file_opened : Bool → Effect
  line_written : Text → Effect
  file_closed : Effect

-- `has_file` and `has_stream`: `file_` and `ts_` are not null.
pub record Logging : Type 0 where
  pub debug : Bool
  pub syslog : Bool
  pub initialized : Bool
  pub has_file : Bool
  pub has_stream : Bool

-- The constructor.
unfoldable pub logging : Bool → Bool → Logging × List Effect
logging debug syslog = (
  record {
    debug = debug;
    syslog = syslog;
    initialized = false;
    has_file = false;
    has_stream = false;
  },
  handler_installed ∷ [],
)

-- The destructor; `none`: it closes a file that is not there.
unfoldable pub destroy : Logging → Option (List Effect)
destroy l =
    if not l.initialized
    then some (default_installed ∷ [])
    else if l.syslog
    then some (default_installed ∷ (log_closed ∷ []))
    else if l.has_file
    then some (default_installed ∷ (file_closed ∷ []))
    else none

unfoldable pub set_debug : Bool → Logging → Logging
set_debug val l = record l { debug = val }

unfoldable pub set_syslog : Bool → Logging → Logging
set_syslog val l = record l { syslog = val }

abbrev pub type_char : MsgType → ℕ
type_char debug_msg = b'D'
type_char warning_msg = b'W'
type_char critical_msg = b'C'
type_char fatal_msg = b'F'
type_char info_msg = b'I'

abbrev pub is_debug : MsgType → Bool
is_debug debug_msg = true
is_debug warning_msg = false
is_debug critical_msg = false
is_debug fatal_msg = false
is_debug info_msg = false

abbrev pub level_of : MsgType → Level
level_of debug_msg = log_debug
level_of warning_msg = log_warning
level_of critical_msg = log_err
level_of fatal_msg = log_crit
level_of info_msg = log_info

-- `init`; `opens` is whether the file can be opened.
unfoldable pub init : Bool → Logging → Logging × List Effect
init opens l =
    if l.initialized
    then (l, [])
    else if l.syslog
    then (record l { initialized = true }, log_opened ∷ [])
    else (
      record l { initialized = true; has_file = true; has_stream = opens },
      file_opened opens ∷ [],
    )

-- The calls between the constructor and the destructor.
pub data Action : Type 0 where
  sets_debug sets_syslog inits : Bool → Action
  message : MsgType → Text → Text → Action

-- The current time in a format.
module _ (current_time : Text → Text) where
  unfoldable pub get_prefix : MsgType → Text → Text → Text
  get_prefix type category date_format =
      current_time date_format
      ++ ((b'[' ∷ category) ++ (b']' ∷ (b'[' ∷ (type_char type ∷ (b']' ∷ (b' ' ∷ []))))))

  -- `handler`.
  unfoldable pub handle_message : MsgType → Text → Text → Logging → List Effect
  unfolding get_prefix
  handle_message type category str l =
      if not l.debug && is_debug type
      then []
      else (if not l.syslog || l.debug
          then printed (get_prefix type category (codes "[hh:mm:ss]") ++ str) ∷ []
          else [])
        ++ (emitted type category str ∷ [])

  unfoldable pub save : MsgType → Text → Text → Logging → List Effect
  unfolding get_prefix
  save type category str l =
      if l.syslog
      then logged (level_of type) category str ∷ []
      else if l.has_stream
      then line_written (get_prefix type category (codes "[hh:mm:ss dd.MM]") ++ str) ∷ []
      else []

  -- What is emitted is saved by the slot that the constructor connects, here at once.
  unfoldable pub deliver : List Effect → Logging → List Effect
  unfolding save
  deliver [] l = []
  deliver (emitted type category str ∷ effects) l =
      emitted type category str ∷ (save type category str l ++ deliver effects l)
  deliver (handler_installed ∷ effects) l = handler_installed ∷ deliver effects l
  deliver (default_installed ∷ effects) l = default_installed ∷ deliver effects l
  deliver (printed text ∷ effects) l = printed text ∷ deliver effects l
  deliver (log_opened ∷ effects) l = log_opened ∷ deliver effects l
  deliver (log_closed ∷ effects) l = log_closed ∷ deliver effects l
  deliver (logged level category str ∷ effects) l = logged level category str ∷ deliver effects l
  deliver (file_opened opens ∷ effects) l = file_opened opens ∷ deliver effects l
  deliver (line_written line ∷ effects) l = line_written line ∷ deliver effects l
  deliver (file_closed ∷ effects) l = file_closed ∷ deliver effects l

  unfoldable pub act : Action → Logging → Logging × List Effect
  unfolding set_debug set_syslog init handle_message deliver
  act (sets_debug val) l = (set_debug val l, [])
  act (sets_syslog val) l = (set_syslog val l, [])
  act (inits opens) l = init opens l
  act (message type category str) l = (l, deliver (handle_message type category str l) l)

  unfoldable pub act_all : List Action → Logging → Logging × List Effect
  unfolding act
  act_all [] l = (l, [])
  act_all (a ∷ actions) l =
      let (l1, effects) = act a l in let (l2, later) = act_all actions l1 in (l2, effects ++ later)
