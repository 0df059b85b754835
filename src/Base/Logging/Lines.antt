-- ===== src/Base/Logging/Lines.antt =====
-- The lines that `Logging` writes into its file. See Base/logging.cpp.
use helpz.Prelude.{
  ◌≡◌, refl, Bool, false, not, ◌&&◌, List, [], ◌∷◌, ◌++◌, ◌∙◌, arith, if◌then◌else◌, ap, map,
}
use helpz.Database.Text.{Text, codes}
use helpz.Base.Logging.{
  Logging, Effect, Action, MsgType, message, is_debug, line_written, handler_installed,
  default_installed, printed, emitted, log_opened, log_closed, logged, file_opened, file_closed,
  get_prefix, handle_message, save, deliver, act_all,
}

unfoldable pub written : List Effect → List Text
written [] = []
written (line_written line ∷ effects) = line ∷ written effects
written (handler_installed ∷ effects) = written effects
written (default_installed ∷ effects) = written effects
written (printed text ∷ effects) = written effects
written (emitted type category str ∷ effects) = written effects
written (log_opened ∷ effects) = written effects
written (log_closed ∷ effects) = written effects
written (logged level category str ∷ effects) = written effects
written (file_opened opens ∷ effects) = written effects
written (file_closed ∷ effects) = written effects

written-append : (a b : List Effect) → written (a ++ b) ≡ written a ++ written b
unfolding written
written-append [] b = refl
written-append (line_written line ∷ a) b = ap (λ x. line ∷ x) (written-append a b)
written-append (handler_installed ∷ a) b = written-append a b
written-append (default_installed ∷ a) b = written-append a b
written-append (printed text ∷ a) b = written-append a b
written-append (emitted type category str ∷ a) b = written-append a b
written-append (log_opened ∷ a) b = written-append a b
written-append (log_closed ∷ a) b = written-append a b
written-append (logged level category str ∷ a) b = written-append a b
written-append (file_opened opens ∷ a) b = written-append a b
written-append (file_closed ∷ a) b = written-append a b

module _ (current_time : Text → Text) where
  abbrev pub Message : Type 0
  Message = MsgType × (Text × Text)

  abbrev pub sent : List Message → List Action
  sent = map (λ (m : Message). message m.0 m.1.0 m.1.1)

  -- The lines of the messages; a message for debugging has one only with debugging on.
  unfoldable pub lines : Bool → List Message → List Text
  lines debug [] = []
  lines debug ((type, (category, str)) ∷ messages) =
      let rest = lines debug messages in
      if not debug && is_debug type
      then rest
      else (get_prefix current_time type category (codes "[hh:mm:ss dd.MM]") ++ str) ∷ rest

  written-act :
      (type : MsgType) (category str : Text) (l : Logging)
      → l.syslog ≡ false
      → written (deliver current_time (handle_message current_time type category str l) l) ≡ (
          if not l.debug && is_debug type
          then []
          else if l.has_stream
          then (get_prefix current_time type category (codes "[hh:mm:ss dd.MM]") ++ str) ∷ []
          else [])
  unfolding deliver handle_message save written
  written-act type category str l h = ground (arith, h)

  -- Messages to a `Logging` without syslog: each one is a line of the file, in their order, except those
  -- for debugging with debugging off; without the stream, as before `init`, none is.
  pub written_lem :
      (messages : List Message) (l : Logging)
      → l.syslog ≡ false
      → written (act_all current_time (sent messages) l).1
        ≡ (if l.has_stream then lines l.debug messages else [])
  unfolding act_all written lines
  written_lem [] l h = ground arith
  written_lem ((type, (category, str)) ∷ messages) l h =
      written-append (deliver current_time (handle_message current_time type category str l) l)
        (act_all current_time (sent messages) l).1
      ∙ ground (arith, written-act type category str l h, written_lem messages l h)
