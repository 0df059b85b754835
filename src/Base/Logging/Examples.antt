-- ===== src/Base/Logging/Examples.antt =====
-- Runs of `Logging`.
use helpz.Prelude.{◌≡◌, refl, true, false, none, [], ◌∷◌}
use helpz.Database.Text.{Text, codes}
use helpz.Base.Logging.{
  logging, act_all, destroy, inits, message, sets_syslog, debug_msg, warning_msg, printed, emitted,
  line_written, file_opened,
}

abbrev clock : Text → Text
clock format = codes "12:00"

-- A warning before `init` is only printed; one for debugging is dropped.
lines_of_warnings :
    (act_all clock
      (message warning_msg (codes "net") (codes "lost")
        ∷ inits true
        ∷ message debug_msg (codes "net") (codes "sent")
        ∷ message warning_msg (codes "net") (codes "late")
        ∷ [])
      (logging false false).0).1
    ≡ printed (codes "12:00[net][W] lost")
      ∷ emitted warning_msg (codes "net") (codes "lost")
      ∷ file_opened true
      ∷ printed (codes "12:00[net][W] late")
      ∷ emitted warning_msg (codes "net") (codes "late")
      ∷ line_written (codes "12:00[net][W] late")
      ∷ []
unfolding act_all logging
lines_of_warnings = refl

syslog_switched_off :
    destroy (act_all clock (inits true ∷ sets_syslog false ∷ []) (logging false true).0).0 ≡ none
unfolding act_all logging destroy
syslog_switched_off = refl
