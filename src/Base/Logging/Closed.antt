-- ===== src/Base/Logging/Closed.antt =====
-- What the destructor of `Logging` closes. See Base/logging.cpp.
use helpz.Prelude.{
  ◌≡◌, refl, Bool, true, false, not, none, some, List, [], ◌∷◌, arith, if◌then◌else◌, subst,
}
use helpz.Database.Text.{Text}
use helpz.Base.Logging.{
  Logging, Action, sets_debug, sets_syslog, inits, message, default_installed, log_closed,
  file_closed, destroy, init, set_debug, set_syslog, act_all,
}

module _ (current_time : Text → Text) where
  -- Behind `init` the file is there or not for good.
  act_all_file :
      (actions : List Action) (l : Logging)
      → l.initialized ≡ true
      → ((act_all current_time actions l).0.initialized ≡ true)
        × ((act_all current_time actions l).0.has_file ≡ l.has_file)
  unfolding act_all set_debug set_syslog init
  act_all_file [] l h = (h, refl)
  act_all_file (sets_debug val ∷ actions) l h = act_all_file actions (set_debug val l) h
  act_all_file (sets_syslog val ∷ actions) l h = act_all_file actions (set_syslog val l) h
  act_all_file (message type category str ∷ actions) l h = act_all_file actions l h
  act_all_file (inits opens ∷ actions) l h =
      subst
        (λ (k : Logging).
          ((act_all current_time actions k).0.initialized ≡ true)
          × ((act_all current_time actions k).0.has_file ≡ l.has_file))
        (let e : l ≡ (init opens l).0 = ground (arith, h) in e) (act_all_file actions l h)

  -- A `Logging` that was initialized, and went through any calls and messages behind that, is destroyed:
  -- with syslog on at the end, syslog is closed; with syslog off at `init` and at the end, the file is; with
  -- syslog on at `init` and off at the end, the destructor closes a file that is not there.
  pub destroy_lem :
      (opens : Bool) (actions : List Action) (l : Logging)
      → l.initialized ≡ false
      → l.has_file ≡ false
      → let last = (act_all current_time (inits opens ∷ actions) l).0 in
        destroy last ≡ (
          if last.syslog
          then some (default_installed ∷ (log_closed ∷ []))
          else if l.syslog
          then none
          else some (default_installed ∷ (file_closed ∷ [])))
  unfolding act_all init destroy
  destroy_lem opens actions l h f =
      let first = (init opens l).0 in
      let ready : first.initialized ≡ true = ground (arith, h) in
      let file : first.has_file ≡ not l.syslog = ground (arith, h, f) in
      let (initialized, has_file) = act_all_file actions first ready in
      ground (arith, initialized, has_file, file)
