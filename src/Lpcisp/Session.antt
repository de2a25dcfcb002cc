-- ===== src/Lpcisp/Session.antt =====
-- What main of lpcisp does behind its options.
use lpctools.Base.{ℕ, ◌≡◌, refl, arith, true, false, List, [], ◌∷◌, ◌++◌, none, some, pos}
use lpctools.Machine.{World, Run, done, Rx, and_then, pure}
use lpctools.Serial.Idle.{idle}
use lpctools.Serial.Setup.{serial_open}
use lpctools.Connect.Dialogue.{device, dialogue, connect-dialogue}
use lpctools.Host.{Host, Outcome}
use lpctools.Lpcisp.{
  CmdNum, run_command, open_session, run_session, main_with, main, Opt, Settings, parse_options,
  defaults, crystal_freq,
}
use lpctools.Lpcisp.Names.{command_name, handle_command-command_name}

-- The result of main is 0, whatever the command's is.
abbrev pub exit_zero : Run Outcome → Run Outcome
exit_zero r = and_then r λ (err, file). pure (pos 0, file)

module _ (host : Host) (opts : List Opt) (s : Settings)
    (parsed : parse_options opts defaults ≡ some s) (serial_device : List ℕ)
    (opened : host.opens_line serial_device ≡ true) where
  -- lpcisp with a serial device that can be opened and without -s: a text that starts with a command's
  -- name runs that command, with any number of arguments, and the result of main is 0 whatever the
  -- command's result is.
  pub main-command_name :
      (c : CmdNum) (rest : List ℕ) (args : List (List ℕ)) (w : World)
      → s.synchronize ≡ false
      → main host opts (serial_device ∷ (command_name c ++ rest) ∷ args) w
        ≡ exit_zero (run_command host c args w)
  unfolding main main_with run_session serial_open
  main-command_name c rest args w plain =
      rw (parsed, opened, plain, handle_command-command_name host c rest args w, main, main_with)
        refl

  -- With -s, a session is opened.
  pub main-dialogue :
      (w : World) (c : ℕ) (rx : List Rx) (sent : List ℕ)
      → s.synchronize ≡ true
      → main host opts (serial_device ∷ []) (idle w c (device crystal_freq rx) sent)
        ≡ done (pos 0, none) (idle w c rx (sent ++ dialogue crystal_freq))
  unfolding main main_with open_session serial_open
  main-dialogue w c rx sent sync =
      rw
        (
          parsed,
          opened,
          sync,
          connect-dialogue crystal_freq w c rx sent (omega arith),
          main,
          main_with,
        )
        refl
