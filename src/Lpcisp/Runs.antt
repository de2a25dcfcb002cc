-- ===== src/Lpcisp/Runs.antt =====
-- lpcisp with concrete options, files and devices.
use lpctools.Base.{◌≡◌, refl, [], ◌∷◌, none, some, true, codes, pos}
use lpctools.Machine.{done}
use lpctools.Machine.Samples.{at_start, slow_line}
use lpctools.Transfer.Steady.{Returns}
use lpctools.Host.{Host}
use lpctools.Lpcisp.{CmdNum, run_command, main, Opt, parse_options, defaults}
use lpctools.Lpcisp.Session.{exit_zero, main-command_name}
use lpctools.Lpcisp.Ends.{lpcisp_ends}

abbrev host : Host
host = record {
  load = λ name. none;
  sink = λ name. record { opens = true; room = some 0x8000 };
  parts_text = λ name. none;
  einval = true;
  behind = λ line. [];
  opens_line = λ device. true;
  is_speed = λ speed. true;
  can_allocate = true;
}

-- An option that asks for help ends the program, whatever stands before or behind it.
helped :
    main host (Opt.synchronize ∷ Opt.help ∷ Opt.trace ∷ []) [] at_start
    ≡ done (pos 0, none) at_start
unfolding main
helped = refl

plain_options : parse_options [] defaults ≡ some defaults
unfolding parse_options
plain_options = refl

lpcisp_ends_example :
    Returns (main host [] (codes "tty" ∷ codes "erase" ∷ codes "0" ∷ codes "7" ∷ []) slow_line)
lpcisp_ends_example =
    lpcisp_ends host [] (codes "tty" ∷ codes "erase" ∷ codes "0" ∷ codes "7" ∷ []) slow_line

main-command_name_example :
    main host [] (codes "tty" ∷ codes "golf" ∷ []) at_start
    ≡ exit_zero (run_command host CmdNum.go [] at_start)
main-command_name_example =
    main-command_name host [] defaults plain_options (codes "tty") refl CmdNum.go (codes "lf") []
      at_start refl
