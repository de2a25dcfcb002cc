-- ===== src/Lpcisp/Ends.antt =====
-- The termination of lpcisp.
use lpctools.Base.{
  ℕ, List, [], ◌∷◌, none, some, inl, inr, Bool-cases, get_or, ℤ, pos, negsuc, is_zero,
}
use lpctools.Machine.{World, Cmd, pure}
use lpctools.Transfer.Steady.{Returns, Returns-bind, Steady-then}
use lpctools.Machine.Steady.{Steady}
use lpctools.Command.Steady.{
  cmd_unlock-Steady, cmd_part_id-Steady, cmd_read_uid-Steady, cmd_boot_version-Steady,
}
use lpctools.Connect.Steady.{connect-Steady}
use lpctools.Connect.{connect}
use lpctools.Wrapper.Steady.{commands-Steady}
use lpctools.Wrapper.Ends.{cmd_write_to_ram-Returns, cmd_read_memory-Returns}
use lpctools.Host.{Host, Outcome}
use lpctools.Serial.Setup.{serial_open}
use lpctools.Dispatch.{find_command}
use lpctools.Lpcisp.{
  CmdNum, isp_cmds_list, no_file, run_command, handle_command, open_session, run_session, main_with,
  main, Opt, Settings, parse_options, defaults, crystal_freq,
}

no_file-Returns : (m : Cmd ℤ) (w : World) → Steady m → Returns (no_file m w)
no_file-Returns m w ends = Steady-then m _ w ends λ ret w' f. tt

run_command-Returns :
    (host : Host) (c : CmdNum) (args : List (List ℕ)) (w : World)
    → Returns (run_command host c args w)
unfolding run_command
run_command-Returns host CmdNum.unlock args w = no_file-Returns _ w cmd_unlock-Steady
run_command-Returns host CmdNum.write_to_ram args w =
    Returns-bind _ _ (cmd_write_to_ram-Returns args (host.load (get_or args 1 [])) w) λ ret w'. tt
run_command-Returns host CmdNum.read_memory args w =
    cmd_read_memory-Returns args host.can_allocate (host.sink (get_or args 2 [])) w
run_command-Returns host CmdNum.prepare_for_write args w =
    no_file-Returns _ w (commands-Steady args).4
run_command-Returns host CmdNum.copy_ram_to_flash args w =
    no_file-Returns _ w (commands-Steady args).1
run_command-Returns host CmdNum.go args w = no_file-Returns _ w (commands-Steady args).2
run_command-Returns host CmdNum.erase args w = no_file-Returns _ w (commands-Steady args).5
run_command-Returns host CmdNum.blank_check args w = no_file-Returns _ w (commands-Steady args).3
run_command-Returns host CmdNum.read_part_id args w = no_file-Returns _ w (cmd_part_id-Steady 0)
run_command-Returns host CmdNum.read_boot_version args w =
    no_file-Returns _ w cmd_boot_version-Steady
run_command-Returns host CmdNum.compare args w = no_file-Returns _ w (commands-Steady args).0
run_command-Returns host CmdNum.read_uid args w = no_file-Returns _ w cmd_read_uid-Steady

handle_command-Returns :
    (host : Host) (cmd : List ℕ) (args : List (List ℕ)) (w : World)
    → Returns (handle_command host cmd args w)
unfolding handle_command
handle_command-Returns host cmd args w =
    elim (find_command (λ e. e.name) isp_cmds_list cmd)
      as (λ found. Returns (
        (elim found as (λ _. Cmd Outcome) [
          | none ↦ pure (negsuc 1, none)
          | some e ↦ run_command host e.cmd_num args
        ])
          w)) [ none ↦ tt | some e ↦ run_command-Returns host e.cmd_num args w ]

main_with-Returns :
    (host : Host) (s : Settings) (args : List (List ℕ)) (w : World)
    → Returns (main_with host s args w)
unfolding main_with open_session run_session
main_with-Returns host s [] w = tt
main_with-Returns host s (device ∷ more) w =
    elim (Bool-cases
      (is_zero (serial_open host.is_speed (host.opens_line device) s.baudrate (some device)).0)) [
        | inr shut ↦ rw shut tt
        | inl opened ↦ elim (Bool-cases s.synchronize) [
          | inl sync ↦ rw (opened, sync) (session more)
          | inr plain ↦ rw (opened, plain) (commands more)
        ]
      ]
  where
    session : (args : List (List ℕ)) → Returns (open_session args w)
    session [] = Steady-then (connect crystal_freq) _ w (connect-Steady crystal_freq) λ ret w' f. tt
    session (arg ∷ more) = tt

    commands : (args : List (List ℕ)) → Returns (run_session host args w)
    commands [] = tt
    commands (cmd ∷ args) =
        Returns-bind _ _ (handle_command-Returns host cmd args w) λ (err, file) w'. tt

-- lpcisp ends on every line on which the device sends finitely many bytes, and with files whose reads
-- find no data yet finitely often, whatever its options and arguments, the contents of the files, the
-- outcomes of the reads and writes, whether or not memory can be allocated, and whatever the resend
-- requests counted before.
pub lpcisp_ends :
    (host : Host) (opts : List Opt) (args : List (List ℕ)) (w : World)
    → Returns (main host opts args w)
unfolding main
lpcisp_ends host opts args w =
    elim (parse_options opts defaults)
      as (λ parsed. Returns (
        (elim parsed as (λ _. Cmd Outcome) [
          | none ↦ pure (pos 0, none)
          | some s ↦ main_with host s args
        ])
          w)) [ none ↦ tt | some s ↦ main_with-Returns host s args w ]
