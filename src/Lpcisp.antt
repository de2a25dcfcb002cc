-- ===== src/Lpcisp.antt =====
-- lpcisp.c: the table of commands, isp_handle_command, and main. getopt_long() is not modelled: main is
-- given the options that it returns, in order, and the arguments that it leaves.
pub mod Names
pub mod Ends
pub mod Session
mod Runs
use lpctools.Base.{
  ℕ, Bool, true, false, not, List, [], ◌∷◌, Option, none, some, get_or, codes, if◌then◌else◌, ℤ,
  pos, negsuc, is_zero,
}
use lpctools.Machine.{done, Cmd, pure, and_then, ◌>>=◌, ◌>>◌}
use lpctools.Text.{atoi}
use lpctools.Host.{Host, Outcome}
use lpctools.Serial.Setup.{serial_open}
use lpctools.Command.{cmd_unlock, cmd_part_id, cmd_read_uid, cmd_boot_version}
use lpctools.Connect.{connect}
use lpctools.Wrapper.{
  cmd_read_memory, cmd_write_to_ram, cmd_compare, cmd_copy_ram_to_flash, cmd_go, cmd_blank_check,
  cmd_prepare_for_write, cmd_erase,
}
use lpctools.Dispatch.{find_command}

-- The commands, by their numbers.
pub data CmdNum : Type 0 where
  unlock : CmdNum
  write_to_ram : CmdNum
  read_memory : CmdNum
  prepare_for_write : CmdNum
  copy_ram_to_flash : CmdNum
  go : CmdNum
  erase : CmdNum
  blank_check : CmdNum
  read_part_id : CmdNum
  read_boot_version : CmdNum
  compare : CmdNum
  read_uid : CmdNum

-- struct isp_command; what the handler is called for is in `run_command`.
pub record IspCommand : Type 0 where
  pub cmd_num : CmdNum
  pub name : List ℕ
  pub nb_args : ℕ

abbrev pub entry : CmdNum → List ℕ → ℕ → IspCommand
entry cmd_num name nb_args = record { cmd_num = cmd_num; name = name; nb_args = nb_args }

abbrev pub isp_cmds_list : List IspCommand
isp_cmds_list =
    entry CmdNum.unlock (codes "unlock") 0
    ∷ entry CmdNum.write_to_ram (codes "write-to-ram") 3
    ∷ entry CmdNum.read_memory (codes "read-memory") 3
    ∷ entry CmdNum.prepare_for_write (codes "prepare-for-write") 2
    ∷ entry CmdNum.copy_ram_to_flash (codes "copy-ram-to-flash") 3
    ∷ entry CmdNum.go (codes "go") 2
    ∷ entry CmdNum.erase (codes "erase") 2
    ∷ entry CmdNum.blank_check (codes "blank-check") 2
    ∷ entry CmdNum.read_part_id (codes "read-part-id") 0
    ∷ entry CmdNum.read_boot_version (codes "read-boot-version") 0
    ∷ entry CmdNum.compare (codes "compare") 3
    ∷ entry CmdNum.read_uid (codes "read-uid") 0
    ∷ []

-- A command that writes no file.
abbrev pub no_file : Cmd ℤ → Cmd Outcome
no_file m = m >>= λ ret. pure (ret, none)

-- The switch of isp_handle_command, with the calls through the table's handlers.
unfoldable pub run_command : Host → CmdNum → List (List ℕ) → Cmd Outcome
run_command host CmdNum.unlock args = no_file cmd_unlock
run_command host CmdNum.write_to_ram args =
    no_file (cmd_write_to_ram args (host.load (get_or args 1 [])))
run_command host CmdNum.read_memory args =
    cmd_read_memory args host.can_allocate (host.sink (get_or args 2 []))
run_command host CmdNum.prepare_for_write args = no_file (cmd_prepare_for_write args)
run_command host CmdNum.copy_ram_to_flash args = no_file (cmd_copy_ram_to_flash args)
run_command host CmdNum.go args = no_file (cmd_go args)
run_command host CmdNum.erase args = no_file (cmd_erase args)
run_command host CmdNum.blank_check args = no_file (cmd_blank_check args)
run_command host CmdNum.read_part_id args = no_file (cmd_part_id 0)
run_command host CmdNum.read_boot_version args = no_file cmd_boot_version
run_command host CmdNum.compare args = no_file (cmd_compare args)
run_command host CmdNum.read_uid args = no_file cmd_read_uid

-- isp_handle_command; a wrong number of arguments only leads to a message.
unfoldable pub handle_command : Host → List ℕ → List (List ℕ) → Cmd Outcome
handle_command host cmd args = elim (find_command (λ e. e.name) isp_cmds_list cmd) [
  | none ↦ pure (negsuc 1, none)
  | some e ↦ run_command host e.cmd_num args
]

-- An option that getopt_long() returns; `help` is any that it does not know, too.
pub data Opt : Type 0 where
  synchronize : Opt
  baudrate : List ℕ → Opt
  trace : Opt
  help : Opt
  version : Opt

pub record Settings : Type 0 where
  pub baudrate : ℤ
  pub synchronize : Bool
  pub trace_on : Bool

-- SERIAL_BAUD is B115200.
abbrev pub defaults : Settings
defaults = record { baudrate = pos 4098; synchronize = false; trace_on = false }

-- The loop over the options; `none` is the return from main with 0.
unfoldable pub parse_options : List Opt → Settings → Option Settings
parse_options [] s = some s
parse_options (Opt.baudrate optarg ∷ more) s =
    parse_options more (record s { baudrate = atoi optarg })
parse_options (Opt.trace ∷ more) s = parse_options more (record s { trace_on = true })
parse_options (Opt.synchronize ∷ more) s = parse_options more (record s { synchronize = true })
parse_options (Opt.version ∷ more) s = none
parse_options (Opt.help ∷ more) s = none

abbrev pub crystal_freq : ℕ
crystal_freq = 10000

-- With the line open: a session is opened, and no command may be given.
unfoldable pub open_session : List (List ℕ) → Cmd Outcome
open_session [] = connect crystal_freq >> pure (pos 0, none)
open_session (arg ∷ more) = pure (negsuc 0, none)

-- With the line open: a command is run. The result of main does not depend on it.
unfoldable pub run_session : Host → List (List ℕ) → Cmd Outcome
unfolding handle_command
run_session host [] = pure (negsuc 0, none)
run_session host (command ∷ cmd_args) = do
  (err, file) ← handle_command host command cmd_args
  pure (pos 0, file)

-- main, behind the options.
unfoldable pub main_with : Host → Settings → List (List ℕ) → Cmd Outcome
unfolding open_session run_session
main_with host s [] = pure (pos 0, none)
main_with host s (device ∷ more) =
    if not (is_zero (serial_open host.is_speed (host.opens_line device) s.baudrate (some device)).0)
    then pure (negsuc 0, none)
    else if s.synchronize
    then open_session more
    else run_session host more

unfoldable pub main : Host → List Opt → List (List ℕ) → Cmd Outcome
unfolding parse_options main_with
main host opts args = elim (parse_options opts defaults) [
  | none ↦ pure (pos 0, none)
  | some s ↦ main_with host s args
]
