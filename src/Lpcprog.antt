-- ===== src/Lpcprog.antt =====
-- lpcprog.c: prog_connect_and_id, the table of commands, prog_handle_command, and main. getopt_long() is not
-- modelled: main is given the options that it returns, in order, and the arguments that it leaves.
pub mod Names
pub mod Ends
pub mod Session
pub mod WholeRuns
mod Runs
use lpctools.Base.{
  ℕ, Bool, true, false, not, ◌||◌, ◌^◌, ◌-◌, List, [], ◌∷◌, Option, none, some, length, codes, ◌==◌,
  if◌then◌else◌, ℤ, pos, negsuc, is_zero, is_neg, u32, to_unsigned,
}
use lpctools.Machine.{done, Cmd, pure, and_then, ◌>>=◌, ◌>>◌}
use lpctools.Text.{atoi}
use lpctools.Host.{Host, Outcome}
use lpctools.Serial.Setup.{serial_open}
use lpctools.Command.{cmd_part_id}
use lpctools.Connect.{connect}
use lpctools.Parts.{PartDesc, find_part_in_file}
use lpctools.Prog.{dump_to_file, flash_target, get_ids, erase_flash, start_prog}
use lpctools.Dispatch.{find_command}

-- prog_connect_and_id: where the synchronisation fails, a command is sent for nothing.
unfoldable pub connect_and_id : ℕ → Cmd ℤ
connect_and_id freq = do
  sync_ret ← connect freq
  if is_neg sync_ret then cmd_part_id 1 >> cmd_part_id 1 else cmd_part_id 1

-- The commands, by their numbers.
pub data CmdNum : Type 0 where
  dump : CmdNum
  flash : CmdNum
  id : CmdNum
  blank : CmdNum
  go : CmdNum

-- struct prog_command
pub record ProgCommand : Type 0 where
  pub cmd_num : CmdNum
  pub name : List ℕ

abbrev pub entry : CmdNum → List ℕ → ProgCommand
entry cmd_num name = record { cmd_num = cmd_num; name = name }

abbrev pub prog_cmds_list : List ProgCommand
prog_cmds_list =
    entry CmdNum.dump (codes "dump")
    ∷ entry CmdNum.flash (codes "flash")
    ∷ entry CmdNum.id (codes "id")
    ∷ entry CmdNum.blank (codes "blank")
    ∷ entry CmdNum.go (codes "go")
    ∷ []

-- A command that writes no file.
abbrev pub no_file : Cmd ℤ → Cmd Outcome
no_file m = m >>= λ ret. pure (ret, none)

-- The switch of prog_handle_command.
unfoldable pub run_command : Host → ℕ → PartDesc → CmdNum → List (List ℕ) → Cmd Outcome
run_command host calc_user_code part CmdNum.dump (filename ∷ []) =
    dump_to_file part filename host.can_allocate (host.sink filename)
run_command host calc_user_code part CmdNum.dump _ = pure (negsuc 3, none)
run_command host calc_user_code part CmdNum.flash (filename ∷ []) =
    no_file (flash_target part (host.load filename) calc_user_code host.can_allocate)
run_command host calc_user_code part CmdNum.flash _ = pure (negsuc 3, none)
run_command host calc_user_code part CmdNum.id args = no_file get_ids
run_command host calc_user_code part CmdNum.blank args = no_file (erase_flash part)
run_command host calc_user_code part CmdNum.go args = no_file (start_prog part)

-- The conversion of an int to uint64_t.
abbrev pub to_u64 : ℤ → ℕ
to_u64 (pos n) = n
to_u64 (negsuc n) = 2 ^ 64 - 1 - n

-- prog_handle_command
unfoldable pub handle_command : Host → List ℕ → ℕ → List ℕ → ℤ → List (List ℕ) → Cmd Outcome
handle_command host parts_file_name calc_user_code cmd dev_id args =
    elim (find_part_in_file host.einval host.behind (to_u64 dev_id)
      (host.parts_text parts_file_name)) [
        | none ↦ pure (negsuc 1, none)
        | some part ↦ elim (find_command (λ e. e.name) prog_cmds_list cmd) [
          | none ↦ pure (negsuc 2, none)
          | some e ↦ run_command host calc_user_code part e.cmd_num args
        ]
      ]

-- An option that getopt_long() returns; `help` is any that it does not know, too.
pub data Opt : Type 0 where
  parts : List ℕ → Opt
  command : List ℕ → Opt
  device : List ℕ → Opt
  baudrate : List ℕ → Opt
  trace : Opt
  freq : List ℕ → Opt
  no_user_code : Opt
  help : Opt
  version : Opt

pub record Settings : Type 0 where
  pub parts_file_name : Option (List ℕ)
  pub command : Option (List ℕ)
  pub isp_serial_device : Option (List ℕ)
  pub baudrate : ℤ
  pub trace_on : Bool
  pub crystal_freq : ℤ
  pub calc_user_code : ℕ

-- SERIAL_BAUD is B115200.
abbrev pub defaults : Settings
defaults = record {
  parts_file_name = none;
  command = none;
  isp_serial_device = none;
  baudrate = pos 4098;
  trace_on = false;
  crystal_freq = pos 10000;
  calc_user_code = 1;
}

-- The loop over the options; `none` is the return from main with 0.
unfoldable pub parse_options : List Opt → Settings → Option Settings
parse_options [] s = some s
parse_options (Opt.parts optarg ∷ more) s =
    parse_options more (record s { parts_file_name = some optarg })
parse_options (Opt.command optarg ∷ more) s =
    parse_options more (record s { command = some optarg })
parse_options (Opt.device optarg ∷ more) s =
    parse_options more (record s { isp_serial_device = some optarg })
parse_options (Opt.baudrate optarg ∷ more) s =
    parse_options more (record s { baudrate = atoi optarg })
parse_options (Opt.trace ∷ more) s = parse_options more (record s { trace_on = true })
parse_options (Opt.freq optarg ∷ more) s =
    parse_options more (record s { crystal_freq = atoi optarg })
parse_options (Opt.no_user_code ∷ more) s = parse_options more (record s { calc_user_code = 0 })
parse_options (Opt.version ∷ more) s = none
parse_options (Opt.help ∷ more) s = none

abbrev pub default_part_file_name_etc : List ℕ
default_part_file_name_etc = codes "/etc/lpctools_parts.def"

abbrev pub default_part_file_name_current : List ℕ
default_part_file_name_current = codes "./lpctools_parts.def"

-- The parts description file: the one that is given, or a default one that can be opened.
unfoldable pub choose_parts_file : Host → Option (List ℕ) → Option (List ℕ)
choose_parts_file host (some name) = some name
choose_parts_file host none = elim (host.parts_text default_part_file_name_current) [
  | some text ↦ some default_part_file_name_current
  | none ↦ elim (host.parts_text default_part_file_name_etc) [
    | some text ↦ some default_part_file_name_etc
    | none ↦ none
  ]
]

-- main with the line open. The result of main does not depend on the command's.
unfoldable pub run_session : Host → Settings → List ℕ → List ℕ → List (List ℕ) → Cmd Outcome
unfolding connect_and_id handle_command
run_session host s parts_file_name cmd cmd_args = do
  dev_id ← connect_and_id (to_unsigned s.crystal_freq)
  if is_neg dev_id then pure (negsuc 0, none) else do
    (err, file) ← handle_command host parts_file_name s.calc_user_code cmd dev_id cmd_args
    pure (pos 0, file)

-- main, from the opening of the line on.
unfoldable pub open_line : Host → Settings → List ℕ → List ℕ → List (List ℕ) → Cmd Outcome
unfolding run_session
open_line host s parts_file_name cmd args = elim s.isp_serial_device [
  | none ↦ pure (pos 0, none)
  | some serial_device ↦
      if not (
        is_zero
          (serial_open host.is_speed (host.opens_line serial_device) s.baudrate
            (some serial_device)).0)
      then pure (negsuc 0, none)
      else run_session host s parts_file_name cmd args
]

unfoldable pub main_with : Host → Settings → List (List ℕ) → Cmd Outcome
unfolding choose_parts_file open_line
main_with host s args = elim s.command [
  | none ↦ pure (negsuc 0, none)
  | some cmd ↦ elim (choose_parts_file host s.parts_file_name) [
    | none ↦ pure (negsuc 0, none)
    | some parts_file_name ↦ open_line host s parts_file_name cmd args
  ]
]

unfoldable pub main : Host → List Opt → List (List ℕ) → Cmd Outcome
unfolding parse_options main_with
main host opts args = elim (parse_options opts defaults) [
  | none ↦ pure (pos 0, none)
  | some s ↦ main_with host s args
]
