-- ===== src/Lpcprog/Ends.antt =====
-- The termination of lpcprog.
use lpctools.Base.{
  ℕ, ◌^◌, ◌<◌, Bool, not, List, [], ◌∷◌, Option, none, some, inl, inr, Bool-cases, ℤ, pos, negsuc,
  is_zero, is_neg, eq_ℤ, add32, to_unsigned, arith, if◌then◌else◌,
}
use lpctools.Machine.{World, Cmd, pure}
use lpctools.Machine.Steady.{Steady, Steady-if, steady_rules}
use lpctools.Transfer.Steady.{Returns, Returns-bind, Steady-then}
use lpctools.Transfer.Fetch.{read_memory-Returns}
use lpctools.Command.{cmd_unlock}
use lpctools.Command.Steady.{
  cmd_unlock-Steady, cmd_part_id-Steady, cmd_read_uid-Steady, cmd_boot_version-Steady,
  send_cmd_go-Steady,
}
use lpctools.Connect.Steady.{connect-Steady}
use lpctools.File.{Sink}
use lpctools.Parts.{PartDesc}
use lpctools.Parts.Sound.{IsSound, find_part_in_file-IsSound}
use lpctools.Prog.{get_ids, start_prog, dump_to_file}
use lpctools.Prog.{erase_flash}
use lpctools.Prog.Erase.{erase_flash-Steady, flash_target-Returns}
use lpctools.Host.{Host, Outcome}
use lpctools.Serial.Setup.{serial_open}
use lpctools.Dispatch.{find_command}
use lpctools.Lpcprog.{
  CmdNum, prog_cmds_list, run_command, handle_command, connect_and_id, run_session, open_line,
  choose_parts_file, main_with, main, Opt, Settings, parse_options, defaults, to_u64,
}

Steady-Returns {ℓ} : {A : Type ℓ} (m : Cmd A) (w : World) → Steady m → Returns (m w)
Steady-Returns m w ends = let (a, w', e, frame) = ends.at w in rw e tt

get_ids-Steady : Steady get_ids
unfolding get_ids
get_ids-Steady =
    search (steady_rules, cmd_part_id-Steady, cmd_read_uid-Steady, cmd_boot_version-Steady) depth 8

connect_and_id-Steady : (freq : ℕ) → Steady (connect_and_id freq)
unfolding connect_and_id
connect_and_id-Steady freq = search (steady_rules, connect-Steady, cmd_part_id-Steady) depth 8

start_prog-Returns : (part : PartDesc) (w : World) → Returns (start_prog part w)
unfolding start_prog
start_prog-Returns part w =
    Returns-bind _ _
      (read_memory-Returns (add32 part.flash_base part.reset_vector_offset) 4 part.uuencode w
        (omega arith))
      λ (len, data_at) w1. elim (Bool-cases (eq_ℤ len (pos 4))) [
        | inr short ↦ rw short tt
        | inl read ↦ rw read (
            Steady-then cmd_unlock _ w1 cmd_unlock-Steady λ ret w2 f.
              elim (Bool-cases (is_zero ret)) [
                | inr refused ↦ rw refused tt
                | inl unlocked ↦ rw unlocked (
                    Steady-Returns _ w2
                      (Steady-if _ _ _ (send_cmd_go-Steady _ _) (send_cmd_go-Steady _ _)))
              ])
      ]

dump_to_file-Returns :
    (part : PartDesc) (filename : List ℕ) (can_allocate : Bool) (sink : Sink) (w : World)
    → part.flash_size < 2 ^ 32
    → Returns (dump_to_file part filename can_allocate sink w)
unfolding dump_to_file
dump_to_file-Returns part filename can_allocate sink w small = elim (Bool-cases can_allocate) [
  | inr lacking ↦ rw lacking tt
  | inl allocated ↦ rw allocated (
      Returns-bind _ _ (read_memory-Returns part.flash_base part.flash_size part.uuencode w small)
        λ r w'. tt)
]

run_command-Returns :
    (host : Host) (calc_user_code : ℕ) (part : PartDesc) (c : CmdNum) (args : List (List ℕ))
    (w : World)
    → part.flash_size < 2 ^ 32
    → Returns (run_command host calc_user_code part c args w)
unfolding run_command
run_command-Returns host calc_user_code part CmdNum.dump [] w small = tt
run_command-Returns host calc_user_code part CmdNum.dump (filename ∷ []) w small =
    dump_to_file-Returns part filename host.can_allocate (host.sink filename) w small
run_command-Returns host calc_user_code part CmdNum.dump (a ∷ b ∷ more) w small = tt
run_command-Returns host calc_user_code part CmdNum.flash [] w small = tt
run_command-Returns host calc_user_code part CmdNum.flash (filename ∷ []) w small =
    Returns-bind _ _
      (flash_target-Returns part (host.load filename) calc_user_code host.can_allocate w)
      λ ret w'. tt
run_command-Returns host calc_user_code part CmdNum.flash (a ∷ b ∷ more) w small = tt
run_command-Returns host calc_user_code part CmdNum.id args w small =
    Steady-then get_ids _ w get_ids-Steady λ ret w' f. tt
run_command-Returns host calc_user_code part CmdNum.blank args w small =
    Steady-then (erase_flash part) _ w (erase_flash-Steady part) λ ret w' f. tt
run_command-Returns host calc_user_code part CmdNum.go args w small =
    Returns-bind _ _ (start_prog-Returns part w) λ ret w'. tt

-- prog_handle_command, from the look-up of the command on.
for_part-Returns :
    (host : Host) (calc_user_code dev_id : ℕ) (cmd : List ℕ) (args : List (List ℕ)) (w : World)
    (found : Option PartDesc)
    → IsSound dev_id found
    → Returns (
        (elim found as (λ _. Cmd Outcome) [
          | none ↦ pure (negsuc 1, none)
          | some part ↦ elim (find_command (λ e. e.name) prog_cmds_list cmd) [
            | none ↦ pure (negsuc 2, none)
            | some e ↦ run_command host calc_user_code part e.cmd_num args
          ]
        ])
          w)
for_part-Returns host calc_user_code dev_id cmd args w none sound = tt
for_part-Returns host calc_user_code dev_id cmd args w (some part) sound =
    elim (find_command (λ e. e.name) prog_cmds_list cmd)
      as (λ found. Returns (
        (elim found as (λ _. Cmd Outcome) [
          | none ↦ pure (negsuc 2, none)
          | some e ↦ run_command host calc_user_code part e.cmd_num args
        ])
          w)) [
            | none ↦ tt
            | some e ↦ run_command-Returns host calc_user_code part e.cmd_num args w sound.2.1.0
          ]

handle_command-Returns :
    (host : Host) (parts_file_name : List ℕ) (calc_user_code : ℕ) (cmd : List ℕ) (dev_id : ℤ)
    (args : List (List ℕ)) (w : World)
    → Returns (handle_command host parts_file_name calc_user_code cmd dev_id args w)
unfolding handle_command
handle_command-Returns host parts_file_name calc_user_code cmd dev_id args w =
    for_part-Returns host calc_user_code (to_u64 dev_id) cmd args w _ (
      find_part_in_file-IsSound host.einval host.behind (to_u64 dev_id)
        (host.parts_text parts_file_name))

run_session-Returns :
    (host : Host) (s : Settings) (parts_file_name cmd : List ℕ) (args : List (List ℕ)) (w : World)
    → Returns (run_session host s parts_file_name cmd args w)
unfolding run_session
run_session-Returns host s parts_file_name cmd args w =
    Steady-then _ _ w (connect_and_id-Steady (to_unsigned s.crystal_freq)) λ dev_id w1 f.
      elim (Bool-cases (is_neg dev_id)) [
        | inl lost ↦ rw lost tt
        | inr connected ↦ rw connected (
            Returns-bind _ _
              (handle_command-Returns host parts_file_name s.calc_user_code cmd dev_id args w1)
              λ r w2. tt)
      ]

open_line-Returns :
    (host : Host) (s : Settings) (parts_file_name cmd : List ℕ) (args : List (List ℕ)) (w : World)
    (chosen : Option (List ℕ))
    → Returns (
        (elim chosen as (λ _. Cmd Outcome) [
          | none ↦ pure (pos 0, none)
          | some serial_device ↦
              if not (
                is_zero
                  (serial_open host.is_speed
                    (host.opens_line serial_device)
                    s.baudrate
                    (some serial_device)).0)
              then pure (negsuc 0, none)
              else run_session host s parts_file_name cmd args
        ])
          w)
open_line-Returns host s parts_file_name cmd args w none = tt
open_line-Returns host s parts_file_name cmd args w (some serial_device) =
    elim (Bool-cases (
      is_zero
        (serial_open host.is_speed (host.opens_line serial_device) s.baudrate
          (some serial_device)).0)) [
            | inr shut ↦ rw shut tt
            | inl opened ↦ rw opened (run_session-Returns host s parts_file_name cmd args w)
          ]

with_parts-Returns :
    (host : Host) (s : Settings) (cmd : List ℕ) (args : List (List ℕ)) (w : World)
    (parts : Option (List ℕ))
    → Returns (
        (elim parts as (λ _. Cmd Outcome) [
          | none ↦ pure (negsuc 0, none)
          | some parts_file_name ↦ open_line host s parts_file_name cmd args
        ])
          w)
unfolding open_line
with_parts-Returns host s cmd args w none = tt
with_parts-Returns host s cmd args w (some parts_file_name) =
    open_line-Returns host s parts_file_name cmd args w s.isp_serial_device

with_command-Returns :
    (host : Host) (s : Settings) (args : List (List ℕ)) (w : World) (command : Option (List ℕ))
    → Returns (
        (elim command as (λ _. Cmd Outcome) [
          | none ↦ pure (negsuc 0, none)
          | some cmd ↦ elim (choose_parts_file host s.parts_file_name) [
            | none ↦ pure (negsuc 0, none)
            | some parts_file_name ↦ open_line host s parts_file_name cmd args
          ]
        ])
          w)
with_command-Returns host s args w none = tt
with_command-Returns host s args w (some cmd) =
    with_parts-Returns host s cmd args w (choose_parts_file host s.parts_file_name)

with_settings-Returns :
    (host : Host) (args : List (List ℕ)) (w : World) (parsed : Option Settings)
    → Returns (
        (elim parsed as (λ _. Cmd Outcome) [
          | none ↦ pure (pos 0, none)
          | some s ↦ main_with host s args
        ])
          w)
unfolding main_with
with_settings-Returns host args w none = tt
with_settings-Returns host args w (some s) = with_command-Returns host s args w s.command

-- lpcprog ends on every line on which the device sends finitely many bytes, and with files whose reads
-- find no data yet finitely often, whatever its options and arguments, the contents of the files, the
-- outcomes of the reads and writes, whether or not memory can be allocated, and whatever the resend
-- requests counted before.
pub lpcprog_ends :
    (host : Host) (opts : List Opt) (args : List (List ℕ)) (w : World)
    → Returns (main host opts args w)
unfolding main
lpcprog_ends host opts args w = with_settings-Returns host args w (parse_options opts defaults)
