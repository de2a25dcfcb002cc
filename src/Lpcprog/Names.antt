-- ===== src/Lpcprog/Names.antt =====
-- What prog_handle_command does for a part and a command's text.
use lpctools.Base.{
  ℕ, ◌≡◌, ◌≢◌, refl, ap, ◌∙◌, arith, List, ◌++◌, Option, none, some, All, codes, ℤ, negsuc,
}
use lpctools.Text.{same_prefix}
use lpctools.Dispatch.{find_command}
use lpctools.Dispatch.Prefix.{NoNul, find_command-inv}
use lpctools.Host.{Host}
use lpctools.Machine.{World, done}
use lpctools.Parts.{PartDesc}
use lpctools.Parts.Format.{Entry, IsEntry, print_file, lookup_part}
use lpctools.Parts.Lookup.{find_part_in_file-lookup_part}
use lpctools.Lpcprog.{CmdNum, ProgCommand, prog_cmds_list, run_command, handle_command, to_u64}

-- The documented names.
abbrev pub command_name : CmdNum → List ℕ
command_name CmdNum.dump = codes "dump"
command_name CmdNum.flash = codes "flash"
command_name CmdNum.id = codes "id"
command_name CmdNum.blank = codes "blank"
command_name CmdNum.go = codes "go"

find_command-command_name :
    (c : CmdNum) (rest : List ℕ)
    → find_command (λ e. e.name) prog_cmds_list (command_name c ++ rest)
      ≡ some (record { cmd_num = c; name = command_name c })
unfolding find_command same_prefix
find_command-command_name CmdNum.dump rest = refl
find_command-command_name CmdNum.flash rest = refl
find_command-command_name CmdNum.id rest = refl
find_command-command_name CmdNum.blank rest = refl
find_command-command_name CmdNum.go rest = refl

abbrev HasName : ProgCommand → Type 0
HasName e = e.name ≡ command_name e.cmd_num

table-HasName : All (λ e. HasName e × All NoNul e.name) prog_cmds_list
table-HasName = ground arith

-- The text starts with no command's name.
abbrev pub IsUnknown : List ℕ → Type 0
IsUnknown cmd = (c : CmdNum) (rest : List ℕ) → cmd ≢ command_name c ++ rest

find_command_unknown :
    (cmd : List ℕ) → IsUnknown cmd → find_command (λ e. e.name) prog_cmds_list cmd ≡ none
find_command_unknown cmd unknown = refused (find_command (λ e. e.name) prog_cmds_list cmd) refl
  where
    refused :
        (found : Option ProgCommand)
        → find_command (λ e. e.name) prog_cmds_list cmd ≡ found
        → found ≡ none
    refused none h = refl
    refused (some e) h =
        let (named, (rest, starts)) =
          find_command-inv HasName (λ e. e.name) prog_cmds_list cmd e table-HasName h in
        absurd (unknown e.cmd_num rest (starts ∙ ap (λ (t : List ℕ). t ++ rest) named))

module _ (host : Host) (parts_file_name : List ℕ) (es : List Entry)
    (table : host.parts_text parts_file_name ≡ some (print_file es)) (valid : All IsEntry es)
    (calc_user_code : ℕ) (dev_id : ℤ) (args : List (List ℕ)) (w : World) where
  -- For a part of the table and a text that starts with a command's name, prog_handle_command runs the
  -- command on the part.
  pub handle_command_known :
      (part : PartDesc) (c : CmdNum) (rest : List ℕ)
      → lookup_part (to_u64 dev_id) es ≡ some part
      → handle_command host parts_file_name calc_user_code (command_name c ++ rest) dev_id args w
        ≡ run_command host calc_user_code part c args w
  unfolding handle_command
  handle_command_known part c rest known =
      rw
        (
          table,
          find_part_in_file-lookup_part host.einval host.behind (to_u64 dev_id) es valid,
          known,
          find_command-command_name c rest,
          handle_command,
        )
        refl

  -- A part that is not in the table is refused with -2, and nothing is sent or read.
  pub handle_command_no_part :
      (cmd : List ℕ)
      → lookup_part (to_u64 dev_id) es ≡ none
      → handle_command host parts_file_name calc_user_code cmd dev_id args w
        ≡ done (negsuc 1, none) w
  unfolding handle_command
  handle_command_no_part cmd missing =
      rw
        (
          table,
          find_part_in_file-lookup_part host.einval host.behind (to_u64 dev_id) es valid,
          missing,
          handle_command,
        )
        refl

  -- With a table of well-formed lines in the parts description file and a part of it, a text that
  -- starts with the name of no command makes prog_handle_command return -3, and nothing is sent or
  -- read.
  pub handle_command-IsUnknown :
      (cmd : List ℕ) (part : PartDesc)
      → lookup_part (to_u64 dev_id) es ≡ some part
      → IsUnknown cmd
      → handle_command host parts_file_name calc_user_code cmd dev_id args w
        ≡ done (negsuc 2, none) w
  unfolding handle_command
  handle_command-IsUnknown cmd part known unknown =
      rw
        (
          table,
          find_part_in_file-lookup_part host.einval host.behind (to_u64 dev_id) es valid,
          known,
          find_command_unknown cmd unknown,
          handle_command,
        )
        refl
