-- ===== src/Lpcisp/Names.antt =====
-- The command that isp_handle_command finds for a text.
use lpctools.Base.{
  ℕ, ◌≡◌, ◌≢◌, refl, ap, ◌∙◌, arith, List, ◌++◌, Option, none, some, All, codes, negsuc,
}
use lpctools.Text.{same_prefix}
use lpctools.Dispatch.{find_command}
use lpctools.Dispatch.Prefix.{NoNul, find_command-inv}
use lpctools.Host.{Host, Outcome}
use lpctools.Machine.{World, done, Cmd, pure}
use lpctools.Lpcisp.{CmdNum, IspCommand, isp_cmds_list, run_command, handle_command}

-- The documented names.
abbrev pub command_name : CmdNum → List ℕ
command_name CmdNum.unlock = codes "unlock"
command_name CmdNum.write_to_ram = codes "write-to-ram"
command_name CmdNum.read_memory = codes "read-memory"
command_name CmdNum.prepare_for_write = codes "prepare-for-write"
command_name CmdNum.copy_ram_to_flash = codes "copy-ram-to-flash"
command_name CmdNum.go = codes "go"
command_name CmdNum.erase = codes "erase"
command_name CmdNum.blank_check = codes "blank-check"
command_name CmdNum.read_part_id = codes "read-part-id"
command_name CmdNum.read_boot_version = codes "read-boot-version"
command_name CmdNum.compare = codes "compare"
command_name CmdNum.read_uid = codes "read-uid"

-- isp_handle_command runs a command for its name, whatever follows the name.
pub handle_command-command_name :
    (host : Host) (c : CmdNum) (rest : List ℕ) (args : List (List ℕ)) (w : World)
    → handle_command host (command_name c ++ rest) args w ≡ run_command host c args w
unfolding handle_command find_command same_prefix
handle_command-command_name host CmdNum.unlock rest args w = refl
handle_command-command_name host CmdNum.write_to_ram rest args w = refl
handle_command-command_name host CmdNum.read_memory rest args w = refl
handle_command-command_name host CmdNum.prepare_for_write rest args w = refl
handle_command-command_name host CmdNum.copy_ram_to_flash rest args w = refl
handle_command-command_name host CmdNum.go rest args w = refl
handle_command-command_name host CmdNum.erase rest args w = refl
handle_command-command_name host CmdNum.blank_check rest args w = refl
handle_command-command_name host CmdNum.read_part_id rest args w = refl
handle_command-command_name host CmdNum.read_boot_version rest args w = refl
handle_command-command_name host CmdNum.compare rest args w = refl
handle_command-command_name host CmdNum.read_uid rest args w = refl

abbrev HasName : IspCommand → Type 0
HasName e = e.name ≡ command_name e.cmd_num

table-HasName : All (λ e. HasName e × All NoNul e.name) isp_cmds_list
table-HasName = ground arith

-- A text that starts with the name of no command makes isp_handle_command return -2, and nothing is
-- sent or read.
pub handle_command_unknown :
    (host : Host) (cmd : List ℕ) (args : List (List ℕ)) (w : World)
    → ((c : CmdNum) (rest : List ℕ) → cmd ≢ command_name c ++ rest)
    → handle_command host cmd args w ≡ done (negsuc 1, none) w
unfolding handle_command
handle_command_unknown host cmd args w unknown =
    refused (find_command (λ e. e.name) isp_cmds_list cmd) refl
  where
    refused :
        (found : Option IspCommand)
        → find_command (λ e. e.name) isp_cmds_list cmd ≡ found
        → (elim found as (λ _. Cmd Outcome) [
          | none ↦ pure (negsuc 1, none)
          | some e ↦ run_command host e.cmd_num args
        ])
            w
          ≡ done (negsuc 1, none) w
    refused none h = refl
    refused (some e) h =
        let (named, (rest, starts)) =
          find_command-inv HasName (λ e. e.name) isp_cmds_list cmd e table-HasName h in
        absurd (unknown e.cmd_num rest (starts ∙ ap (λ (t : List ℕ). t ++ rest) named))
