-- ===== src/Lpcprog/Session.antt =====
-- A session of lpcprog with a device that answers on an idle line.
use mathlib.Core.List.{append_assoc}
use lpctools.Base.{
  ℕ, ◌^◌, ◌<◌, ◌≤◌, ◌≡◌, refl, ap, arith, true, List, ◌++◌, none, some, All, pos, negsuc, to_int,
  to_unsigned, is_neg, lt→ltb,
}
use lpctools.Machine.{World, Run, done, Rx, pure, and_then}
use lpctools.Serial.Idle.{idle}
use lpctools.Serial.Setup.{serial_open}
use lpctools.Connect.Dialogue.{device, dialogue, connect-dialogue}
use lpctools.Command.{read_part_id}
use lpctools.Command.PartId.{id_reply, cmd_part_id-id_reply}
use lpctools.Host.{Host, Outcome}
use lpctools.Parts.{PartDesc}
use lpctools.Parts.Format.{Entry, IsEntry, print_file, lookup_part}
use lpctools.Lpcprog.{
  CmdNum, run_command, connect_and_id, run_session, open_line, choose_parts_file, main_with, main,
  Opt, Settings, parse_options, defaults,
}
use lpctools.Lpcprog.Names.{command_name, handle_command_known}

-- What the device sends until it is identified, and what is sent to it.
abbrev pub greeting : ℕ → ℕ → List Rx → List Rx
greeting freq id rx = device freq (id_reply id rx)

abbrev pub greeted : ℕ → List ℕ
greeted freq = dialogue freq ++ read_part_id

pub connect_and_id-greeting :
    (freq id : ℕ) (w : World) (c : ℕ) (rx : List Rx) (sent : List ℕ)
    → freq < 100000
    → id < 2 ^ 32
    → connect_and_id freq (idle w c (greeting freq id rx) sent)
      ≡ done (to_int id) (idle w c rx (sent ++ greeted freq))
unfolding connect_and_id
connect_and_id-greeting freq id w c rx sent small word =
    let connected = connect-dialogue freq w c (id_reply id rx) sent small in
    let known = cmd_part_id-id_reply id w c rx (sent ++ dialogue freq) word in
    rw (connected, known)
      (ap (λ t. done (to_int id) (idle w c rx t)) (append_assoc sent (dialogue freq) read_part_id))

-- The result of main is 0, whatever the command's is.
abbrev pub exit_zero : Run Outcome → Run Outcome
exit_zero r = and_then r λ (err, file). pure (pos 0, file)

-- A call of lpcprog that gets as far as the line: the options, the parts description file with its table,
-- and the serial device, which can be opened.
pub record IsCall (host : Host) (opts : List Opt) (s : Settings) (es : List Entry)
    (parts_file_name serial_device : List ℕ) : Type 0 where
  pub parsed : parse_options opts defaults ≡ some s
  pub chosen : choose_parts_file host s.parts_file_name ≡ some parts_file_name
  pub table : host.parts_text parts_file_name ≡ some (print_file es)
  pub valid : All IsEntry es
  pub named : s.isp_serial_device ≡ some serial_device
  pub opened : host.opens_line serial_device ≡ true
  pub slow : to_unsigned s.crystal_freq < 100000

module _ (host : Host) (opts : List Opt) (s : Settings) (es : List Entry)
    (parts_file_name serial_device : List ℕ) (args : List (List ℕ))
    (call : IsCall host opts s es parts_file_name serial_device) (w : World) (c : ℕ) (rx : List Rx)
    (sent : List ℕ) where
  run_session-greeting :
      (part : PartDesc) (cmd : CmdNum) (rest : List ℕ) (id : ℕ)
      → id < 2 ^ 31
      → lookup_part id es ≡ some part
      → run_session host s parts_file_name
          (command_name cmd ++ rest)
          args
          (idle w c (greeting (to_unsigned s.crystal_freq) id rx) sent)
        ≡ exit_zero (
            run_command host s.calc_user_code part cmd args
              (idle w c rx (sent ++ greeted (to_unsigned s.crystal_freq))))
  unfolding run_session
  run_session-greeting part cmd rest id positive known =
      let freq = to_unsigned s.crystal_freq in
      let int : to_int id ≡ pos id = rw (lt→ltb id (2 ^ 31) positive) refl in
      rw
        (
          connect_and_id-greeting freq id w c rx sent call.slow (omega arith),
          int,
          handle_command_known host parts_file_name es call.table call.valid s.calc_user_code
              (pos id) args (idle w c rx (sent ++ greeted freq)) part cmd rest known,
        )
        refl

  -- A device whose identifier has its highest bit set is taken for one that does not answer.
  run_session_high :
      (cmd : List ℕ) (id : ℕ)
      → id < 2 ^ 32
      → 2 ^ 31 ≤ id
      → run_session host s parts_file_name cmd args
          (idle w c (greeting (to_unsigned s.crystal_freq) id rx) sent)
        ≡ done (negsuc 0, none) (idle w c rx (sent ++ greeted (to_unsigned s.crystal_freq)))
  unfolding run_session
  run_session_high cmd id word high =
      let freq = to_unsigned s.crystal_freq in
      let negative : is_neg (to_int id) ≡ true = ground arith in
      rw (connect_and_id-greeting freq id w c rx sent call.slow word, negative) refl

  main-run_session :
      (cmd : List ℕ)
      → s.command ≡ some cmd
      → main host opts args ≡ run_session host s parts_file_name cmd args
  unfolding main main_with open_line serial_open
  main-run_session cmd commanded =
      let parsed = call.parsed in
      let chosen = call.chosen in
      let named = call.named in
      let opened = call.opened in
      rw (parsed, commanded, chosen, named, opened, main, main_with, open_line) refl

  -- lpcprog, where the options parse, the chosen parts description file is a table of well-formed
  -- lines, the serial device can be opened, and the frequency is below 100000, with a device on an
  -- idle line that answers the greeting with an identifier below 2 ^ 31 that is in the table: a
  -- command's text runs the first command whose name it starts with, on that part, behind the
  -- greeting, and the result of main is 0 whatever the command's result is.
  pub main-greeting :
      (part : PartDesc) (cmd : CmdNum) (rest : List ℕ) (id : ℕ)
      → s.command ≡ some (command_name cmd ++ rest)
      → id < 2 ^ 31
      → lookup_part id es ≡ some part
      → main host opts args (idle w c (greeting (to_unsigned s.crystal_freq) id rx) sent)
        ≡ exit_zero (
            run_command host s.calc_user_code part cmd args
              (idle w c rx (sent ++ greeted (to_unsigned s.crystal_freq))))
  main-greeting part cmd rest id commanded positive known =
      rw (main-run_session (command_name cmd ++ rest) commanded)
        (run_session-greeting part cmd rest id positive known)

  -- lpcprog, where the options parse, the chosen parts description file is a table of well-formed
  -- lines, the serial device can be opened, and the frequency is below 100000, with a device on an
  -- idle line that answers the greeting with an identifier from 2 ^ 31 up to 2 ^ 32: the result is -1,
  -- as for a device that does not answer, whatever the command.
  pub main_high_id :
      (cmd : List ℕ) (id : ℕ)
      → s.command ≡ some cmd
      → id < 2 ^ 32
      → 2 ^ 31 ≤ id
      → main host opts args (idle w c (greeting (to_unsigned s.crystal_freq) id rx) sent)
        ≡ done (negsuc 0, none) (idle w c rx (sent ++ greeted (to_unsigned s.crystal_freq)))
  main_high_id cmd id commanded word high =
      rw (main-run_session cmd commanded) (run_session_high cmd id word high)
