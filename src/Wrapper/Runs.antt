-- ===== src/Wrapper/Runs.antt =====
-- Commands at concrete arguments.
use lpctools.Base.{◌-◌, ◌^◌, ◌≡◌, refl, arith, [], ◌∷◌, codes, overlay, none}
use lpctools.Base.{u32, true, some, ◌++◌}
use lpctools.Machine.{done}
use lpctools.Serial.Idle.{idle}
use lpctools.File.{Sink, buff_to_file}
use lpctools.Command.{two_args_text}
use lpctools.Command.Replies.{digit_reply}
use lpctools.Wrapper.{cmd_read_memory}
use lpctools.Wrapper.Sizes.{cmd_read_memory_refused}
use lpctools.Machine.Samples.{at_start}
use lpctools.Text.{
  strtoul, parse_sign, parse_digits, skip_spaces, number_base, scan_digits, digit_value,
}
use lpctools.Transfer.{send_buf_to_ram}
use lpctools.Wrapper.{cmd_write_to_ram, number, uuencoded_flag}
use lpctools.Wrapper.Sizes.{cmd_write_to_ram_unopened}

cmd_write_to_ram_unopened_example :
    cmd_write_to_ram (codes "0x200" ∷ codes "absent" ∷ []) none at_start
    ≡ send_buf_to_ram
        (overlay [] at_start.junk)
        (number (codes "0x200"))
        (2 ^ 32 - 12)
        (uuencoded_flag [])
        at_start
unfolding strtoul parse_sign parse_digits skip_spaces number_base scan_digits digit_value
cmd_write_to_ram_unopened_example =
    cmd_write_to_ram_unopened (codes "0x200") (codes "absent") [] at_start refl

abbrev free_sink : Sink
free_sink = record { opens = true; room = some 10 }

-- The arguments "0" and "4".
cmd_read_memory_refused_example :
    cmd_read_memory
      ((b'0' ∷ []) ∷ (b'4' ∷ []) ∷ codes "out" ∷ [])
      true
      free_sink
      (idle at_start 0 (digit_reply 4 ∷ []) [])
    ≡ done (buff_to_file at_start.junk 4 (codes "out") free_sink) (
        idle at_start 0 []
          ([] ++ two_args_text b'R' (u32 (number (b'0' ∷ []))) (u32 (number (b'4' ∷ [])))))
unfolding strtoul parse_sign skip_spaces parse_digits digit_value number_base scan_digits
cmd_read_memory_refused_example =
    cmd_read_memory_refused (b'0' ∷ []) (b'4' ∷ []) (codes "out") [] free_sink 4 at_start 0 [] []
      refl refl (omega arith) (omega arith)
