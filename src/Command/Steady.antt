-- ===== src/Command/Steady.antt =====
-- The requests of isp_commands.c as steady commands.
use lpctools.Base.{ℕ, List, ℤ}
use lpctools.Machine.{Report}
use lpctools.Machine.Steady.{
  Steady, Steady-pure, Steady-if, Steady-bind, Frame, Frame-refl, steady_rules,
}
use lpctools.Serial.Terminates.{serial_read-Steady}
use lpctools.Serial.Writing.{serial_write-Steady}
use lpctools.Command.{
  exchange, buffer, report, send_cmd_no_args, send_cmd_two_args, send_cmd_address, send_cmd_go,
  send_cmd_sectors, cmd_unlock, cmd_part_id, cmd_read_uid, cmd_boot_version,
}
use mathlib.Core.Path.{refl}

pub buffer-Steady : (size : ℕ) (stored old : List ℕ) → Steady (buffer size stored old)
unfolding buffer
buffer-Steady size stored old = record { at = λ w. (_, w, refl, Frame-refl w) }

pub report-Steady : (r : Report) → Steady (report r)
unfolding report
report-Steady r = record {
  at = λ w. (_, _, refl, record { request = refl; requested = refl; junk = refl });
}

pub ruleset command_rules =
    (steady_rules, serial_read-Steady, serial_write-Steady, buffer-Steady, report-Steady)

exchange-Steady :
    (request : List ℕ) (buf_size : ℕ) (old : List ℕ) (read_size : ℕ) (write_error read_error : ℤ)
    → Steady (exchange request buf_size old read_size write_error read_error)
unfolding exchange
exchange-Steady request buf_size old read_size write_error read_error =
    search command_rules depth 12

pub send_cmd_no_args-Steady : (cmd : List ℕ) → Steady (send_cmd_no_args cmd)
unfolding send_cmd_no_args
send_cmd_no_args-Steady cmd = search exchange-Steady

pub send_cmd_two_args-Steady : (cmd arg1 arg2 : ℕ) → Steady (send_cmd_two_args cmd arg1 arg2)
unfolding send_cmd_two_args
send_cmd_two_args-Steady cmd arg1 arg2 = search exchange-Steady

pub send_cmd_address-Steady :
    (cmd addr1 addr2 len : ℕ) → Steady (send_cmd_address cmd addr1 addr2 len)
unfolding send_cmd_address
send_cmd_address-Steady cmd addr1 addr2 len = search exchange-Steady

pub send_cmd_go-Steady : (addr mode : ℕ) → Steady (send_cmd_go addr mode)
unfolding send_cmd_go
send_cmd_go-Steady addr mode = search (steady_rules, exchange-Steady) depth 8

pub send_cmd_sectors-Steady : (cmd : ℕ) (first last : ℤ) → Steady (send_cmd_sectors cmd first last)
unfolding send_cmd_sectors
send_cmd_sectors-Steady cmd first last = search (steady_rules, exchange-Steady)

pub cmd_unlock-Steady : Steady cmd_unlock
unfolding cmd_unlock
cmd_unlock-Steady = search (steady_rules, send_cmd_no_args-Steady)

pub cmd_part_id-Steady : (quiet : ℕ) → Steady (cmd_part_id quiet)
unfolding cmd_part_id
cmd_part_id-Steady quiet = search (command_rules, send_cmd_no_args-Steady) depth 12

pub cmd_read_uid-Steady : Steady cmd_read_uid
unfolding cmd_read_uid
cmd_read_uid-Steady = search (command_rules, send_cmd_no_args-Steady) depth 12

pub cmd_boot_version-Steady : Steady cmd_boot_version
unfolding cmd_boot_version
cmd_boot_version-Steady = search (command_rules, send_cmd_no_args-Steady) depth 12

-- The requests with two numbers, with addresses, of a go and of sectors, and the commands unlock,
-- part-id, read-uid and boot-version return on every line, and leave the counters of resend requests
-- alone.
pub requests-Steady :
    (cmd a b c : ℕ) (first last : ℤ)
    → Steady (send_cmd_two_args cmd a b)
      × Steady (send_cmd_address cmd a b c)
      × Steady (send_cmd_go a b)
      × Steady (send_cmd_sectors cmd first last)
      × Steady cmd_unlock
      × Steady (cmd_part_id a)
      × Steady cmd_read_uid
      × Steady cmd_boot_version
requests-Steady cmd a b c first last = (
  send_cmd_two_args-Steady cmd a b,
  send_cmd_address-Steady cmd a b c,
  send_cmd_go-Steady a b,
  send_cmd_sectors-Steady cmd first last,
  cmd_unlock-Steady,
  cmd_part_id-Steady a,
  cmd_read_uid-Steady,
  cmd_boot_version-Steady,
)
