-- ===== src/Command.antt =====
-- isp_commands.c: one request and its reply (isp_ret_code, isp_send_cmd_no_args, isp_send_cmd_two_args,
-- isp_send_cmd_address, isp_send_cmd_go, isp_send_cmd_sectors), and the commands without arguments
-- (isp_cmd_unlock, isp_cmd_part_id, isp_cmd_read_uid, isp_cmd_boot_version).
pub mod Steady
pub mod Replies
pub mod Printed
pub mod PartId
mod Runs
use lpctools.Base.{
  ℕ, zero, suc, ◌+◌, ◌-◌, ◌%◌, ◌^◌, Bool, true, false, not, ◌&&◌, Option, none, some, List, [], ◌∷◌,
  ◌++◌, length, take, ltb, ◌==◌, if◌then◌else◌, u32, ℤ, pos, negsuc, to_int, to_unsigned, eq_ℤ,
  ltb_ℤ, is_nonpos, is_zero, codes, bytes, overlay,
}
use Prim.Native.String.{String}
use lpctools.Machine.{World, Run, done, Cmd, pure, and_then, ◌>>=◌, ◌>>◌, Report}
use lpctools.Serial.{serial_write, serial_read}
use lpctools.Text.{strtoul, print_u}

abbrev pub crlf : List ℕ
crlf = 13 ∷ 10 ∷ []

abbrev pub rep_bufsize : ℕ
rep_bufsize = 100

abbrev pub serial_bufsize : ℕ
serial_bufsize = 1300

-- error_codes
abbrev pub error_codes : List String
error_codes =
    "CMD_SUCCESS" ∷ "INVALID_COMMAND" ∷ "SRC_ADDR_ERROR" ∷ "DST_ADDR_ERROR" ∷ "SRC_ADDR_NOT_MAPPED"
    ∷ "DST_ADDR_NOT_MAPPED" ∷ "COUNT_ERROR" ∷ "INVALID_SECTOR" ∷ "SECTOR_NOT_BLANK"
    ∷ "SECTOR_NOT_PREPARED_FOR_WRITE_OPERATION" ∷ "COMPARE_ERROR" ∷ "BUSY" ∷ "PARAM_ERROR"
    ∷ "ADDR_ERROR" ∷ "ADDR_NOT_MAPPED" ∷ "CMD_LOCKED" ∷ "INVALID_CODE" ∷ "INVALID_BAUD_RATE"
    ∷ "INVALID_STOP_BIT" ∷ "CODE_READ_PROTECTION_ENABLED" ∷ []

-- What isp_ret_code prints: nothing, that the code is unknown, or an entry of the table, which may lie
-- behind its end.
pub data Message : Type 0 where
  silent : Message
  unknown : ℕ → Message
  entry : Option String → Message

abbrev pub table_entry : List String → ℕ → Option String
table_entry [] i = none
table_entry (s ∷ table) zero = some s
table_entry (s ∷ table) (suc i) = table_entry table i

unfoldable pub ret_code_message : ℕ → Bool → Bool → Message
ret_code_message ret quiet trace_on =
    if quiet
    then silent
    else if ltb (length error_codes) ret
    then unknown ret
    else if not (ret == 0)
    then entry (table_entry error_codes ret)
    else if trace_on
    then entry (table_entry error_codes ret)
    else silent

-- isp_ret_code: the number at the start of the reply, through an unsigned int.
unfoldable pub ret_code : List ℕ → ℤ
ret_code buf = to_int (u32 (strtoul buf 10).value)

-- The text of a local array of `size` bytes, into which `stored` was read over `old`.
unfoldable pub buffer : ℕ → List ℕ → List ℕ → Cmd (List ℕ)
buffer size stored old w = done (bytes (overlay stored (overlay old w.junk)) 0 size) w

-- What is sent of a text that snprintf wrote into `size` bytes; the code caps its length at `size`.
unfoldable pub formatted : ℕ → List ℕ → List ℕ
formatted size text =
    take (if ltb size (length text) then size else length text) (take (size - 1) text ++ (0 ∷ []))

-- What the request functions share: the request is written, and the reply is read into an array of
-- `buf_size` bytes that still holds `old`.
pub exchange : List ℕ → ℕ → List ℕ → ℕ → ℤ → ℤ → Cmd ℤ
exchange request buf_size old read_size write_error read_error = do
  nb ← serial_write request
  if not (eq_ℤ nb (to_int (length request))) then pure write_error else do
    (len, stored) ← serial_read read_size 3
    if is_nonpos len
        then pure read_error
        else do buf ← buffer buf_size stored old; pure (ret_code buf)

unfoldable pub send_cmd_no_args : List ℕ → Cmd ℤ
unfolding exchange
send_cmd_no_args cmd = exchange cmd 5 [] 3 (negsuc 4) (negsuc 3)

abbrev pub two_args_text : ℕ → ℕ → ℕ → List ℕ
two_args_text cmd arg1 arg2 = cmd ∷ b' ' ∷ (print_u arg1 ++ (b' ' ∷ (print_u arg2 ++ crlf)))

unfoldable pub send_cmd_two_args : ℕ → ℕ → ℕ → Cmd ℤ
unfolding exchange formatted
send_cmd_two_args cmd arg1 arg2 =
    let text = formatted rep_bufsize (two_args_text cmd arg1 arg2) in
    exchange text rep_bufsize text 3 (negsuc 4) (negsuc 3)

abbrev pub address_text : ℕ → ℕ → ℕ → ℕ → List ℕ
address_text cmd addr1 addr2 len =
    cmd ∷ b' ' ∷ (print_u addr1 ++ (b' ' ∷ (print_u addr2 ++ (b' ' ∷ (print_u len ++ crlf)))))

unfoldable pub send_cmd_address : ℕ → ℕ → ℕ → ℕ → Cmd ℤ
unfolding exchange formatted
send_cmd_address cmd addr1 addr2 len =
    let text = formatted serial_bufsize (address_text cmd addr1 addr2 len) in
    exchange text serial_bufsize text 3 (negsuc 4) (negsuc 3)

unfoldable pub send_cmd_go : ℕ → ℕ → Cmd ℤ
unfolding exchange formatted
send_cmd_go addr mode =
    let text = formatted serial_bufsize (b'G' ∷ b' ' ∷ (print_u addr ++ (b' ' ∷ mode ∷ crlf))) in
    if ltb addr 0x200
    then pure (negsuc 5)
    else if not (mode == b'T') && not (mode == b'A')
    then pure (negsuc 4)
    else do
      ret ← exchange text serial_bufsize text serial_bufsize (negsuc 3) (negsuc 2)
      if not (is_zero ret) then pure (negsuc 0) else pure (pos 0)

-- The sectors are of type int, and printed as unsigned.
unfoldable pub send_cmd_sectors : ℕ → ℤ → ℤ → Cmd ℤ
unfolding exchange formatted
send_cmd_sectors cmd first_sector last_sector =
    let text =
      formatted serial_bufsize
        (two_args_text cmd (to_unsigned first_sector) (to_unsigned last_sector)) in
    if ltb_ℤ last_sector first_sector
    then pure (negsuc 5)
    else exchange text serial_bufsize text 3 (negsuc 4) (negsuc 3)

abbrev pub unlock : List ℕ
unlock = codes "U 23130" ++ crlf

abbrev pub read_uid : List ℕ
read_uid = codes "N" ++ crlf

abbrev pub read_part_id : List ℕ
read_part_id = codes "J" ++ crlf

abbrev pub read_boot_version : List ℕ
read_boot_version = codes "K" ++ crlf

unfoldable pub cmd_unlock : Cmd ℤ
unfolding send_cmd_no_args
cmd_unlock = do
  ret ← send_cmd_no_args unlock
  if not (is_zero ret) then pure (negsuc 0) else pure (pos 0)

unfoldable pub report : Report → Cmd (Unit {0})
report r w = done tt (record w { reports = r ∷ w.reports })

-- The part ID comes back as the result; it is printed unless `quiet` is set.
unfoldable pub cmd_part_id : ℕ → Cmd ℤ
unfolding send_cmd_no_args report
cmd_part_id quiet = do
  ret ← send_cmd_no_args read_part_id
  if not (is_zero ret) then pure ret else do
    (len, stored) ← serial_read rep_bufsize 15
    if is_nonpos len then pure (negsuc 1) else do
      buf ← buffer rep_bufsize stored []
      let part_id = (strtoul buf 10).value
      (if quiet == 0 then report (Report.part_id part_id) else pure tt)
      pure (to_int (u32 part_id))

unfoldable pub cmd_read_uid : Cmd ℤ
unfolding send_cmd_no_args report
cmd_read_uid = do
  ret ← send_cmd_no_args read_uid
  if not (is_zero ret) then pure ret else do
    (len, stored) ← serial_read rep_bufsize 50
    if is_nonpos len then pure (negsuc 1) else do
      buf ← buffer rep_bufsize stored []
      let n0 = strtoul buf 10
      let n1 = strtoul n0.end 10
      let n2 = strtoul n1.end 10
      let n3 = strtoul n2.end 10
      report (Report.uid n0.value n1.value n2.value n3.value)
      pure (pos 0)

-- The numbers come as minor, then major.
unfoldable pub cmd_boot_version : Cmd ℤ
unfolding send_cmd_no_args report
cmd_boot_version = do
  ret ← send_cmd_no_args read_boot_version
  if not (is_zero ret) then pure ret else do
    (len, stored) ← serial_read rep_bufsize 20
    if is_nonpos len then pure (negsuc 1) else do
      buf ← buffer rep_bufsize stored []
      let ver0 = strtoul buf 10
      let ver1 = strtoul ver0.end 10
      report (Report.boot_version (u32 ver1.value) (u32 ver0.value))
      pure (pos 0)
