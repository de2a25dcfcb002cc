-- ===== src/Wrapper.antt =====
-- isp_wrapper.c: the commands of lpcisp, with their arguments. A command's arguments are texts that end in
-- a NUL. isp_cmd_go writes the mode's letter into its argument, which nothing reads afterwards.
pub mod Sizes
pub mod Steady
pub mod Ends
mod Runs
use lpctools.Base.{
  ℕ, zero, suc, ◌+◌, ◌-◌, ◌*◌, ◌/◌, ◌%◌, ◌^◌, Bool, true, false, not, ◌||◌, Option, none, List, [],
  ◌∷◌, length, ltb, ◌==◌, if◌then◌else◌, u32, ℤ, pos, negsuc, to_int, to_unsigned, eq_ℤ, is_neg,
  is_nonpos, is_zero, bytes, overlay, Mem, codes,
}
use lpctools.Machine.{World, Run, done, Cmd, pure, and_then, ◌>>=◌, ◌>>◌, Report}
use lpctools.File.{Feed, file_to_buff, Sink, buff_to_file}
use lpctools.Serial.{serial_read}
use lpctools.Text.{strtoul, same_prefix}
use lpctools.Command.{buffer, send_cmd_address, send_cmd_go, send_cmd_sectors, report}
use lpctools.Transfer.{send_buf_to_ram, read_memory}

abbrev pub rep_bufsize : ℕ
rep_bufsize = 40

-- RAM_MAX_SIZE
abbrev pub ram_max_size : ℕ
ram_max_size = 8 * 1024

abbrev pub number : List ℕ → ℕ
number arg = (strtoul arg 0).value

-- `(bytes_read & ~0x03) + 0x04`, if it is not a multiple of 4
unfoldable pub padded : ℕ → ℕ
padded n = if n % 4 == 0 then n else u32 (n / 4 * 4 + 4)

-- The last argument, if it is given; 1 otherwise.
abbrev pub uuencoded_flag : List (List ℕ) → ℕ
uuencoded_flag [] = 1
uuencoded_flag (flag ∷ more) = u32 (number flag)

-- isp_cmd_read_memory: the result, and what it wrote to the file. The length that isp_read_memory returns
-- goes on as an unsigned int, also where it is an error code.
unfoldable pub cmd_read_memory : List (List ℕ) → Bool → Sink → Cmd (ℤ × Option (List ℕ))
cmd_read_memory (addr ∷ count ∷ file_name ∷ more) can_allocate sink =
    if not (number addr % 4 == 0) || not (number count % 4 == 0)
    then pure (negsuc 10, none)
    else if not can_allocate
    then pure (negsuc 9, none)
    else (do
      (len, stored) ← read_memory (u32 (number addr)) (u32 (number count)) (uuencoded_flag more)
      λ w. done (buff_to_file (overlay stored w.junk) (to_unsigned len) file_name sink) w)
cmd_read_memory _ can_allocate sink = pure (negsuc 11, none)

-- isp_cmd_write_to_ram; what isp_file_to_buff returns goes through an unsigned int, so that its error
-- codes are large sizes.
unfoldable pub cmd_write_to_ram : List (List ℕ) → Option (List Feed) → Cmd ℤ
cmd_write_to_ram (addr ∷ file_name ∷ more) file =
    if not (number addr % 4 == 0) then pure (negsuc 13) else do
      let (size, stored) = file_to_buff file ram_max_size
      let bytes_read = to_unsigned size
      if bytes_read == 0 then pure (negsuc 12) else (λ w.
          send_buf_to_ram (overlay stored w.junk) (number addr) (padded bytes_read)
            (uuencoded_flag more) w)
cmd_write_to_ram _ file = pure (negsuc 14)

-- The test of a length for `C`: exactly one of the bits 8, 9, 10 and 12 is set.
unfoldable pub is_copy_length : ℕ → Bool
is_copy_length length_arg =
    length_arg / 2 ^ 8 % 2
      + length_arg / 2 ^ 9 % 2
      + (length_arg / 2 ^ 10 % 2 + length_arg / 2 ^ 12 % 2)
    == 1

-- isp_cmd_address_wrapper
unfoldable pub address_wrapper : List (List ℕ) → ℕ → Cmd ℤ
unfolding is_copy_length
address_wrapper (arg0 ∷ arg1 ∷ arg2 ∷ []) cmd =
    let addr1 = number arg0 in
    let addr2 = number arg1 in
    let count = number arg2 in
    if cmd == b'M'
    then if not (addr1 % 4 == 0) || not (addr2 % 4 == 0) || not (count % 4 == 0)
      then pure (negsuc 6)
      else send_cmd_address cmd (u32 addr1) (u32 addr2) (u32 count)
    else if cmd == b'C'
    then if not (addr1 % 2 ^ 8 == 0) || not (addr2 % 4 == 0)
      then pure (negsuc 7)
      else if not (is_copy_length count)
      then pure (negsuc 6)
      else send_cmd_address cmd (u32 addr1) (u32 addr2) (u32 count)
    else pure (negsuc 5)
address_wrapper _ cmd = pure (negsuc 6)

-- isp_cmd_compare
unfoldable pub cmd_compare : List (List ℕ) → Cmd ℤ
unfolding address_wrapper
cmd_compare args = do
  ret ← address_wrapper args b'M'
  if eq_ℤ ret (pos 0)
      then pure (pos 0)
      else (if eq_ℤ ret (pos 10)
          then (do
            (len, stored) ← serial_read rep_bufsize 3
            if is_nonpos len then pure (negsuc 2) else do
              buf ← buffer rep_bufsize stored []
              report (Report.mismatch (strtoul buf 10).value)
              pure (pos 0))
          else pure (negsuc 0))

-- isp_cmd_copy_ram_to_flash
unfoldable pub cmd_copy_ram_to_flash : List (List ℕ) → Cmd ℤ
unfolding address_wrapper
cmd_copy_ram_to_flash args = do
  ret ← address_wrapper args b'C'
  if not (is_zero ret) then pure ret else pure (pos 0)

-- isp_cmd_go; a mode is a prefix of `thumb` or of `arm`.
unfoldable pub cmd_go : List (List ℕ) → Cmd ℤ
cmd_go (arg0 ∷ mode ∷ []) =
    let addr = number arg0 in
    if ltb addr 0x200
    then pure (negsuc 5)
    else if same_prefix (length mode) mode (codes "thumb")
    then send_cmd_go (u32 addr) b'T'
    else if same_prefix (length mode) mode (codes "arm")
    then send_cmd_go (u32 addr) b'A'
    else pure (negsuc 4)
cmd_go _ = pure (negsuc 6)

-- isp_cmd_sectors_skel
unfoldable pub sectors_skel : List (List ℕ) → ℕ → Cmd ℤ
sectors_skel (arg0 ∷ arg1 ∷ []) cmd =
    send_cmd_sectors cmd (to_int (u32 (number arg0))) (to_int (u32 (number arg1)))
sectors_skel _ cmd = pure (negsuc 6)

-- isp_cmd_blank_check
unfoldable pub cmd_blank_check : List (List ℕ) → Cmd ℤ
unfolding sectors_skel
cmd_blank_check args = do
  ret ← sectors_skel args b'I'
  if is_neg ret
      then pure ret
      else (if eq_ℤ ret (pos 8)
          then (do
            (len, stored) ← serial_read rep_bufsize 3
            if is_nonpos len then pure (negsuc 2) else do
              buf ← buffer rep_bufsize stored []
              let offset = strtoul buf 10
              let content = strtoul offset.end 10
              report (Report.not_blank offset.value content.value)
              pure (pos 0))
          else if eq_ℤ ret (pos 7)
          then pure (negsuc 1)
          else if eq_ℤ ret (pos 12)
          then pure (negsuc 0)
          else pure (pos 0))

-- isp_cmd_prepare_for_write
unfoldable pub cmd_prepare_for_write : List (List ℕ) → Cmd ℤ
unfolding sectors_skel
cmd_prepare_for_write args = do
  ret ← sectors_skel args b'P'
  if not (is_zero ret) then pure ret else pure (pos 0)

-- isp_cmd_erase
unfoldable pub cmd_erase : List (List ℕ) → Cmd ℤ
unfolding sectors_skel
cmd_erase args = do
  ret ← sectors_skel args b'E'
  if not (is_zero ret) then pure ret else pure (pos 0)
