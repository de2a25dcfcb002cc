-- ===== src/Transfer.antt =====
-- isp_commands.c: isp_send_buf_to_ram and isp_read_memory. Each loop over the blocks is on fuel: a block
-- is repeated at most as often as its counter of resend requests allows.
pub mod Steady
pub mod Send
pub mod Delivers
pub mod Blocks
pub mod Refusals
pub mod Fetch
pub mod GoodBlock
pub mod Receives
pub mod BadBlock
pub mod Retries
pub mod Recovers
pub mod Refused
mod Runs
use lpctools.Base.{
  ℕ, zero, suc, ◌+◌, ◌-◌, ◌*◌, ◌%◌, ◌^◌, Bool, true, false, not, ◌&&◌, Option, none, some, List, [],
  ◌∷◌, ◌++◌, length, take, drop, ltb, leb, ◌==◌, if◌then◌else◌, u32, add32, sub32, ℤ, pos, negsuc,
  to_int, to_unsigned, eq_ℤ, is_neg, is_nonpos, is_zero, ◌+ℤ◌, codes, bytes, overlay, overlay_at,
  shift, Mem,
}
use lpctools.Machine.{World, Run, done, out_of_fuel, Cmd, pure, and_then, ◌>>=◌, ◌>>◌}
use lpctools.Serial.{serial_write, serial_read}
use lpctools.Text.{strtoul, print_u, same_prefix}
use lpctools.Uu.{uu_encode, uu_decode}
use lpctools.Block.{remaining_blocksize, nb_blocks, calc_checksum, max_data_block_size}
use lpctools.Command.{send_cmd_two_args, buffer, crlf, rep_bufsize, serial_bufsize}

-- DATA_BLOCK_OK and DATA_BLOCK_RESEND.
abbrev pub data_block_ok : List ℕ
data_block_ok = codes "OK" ++ crlf

abbrev pub data_block_resend : List ℕ
data_block_resend = codes "RESEND" ++ crlf

abbrev pub next_datasize : ℕ → ℕ → ℕ
next_datasize count total =
    if leb max_data_block_size (sub32 count total) then max_data_block_size else sub32 count total

-- A block on the line: its uuencoded data and its checksum, which has six digits at most, so that the
-- twelve bytes that snprintf is given suffice.
unfoldable pub block_text : Mem → ℕ → ℕ → List ℕ
block_text data_at total datasize =
    uu_encode (shift total data_at) datasize
    ++ (print_u (calc_checksum (shift total data_at) datasize) ++ crlf)

-- The static variable resend_requested_for_block.
abbrev pub set_requested : ℕ → Cmd (Unit {0})
set_requested n w = done tt (record w { resend_requested_for_block = n })

-- The end of a round: the block is acknowledged, or it is repeated, or given up at the third refusal.
pub send_reply : ℕ → ℕ → ℕ → (ℕ → ℕ → Cmd ℤ) → List ℕ → Cmd ℤ
send_reply i total datasize next repbuf w =
    let refused = w.resend_requested_for_block + 1 in
    if same_prefix 4 data_block_ok repbuf
    then (set_requested 0 >> next (add32 i 1) (add32 total datasize)) w
    else if leb 3 refused
    then (set_requested refused >> pure (negsuc 1)) w
    else (set_requested refused >> next (add32 (sub32 i 1) 1) total) w

pub send_block : Mem → ℕ → ℕ → ℕ → (ℕ → ℕ → Cmd ℤ) → Cmd ℤ
send_block data_at count i total next = do
  let datasize = next_datasize count total
  let text = block_text data_at total datasize
  nb ← serial_write text
  if not (eq_ℤ nb (to_int (length text))) then pure (negsuc 5) else do
    (len, stored) ← serial_read rep_bufsize 4
    if is_nonpos len
        then pure (negsuc 4)
        else do repbuf ← buffer rep_bufsize stored []; send_reply i total datasize next repbuf

-- for (i = 0; i < blocks; i++)
pub send_blocks : ℕ → Mem → ℕ → ℕ → ℕ → ℕ → Cmd ℤ
send_blocks zero data_at count blocks i total = λ _. out_of_fuel
send_blocks (suc fuel) data_at count blocks i total =
    if ltb i blocks
    then send_block data_at count i total (send_blocks fuel data_at count blocks)
    else pure (pos 0)

-- isp_send_buf_to_ram; three rounds for each block are enough.
unfoldable pub send_buf_to_ram : Mem → ℕ → ℕ → ℕ → Cmd ℤ
unfolding send_blocks send_block send_reply
send_buf_to_ram data_at addr count perform_uuencode = do
  ret ← send_cmd_two_args b'W' (u32 addr) count
  if not (is_zero ret)
      then pure (negsuc 7)
      else (if perform_uuencode == 0
          then (do
            nb ← serial_write (bytes data_at 0 count)
            if not (eq_ℤ nb (to_int count)) then pure (negsuc 6) else pure (pos 0))
          else send_blocks (4 * nb_blocks count + 4) data_at count (nb_blocks count) 0 0)

-- The static variable resend_request_for_block.
abbrev pub set_request : ℕ → Cmd (Unit {0})
set_request n w = done tt (record w { resend_request_for_block = n })

-- What data[] holds from its start on: the data that count as received, and what lies behind them.
abbrev pub Stored : Type 0
Stored = List ℕ × List ℕ

-- A block that is decoded over what was there.
abbrev pub decoded_over : List ℕ → List ℕ → List ℕ
decoded_over decoded behind = decoded ++ drop (length decoded) behind

-- The end of a round on a block that has been decoded: a good one is acknowledged, another asked for
-- again, and given up at the fourth time. The decoded data are in place in any case.
pub read_answer : ℕ → ℕ → ℕ → Stored → List ℕ → (ℕ → Stored → Cmd Stored) → Cmd Stored
read_answer i computed announced received decoded next w =
    let asked = w.resend_request_for_block + 1 in
    let kept : Stored = (received.0, decoded_over decoded received.1) in
    if computed == announced
    then (do
      set_request 0
      nb ← serial_write data_block_ok
      if not (eq_ℤ nb (pos 4))
          then pure kept
          else next (add32 i 1) (received.0 ++ decoded, drop (length decoded) received.1))
        w
    else if ltb 3 asked
    then (set_request asked >> pure kept) w
    else (do
      set_request asked
      nb ← serial_write data_block_resend
      if not (eq_ℤ nb (pos 8)) then pure kept else next (add32 (sub32 i 1) 1) kept)
        w

-- What lies behind the bytes that were stored.
indeterminate : Cmd Mem
indeterminate w = done w.junk w

lift_option {ℓ} : {A : Type ℓ} → Option A → Cmd A
lift_option none w = out_of_fuel
lift_option (some a) w = done a w

-- A round, from the decoding on.
pub decode_block : ℕ → ℕ → Stored → Mem → (Mem → ℕ → Stored → Cmd Stored) → Cmd Stored
unfolding lift_option indeterminate
decode_block blocksize i received buf next = do
  decoded ← lift_option (uu_decode buf blocksize)
  let announced = u32 (strtoul (bytes buf blocksize (serial_bufsize - blocksize)) 10).value
  junk ← indeterminate
  let computed = calc_checksum (overlay decoded junk) (length decoded)
  read_answer i computed announced received decoded (next buf)

-- A round, behind its two reads.
pub after_reads :
    ℕ → ℕ → Stored → Mem → (Mem → ℕ → Stored → Cmd Stored) → ℤ × List ℕ → ℤ × List ℕ → Cmd Stored
after_reads blocksize i received buf next first second =
    let buf' = overlay first.1 (overlay_at (to_unsigned first.0) second.1 buf) in
    if is_neg (first.0 +ℤ second.0)
    then pure received
    else decode_block blocksize i received buf' next

-- A round, behind its first read.
pub after_first_read :
    ℕ → ℕ → Stored → Mem → (Mem → ℕ → Stored → Cmd Stored) → ℤ × List ℕ → Cmd Stored
after_first_read blocksize i received buf next first =
    if is_nonpos first.0
    then pure received
    else (serial_read (sub32 serial_bufsize (to_unsigned first.0))
          (if ltb blocksize (to_unsigned first.0) then 0 else 3)
        >>= after_reads blocksize i received buf next first)

pub read_block : ℕ → ℕ → Stored → Mem → (Mem → ℕ → Stored → Cmd Stored) → Cmd Stored
read_block count i received buf next =
    let blocksize = remaining_blocksize count (length received.0) in
    serial_read serial_bufsize blocksize >>= after_first_read blocksize i received buf next

pub read_blocks : ℕ → ℕ → ℕ → Mem → ℕ → Stored → Cmd Stored
read_blocks zero count blocks buf i received = λ _. out_of_fuel
read_blocks (suc fuel) count blocks buf i received =
    if ltb i blocks
    then read_block count i received buf (read_blocks fuel count blocks)
    else pure received

-- The part of isp_read_memory for data that are not uuencoded: two reads, the second for what is left.
pub read_raw : ℕ → Cmd (ℤ × List ℕ)
read_raw count = do
  (len, xs) ← serial_read count count
  if is_nonpos len
      then pure (negsuc 5, xs)
      else (if eq_ℤ len (to_int count) then pure (len, xs) else do
        let left = sub32 count (to_unsigned len)
        (len', ys) ← serial_read left left
        if is_neg (len +ℤ len') then pure (negsuc 4, xs ++ ys) else pure (len +ℤ len', xs ++ ys))

-- isp_read_memory: the result, and what was stored at `data`. The code returns the count of the bytes
-- received, whatever ended its loop.
unfoldable pub read_memory : ℕ → ℕ → ℕ → Cmd (ℤ × List ℕ)
unfolding read_raw read_blocks read_block after_first_read after_reads decode_block read_answer
read_memory addr count uuencoded = do
  ret ← send_cmd_two_args b'R' addr count
  if not (is_zero ret)
      then pure (ret, [])
      else (if uuencoded == 0 then read_raw count else (do
        junk ← indeterminate
        received ← read_blocks (5 * nb_blocks count + 5) count (nb_blocks count) junk 0 ([], [])
        pure (to_int (length received.0), received.0 ++ received.1)))
