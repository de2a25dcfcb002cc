-- ===== src/Block.antt =====
-- isp_commands.c: how a transfer is cut into blocks (get_nb_blocks, get_remaining_blocksize) and the
-- checksum of a block (calc_checksum). Unsigned values of 32 bits are numbers with the wrap written out.
pub mod Sizes
pub mod Checksum
mod Runs
use lpctools.Base.{
  ℕ, zero, suc, ◌+◌, ◌*◌, ◌/◌, ◌%◌, ltb, leb, ◌==◌, if◌then◌else◌, Mem, add32, sub32,
}

abbrev pub serial_bufsize : ℕ
serial_bufsize = 1300

abbrev pub line_data_length : ℕ
line_data_length = 45

abbrev pub lines_per_block : ℕ
lines_per_block = 20

abbrev pub max_data_block_size : ℕ
max_data_block_size = lines_per_block * line_data_length

abbrev pub max_bytes_per_line : ℕ
max_bytes_per_line = 1 + line_data_length / 3 * 4 + 2

-- get_remaining_blocksize
unfoldable pub remaining_blocksize : ℕ → ℕ → ℕ
remaining_blocksize count actual_count =
    let remain = sub32 count actual_count in
    let nb_last_lines =
      (if remain % line_data_length == 0
        then remain / line_data_length
        else remain / line_data_length + 1) in
    let blocksize = (if remain % 3 == 0 then remain / 3 * 4 else remain / 3 * 4 + 4) in
    if leb max_data_block_size remain
    then max_bytes_per_line * lines_per_block
    else blocksize + 3 * nb_last_lines

-- get_nb_blocks
unfoldable pub nb_blocks : ℕ → ℕ
nb_blocks count =
    let lines =
      (if count % line_data_length == 0
        then count / line_data_length
        else count / line_data_length + 1) in
    if lines % lines_per_block == 0 then lines / lines_per_block else lines / lines_per_block + 1

checksum_loop : ℕ → Mem → ℕ → ℕ → ℕ
checksum_loop zero data_at i checksum = checksum
checksum_loop (suc left) data_at i checksum =
    checksum_loop left data_at (i + 1) (add32 checksum (data_at i))

-- calc_checksum: for (i = 0; i < size; i++) checksum += data[i]
unfoldable pub calc_checksum : Mem → ℕ → ℕ
unfolding checksum_loop
calc_checksum data_at size = checksum_loop size data_at 0 0
