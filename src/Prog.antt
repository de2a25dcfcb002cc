-- ===== src/Prog.antt =====
-- prog_commands.c: the commands of lpcprog (erase_flash, start_prog, flash_target, dump_to_file, get_ids).
-- The host is little-endian, as the casts to uint32_t * expect.
pub mod Erase
pub mod Image
pub mod Bounds
pub mod Flashes
pub mod Dump
pub mod Erases
pub mod Programs
pub mod Outcomes
pub mod Safe
pub mod Protected
mod Runs
use lpctools.Base.{
  ℕ, zero, suc, ◌+◌, ◌-◌, ◌*◌, ◌/◌, ◌%◌, ◌^◌, Bool, true, false, not, ◌||◌, ◌&&◌, Option, none,
  List, [], ◌∷◌, ◌++◌, length, ltb, leb, ◌==◌, if◌then◌else◌, u32, add32, sub32, ℤ, pos, negsuc,
  to_int, to_unsigned, eq_ℤ, is_neg, is_nonpos, is_zero, bytes, overlay, overlay_at, shift, Mem,
  replicate,
}
use lpctools.Machine.{World, Run, done, Cmd, pure, and_then, ◌>>=◌, ◌>>◌}
use lpctools.File.{Feed, file_to_buff, Sink, buff_to_file}
use lpctools.Parts.{PartDesc}
use lpctools.Serial.{serial_read}
use lpctools.Command.{
  send_cmd_sectors, send_cmd_address, send_cmd_go, cmd_unlock, cmd_part_id, cmd_read_uid,
  cmd_boot_version,
}
use lpctools.Transfer.{send_buf_to_ram, read_memory}

abbrev pub rep_bufsize : ℕ
rep_bufsize = 40

-- get_ids
unfoldable pub get_ids : Cmd ℤ
get_ids = cmd_part_id 0 >> cmd_read_uid >> cmd_boot_version >> pure (pos 0)

-- A round of the loop of erase_flash: a sector that is blank is left alone.
pub erase_sector : ℕ → Cmd ℤ → Cmd ℤ
erase_sector i next = do
  blank ← send_cmd_sectors b'I' (to_int i) (to_int i)
  if is_zero blank
      then next
      else (if is_neg blank then pure blank else (do
        serial_read rep_bufsize 3
        prepared ← send_cmd_sectors b'P' (to_int i) (to_int i)
        if not (is_zero prepared) then pure prepared else do
          erased ← send_cmd_sectors b'E' (to_int i) (to_int i)
          if not (is_zero erased) then pure erased else next))

-- The sectors from `i` on, `left` of them.
pub erase_sectors : ℕ → ℕ → Cmd ℤ
erase_sectors zero i = pure (pos 0)
erase_sectors (suc left) i = erase_sector i (erase_sectors left (i + 1))

-- The rounds of a loop from 0 up to `(int)n`.
abbrev pub int_count : ℕ → ℕ
int_count n = if ltb n (2 ^ 31) then n else 0

unfoldable pub erase_flash : PartDesc → Cmd ℤ
unfolding erase_sectors erase_sector
erase_flash part = do
  ret ← cmd_unlock
  if not (is_zero ret) then pure (negsuc 0) else erase_sectors (int_count part.flash_nb_sectors) 0

-- A uint32_t at the offset 4 * k.
abbrev pub word_at : Mem → ℕ → ℕ
word_at m k = m (4 * k) + 2 ^ 8 * m (4 * k + 1) + 2 ^ 16 * m (4 * k + 2) + 2 ^ 24 * m (4 * k + 3)

abbrev pub word_bytes : ℕ → List ℕ
word_bytes v = v % 256 ∷ v / 2 ^ 8 % 256 ∷ v / 2 ^ 16 % 256 ∷ v / 2 ^ 24 % 256 ∷ []

-- start_prog
unfoldable pub start_prog : PartDesc → Cmd ℤ
start_prog part = do
  (len, data_at) ← read_memory (add32 part.flash_base part.reset_vector_offset) 4 part.uuencode
  if not (eq_ℤ len (pos 4)) then pure len else do
    let addr = word_at (overlay data_at (λ _. 0)) 0
    ret ← cmd_unlock
    if not (is_zero ret)
        then pure (negsuc 0)
        else (if addr % 2 == 1 then send_cmd_go (addr - 1) b'T' else send_cmd_go addr b'A')

-- calc_write_size
unfoldable pub calc_write_size : ℕ → ℕ → ℕ
calc_write_size sector_size ram_buff_size =
    let write_size = (if ltb sector_size ram_buff_size then sector_size else ram_buff_size) in
    if leb 4096 write_size
    then 4096
    else if leb 1024 write_size
    then 1024
    else if leb 512 write_size
    then 512
    else if leb 256 write_size
    then 256
    else if leb 64 write_size
    then 64
    else 0

-- cksum = 0 - v[0] - ... - v[6]
unfoldable pub vectors_checksum : Mem → ℕ
vectors_checksum v =
    sub32
      (sub32
        (sub32
          (sub32 (sub32 (sub32 (sub32 0 (word_at v 0)) (word_at v 1)) (word_at v 2)) (word_at v 3))
          (word_at v 4))
        (word_at v 5))
      (word_at v 6)

-- The words that CRP_OFFSET may not hold: CRP_NO_ISP, CRP_CRP1, CRP_CRP2 and CRP_CRP3.
unfoldable pub is_protected : ℕ → Bool
is_protected crp = crp == 0x4E697370 || crp == 0x12345678 || crp == 0x87654321 || crp == 0x43218765

abbrev pub crp_word : ℕ
crp_word = 0xBF

-- A round of the loop of flash_target.
pub flash_block : PartDesc → Mem → ℕ → ℕ → Cmd ℤ → Cmd ℤ
flash_block part data_at write_size i next = do
  let sector_size = part.flash_size / part.flash_nb_sectors
  let sector = to_int (u32 (i * write_size) / sector_size)
  let ram_addr = add32 part.ram_base part.ram_buff_offset
  prepared ← send_cmd_sectors b'P' sector sector
  if not (is_zero prepared) then pure prepared else do
    sent ← send_buf_to_ram (shift (u32 (i * write_size)) data_at) ram_addr write_size part.uuencode
    if not (is_zero sent) then pure sent else do
      copied ←
          send_cmd_address b'C' (add32 part.flash_base (u32 (i * write_size))) ram_addr write_size
      if not (is_zero copied) then pure copied else next

pub flash_blocks : ℕ → PartDesc → Mem → ℕ → ℕ → Cmd ℤ
flash_blocks zero part data_at write_size i = pure (pos 0)
flash_blocks (suc left) part data_at write_size i =
    flash_block part data_at write_size i (flash_blocks left part data_at write_size (i + 1))

-- The number of blocks for an image of `size` bytes.
abbrev pub blocks_of : ℕ → ℕ → ℕ
blocks_of size write_size = size / write_size + (if size % write_size == 0 then 0 else 1)

-- The image with the checksum of the vectors stored, if it is to be.
unfoldable pub checked_image : Mem → ℕ → Mem
unfolding vectors_checksum
checked_image data_at calc_user_code =
    if calc_user_code == 1
    then overlay_at 28 (word_bytes (vectors_checksum data_at)) data_at
    else data_at

-- flash_target, from the check of the vectors on.
unfoldable pub flash_image : PartDesc → Mem → ℕ → ℕ → ℕ → Cmd ℤ
unfolding flash_blocks flash_block checked_image vectors_checksum is_protected
flash_image part data_at size write_size calc_user_code =
    let image = checked_image data_at calc_user_code in
    let blocks = blocks_of size write_size in
    if not (calc_user_code == 1) && not (vectors_checksum data_at == word_at data_at 7)
    then pure (negsuc 4)
    else if is_protected (word_at image crp_word)
    then pure (negsuc 5)
    else if ltb part.flash_size (u32 (blocks * write_size))
    then pure (negsuc 6)
    else flash_blocks blocks part image write_size 0

-- The buffer that malloc() returned, with the image and the zeros behind it.
unfoldable pub filled : List ℕ → ℕ → Cmd Mem
filled stored len w = done (overlay (stored ++ replicate (len - length stored) 0) w.junk) w

-- flash_target; `can_allocate` is what malloc() does, and `file` is what the file holds. A part with no
-- sectors, by which the code divides, has sectors of size 0 here.
unfoldable pub flash_target : PartDesc → Option (List Feed) → ℕ → Bool → Cmd ℤ
unfolding flash_image erase_flash calc_write_size filled
flash_target part file calc_user_code can_allocate = do
  let ram_addr = add32 part.ram_base part.ram_buff_offset
  let write_size = calc_write_size (part.flash_size / part.flash_nb_sectors) part.ram_buff_size
  if ltb (add32 part.ram_base part.ram_size) ram_addr
      then pure (negsuc 0)
      else (if write_size == 0 then pure (negsuc 1) else do
        ret ← erase_flash part
        if not (is_zero ret)
            then pure (negsuc 2)
            else (if not can_allocate
                then pure (negsuc 3)
                else (let (size, stored) = file_to_buff file part.flash_size in
                    if is_nonpos size then pure (negsuc 4) else do
                      data_at ← filled stored part.flash_size
                      flash_image part data_at (to_unsigned size) write_size calc_user_code)))

-- dump_to_file: the result, and what it wrote to the file.
unfoldable pub dump_to_file : PartDesc → List ℕ → Bool → Sink → Cmd (ℤ × Option (List ℕ))
dump_to_file part filename can_allocate sink =
    if not can_allocate then pure (negsuc 9, none) else (do
      (len, data_at) ← read_memory part.flash_base part.flash_size part.uuencode
      λ w. done (buff_to_file (overlay data_at w.junk) part.flash_size filename sink) w)
