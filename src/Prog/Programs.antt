-- ===== src/Prog/Programs.antt =====
-- What flash_target sends to a device that answers on an idle line: the erasing and the flashing together.
use mathlib.Core.List.{append_assoc}
use lpctools.Base.{
  ℕ, ◌+◌, ◌-◌, ◌/◌, ◌%◌, ◌^◌, ◌<◌, ◌≡◌, ap, arith, false, true, ◌⊎◌, List, ◌∷◌, ◌++◌, some, All,
  length, take, replicate, length-take-le, ltb, ◌==◌, lt→ltb, pos, add32, Mem, overlay,
}
use lpctools.Machine.{World, done, Rx}
use lpctools.Serial.Idle.{idle}
use lpctools.File.{Feed}
use lpctools.File.Contents.{IsSound, contents, file_to_buff-contents}
use lpctools.Command.{unlock}
use lpctools.Command.Replies.{digit_reply}
use lpctools.Parts.{PartDesc}
use lpctools.Prog.{
  flash_target, calc_write_size, filled, checked_image, vectors_checksum, word_at, crp_word,
  is_protected, blocks_of,
}
use lpctools.Prog.Flashes.{accepts, flash_texts, flash_image-accepted}
use lpctools.Prog.Erases.{Sector, Readable, sector_replies, sector_texts, erase_flash_erases}

-- The bytes of the file that are loaded, and the image in the buffer.
abbrev pub loaded : PartDesc → List Feed → List ℕ
loaded part script = take part.flash_size (contents script)

abbrev pub image_of : PartDesc → List Feed → Mem → Mem
image_of part script junk =
    let stored = loaded part script in
    overlay (stored ++ replicate (part.flash_size - length stored) 0) junk

abbrev pub write_size_of : PartDesc → ℕ
write_size_of part = calc_write_size (part.flash_size / part.flash_nb_sectors) part.ram_buff_size

-- What flash_target asks of the part, and of the image with the checksum stored or not.
pub record CanFlash (part : PartDesc) (script : List Feed) (junk : Mem) (calc_user_code : ℕ)
    : Type 0 where
  pub ram :
      ltb (add32 part.ram_base part.ram_size) (add32 part.ram_base part.ram_buff_offset) ≡ false
  pub some_bytes : 0 < write_size_of part
  pub whole : part.flash_size % write_size_of part ≡ 0
  pub small : part.flash_size + write_size_of part < 2 ^ 31
  pub sectors : part.flash_nb_sectors < 2 ^ 31
  pub encoded : 0 < part.uuencode
  pub sound : IsSound script
  pub not_empty : 0 < length (loaded part script)
  pub checked :
      (calc_user_code ≡ 1)
      ⊎ (vectors_checksum (image_of part script junk) ≡ word_at (image_of part script junk) 7)
  pub readable :
      is_protected (word_at (checked_image (image_of part script junk) calc_user_code) crp_word)
      ≡ false

-- The device's replies, and the texts that are sent, for a file of `n` bytes.
abbrev pub programs : PartDesc → List Sector → ℕ → List Rx → List Rx
programs part sectors n rx =
    digit_reply 0
    ∷ sector_replies sectors
        (accepts part (write_size_of part) (blocks_of n (write_size_of part)) rx)

abbrev pub program_texts : PartDesc → List Sector → ℕ → Mem → List ℕ
program_texts part sectors n image =
    (unlock ++ sector_texts 0 sectors)
    ++ flash_texts part (write_size_of part) image 0 (blocks_of n (write_size_of part))

-- flash_target with such a device.
pub flash_target-programs :
    (part : PartDesc) (script : List Feed) (calc_user_code : ℕ) (sectors : List Sector) (w : World)
    (rx : List Rx) (sent : List ℕ)
    → CanFlash part script w.junk calc_user_code
    → length sectors ≡ part.flash_nb_sectors
    → All Readable sectors
    → flash_target part
        (some script)
        calc_user_code
        true
        (idle w 0 (programs part sectors (length (loaded part script)) rx) sent)
      ≡ done (pos 0) (
          idle w 0 rx (
            sent
            ++ program_texts part sectors
                (length (loaded part script))
                (checked_image (image_of part script w.junk) calc_user_code)))
unfolding flash_target filled
flash_target-programs part script calc_user_code sectors w rx sent can count reports =
    let stored = loaded part script in
    let n = length stored in
    let write_size = write_size_of part in
    let fits = (length-take-le part.flash_size (contents script)).0 in
    let ram = can.ram in
    let some_bytes = can.some_bytes in
    let some_block : (write_size == 0) ≡ false = ground (arith, some_bytes) in
    let erased =
      erase_flash_erases part sectors w 0 (accepts part write_size (blocks_of n write_size) rx) sent
        count can.sectors reports in
    let read = file_to_buff-contents script part.flash_size can.sound in
    let int : ltb n (2 ^ 31) ≡ true = lt→ltb n (2 ^ 31) (omega (arith, can.small)) in
    let some_size : (n == 0) ≡ false = ground (arith, can.not_empty) in
    let flashed =
      flash_image-accepted part (image_of part script w.junk) n write_size calc_user_code w rx
        (sent ++ (unlock ++ sector_texts 0 sectors)) can.checked can.readable some_bytes fits
        can.whole can.small can.encoded in
    rw (ram, some_block, erased, read, int, some_size, flashed)
      (ap (λ t. done (pos 0) (idle w 0 rx t)) (append_assoc sent _ _))
