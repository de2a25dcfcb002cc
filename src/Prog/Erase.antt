-- ===== src/Prog/Erase.antt =====
-- The termination of erase_flash and flash_target.
use lpctools.Base.{
  ℕ, zero, suc, ◌+◌, ◌*◌, ◌/◌, ◌^◌, ◌<◌, arith, List, Bool, not, Bool-cases, inl, inr, u32, ℤ,
  is_zero, is_nonpos, to_unsigned, Mem, ltb, ◌==◌, Option, add32, ◌&&◌, overlay, replicate, ◌++◌,
  length, ◌-◌,
}
use lpctools.Machine.{World, Cmd}
use lpctools.Machine.Steady.{Steady, Steady-pure, Steady-if, Steady-bind, steady_rules}
use lpctools.Serial.Terminates.{serial_read-Steady}
use lpctools.Command.{send_cmd_sectors}
use lpctools.Command.Steady.{send_cmd_sectors-Steady, cmd_unlock-Steady}
use lpctools.Command.{send_cmd_address}
use lpctools.Command.Steady.{send_cmd_address-Steady}
use lpctools.Transfer.{send_buf_to_ram}
use lpctools.Transfer.Steady.{Returns, Returns-bind, Steady-then, send_buf_to_ram-Returns}
use lpctools.File.{Feed, file_to_buff}
use lpctools.Parts.{PartDesc}
use lpctools.Prog.{
  filled, flash_block, flash_blocks, flash_image, flash_target, calc_write_size, checked_image,
  is_protected, vectors_checksum, word_at, crp_word, blocks_of, erase_sector, erase_sectors,
  erase_flash,
}

erase_sector-Steady : (i : ℕ) (next : Cmd ℤ) → Steady next → Steady (erase_sector i next)
unfolding erase_sector
erase_sector-Steady i next ends = Steady-bind _ _ (send_cmd_sectors-Steady _ _ _) λ blank.
    Steady-if _ _ _ ends (
      Steady-if _ _ _ (Steady-pure _) (
        Steady-bind _ _ (serial_read-Steady _ _) λ _.
          Steady-bind _ _ (send_cmd_sectors-Steady _ _ _) λ prepared.
            Steady-if _ _ _ (Steady-pure _) (
              Steady-bind _ _ (send_cmd_sectors-Steady _ _ _)
                λ erased. Steady-if _ _ _ (Steady-pure _) ends)))

erase_sectors-Steady : (left i : ℕ) → Steady (erase_sectors left i)
unfolding erase_sectors
erase_sectors-Steady zero i = Steady-pure _
erase_sectors-Steady (suc left) i = erase_sector-Steady i _ (erase_sectors-Steady left (i + 1))

-- erase_flash returns on every line, whatever the number of sectors, and leaves the counters of resend
-- requests alone.
pub erase_flash-Steady : (part : PartDesc) → Steady (erase_flash part)
unfolding erase_flash
erase_flash-Steady part = search (steady_rules, cmd_unlock-Steady, erase_sectors-Steady) depth 8

module _ (part : PartDesc) (data_at : Mem) (write_size : ℕ) (small : write_size < 2 ^ 32) where
  flash_block-Returns :
      (i : ℕ) (next : Cmd ℤ) (w : World)
      → ((w' : World) → Returns (next w'))
      → Returns (flash_block part data_at write_size i next w)
  unfolding flash_block
  flash_block-Returns i next w ends =
      Steady-then (send_cmd_sectors b'P' _ _) _ w (send_cmd_sectors-Steady _ _ _) λ prepared w1 f1.
        elim (Bool-cases (is_zero prepared)) [
          | inr refused ↦ rw refused tt
          | inl go ↦ rw go (
              Returns-bind (send_buf_to_ram _ _ write_size part.uuencode w1) _
                (send_buf_to_ram-Returns _ _ write_size part.uuencode w1 small)
                λ sent w2. elim (Bool-cases (is_zero sent)) [
                  | inr refused ↦ rw refused tt
                  | inl go' ↦ rw go' (
                      Steady-then (send_cmd_address b'C' _ _ write_size) _ w2
                        (send_cmd_address-Steady _ _ _ _)
                        λ copied w3 f3. elim (Bool-cases (is_zero copied)) [
                          | inr refused ↦ rw refused tt
                          | inl on ↦ rw on (ends w3)
                        ])
                ])
        ]

  flash_blocks-Returns :
      (left i : ℕ) (w : World) → Returns (flash_blocks left part data_at write_size i w)
  unfolding flash_blocks
  flash_blocks-Returns zero i w = tt
  flash_blocks-Returns (suc left) i w =
      flash_block-Returns i _ w (flash_blocks-Returns left (i + 1))

flash_image-Returns :
    (part : PartDesc) (v : Mem) (size write_size calc_user_code : ℕ) (w : World)
    → write_size < 2 ^ 32
    → Returns (flash_image part v size write_size calc_user_code w)
unfolding flash_image
flash_image-Returns part v size write_size calc_user_code w small =
    elim (Bool-cases (not (calc_user_code == 1) && not (vectors_checksum v == word_at v 7))) [
      | inl bad ↦ rw bad tt
      | inr good ↦
          elim (Bool-cases (is_protected (word_at (checked_image v calc_user_code) crp_word))) [
            | inl locked ↦ rw (good, locked) tt
            | inr readable ↦
                elim (Bool-cases
                  (ltb part.flash_size (u32 (blocks_of size write_size * write_size)))) [
                    | inl large ↦ rw (good, readable, large) tt
                    | inr fits ↦
                        rw (good, readable, fits)
                          (flash_blocks-Returns part (checked_image v calc_user_code) write_size
                            small (blocks_of size write_size) 0 w)
                  ]
          ]
    ]

calc_write_size-small : (a b : ℕ) → calc_write_size a b < 2 ^ 32
unfolding calc_write_size
calc_write_size-small a b = ground arith

-- flash_target returns on every line, for every part and file, whether or not memory can be allocated.
pub flash_target-Returns :
    (part : PartDesc) (file : Option (List Feed)) (calc_user_code : ℕ) (can_allocate : Bool)
    (w : World)
    → Returns (flash_target part file calc_user_code can_allocate w)
unfolding flash_target filled
flash_target-Returns part file calc_user_code can_allocate w =
    let write_size = calc_write_size (part.flash_size / part.flash_nb_sectors) part.ram_buff_size in
    let small : write_size < 2 ^ 32 =
      calc_write_size-small (part.flash_size / part.flash_nb_sectors) part.ram_buff_size in
    elim (Bool-cases
      (ltb (add32 part.ram_base part.ram_size) (add32 part.ram_base part.ram_buff_offset))) [
        | inl outside ↦ rw outside tt
        | inr inside ↦ elim (Bool-cases (write_size == 0)) [
          | inl none ↦ rw (inside, none) tt
          | inr some ↦
              rw (inside, some)
                (Steady-then (erase_flash part) _ w (erase_flash-Steady part) λ ret w1 f1.
                  elim (Bool-cases (is_zero ret)) [
                    | inr refused ↦ rw refused tt
                    | inl erased ↦ elim (Bool-cases can_allocate) [
                      | inr lacking ↦ rw (erased, lacking) tt
                      | inl allocated ↦
                          elim (Bool-cases (is_nonpos (file_to_buff file part.flash_size).0)) [
                            | inl empty ↦ rw (erased, allocated, empty) tt
                            | inr nonempty ↦
                                rw (erased, allocated, nonempty)
                                  (let (size, stored) = file_to_buff file part.flash_size in
                                    flash_image-Returns part
                                      (overlay
                                        (stored ++ replicate (part.flash_size - length stored) 0)
                                        w1.junk)
                                      (to_unsigned size) write_size calc_user_code w1 small)
                          ]
                    ]
                  ])
        ]
      ]
