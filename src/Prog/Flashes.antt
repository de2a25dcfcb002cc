-- ===== src/Prog/Flashes.antt =====
-- What flash_target sends for an image, to a device on an idle line that accepts everything.
use native.Mathlib.Nat.{div-le_self, mul-le-mul_right}
use mathlib.Core.List.{append-nil, append_assoc}
use lpctools.Base.{
  ℕ, zero, suc, ◌+◌, ◌*◌, ◌/◌, ◌%◌, ◌^◌, ◌≤◌, ◌<◌, ◌≡◌, refl, ap, ◌∙◌, subst, arith, ◌⊎◌, List, [],
  ◌∷◌, ◌++◌, false, not, ◌&&◌, ◌==◌, u32, add32, ℤ, pos, Mem, shift, replicate, All, length,
}
use lpctools.Machine.{World, done, Rx, Cmd}
use lpctools.Serial.Idle.{idle}
use lpctools.Block.{nb_blocks}
use lpctools.Command.{two_args_text, address_text}
use lpctools.Command.Replies.{digit_reply, send_cmd_address_digit, send_cmd_sectors_digit}
use lpctools.Transfer.Delivers.{replies, blocks_from, send_buf_to_ram_delivers}
use lpctools.Prog.Bounds.{blocks_of_passes, blocks_of-u32}
use lpctools.Parts.{PartDesc}
use lpctools.Prog.{
  flash_block, flash_blocks, flash_image, checked_image, vectors_checksum, word_at, crp_word,
  is_protected, blocks_of,
}

-- No refusal for any of the blocks of a transfer.
abbrev pub no_refusals : ℕ → List ℕ
no_refusals write_size = replicate (nb_blocks write_size) 0

replicate-le : (n : ℕ) → All (λ r. r ≤ 2) (replicate n 0)
replicate-le zero = tt
replicate-le (suc n) = (omega arith, replicate-le n)

length-replicate : (n : ℕ) → length (replicate {A = ℕ} n 0) ≡ n
length-replicate zero = refl
length-replicate (suc n) = ap suc (length-replicate n)

module _ (part : PartDesc) (write_size : ℕ) where
  abbrev pub ram_addr : ℕ
  ram_addr = add32 part.ram_base part.ram_buff_offset

  -- The replies to one block of the flash: to the preparation, the transfer and the copy.
  abbrev pub accepts : ℕ → List Rx → List Rx
  accepts zero rx = rx
  accepts (suc left) rx =
      digit_reply 0
      ∷ digit_reply 0
      ∷ replies (no_refusals write_size) (digit_reply 0 ∷ accepts left rx)

  -- What is sent for the block of the flash from offset `at` on: its sector is prepared, its data are sent
  -- to RAM and copied to the flash.
  abbrev pub flash_text : Mem → ℕ → List ℕ
  flash_text data_at at =
      let sector = at / (part.flash_size / part.flash_nb_sectors) in
      two_args_text b'P' sector sector
      ++ ((two_args_text b'W' ram_addr write_size
            ++ blocks_from (shift at data_at) write_size 0 (no_refusals write_size))
          ++ address_text b'C' (add32 part.flash_base at) ram_addr write_size)

  -- The blocks from `i` on.
  abbrev pub flash_texts : Mem → ℕ → ℕ → List ℕ
  flash_texts data_at i zero = []
  flash_texts data_at i (suc left) =
      flash_text data_at (i * write_size) ++ flash_texts data_at (i + 1) left

  module _ (data_at : Mem) (w : World) (encoded : 0 < part.uuencode)
      (small : write_size < 2 ^ 32) where
    flash_block-accepted :
        (i : ℕ) (next : Cmd ℤ) (rx : List Rx) (sent : List ℕ)
        → i * write_size < 2 ^ 31
        → flash_block part data_at write_size i next (
            idle w 0
              (digit_reply 0
                ∷ digit_reply 0
                ∷ replies (no_refusals write_size) (digit_reply 0 ∷ rx))
              sent)
          ≡ next (idle w 0 rx (sent ++ flash_text data_at (i * write_size)))
    unfolding flash_block
    flash_block-accepted i next rx sent inside =
        let at = i * write_size in
        let sector = at / (part.flash_size / part.flash_nb_sectors) in
        let rs = no_refusals write_size in
        let same : u32 at ≡ at = omega arith in
        let s1 = sent ++ two_args_text b'P' sector sector in
        let data_text =
          two_args_text b'W' ram_addr write_size
          ++ blocks_from (shift at data_at) write_size 0 rs in
        let prepared =
          send_cmd_sectors_digit b'P' sector 0 w 0 (digit_reply 0 ∷ replies rs (digit_reply 0 ∷ rx))
            sent (omega arith)
            (omega (arith, div-le_self at (part.flash_size / part.flash_nb_sectors))) in
        let delivered =
          send_buf_to_ram_delivers (shift at data_at) write_size w small ram_addr part.uuencode rs
            (digit_reply 0 ∷ rx) s1 (omega arith) encoded (replicate-le (nb_blocks write_size))
            (length-replicate (nb_blocks write_size)) in
        let copied =
          send_cmd_address_digit b'C' (add32 part.flash_base at) ram_addr write_size 0 w 0 rx
            (s1 ++ data_text) (omega arith) in
        rw (same, prepared, delivered, copied)
          (ap (λ t. next (idle w 0 rx t)) (rw (append_assoc, append_assoc) refl))

    flash_blocks-accepted :
        (left i : ℕ) (rx : List Rx) (sent : List ℕ)
        → (i + left) * write_size < 2 ^ 31
        → flash_blocks left part data_at write_size i (idle w 0 (accepts left rx) sent)
          ≡ done (pos 0) (idle w 0 rx (sent ++ flash_texts data_at i left))
    unfolding flash_blocks
    flash_blocks-accepted zero i rx sent inside = rw (append-nil sent) refl
    flash_blocks-accepted (suc left) i rx sent inside =
        let text = flash_text data_at (i * write_size) in
        let within : (i + 1 + left) * write_size < 2 ^ 31 =
          subst (λ k. k * write_size < 2 ^ 31) {x = i + suc left} {y = i + 1 + left} (omega arith)
            inside in
        let at : i * write_size < 2 ^ 31 =
          omega (arith, mul-le-mul_right {m = i} {n = i + suc left} write_size (omega arith)) in
        flash_block-accepted i (flash_blocks left part data_at write_size (i + 1)) (accepts left rx)
          sent at
        ∙ flash_blocks-accepted left (i + 1) rx (sent ++ text) within
        ∙ rw append_assoc refl

checksum_accepted :
    (calc_user_code a b : ℕ)
    → (calc_user_code ≡ 1) ⊎ (a ≡ b)
    → (not (calc_user_code == 1) && not (a == b)) ≡ false
checksum_accepted calc_user_code a b checked = ground arith

-- On an idle line, with no resend request counted before and a device that accepts each request and
-- block, flash_target flashes an image whose checksum is to be stored or was found in place, which has
-- no word for code read protection and is not longer than the flash, a whole number of blocks below 2
-- ^ 31, in blocks that are not empty, and uuencoded: it returns 0, has sent for each block in order
-- the preparation of its sector, its data to RAM and its copy to the flash, and has read all the
-- replies.
pub flash_image-accepted :
    (part : PartDesc) (data_at : Mem) (size write_size calc_user_code : ℕ) (w : World)
    (rx : List Rx) (sent : List ℕ)
    → (calc_user_code ≡ 1) ⊎ (vectors_checksum data_at ≡ word_at data_at 7)
    → is_protected (word_at (checked_image data_at calc_user_code) crp_word) ≡ false
    → 0 < write_size
    → size ≤ part.flash_size
    → part.flash_size % write_size ≡ 0
    → part.flash_size + write_size < 2 ^ 31
    → 0 < part.uuencode
    → flash_image part data_at size write_size calc_user_code
        (idle w 0 (accepts part write_size (blocks_of size write_size) rx) sent)
      ≡ done (pos 0) (
          idle w 0 rx (
            sent
            ++ flash_texts part write_size
                (checked_image data_at calc_user_code)
                0
                (blocks_of size write_size)))
unfolding flash_image
flash_image-accepted part data_at size write_size calc_user_code w rx sent checked readable some
      fits whole small encoded =
    let blocks = blocks_of size write_size in
    let good : (not (calc_user_code == 1) && not (vectors_checksum data_at == word_at data_at 7))
        ≡ false =
      checksum_accepted calc_user_code (vectors_checksum data_at) (word_at data_at 7) checked in
    let passes = blocks_of_passes part.flash_size size write_size some fits (omega arith) whole in
    let inside : blocks * write_size ≤ part.flash_size =
      ground (arith, passes, blocks_of-u32 size write_size some (omega arith)) in
    rw (good, readable, passes)
      (flash_blocks-accepted part write_size (checked_image data_at calc_user_code) w encoded
        (omega arith) blocks 0 rx sent
        (subst (λ k. k * write_size < 2 ^ 31) {x = blocks} (omega arith) (omega arith)))
