-- ===== src/Prog/Erases.antt =====
-- What erase_flash sends to a device that answers on an idle line.
use mathlib.Core.List.{append-nil, append_assoc}
use lpctools.Base.{
  ℕ, ◌+◌, ◌^◌, ◌≤◌, ◌<◌, ◌≡◌, refl, ap, ◌∙◌, arith, List, [], ◌∷◌, ◌++◌, All, length, ℤ, pos,
  negsuc,
}
use lpctools.Machine.{World, done, Rx, ready, Cmd}
use lpctools.Serial.Idle.{idle, serial_read-idle}
use lpctools.Command.{two_args_text, unlock, cmd_unlock, send_cmd_no_args}
use lpctools.Command.Replies.{digit_reply, exchange_digit, send_cmd_sectors_digit}
use lpctools.Parts.{PartDesc}
use lpctools.Prog.{erase_sector, erase_sectors, erase_flash, int_count, rep_bufsize}

-- A device whose sectors are blank, or not, and which accepts every request.
pub data Sector : Type 0 where
  is_blank : Sector
  -- with what it reports of the first word that is not blank
  holds : ℕ → List ℕ → Sector

abbrev pub Readable : Sector → Type 0
Readable is_blank = Unit {0}
Readable (holds b bs) = (2 ≤ length bs) × (length bs < rep_bufsize)

abbrev pub sector_replies : List Sector → List Rx → List Rx
sector_replies [] rx = rx
sector_replies (is_blank ∷ more) rx = digit_reply 0 ∷ sector_replies more rx
sector_replies (holds b bs ∷ more) rx =
    digit_reply 8 ∷ ready b bs ∷ digit_reply 0 ∷ digit_reply 0 ∷ sector_replies more rx

-- The sectors from `i` on: each is checked, and prepared and erased if it is not blank.
abbrev pub sector_texts : ℕ → List Sector → List ℕ
sector_texts i [] = []
sector_texts i (is_blank ∷ more) = two_args_text b'I' i i ++ sector_texts (i + 1) more
sector_texts i (holds b bs ∷ more) =
    (two_args_text b'I' i i ++ (two_args_text b'P' i i ++ two_args_text b'E' i i))
    ++ sector_texts (i + 1) more

module _ (w : World) (c : ℕ) where
  erase_sector-is_blank :
      (i : ℕ) (next : Cmd ℤ) (rx : List Rx) (sent : List ℕ)
      → i < 2 ^ 31
      → erase_sector i next (idle w c (digit_reply 0 ∷ rx) sent)
        ≡ next (idle w c rx (sent ++ two_args_text b'I' i i))
  unfolding erase_sector
  erase_sector-is_blank i next rx sent fits =
      rw (send_cmd_sectors_digit b'I' i 0 w c rx sent (omega arith) fits) refl

  erase_sector-holds :
      (i b : ℕ) (bs : List ℕ) (next : Cmd ℤ) (rx : List Rx) (sent : List ℕ)
      → i < 2 ^ 31
      → Readable (holds b bs)
      → erase_sector i next
          (idle w c (digit_reply 8 ∷ ready b bs ∷ digit_reply 0 ∷ digit_reply 0 ∷ rx) sent)
        ≡ next (
            idle w c rx (
              sent
              ++ (two_args_text b'I' i i ++ (two_args_text b'P' i i ++ two_args_text b'E' i i))))
  unfolding erase_sector
  erase_sector-holds i b bs next rx sent fits (enough, room) =
      let rx3 = digit_reply 0 ∷ rx in
      let rx2 = digit_reply 0 ∷ rx3 in
      let s1 = sent ++ two_args_text b'I' i i in
      let s2 = s1 ++ two_args_text b'P' i i in
      let checked =
        send_cmd_sectors_digit b'I' i 8 w c (ready b bs ∷ rx2) sent (omega arith) fits in
      let read = serial_read-idle 39 3 b bs w c rx2 s1 (omega arith) (omega arith) (omega arith) in
      let prepared = send_cmd_sectors_digit b'P' i 0 w c rx3 s1 (omega arith) fits in
      let erased = send_cmd_sectors_digit b'E' i 0 w c rx s2 (omega arith) fits in
      rw (checked, read, prepared, erased)
        (ap (λ t. next (idle w c rx t)) (rw (append_assoc, append_assoc) refl))

  erase_sectors-erases :
      (i : ℕ) (sectors : List Sector) (rx : List Rx) (sent : List ℕ)
      → i + length sectors < 2 ^ 31
      → All Readable sectors
      → erase_sectors (length sectors) i (idle w c (sector_replies sectors rx) sent)
        ≡ done (pos 0) (idle w c rx (sent ++ sector_texts i sectors))
  unfolding erase_sectors
  erase_sectors-erases i [] rx sent fits readable = rw (append-nil sent) refl
  erase_sectors-erases i (is_blank ∷ more) rx sent fits (ok, readable) =
      erase_sector-is_blank i _ (sector_replies more rx) sent (omega arith)
      ∙ erase_sectors-erases (i + 1) more rx (sent ++ two_args_text b'I' i i) (omega arith) readable
      ∙ rw append_assoc refl
  erase_sectors-erases i (holds b bs ∷ more) rx sent fits (ok, readable) =
      let texts = two_args_text b'I' i i ++ (two_args_text b'P' i i ++ two_args_text b'E' i i) in
      erase_sector-holds i b bs _ (sector_replies more rx) sent (omega arith) ok
      ∙ erase_sectors-erases (i + 1) more rx (sent ++ texts) (omega arith) readable
      ∙ ap (λ t. done (pos 0) (idle w c rx t)) (append_assoc sent texts (sector_texts (i + 1) more))

  cmd_unlock_digit :
      (rx : List Rx) (sent : List ℕ)
      → cmd_unlock (idle w c (digit_reply 0 ∷ rx) sent)
        ≡ done (pos 0) (idle w c rx (sent ++ unlock))
  unfolding cmd_unlock send_cmd_no_args
  cmd_unlock_digit rx sent =
      rw
        (exchange_digit unlock 5 [] (negsuc 4) (negsuc 3) 0 w c rx sent (omega arith) (omega arith))
        refl

-- On an idle line, with a device that accepts the unlock, says for each of the part's sectors, fewer
-- than 2 ^ 31, whether it is blank, with a report of 3 to 40 bytes if it is not, and accepts all else,
-- erase_flash returns 0, and has sent the unlock and for each sector in order the blank check and, if
-- it is not blank, its preparation and erasure; all replies have been read.
pub erase_flash_erases :
    (part : PartDesc) (sectors : List Sector) (w : World) (c : ℕ) (rx : List Rx) (sent : List ℕ)
    → length sectors ≡ part.flash_nb_sectors
    → part.flash_nb_sectors < 2 ^ 31
    → All Readable sectors
    → erase_flash part (idle w c (digit_reply 0 ∷ sector_replies sectors rx) sent)
      ≡ done (pos 0) (idle w c rx (sent ++ (unlock ++ sector_texts 0 sectors)))
unfolding erase_flash
erase_flash_erases part sectors w c rx sent count small readable =
    let n : int_count part.flash_nb_sectors ≡ length sectors = ground arith in
    rw
      (
        cmd_unlock_digit w c (sector_replies sectors rx) sent,
        n,
        erase_sectors-erases w c 0 sectors rx (sent ++ unlock) (omega arith) readable,
      )
      (ap (λ t. done (pos 0) (idle w c rx t)) (append_assoc sent unlock (sector_texts 0 sectors)))
