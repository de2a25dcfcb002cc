-- ===== src/Lpcprog/WholeRuns.antt =====
-- Whole runs of lpcprog with a device that answers on an idle line: flash and dump.
use lpctools.Base.{
  ℕ, ◌^◌, ◌<◌, ◌≡◌, refl, true, List, [], ◌∷◌, ◌++◌, none, some, All, length, pos, to_unsigned, Mem,
  AreBytes, bytes, codes,
}
use lpctools.Machine.{World, done, Rx}
use lpctools.Serial.Idle.{idle}
use lpctools.File.{Feed}
use lpctools.File.Written.{IsWhole}
use lpctools.Block.{nb_blocks}
use lpctools.Command.Replies.{digit_reply}
use lpctools.Transfer.GoodBlock.{acknowledged}
use lpctools.Transfer.Receives.{sends}
use lpctools.Host.{Host}
use lpctools.Parts.{PartDesc}
use lpctools.Parts.Format.{Entry, lookup_part}
use lpctools.Prog.{checked_image}
use lpctools.Prog.Erases.{Sector, Readable}
use lpctools.Prog.Programs.{
  CanFlash, loaded, image_of, programs, program_texts, flash_target-programs,
}
use lpctools.Prog.Dump.{dump_texts, dump_to_file_dumps}
use lpctools.Lpcprog.{CmdNum, run_command, main, Opt, Settings}
use lpctools.Lpcprog.Session.{IsCall, greeting, greeted, main-greeting}

module _ (host : Host) (opts : List Opt) (s : Settings) (es : List Entry)
    (parts_file_name serial_device filename : List ℕ)
    (call : IsCall host opts s es parts_file_name serial_device)
    (allocates : host.can_allocate ≡ true) (part : PartDesc) (id : ℕ) (positive : id < 2 ^ 31)
    (known : lookup_part id es ≡ some part) (w : World) (rx : List Rx) (sent : List ℕ) where
  -- lpcprog with the command flash and one file name, where the options parse, the chosen parts
  -- description file is a table of well-formed lines, the serial device can be opened, and the
  -- frequency is below 100000, memory can be allocated, and the part with the device's identifier,
  -- below 2 ^ 31, is found in the table and can flash the file (CanFlash), with a device on an idle
  -- line, with no resend request counted before, that answers the greeting, says for each sector
  -- whether it is blank, and accepts all else: the result is 0, and what was sent is exactly the
  -- greeting, the unlock, for each sector the blank check and, if it is not blank, its preparation and
  -- erasure, and for each block of the image the preparation, the data and the copy; all replies have
  -- been read.
  pub main_flash :
      (script : List Feed) (sectors : List Sector)
      → s.command ≡ some (codes "flash")
      → host.load filename ≡ some script
      → CanFlash part script w.junk s.calc_user_code
      → length sectors ≡ part.flash_nb_sectors
      → All Readable sectors
      → main host opts (filename ∷ []) (
          idle w 0
            (greeting
              (to_unsigned s.crystal_freq)
              id
              (programs part sectors (length (loaded part script)) rx))
            sent)
        ≡ done
            (pos 0, none)
            (idle w 0 rx (
              (sent ++ greeted (to_unsigned s.crystal_freq))
              ++ program_texts part sectors
                  (length (loaded part script))
                  (checked_image (image_of part script w.junk) s.calc_user_code)))
  unfolding run_command
  main_flash script sectors commanded load can count reports =
      let freq = to_unsigned s.crystal_freq in
      let greeted' =
        main-greeting host opts s es parts_file_name serial_device (filename ∷ []) call w 0
          (programs part sectors (length (loaded part script)) rx) sent part CmdNum.flash [] id
          commanded positive known in
      let flashed =
        flash_target-programs part script s.calc_user_code sectors w rx (sent ++ greeted freq) can
          count reports in
      rw (greeted', load, allocates, flashed) refl

  -- lpcprog with the command dump and one file name, where the options parse, the chosen parts
  -- description file is a table of well-formed lines, the serial device can be opened, and the
  -- frequency is below 100000, memory can be allocated, and the part with the device's identifier,
  -- below 2 ^ 31, is found in the table, has at least one and fewer than 2 ^ 32 bytes of flash and is
  -- uuencoded, and the file takes that many bytes, with a device on an idle line that answers the
  -- greeting and then sends its flash of bytes: the result is 0, the file holds exactly the bytes of
  -- the flash, and the greeting, the request and an acknowledgement for each block have been sent.
  pub main_dump :
      (flash : Mem)
      → s.command ≡ some (codes "dump")
      → AreBytes flash
      → 0 < part.flash_size
      → part.flash_size < 2 ^ 32
      → 0 < part.uuencode
      → IsWhole (host.sink filename) part.flash_size
      → main host opts (filename ∷ []) (
          idle w 0
            (greeting
              (to_unsigned s.crystal_freq)
              id
              (digit_reply 0 ∷ sends flash part.flash_size 0 (nb_blocks part.flash_size) rx))
            sent)
        ≡ done
            (pos 0, some (bytes flash 0 part.flash_size))
            (idle
              (acknowledged w)
              0
              rx
              ((sent ++ greeted (to_unsigned s.crystal_freq)) ++ dump_texts part))
  unfolding run_command
  main_dump flash commanded are some_bytes small encoded whole =
      let freq = to_unsigned s.crystal_freq in
      let sending = digit_reply 0 ∷ sends flash part.flash_size 0 (nb_blocks part.flash_size) rx in
      let greeted' =
        main-greeting host opts s es parts_file_name serial_device (filename ∷ []) call w 0 sending
          sent part CmdNum.dump [] id commanded positive known in
      let dumped =
        dump_to_file_dumps part filename (host.sink filename) flash w 0 rx (sent ++ greeted freq)
          are some_bytes small encoded whole in
      rw (greeted', allocates, dumped) refl
