-- ===== src/Prog/Dump.antt =====
-- dump_to_file with a device that sends its flash, and where the reading fails.
use mathlib.Core.List.{append_assoc}
use lpctools.Base.{
  ℕ, ◌^◌, ◌<◌, ◌≡◌, refl, ap, ◌∙◌, arith, List, ◌∷◌, ◌++◌, true, some, length, to_int, Mem,
  AreBytes, bytes, overlay, length-bytes, bytes-overlay,
}
use lpctools.Machine.{World, done, Rx}
use lpctools.Serial.Idle.{idle}
use lpctools.File.{Sink}
use lpctools.File.Written.{IsWhole, buff_to_file-whole}
use lpctools.Block.{nb_blocks}
use lpctools.Command.{two_args_text}
use lpctools.Command.Replies.{digit_reply}
use lpctools.Transfer.Refused.{read_memory_refused}
use lpctools.Transfer.GoodBlock.{acknowledged}
use lpctools.Transfer.Receives.{sends, acknowledgements, read_memory_receives}
use lpctools.Parts.{PartDesc}
use lpctools.Prog.{dump_to_file}

-- The request for the flash, and the acknowledgements of its blocks.
abbrev pub dump_texts : PartDesc → List ℕ
dump_texts part =
    two_args_text b'R' part.flash_base part.flash_size
    ++ acknowledgements (nb_blocks part.flash_size)

-- With a device that sends its flash on an idle line, the file then holds the bytes of the flash.
pub dump_to_file_dumps :
    (part : PartDesc) (filename : List ℕ) (sink : Sink) (flash : Mem) (w : World) (c : ℕ)
    (rx : List Rx) (sent : List ℕ)
    → AreBytes flash
    → 0 < part.flash_size
    → part.flash_size < 2 ^ 32
    → 0 < part.uuencode
    → IsWhole sink part.flash_size
    → dump_to_file part filename true sink (
        idle w c
          (digit_reply 0 ∷ sends flash part.flash_size 0 (nb_blocks part.flash_size) rx)
          sent)
      ≡ done
          (to_int part.flash_size, some (bytes flash 0 part.flash_size))
          (idle (acknowledged w) c rx (sent ++ dump_texts part))
unfolding dump_to_file
dump_to_file_dumps part filename sink flash w c rx sent are some_bytes small encoded whole =
    let n = part.flash_size in
    let m = overlay (bytes flash 0 n) w.junk in
    let received =
      read_memory_receives flash part.flash_base n part.uuencode w c rx sent are some_bytes small
        encoded in
    let stored : bytes m 0 n ≡ bytes flash 0 n =
      ap (λ (k : ℕ). bytes m 0 k) {y = length (bytes flash 0 n)}
        (omega (arith, length-bytes flash 0 n))
      ∙ bytes-overlay (bytes flash 0 n) w.junk in
    rw (received, buff_to_file-whole m n filename sink whole, stored)
      (ap (λ t. done (to_int n, some (bytes flash 0 n)) (idle (acknowledged w) c rx t))
        (append_assoc sent (two_args_text b'R' part.flash_base n) (acknowledgements (nb_blocks n))))

-- On an idle line, where the device refuses the request of dump_to_file with a code from 1 to 9, and
-- the file can be opened and takes all the bytes, the file is filled with what the allocated buffer
-- held, and the result is the size of the flash, as for a good dump.
pub dump_to_file_refused :
    (part : PartDesc) (filename : List ℕ) (sink : Sink) (n : ℕ) (w : World) (c : ℕ) (rx : List Rx)
    (sent : List ℕ)
    → 0 < n
    → n < 10
    → IsWhole sink part.flash_size
    → dump_to_file part filename true sink (idle w c (digit_reply n ∷ rx) sent)
      ≡ done
          (to_int part.flash_size, some (bytes w.junk 0 part.flash_size))
          (idle w c rx (sent ++ two_args_text b'R' part.flash_base part.flash_size))
unfolding dump_to_file overlay
dump_to_file_refused part filename sink n w c rx sent error small whole =
    rw
      (
        read_memory_refused part.flash_base part.flash_size part.uuencode n w c rx sent error small,
        buff_to_file-whole w.junk part.flash_size filename sink whole,
      )
      refl
