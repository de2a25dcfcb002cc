-- ===== src/Transfer/Runs.antt =====
-- Transfers at concrete inputs.
use lpctools.Base.{
  ◌+◌, ◌*◌, ℕ, zero, suc, ◌≤◌, ◌≢◌, length, List, ◌≡◌, refl, arith, [], ◌∷◌, ◌++◌, pos, negsuc,
  to_int, some, drop, bytes, shift, overlay, overlay-Holds, inr,
}
use lpctools.Machine.{done}
use lpctools.Machine.Samples.{at_start, blank, cat, cat-AreBytes}
use lpctools.Serial.Idle.{idle}
use lpctools.Text.{strtoul}
use lpctools.Uu.{uu_decode}
use lpctools.Block.{nb_blocks, remaining_blocksize, calc_checksum}
use lpctools.Block.Sizes.{block_data}
use lpctools.Command.{two_args_text}
use lpctools.Command.Replies.{digit_reply}
use lpctools.Transfer.{send_buf_to_ram, read_memory}
use lpctools.Transfer.GoodBlock.{acknowledged}
use lpctools.Transfer.BadBlock.{Garbled}
use lpctools.Transfer.Retries.{AreBad}
use lpctools.Transfer.Recovers.{sends_at_last, answers, read_memory_recovers}
use lpctools.Transfer.Delivers.{replies, blocks_from, block_at, times, send_buf_to_ram_delivers}
use lpctools.Transfer.Blocks.{block_at-decodes}
use lpctools.Transfer.Refusals.{only_refuse, send_buf_to_ram_gives_up}

-- Two blocks, the first of which is refused once.
send_buf_to_ram_delivers_example :
    send_buf_to_ram cat 0x10000200 1000 1
      (idle at_start 0 (digit_reply 0 ∷ replies (1 ∷ 0 ∷ []) []) [])
    ≡ done (pos 0) (
        idle at_start 0 []
          ([] ++ (two_args_text b'W' 0x10000200 1000 ++ blocks_from cat 1000 0 (1 ∷ 0 ∷ []))))
unfolding nb_blocks
send_buf_to_ram_delivers_example =
    send_buf_to_ram_delivers cat 1000 at_start (omega arith) 0x10000200 1 (1 ∷ 0 ∷ []) [] []
      (omega arith) (omega arith) (omega arith, (omega arith, tt)) refl

block_at-decodes_example :
    (uu_decode (overlay (block_at cat 1000 1) blank) (remaining_blocksize 1000 (900 * 1))
      ≡ some (bytes cat (900 * 1) (block_data 1000 (900 * 1))))
    × ((strtoul (drop (remaining_blocksize 1000 (900 * 1)) (block_at cat 1000 1)) 10).value
        ≡ calc_checksum (shift (900 * 1) cat) (block_data 1000 (900 * 1)))
unfolding nb_blocks
block_at-decodes_example =
    block_at-decodes cat (overlay (block_at cat 1000 1) blank) 1000 1 cat-AreBytes (omega arith)
      (omega arith) (overlay-Holds (block_at cat 1000 1) blank)

-- The count of an earlier transfer that was given up is still 3: one refusal is enough.
send_buf_to_ram_gives_up_example :
    send_buf_to_ram cat 0x10000200 1000 1 (idle at_start 3 (digit_reply 0 ∷ only_refuse 1 []) [])
    ≡ done (negsuc 1) (
        idle at_start
          (3 + 1)
          []
          (([] ++ two_args_text b'W' 0x10000200 1000) ++ times 1 (block_at cat 1000 0)))
send_buf_to_ram_gives_up_example =
    send_buf_to_ram_gives_up cat 1000 0x10000200 1 3 1 at_start [] [] (omega arith) (omega arith)
      (omega arith) (omega arith) (omega arith, omega arith, inr refl)

-- Block 0 comes once with a number that is not its checksum.
abbrev wrong_number : Garbled
wrong_number = record { content = cat; number = 5 }

abbrev one_garbled : ℕ → List Garbled
one_garbled zero = wrong_number ∷ []
one_garbled (suc i) = []

cat_checksum : calc_checksum cat (block_data 1000 (900 * 0)) ≢ 5
unfolding calc_checksum
cat_checksum e = omega (arith, e)

one_garbled-AreBad : (i : ℕ) → AreBad 1000 i (one_garbled i)
one_garbled-AreBad zero =
    (record { are = cat-AreBytes; small = omega arith; differs = cat_checksum }, tt)
one_garbled-AreBad (suc i) = tt

one_garbled_few : (i : ℕ) → length (one_garbled i) ≤ 3
one_garbled_few zero = omega arith
one_garbled_few (suc i) = omega arith

read_memory_recovers_example :
    read_memory 0 1000 1 (
      idle at_start 0 (digit_reply 0 ∷ sends_at_last one_garbled cat 1000 0 (nb_blocks 1000) []) [])
    ≡ done
        (to_int 1000, bytes cat 0 1000)
        (idle
          (acknowledged at_start)
          0
          []
          (([] ++ two_args_text b'R' 0 1000) ++ answers one_garbled 0 (nb_blocks 1000)))
read_memory_recovers_example =
    read_memory_recovers cat one_garbled 0 1000 1 at_start 0 [] [] cat-AreBytes (omega arith)
      (omega arith) (omega arith) one_garbled-AreBad one_garbled_few refl
