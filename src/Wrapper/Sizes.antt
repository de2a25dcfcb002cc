-- ===== src/Wrapper/Sizes.antt =====
-- The sizes that the commands of lpcisp accept and send.
use lpctools.Base.{
  ℕ, ◌+◌, ◌*◌, ◌%◌, ◌^◌, ◌-◌, ◌≤◌, ◌<◌, ◌≡◌, refl, arith, List, [], ◌∷◌, ◌||◌, ◌==◌, overlay, none,
  u32, ◌++◌, true,
}
use lpctools.Machine.{World, done, Rx}
use lpctools.File.{file_to_buff, Sink, buff_to_file}
use lpctools.Transfer.{send_buf_to_ram}
use lpctools.Transfer.Refused.{read_memory_refused}
use lpctools.Serial.Idle.{idle}
use lpctools.Command.{two_args_text}
use lpctools.Command.Replies.{digit_reply}
use lpctools.Wrapper.{
  padded, is_copy_length, cmd_write_to_ram, cmd_read_memory, number, uuencoded_flag,
}

-- For a size below 2 ^ 32 - 3, the padded size of write-to-ram is the least multiple of 4 that is not
-- less than the size.
pub padded_least :
    (n k : ℕ)
    → n + 3 < 2 ^ 32
    → k % 4 ≡ 0
    → n ≤ k
    → (padded n % 4 ≡ 0) × (n ≤ padded n) × (padded n ≤ k)
unfolding padded
padded_least n k small whole above = (ground arith, ground arith, ground arith)

-- Of the lengths below 2048 that are multiples of 256, copy-ram-to-flash accepts 256, 512 and 1024 and
-- no others.
pub is_copy_length_lem :
    (n : ℕ) → n < 2048 → n % 256 ≡ 0 → is_copy_length n ≡ (n == 256 || n == 512 || n == 1024)
unfolding is_copy_length
is_copy_length_lem n small whole = ground arith

-- The length test of copy-ram-to-flash does not look at the lowest eight bits of the length.
pub is_copy_length_low_bits :
    (q r : ℕ) → r < 256 → is_copy_length (256 * q + r) ≡ is_copy_length (256 * q)
unfolding is_copy_length
is_copy_length_low_bits q r small = ground arith

-- If the file of write-to-ram cannot be opened and the address is a multiple of 4, isp_send_buf_to_ram
-- is asked to send 2 ^ 32 - 12 bytes.
pub cmd_write_to_ram_unopened :
    (addr file_name : List ℕ) (more : List (List ℕ)) (w : World)
    → number addr % 4 ≡ 0
    → cmd_write_to_ram (addr ∷ file_name ∷ more) none w
      ≡ send_buf_to_ram (overlay [] w.junk) (number addr) (2 ^ 32 - 12) (uuencoded_flag more) w
unfolding cmd_write_to_ram file_to_buff padded
cmd_write_to_ram_unopened addr file_name more w aligned = rw aligned refl

-- On an idle line, where the device refuses the request of read-memory, with aligned address and
-- count, with a code from 1 to 9, that many bytes of what the allocated buffer held are written to the
-- file, and the result is that of the write.
pub cmd_read_memory_refused :
    (addr count file_name : List ℕ) (more : List (List ℕ)) (sink : Sink) (n : ℕ) (w : World) (c : ℕ)
    (rx : List Rx) (sent : List ℕ)
    → number addr % 4 ≡ 0
    → number count % 4 ≡ 0
    → 0 < n
    → n < 10
    → cmd_read_memory
        (addr ∷ count ∷ file_name ∷ more)
        true
        sink
        (idle w c (digit_reply n ∷ rx) sent)
      ≡ done
          (buff_to_file w.junk n file_name sink)
          (idle w c rx (sent ++ two_args_text b'R' (u32 (number addr)) (u32 (number count))))
unfolding cmd_read_memory overlay
cmd_read_memory_refused addr count file_name more sink n w c rx sent aligned whole error small =
    rw
      (
        aligned,
        whole,
        read_memory_refused (u32 (number addr)) (u32 (number count)) (uuencoded_flag more) n w c rx
            sent error small,
      )
      refl
