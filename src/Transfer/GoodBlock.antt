-- ===== src/Transfer/GoodBlock.antt =====
-- A round of isp_read_memory on a block that arrives at once, as it was sent.
use lpctools.Command.Printed.{strtoul-Holds}
use lpctools.Base.{
  bytes-overlay, ℕ, suc, ◌+◌, ◌-◌, ◌*◌, ◌%◌, ◌^◌, ◌≤◌, ◌<◌, ◌≡◌, refl, ap, ◌∙◌, sym, arith, List,
  [], ◌∷◌, ◌++◌, true, false, drop, length, length-append, ◌==◌, lt→ltb, u32, add32, sub32, pos,
  to_int, Mem, AreBytes, bytes, shift, overlay, overlay_at, overlay-Holds, Holds,
}
use lpctools.Machine.{World, Cmd, Rx, no_data, put_back}
use lpctools.Serial.Idle.{idle, serial_write-idle, serial_read-put_back, serial_read-no_data}
use lpctools.Text.{strtoul, print_u}
use lpctools.Text.Decimal.{print_u-length}
use lpctools.Uu.{uu_encode}
use lpctools.Uu.Encode.{encoded_size, length-uu_encode}
use lpctools.Block.{nb_blocks, remaining_blocksize, calc_checksum}
use lpctools.Block.Sizes.{block_data, remaining_blocksize-eq-encoded_size}
use lpctools.Block.Checksum.{sum, calc_checksum-eq-sum}
use lpctools.Command.{crlf}
use lpctools.Transfer.{
  Stored, data_block_ok, block_text, read_answer, read_block, after_first_read, after_reads,
  decode_block, lift_option, indeterminate,
}
use lpctools.Transfer.Delivers.{block_at}
use lpctools.Transfer.Blocks.{block_at-decodes, bytes-shift, inside_count}

-- The checksum that is computed from the data of a block that have been stored.
pub stored_checksum :
    (data_at old : Mem) (k n : ℕ)
    → calc_checksum (overlay (bytes data_at k n) old) (length (bytes data_at k n))
      ≡ calc_checksum (shift k data_at) n
stored_checksum data_at old k n =
    calc_checksum-eq-sum (overlay (bytes data_at k n) old) (length (bytes data_at k n))
    ∙ ap (λ (t : List ℕ). sum t % 2 ^ 32)
        (bytes-overlay (bytes data_at k n) old
          ∙ ap (λ q. bytes data_at q n) {y = k + 0} (omega arith)
          ∙ sym (bytes-shift k data_at 0 n))
    ∙ sym (calc_checksum-eq-sum (shift k data_at) n)

calc_checksum-small : (m : Mem) (n : ℕ) → calc_checksum m n < 2 ^ 32
calc_checksum-small m n = omega (arith, calc_checksum-eq-sum m n)

-- The acknowledgement has been sent, and the counter is reset.
abbrev pub acknowledged : World → World
acknowledged w = record w { resend_request_for_block = 0 }

to_int-small : (n : ℕ) → n < 2 ^ 31 → to_int n ≡ pos n
to_int-small n small = rw (lt→ltb n (2 ^ 31) small) refl

same-true : (n : ℕ) → (n == n) ≡ true
same-true n = ground arith

-- A round on a text that the device sends at once, with a pause behind it, up to its decoding.
pub read_block_text :
    (count i : ℕ) (received : Stored) (buf : Mem) (next : Mem → ℕ → Stored → Cmd Stored)
    (text : List ℕ) (w : World) (c : ℕ) (rx : List Rx) (sent : List ℕ)
    → length received.0 ≡ 900 * i
    → remaining_blocksize count (900 * i) ≤ 1260
    → length text ≤ 1272
    → remaining_blocksize count (900 * i) + 2 ≤ length text
    → (m : Mem) × Holds m 0 text
      × (read_block count i received buf next (idle w c (put_back text (no_data ∷ rx)) sent)
          ≡ decode_block (remaining_blocksize count (900 * i)) i received m next (idle w c rx sent))
unfolding read_block after_first_read after_reads
read_block_text count i received buf next text w c rx sent at below fits more =
    let blocksize = remaining_blocksize count (900 * i) in
    let m = overlay text (overlay_at (length text) [] buf) in
    let first =
      serial_read-put_back 1299 blocksize text w c (no_data ∷ rx) sent (omega arith) (omega arith)
        (omega arith) (omega arith) in
    let int = to_int-small (length text) (omega arith) in
    let some_read : (length text == 0) ≡ false = ground arith in
    let longer = lt→ltb blocksize (length text) (omega arith) in
    let room : sub32 1300 (length text) ≡ suc (1299 - length text) = omega arith in
    let second = serial_read-no_data (1299 - length text) w c rx sent (omega arith) in
    (m, overlay-Holds text _, rw (at, first, int, some_read, longer, room, second) refl)

module _ (data_at : Mem) (count : ℕ) (w : World) (are : AreBytes data_at)
    (small : count < 2 ^ 32) where
  block_sizes :
      (i : ℕ)
      → i < nb_blocks count
      → (900 * i ≤ count)
        × (remaining_blocksize count (900 * i)
            ≡ length (uu_encode (shift (900 * i) data_at) (block_data count (900 * i))))
        × (remaining_blocksize count (900 * i) ≤ 1260)
        × (length (block_at data_at count i) ≤ 1272)
        × (remaining_blocksize count (900 * i) + 2 ≤ length (block_at data_at count i))
  unfolding block_text
  block_sizes i go =
      let n = block_data count (900 * i) in
      let src = shift (900 * i) data_at in
      let enc = uu_encode src n in
      let digits = print_u (calc_checksum src n) in
      let inside = inside_count count i go in
      let size = remaining_blocksize-eq-encoded_size count (900 * i) inside small in
      let l1 = length-append enc (digits ++ crlf) in
      let l2 = length-append digits crlf in
      let l3 = print_u-length (calc_checksum src n) in
      let le : encoded_size n ≤ 1260 = ground arith in
      (
        inside,
        omega (arith, size, length-uu_encode src n),
        omega (arith, size, le),
        omega (arith, l1, l2, l3, length-uu_encode src n),
        omega (arith, size, l1, l2, length-uu_encode src n),
      )

  -- A block that has been received as it was sent.
  decode_block_good :
      (i : ℕ) (received : Stored) (m : Mem) (next : Mem → ℕ → Stored → Cmd Stored) (c : ℕ)
      (rx : List Rx) (sent : List ℕ)
      → i < nb_blocks count
      → Holds m 0 (block_at data_at count i)
      → decode_block (remaining_blocksize count (900 * i)) i received m next (idle w c rx sent)
        ≡ next m
            (add32 i 1)
            (
              received.0 ++ bytes data_at (900 * i) (block_data count (900 * i)),
              drop (length (bytes data_at (900 * i) (block_data count (900 * i)))) received.1,
            )
            (idle (acknowledged w) c rx (sent ++ data_block_ok))
  unfolding decode_block read_answer lift_option indeterminate block_text
  decode_block_good i received m next c rx sent go holds =
      let n = block_data count (900 * i) in
      let src = shift (900 * i) data_at in
      let (inside, size, below, fits, more) = block_sizes i go in
      let decoded = (block_at-decodes data_at m count i are small go holds).0 in
      let blocksize = remaining_blocksize count (900 * i) in
      let announced : u32 (strtoul (bytes m blocksize (1300 - blocksize)) 10).value
          ≡ calc_checksum src n =
        rw size (
          strtoul-Holds m (uu_encode src n) (calc_checksum src n) (1300 - length (uu_encode src n))
            (calc_checksum-small src n) holds (omega arith)) in
      rw
        (
          decoded,
          announced,
          stored_checksum data_at w.junk (900 * i) n,
          same-true (calc_checksum src n),
          serial_write-idle data_block_ok (acknowledged w) c rx sent,
        )
        refl

  -- A round on a block that the device sends at once.
  pub read_block_good :
      (i : ℕ) (received : Stored) (buf : Mem) (next : Mem → ℕ → Stored → Cmd Stored) (c : ℕ)
      (rx : List Rx) (sent : List ℕ)
      → i < nb_blocks count
      → length received.0 ≡ 900 * i
      → (m : Mem) × (read_block count i received buf next
            (idle w c (put_back (block_at data_at count i) (no_data ∷ rx)) sent)
          ≡ next m
              (add32 i 1)
              (
                received.0 ++ bytes data_at (900 * i) (block_data count (900 * i)),
                drop (length (bytes data_at (900 * i) (block_data count (900 * i)))) received.1,
              )
              (idle (acknowledged w) c rx (sent ++ data_block_ok)))
  read_block_good i received buf next c rx sent go at =
      let text = block_at data_at count i in
      let (inside, size, below, fits, more) = block_sizes i go in
      let (m, holds, e) =
        read_block_text count i received buf next text w c rx sent at below fits more in
      (m, e ∙ decode_block_good i received m next c rx sent go holds)
