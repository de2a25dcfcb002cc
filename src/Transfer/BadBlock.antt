-- ===== src/Transfer/BadBlock.antt =====
-- A round of isp_read_memory on a block whose data or checksum were garbled.
use lpctools.Base.{
  ℕ, ◌+◌, ◌-◌, ◌*◌, ◌%◌, ◌^◌, ◌≤◌, ◌<◌, ◌≡◌, ◌≢◌, refl, ap, ◌∙◌, sym, arith, List, ◌∷◌, ◌++◌, false,
  length, length-append, ltb, ◌==◌, u32, add32, sub32, Mem, AreBytes, bytes, shift, overlay, Holds,
  Holds-append,
}
use lpctools.Machine.{World, Cmd, Rx, no_data, put_back}
use lpctools.Serial.Idle.{idle, serial_write-idle}
use lpctools.Text.{strtoul, print_u}
use lpctools.Text.Decimal.{print_u-length}
use lpctools.Uu.{uu_encode}
use lpctools.Uu.Encode.{encoded_size, length-uu_encode}
use lpctools.Uu.RoundTrip.{uu_decode-uu_encode}
use lpctools.Block.{nb_blocks, remaining_blocksize, calc_checksum}
use lpctools.Block.Sizes.{block_data, remaining_blocksize-eq-encoded_size}
use lpctools.Command.{crlf}
use lpctools.Command.Printed.{strtoul-Holds}
use lpctools.Transfer.{
  Stored, decoded_over, data_block_resend, read_answer, read_block, decode_block, lift_option,
  indeterminate,
}
use lpctools.Transfer.Blocks.{bytes-shift, inside_count}
use lpctools.Block.Checksum.{sum, calc_checksum-eq-sum}
use lpctools.Transfer.GoodBlock.{stored_checksum, read_block_text}

-- What a device may send in place of block i: the data that arrive, and the number behind them.
pub record Garbled : Type 0 where
  pub content : Mem
  pub number : ℕ

abbrev pub garbled_text : ℕ → ℕ → Garbled → List ℕ
garbled_text count i g =
    uu_encode g.content (block_data count (900 * i)) ++ (print_u g.number ++ crlf)

-- The number is not the checksum of the data.
pub record IsBad (count i : ℕ) (g : Garbled) : Type 0 where
  pub are : AreBytes g.content
  pub small : g.number < 2 ^ 32
  pub differs : calc_checksum g.content (block_data count (900 * i)) ≢ g.number

-- The garbled data are in place, but do not count as received.
abbrev pub kept : ℕ → ℕ → Garbled → Stored → Stored
kept count i g received =
    (received.0, decoded_over (bytes g.content 0 (block_data count (900 * i))) received.1)

-- One more resend has been asked for.
abbrev pub asked : World → World
asked w = record w { resend_request_for_block = w.resend_request_for_block + 1 }

calc_checksum-shift : (m : Mem) (n : ℕ) → calc_checksum (shift 0 m) n ≡ calc_checksum m n
calc_checksum-shift m n =
    calc_checksum-eq-sum (shift 0 m) n
    ∙ ap (λ (t : List ℕ). sum t % 2 ^ 32) (bytes-shift 0 m 0 n)
    ∙ sym (calc_checksum-eq-sum m n)

module _ (count i : ℕ) (g : Garbled) (w : World) (small : count < 2 ^ 32) (go : i < nb_blocks count)
    (bad : IsBad count i g) where
  garbled_sizes :
      (remaining_blocksize count (900 * i)
        ≡ length (uu_encode g.content (block_data count (900 * i))))
      × (remaining_blocksize count (900 * i) ≤ 1260)
      × (length (garbled_text count i g) ≤ 1272)
      × (remaining_blocksize count (900 * i) + 2 ≤ length (garbled_text count i g))
      × (encoded_size (block_data count (900 * i)) < 2 ^ 32)
  garbled_sizes =
      let n = block_data count (900 * i) in
      let enc = uu_encode g.content n in
      let digits = print_u g.number in
      let size =
        remaining_blocksize-eq-encoded_size count (900 * i) (inside_count count i go) small in
      let l1 = length-append enc (digits ++ crlf) in
      let l2 = length-append digits crlf in
      let l3 = print_u-length g.number in
      let l4 = length-uu_encode g.content n in
      let le : encoded_size n ≤ 1260 = ground arith in
      (
        omega (arith, size, l4),
        omega (arith, size, le),
        omega (arith, l1, l2, l3, l4),
        omega (arith, size, l1, l2, l4),
        omega arith,
      )

  decode_block_bad :
      (received : Stored) (m : Mem) (next : Mem → ℕ → Stored → Cmd Stored) (c : ℕ) (rx : List Rx)
      (sent : List ℕ)
      → w.resend_request_for_block < 3
      → Holds m 0 (garbled_text count i g)
      → decode_block (remaining_blocksize count (900 * i)) i received m next (idle w c rx sent)
        ≡ next m
            (add32 (sub32 i 1) 1)
            (kept count i g received)
            (idle (asked w) c rx (sent ++ data_block_resend))
  unfolding decode_block read_answer lift_option indeterminate
  decode_block_bad received m next c rx sent few holds =
      let n = block_data count (900 * i) in
      let enc = uu_encode g.content n in
      let (size, below, fits, more, encoded) = garbled_sizes in
      let decoded =
        uu_decode-uu_encode g.content m n bad.are encoded
          (Holds-append m 0 enc (print_u g.number ++ crlf) holds).0 in
      let announced : u32 (strtoul (bytes m (length enc) (1300 - length enc)) 10).value ≡ g.number =
        strtoul-Holds m enc g.number (1300 - length enc) bad.small holds (omega arith) in
      let computed : calc_checksum (overlay (bytes g.content 0 n) w.junk)
            (length (bytes g.content 0 n))
          ≡ calc_checksum g.content n =
        stored_checksum g.content w.junk 0 n ∙ calc_checksum-shift g.content n in
      let other : (calc_checksum g.content n == g.number) ≡ false = ground (arith, bad.differs) in
      let again : ltb 3 (w.resend_request_for_block + 1) ≡ false = ground arith in
      rw
        (
          size,
          decoded,
          announced,
          computed,
          other,
          again,
          serial_write-idle data_block_resend (asked w) c rx sent,
        )
        refl

  pub read_block_bad :
      (received : Stored) (buf : Mem) (next : Mem → ℕ → Stored → Cmd Stored) (c : ℕ) (rx : List Rx)
      (sent : List ℕ)
      → w.resend_request_for_block < 3
      → length received.0 ≡ 900 * i
      → (m : Mem) × (read_block count i received buf next
            (idle w c (put_back (garbled_text count i g) (no_data ∷ rx)) sent)
          ≡ next m
              (add32 (sub32 i 1) 1)
              (kept count i g received)
              (idle (asked w) c rx (sent ++ data_block_resend)))
  read_block_bad received buf next c rx sent few at =
      let (size, below, fits, more, encoded) = garbled_sizes in
      let (m, holds, e) =
        read_block_text count i received buf next (garbled_text count i g) w c rx sent at below fits
          more in
      (m, e ∙ decode_block_bad received m next c rx sent few holds)
