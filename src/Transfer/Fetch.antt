-- ===== src/Transfer/Fetch.antt =====
-- The termination of isp_read_memory, by the counter of resend requests.
use lpctools.Base.{
  ℕ, zero, suc, ◌+◌, ◌-◌, ◌*◌, ◌^◌, ◌≤◌, ◌<◌, arith, List, [], length, ltb, ◌==◌, inl, inr,
  Bool-cases, ltb→lt, sub32, ℤ, pos, to_int, to_unsigned, ◌+ℤ◌, eq_ℤ, is_neg, is_nonpos, is_zero,
  Mem,
}
use lpctools.Machine.{World, Cmd}
use lpctools.Serial.{serial_write, serial_read}
use lpctools.Serial.Terminates.{serial_read-Steady}
use lpctools.Serial.Writing.{serial_write-Steady}
use lpctools.Uu.Corrupt.{uu_decode_ends}
use lpctools.Block.{nb_blocks, remaining_blocksize}
use lpctools.Command.{send_cmd_two_args, serial_bufsize}
use lpctools.Command.Steady.{send_cmd_two_args-Steady}
use lpctools.Transfer.{
  Stored, data_block_ok, data_block_resend, read_answer, read_block, after_first_read, after_reads,
  decode_block, read_blocks, read_raw, read_memory, indeterminate, lift_option,
}
use lpctools.Transfer.Steady.{Returns, Returns-bind, Steady-then, nb_blocks_small}

remaining_blocksize-le : (count sent : ℕ) → remaining_blocksize count sent ≤ 1260
unfolding remaining_blocksize
remaining_blocksize-le count sent = ground arith

module _ (count blocks : ℕ) (small : blocks < 2 ^ 32) where
  -- The rounds that are left.
  abbrev Left : ℕ → ℕ → World → Type 0
  Left fuel i w = ((blocks - i) * 5 + (4 - w.resend_request_for_block) < fuel) × (i ≤ blocks)

  read_answer-Returns :
      (fuel i computed announced : ℕ) (received : Stored) (decoded : List ℕ)
      (next : ℕ → Stored → Cmd Stored) (w : World)
      → Left (suc fuel) i w
      → i < blocks
      → ((j : ℕ) (xs : Stored) (w' : World) → Left fuel j w' → Returns (next j xs w'))
      → Returns (read_answer i computed announced received decoded next w)
  unfolding read_answer
  read_answer-Returns fuel i computed announced received decoded next w left go ends =
      elim (Bool-cases (computed == announced)) [
        | inl agree ↦ rw agree (
            Steady-then (serial_write data_block_ok) _ (record w { resend_request_for_block = 0 })
              (serial_write-Steady data_block_ok)
              λ nb w' f. elim (Bool-cases (eq_ℤ nb (pos 4))) [
                | inr short ↦ rw short tt
                | inl sent ↦ rw sent (ends _ _ w' (ground (arith, f.request)))
              ])
        | inr differ ↦ elim (Bool-cases (ltb 3 (w.resend_request_for_block + 1))) [
          | inl over ↦ rw (differ, over) tt
          | inr again ↦
              rw (differ, again)
                (Steady-then (serial_write data_block_resend) _
                  (record w { resend_request_for_block = w.resend_request_for_block + 1 })
                  (serial_write-Steady data_block_resend)
                  λ nb w' f. elim (Bool-cases (eq_ℤ nb (pos 8))) [
                    | inr short ↦ rw short tt
                    | inl sent ↦ rw sent (ends _ _ w' (ground (arith, f.request)))
                  ])
        ]
      ]

  decode_block-Returns :
      (fuel blocksize i : ℕ) (received : Stored) (buf : Mem) (next : Mem → ℕ → Stored → Cmd Stored)
      (w : World)
      → blocksize ≤ 1260
      → Left (suc fuel) i w
      → i < blocks
      → ((m : Mem) (j : ℕ) (xs : Stored) (w' : World) → Left fuel j w' → Returns (next m j xs w'))
      → Returns (decode_block blocksize i received buf next w)
  unfolding decode_block lift_option indeterminate
  decode_block-Returns fuel blocksize i received buf next w size left go ends =
      let (decoded, e) = uu_decode_ends buf blocksize (omega arith) in
      rw e (read_answer-Returns fuel i _ _ received decoded (next buf) w left go (ends buf))

  after_reads-Returns :
      (fuel blocksize i : ℕ) (received : Stored) (buf : Mem) (next : Mem → ℕ → Stored → Cmd Stored)
      (first second : ℤ × List ℕ) (w : World)
      → blocksize ≤ 1260
      → Left (suc fuel) i w
      → i < blocks
      → ((m : Mem) (j : ℕ) (xs : Stored) (w' : World) → Left fuel j w' → Returns (next m j xs w'))
      → Returns (after_reads blocksize i received buf next first second w)
  unfolding after_reads
  after_reads-Returns fuel blocksize i received buf next first second w size left go ends =
      elim (Bool-cases (is_neg (first.0 +ℤ second.0))) [
        | inl failed ↦ rw failed tt
        | inr fine ↦
            rw fine (decode_block-Returns fuel blocksize i received _ next w size left go ends)
      ]

  after_first_read-Returns :
      (fuel blocksize i : ℕ) (received : Stored) (buf : Mem) (next : Mem → ℕ → Stored → Cmd Stored)
      (first : ℤ × List ℕ) (w : World)
      → blocksize ≤ 1260
      → Left (suc fuel) i w
      → i < blocks
      → ((m : Mem) (j : ℕ) (xs : Stored) (w' : World) → Left fuel j w' → Returns (next m j xs w'))
      → Returns (after_first_read blocksize i received buf next first w)
  unfolding after_first_read
  after_first_read-Returns fuel blocksize i received buf next first w size left go ends =
      elim (Bool-cases (is_nonpos first.0)) [
        | inl nothing ↦ rw nothing tt
        | inr bytes_read ↦ rw bytes_read (
            Steady-then (serial_read _ _) (after_reads blocksize i received buf next first) w
              (serial_read-Steady _ _)
              λ second w' f.
                after_reads-Returns fuel blocksize i received buf next first second w' size
                  (omega (arith, f.request)) go ends)
      ]

  read_block-Returns :
      (fuel i : ℕ) (received : Stored) (buf : Mem) (next : Mem → ℕ → Stored → Cmd Stored)
      (w : World)
      → Left (suc fuel) i w
      → i < blocks
      → ((m : Mem) (j : ℕ) (xs : Stored) (w' : World) → Left fuel j w' → Returns (next m j xs w'))
      → Returns (read_block count i received buf next w)
  unfolding read_block
  read_block-Returns fuel i received buf next w left go ends =
      let blocksize = remaining_blocksize count (length received.0) in
      Steady-then (serial_read serial_bufsize blocksize)
        (after_first_read blocksize i received buf next) w
        (serial_read-Steady serial_bufsize blocksize)
        λ first w' f.
          after_first_read-Returns fuel blocksize i received buf next first w'
            (remaining_blocksize-le count (length received.0)) (omega (arith, f.request)) go ends

  read_blocks-Returns :
      (fuel i : ℕ) (buf : Mem) (received : Stored) (w : World)
      → Left fuel i w
      → Returns (read_blocks fuel count blocks buf i received w)
  unfolding read_blocks
  read_blocks-Returns zero i buf received w left = absurd (omega arith)
  read_blocks-Returns (suc fuel) i buf received w left = elim (Bool-cases (ltb i blocks)) [
    | inr over ↦ rw over tt
    | inl go ↦ rw go (
        read_block-Returns fuel i received buf (read_blocks fuel count blocks) w left
          (ltb→lt i blocks go) (λ m j xs w' left'. read_blocks-Returns fuel j m xs w' left'))
  ]

read_raw-Returns : (count : ℕ) (w : World) → Returns (read_raw count w)
unfolding read_raw
read_raw-Returns count w =
    Steady-then (serial_read count count) _ w (serial_read-Steady count count) λ (len, xs) w1 f1.
      elim (Bool-cases (is_nonpos len)) [
        | inl nothing ↦ rw nothing tt
        | inr bytes_read ↦ elim (Bool-cases (eq_ℤ len (to_int count))) [
          | inl whole ↦ rw (bytes_read, whole) tt
          | inr part ↦
              let left = sub32 count (to_unsigned len) in
              rw (bytes_read, part)
                (Steady-then (serial_read left left) _ w1 (serial_read-Steady left left)
                  λ (len', ys) w2 f2. elim (Bool-cases (is_neg (len +ℤ len'))) [
                    | inl failed ↦ rw failed tt
                    | inr fine ↦ rw fine tt
                  ])
        ]
      ]

-- isp_read_memory of fewer than 2 ^ 32 bytes returns on every line, uuencoded or not, whatever the
-- resend requests counted before and whatever bytes the line hands over.
pub read_memory-Returns :
    (addr count uuencoded : ℕ) (w : World)
    → count < 2 ^ 32
    → Returns (read_memory addr count uuencoded w)
unfolding read_memory indeterminate
read_memory-Returns addr count uuencoded w small =
    Steady-then (send_cmd_two_args b'R' addr count) _ w (send_cmd_two_args-Steady b'R' addr count)
      λ ret w1 f1. elim (Bool-cases (is_zero ret)) [
        | inr refused ↦ rw refused tt
        | inl accepted ↦ elim (Bool-cases (uuencoded == 0)) [
          | inl raw ↦ rw (accepted, raw) (read_raw-Returns count w1)
          | inr encoded ↦
              rw (accepted, encoded)
                (Returns-bind
                  (read_blocks (5 * nb_blocks count + 5) count (nb_blocks count) w1.junk 0 ([], [])
                    w1)
                  _
                  (read_blocks-Returns count (nb_blocks count)
                    (omega (arith, nb_blocks_small count small)) (5 * nb_blocks count + 5) 0 w1.junk
                    ([], []) w1 (omega arith))
                  λ received w2. tt)
        ]
      ]
