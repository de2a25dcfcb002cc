-- ===== src/Transfer/Receives.antt =====
-- What isp_read_memory receives on an idle line from a device that sends each block at once, with a pause
-- behind it.
use Prim.Native.Nat.{min}
use mathlib.Core.List.{append-nil, append_assoc}
use lpctools.Base.{
  ℕ, zero, suc, ◌+◌, ◌*◌, ◌^◌, ◌<◌, ◌≡◌, refl, ap, ◌∙◌, arith, List, [], ◌∷◌, ◌++◌, false, drop,
  length, length-bytes, ltb, ◌==◌, lt→ltb, add32, to_int, Mem, AreBytes, bytes,
}
use lpctools.Machine.{World, Run, done, Rx, no_data, put_back}
use lpctools.Serial.Idle.{idle}
use lpctools.Block.{nb_blocks}
use lpctools.Block.Sizes.{block_data, nb_blocks_least}
use lpctools.Command.{two_args_text}
use lpctools.Command.Replies.{digit_reply, send_cmd_two_args_digit}
use lpctools.Transfer.{Stored, data_block_ok, read_blocks, read_memory, indeterminate}
use lpctools.Transfer.Delivers.{block_at}
use lpctools.Transfer.GoodBlock.{acknowledged, read_block_good}
use lpctools.Transfer.Blocks.{
  data_of_blocks, inside_count, data_of_blocks-bytes, data_of_blocks_all,
}

-- The device sends `left` blocks from `i` on, each with a pause behind it.
abbrev pub sends : Mem → ℕ → ℕ → ℕ → List Rx → List Rx
sends data_at count i zero rx = rx
sends data_at count i (suc left) rx =
    put_back (block_at data_at count i) (no_data ∷ sends data_at count (suc i) left rx)

drop_nil : (n : ℕ) → drop {A = ℕ} n [] ≡ []
drop_nil zero = refl
drop_nil (suc n) = refl

-- The acknowledgements of `n` blocks.
abbrev pub acknowledgements : ℕ → List ℕ
acknowledgements zero = []
acknowledgements (suc n) = data_block_ok ++ acknowledgements n

pub blocks_small : (count : ℕ) → count < 2 ^ 32 → nb_blocks count < 2 ^ 30
unfolding nb_blocks
blocks_small count small = ground arith

module _ (data_at : Mem) (count : ℕ) (are : AreBytes data_at) (small : count < 2 ^ 32) where
  pub length-data_of_blocks :
      (i : ℕ) → i < nb_blocks count → length (data_of_blocks data_at count i) ≡ 900 * i
  length-data_of_blocks i go = omega (
    arith,
    ap length (data_of_blocks-bytes data_at count i),
    length-bytes data_at 0 (min count (900 * i)),
    inside_count count i go,
  )

  -- One round and those behind it.
  read_blocks_next :
      (fuel i : ℕ) (buf : Mem) (w : World) (c : ℕ) (rx : List Rx) (sent : List ℕ) (r : Run Stored)
      → i < nb_blocks count
      → ((m : Mem)
          → read_blocks fuel count
              (nb_blocks count)
              m
              (suc i)
              (data_of_blocks data_at count (suc i), [])
              (idle (acknowledged w) c rx (sent ++ data_block_ok))
            ≡ r)
      → read_blocks
          (suc fuel)
          count
          (nb_blocks count)
          buf
          i
          (data_of_blocks data_at count i, [])
          (idle w c (put_back (block_at data_at count i) (no_data ∷ rx)) sent)
        ≡ r
  unfolding read_blocks
  read_blocks_next fuel i buf w c rx sent r go rest =
      let (m, e) =
        read_block_good data_at count w are small i (data_of_blocks data_at count i, []) buf
          (read_blocks fuel count (nb_blocks count)) c rx sent go (length-data_of_blocks i go) in
      let next : add32 i 1 ≡ suc i = ground (arith, blocks_small count small) in
      rw (lt→ltb i (nb_blocks count) go) (
        e
        ∙ rw (next, drop_nil (length (bytes data_at (900 * i) (block_data count (900 * i)))))
            (rest m))

  read_blocks_good :
      (left fuel i : ℕ) (buf : Mem) (w : World) (c : ℕ) (rx : List Rx) (sent : List ℕ)
      → i + left ≡ nb_blocks count
      → left < fuel
      → read_blocks fuel count
          (nb_blocks count)
          buf
          i
          (data_of_blocks data_at count i, [])
          (idle (acknowledged w) c (sends data_at count i left rx) sent)
        ≡ done
            (bytes data_at 0 count, [])
            (idle (acknowledged w) c rx (sent ++ acknowledgements left))
  unfolding read_blocks
  read_blocks_good left zero i buf w c rx sent all enough = absurd (omega arith)
  read_blocks_good zero (suc fuel) i buf w c rx sent all enough =
      let over : ltb i (nb_blocks count) ≡ false = ground arith in
      let last : i ≡ nb_blocks count = omega arith in
      rw (over, append-nil sent)
        (ap (λ k. done (data_of_blocks data_at count k, []) (idle (acknowledged w) c rx sent)) last
          ∙ rw (data_of_blocks_all data_at count) refl)
  read_blocks_good (suc left) (suc fuel) i buf w c rx sent all enough =
      read_blocks_next fuel i buf (acknowledged w) c (sends data_at count (suc i) left rx) sent _
        (omega arith)
        λ m.
          read_blocks_good left fuel (suc i) m w c rx (sent ++ data_block_ok) (omega arith)
            (omega arith)
          ∙ rw append_assoc refl

  read_blocks_all :
      (n fuel : ℕ) (buf : Mem) (w : World) (c : ℕ) (rx : List Rx) (sent : List ℕ)
      → 0 < n
      → n ≡ nb_blocks count
      → n < fuel
      → read_blocks fuel count
          (nb_blocks count)
          buf
          0
          ([], [])
          (idle w c (sends data_at count 0 n rx) sent)
        ≡ done (bytes data_at 0 count, []) (idle (acknowledged w) c rx (sent ++ acknowledgements n))
  read_blocks_all zero fuel buf w c rx sent some_blocks all enough = absurd (omega arith)
  read_blocks_all (suc left) zero buf w c rx sent some_blocks all enough = absurd (omega arith)
  read_blocks_all (suc left) (suc fuel) buf w c rx sent some_blocks all enough =
      read_blocks_next fuel 0 buf w c (sends data_at count 1 left rx) sent _ (omega arith) λ m.
        read_blocks_good left fuel 1 m w c rx (sent ++ data_block_ok) (omega arith) (omega arith)
        ∙ rw append_assoc refl

-- On an idle line, with a device that accepts the request and then sends the blocks, each at once and
-- with a pause behind it, isp_read_memory of at least one and fewer than 2 ^ 32 bytes, uuencoded,
-- stores exactly the device's bytes and returns their count; it has sent the request and an
-- acknowledgement for each block.
pub read_memory_receives :
    (data_at : Mem) (addr count uuencoded : ℕ) (w : World) (c : ℕ) (rx : List Rx) (sent : List ℕ)
    → AreBytes data_at
    → 0 < count
    → count < 2 ^ 32
    → 0 < uuencoded
    → read_memory addr count uuencoded
        (idle w c (digit_reply 0 ∷ sends data_at count 0 (nb_blocks count) rx) sent)
      ≡ done
          (to_int count, bytes data_at 0 count)
          (idle
            (acknowledged w)
            c
            rx
            ((sent ++ two_args_text b'R' addr count) ++ acknowledgements (nb_blocks count)))
unfolding read_memory indeterminate
read_memory_receives data_at addr count uuencoded w c rx sent are some_bytes small encoded =
    let request = two_args_text b'R' addr count in
    let n = nb_blocks count in
    let on : (uuencoded == 0) ≡ false = ground arith in
    let some_blocks : 0 < n = omega (arith, (nb_blocks_least count).0) in
    let accepted =
      send_cmd_two_args_digit b'R' addr count 0 w c (sends data_at count 0 n rx) sent
        (omega arith) in
    let received =
      read_blocks_all data_at count are small n (5 * n + 5) w.junk w c rx (sent ++ request)
        some_blocks refl (omega arith) in
    rw (accepted, on, received, length-bytes data_at 0 count, append-nil) refl
