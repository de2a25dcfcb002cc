-- ===== src/Transfer/Recovers.antt =====
-- What isp_read_memory receives on an idle line from a device that sends each block with a pause behind it,
-- some of them garbled at first.
use mathlib.Core.List.{append-nil, append_assoc}
use lpctools.Base.{
  ℕ, zero, suc, ◌+◌, ◌-◌, ◌*◌, ◌^◌, ◌≤◌, ◌<◌, ◌≡◌, refl, ap, ◌∙◌, arith, List, [], ◌∷◌, ◌++◌, drop,
  false, length, length-bytes, ltb, ◌==◌, lt→ltb, add32, to_int, Mem, AreBytes, bytes,
}
use lpctools.Machine.{World, Run, done, Rx, no_data, put_back}
use lpctools.Serial.Idle.{idle}
use lpctools.Block.{nb_blocks}
use lpctools.Block.Sizes.{block_data, nb_blocks_least}
use lpctools.Command.{two_args_text}
use lpctools.Command.Replies.{digit_reply, send_cmd_two_args_digit}
use lpctools.Transfer.{
  Stored, data_block_ok, data_block_resend, read_blocks, read_memory, indeterminate,
}
use lpctools.Transfer.Delivers.{block_at, times}
use lpctools.Transfer.GoodBlock.{acknowledged, read_block_good}
use lpctools.Transfer.BadBlock.{Garbled}
use lpctools.Transfer.Blocks.{data_of_blocks, data_of_blocks_all}
use lpctools.Transfer.Receives.{blocks_small, length-data_of_blocks}
use lpctools.Transfer.Retries.{
  garbled_sends, AreBad, asks, rounds, rounds-length, acknowledged-asks, read_blocks_bad,
}

-- The device sends `left` blocks from `i` on, block k after the garbled sendings `bad k` of it.
abbrev pub sends_at_last : (ℕ → List Garbled) → Mem → ℕ → ℕ → ℕ → List Rx → List Rx
sends_at_last bad data_at count i zero rx = rx
sends_at_last bad data_at count i (suc left) rx = garbled_sends count i (bad i) (
    put_back (block_at data_at count i) (no_data ∷ sends_at_last bad data_at count (suc i) left rx))

-- A request for each garbled sending, and an acknowledgement, for `left` blocks from `i` on.
abbrev pub answers : (ℕ → List Garbled) → ℕ → ℕ → List ℕ
answers bad i zero = []
answers bad i (suc left) =
    times (length (bad i)) data_block_resend ++ (data_block_ok ++ answers bad (suc i) left)

drop_fitting : (n : ℕ) (xs : List ℕ) → length xs ≤ n → drop n xs ≡ []
drop_fitting zero [] h = refl
drop_fitting zero (x ∷ xs) h = absurd (omega arith)
drop_fitting (suc n) [] h = refl
drop_fitting (suc n) (x ∷ xs) h = drop_fitting n xs (omega arith)

module _ (count : ℕ) (small : count < 2 ^ 32) (data_at : Mem) (bad : ℕ → List Garbled)
    (are : AreBytes data_at) (all_bad : (i : ℕ) → AreBad count i (bad i)) where
  -- The rounds of a block, and those behind them.
  read_blocks_block :
      (fuel i : ℕ) (buf : Mem) (w : World) (c : ℕ) (rx : List Rx) (sent : List ℕ) (r : Run Stored)
      → i < nb_blocks count
      → w.resend_request_for_block + length (bad i) ≤ 3
      → ((m : Mem)
          → read_blocks fuel count
              (nb_blocks count)
              m
              (suc i)
              (data_of_blocks data_at count (suc i), [])
              (idle
                (acknowledged w)
                c
                rx
                ((sent ++ times (length (bad i)) data_block_resend) ++ data_block_ok))
            ≡ r)
      → read_blocks
          (rounds (bad i) (suc fuel))
          count
          (nb_blocks count)
          buf
          i
          (data_of_blocks data_at count i, [])
          (idle w c
            (garbled_sends count i (bad i) (put_back (block_at data_at count i) (no_data ∷ rx)))
            sent)
        ≡ r
  unfolding read_blocks
  read_blocks_block fuel i buf w c rx sent r go few rest =
      let at = length-data_of_blocks data_at count are small i go in
      let next : add32 i 1 ≡ suc i = ground (arith, blocks_small count small) in
      read_blocks_bad count small (bad i) (suc fuel) i (data_of_blocks data_at count i) [] buf w c
        (put_back (block_at data_at count i) (no_data ∷ rx)) sent r go at (omega arith) (all_bad i)
        few
        λ m left fits.
          let asking = asks (length (bad i)) w in
          let ending : Mem → World → Run Stored = λ m' v.
            read_blocks fuel count (nb_blocks count) m' (suc i)
              (data_of_blocks data_at count (suc i), [])
              (idle v c rx ((sent ++ times (length (bad i)) data_block_resend) ++ data_block_ok)) in
          let (m', e) =
            read_block_good data_at count asking are small i (data_of_blocks data_at count i, left)
              m (read_blocks fuel count (nb_blocks count)) c rx
              (sent ++ times (length (bad i)) data_block_resend) go at in
          rw (lt→ltb i (nb_blocks count) go) (
            e
            ∙ rw
                (
                  next,
                  drop_fitting (length (bytes data_at (900 * i) (block_data count (900 * i)))) left
                      (omega
                        (arith, fits, length-bytes data_at (900 * i) (block_data count (900 * i)))),
                )
                (ap (ending m') (acknowledged-asks (length (bad i)) w) ∙ rest m'))

  -- The same for any fuel that is enough for `left` blocks and this one.
  read_blocks_step :
      (left fuel i : ℕ) (buf : Mem) (w : World) (c : ℕ) (rx : List Rx) (sent : List ℕ)
      → suc i + left ≡ nb_blocks count
      → 4 * left + 4 < fuel
      → length (bad i) ≤ 3
      → w.resend_request_for_block ≡ 0
      → ((f : ℕ) (m : Mem) (s : List ℕ)
          → 4 * left < f
          → read_blocks f count
              (nb_blocks count)
              m
              (suc i)
              (data_of_blocks data_at count (suc i), [])
              (idle (acknowledged w) c (sends_at_last bad data_at count (suc i) left rx) s)
            ≡ done
                (bytes data_at 0 count, [])
                (idle (acknowledged w) c rx (s ++ answers bad (suc i) left)))
      → read_blocks fuel count
          (nb_blocks count)
          buf
          i
          (data_of_blocks data_at count i, [])
          (idle w c (sends_at_last bad data_at count i (suc left) rx) sent)
        ≡ done
            (bytes data_at 0 count, [])
            (idle (acknowledged w) c rx (sent ++ answers bad i (suc left)))
  read_blocks_step left fuel i buf w c rx sent all enough few fresh rest =
      let f = fuel - (length (bad i) + 1) in
      let enough_rounds : fuel ≡ rounds (bad i) (suc f) =
        omega (arith, rounds-length (bad i) (suc f)) in
      let before = sent ++ times (length (bad i)) data_block_resend in
      rw enough_rounds (
        read_blocks_block f i buf w c (sends_at_last bad data_at count (suc i) left rx) sent _
          (omega arith) (omega (arith, fresh))
          λ m.
            rest f m (before ++ data_block_ok) (omega arith) ∙ rw (append_assoc, append_assoc) refl)

  read_blocks_rest :
      (left fuel i : ℕ) (buf : Mem) (w : World) (c : ℕ) (rx : List Rx) (sent : List ℕ)
      → i + left ≡ nb_blocks count
      → 4 * left < fuel
      → ((k : ℕ) → length (bad k) ≤ 3)
      → read_blocks fuel count
          (nb_blocks count)
          buf
          i
          (data_of_blocks data_at count i, [])
          (idle (acknowledged w) c (sends_at_last bad data_at count i left rx) sent)
        ≡ done (bytes data_at 0 count, []) (idle (acknowledged w) c rx (sent ++ answers bad i left))
  unfolding read_blocks
  read_blocks_rest left zero i buf w c rx sent all enough few = absurd (omega arith)
  read_blocks_rest zero (suc fuel) i buf w c rx sent all enough few =
      let over : ltb i (nb_blocks count) ≡ false = ground arith in
      let last : i ≡ nb_blocks count = omega arith in
      rw (over, append-nil sent)
        (ap (λ k. done (data_of_blocks data_at count k, []) (idle (acknowledged w) c rx sent)) last
          ∙ rw (data_of_blocks_all data_at count) refl)
  read_blocks_rest (suc left) (suc fuel) i buf w c rx sent all enough few =
      read_blocks_step left (suc fuel) i buf (acknowledged w) c rx sent (omega arith) (omega arith)
        (few i) refl λ f m s more. read_blocks_rest left f (suc i) m w c rx s (omega arith) more few

  read_blocks_at_last :
      (n fuel : ℕ) (buf : Mem) (w : World) (c : ℕ) (rx : List Rx) (sent : List ℕ)
      → 0 < n
      → n ≡ nb_blocks count
      → 4 * n < fuel
      → ((k : ℕ) → length (bad k) ≤ 3)
      → w.resend_request_for_block ≡ 0
      → read_blocks fuel count
          (nb_blocks count)
          buf
          0
          ([], [])
          (idle w c (sends_at_last bad data_at count 0 n rx) sent)
        ≡ done (bytes data_at 0 count, []) (idle (acknowledged w) c rx (sent ++ answers bad 0 n))
  read_blocks_at_last zero fuel buf w c rx sent some_blocks all enough few fresh =
      absurd (omega arith)
  read_blocks_at_last (suc left) fuel buf w c rx sent some_blocks all enough few fresh =
      read_blocks_step left fuel 0 buf w c rx sent (omega arith) (omega arith) (few 0) fresh
        λ f m s more. read_blocks_rest left f 1 m w c rx s (omega arith) more few

-- On an idle line, with no resend request counted before and a device that accepts the request and
-- then sends the blocks, each at once and with a pause behind it, and block i only after garbled
-- sendings of it, at most three, whose data, uuencoded, do not have the checksum announced behind
-- them, isp_read_memory of at least one and fewer than 2 ^ 32 bytes, uuencoded, stores exactly the
-- device's bytes and returns their count; it has sent the request, and for each block a request to
-- send it again for each of its garbled sendings and then an acknowledgement.
pub read_memory_recovers :
    (data_at : Mem) (bad : ℕ → List Garbled) (addr count uuencoded : ℕ) (w : World) (c : ℕ)
    (rx : List Rx) (sent : List ℕ)
    → AreBytes data_at
    → 0 < count
    → count < 2 ^ 32
    → 0 < uuencoded
    → ((i : ℕ) → AreBad count i (bad i))
    → ((i : ℕ) → length (bad i) ≤ 3)
    → w.resend_request_for_block ≡ 0
    → read_memory addr count uuencoded
        (idle w c (digit_reply 0 ∷ sends_at_last bad data_at count 0 (nb_blocks count) rx) sent)
      ≡ done
          (to_int count, bytes data_at 0 count)
          (idle
            (acknowledged w)
            c
            rx
            ((sent ++ two_args_text b'R' addr count) ++ answers bad 0 (nb_blocks count)))
unfolding read_memory indeterminate
read_memory_recovers data_at bad addr count uuencoded w c rx sent are some_bytes small encoded
      all_bad few fresh =
    let request = two_args_text b'R' addr count in
    let n = nb_blocks count in
    let on : (uuencoded == 0) ≡ false = ground arith in
    let some_blocks : 0 < n = omega (arith, (nb_blocks_least count).0) in
    let accepted =
      send_cmd_two_args_digit b'R' addr count 0 w c (sends_at_last bad data_at count 0 n rx) sent
        (omega arith) in
    let received =
      read_blocks_at_last count small data_at bad are all_bad n (5 * n + 5) w.junk w c rx
        (sent ++ request) some_blocks refl (omega arith) few fresh in
    rw (accepted, on, received, length-bytes data_at 0 count, append-nil) refl
