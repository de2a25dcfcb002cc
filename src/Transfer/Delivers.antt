-- ===== src/Transfer/Delivers.antt =====
-- What isp_send_buf_to_ram puts on an idle line for a device that refuses each block at most twice.
use mathlib.Core.List.{append-nil, append_assoc}
use lpctools.Base.{
  ℕ, zero, suc, ◌+◌, ◌-◌, ◌*◌, ◌^◌, ◌≤◌, ◌<◌, ◌≡◌, refl, ◌∙◌, arith, List, [], ◌∷◌, ◌++◌, false,
  length, ltb, leb, ◌==◌, u32, add32, pos, Mem, lt→ltb, All,
}
use lpctools.Machine.{World, done, Rx}
use lpctools.Serial.Idle.{idle}
use lpctools.Block.{nb_blocks}
use lpctools.Block.Sizes.{block_data}
use lpctools.Command.{two_args_text}
use lpctools.Command.Replies.{digit_reply, send_cmd_two_args_digit}
use lpctools.Transfer.{next_datasize, block_text, send_blocks, send_buf_to_ram}
use lpctools.Transfer.Send.{ok_reply, resend_reply, send_block_ok, send_block_resend}

-- The text of block `i`, with the data from offset 900 * i on.
abbrev pub block_at : Mem → ℕ → ℕ → List ℕ
block_at data_at count i = block_text data_at (900 * i) (block_data count (900 * i))

abbrev pub times : ℕ → List ℕ → List ℕ
times zero text = []
times (suc n) text = text ++ times n text

-- A device that refuses each block as often as the list says, and then accepts it.
abbrev pub refuse : ℕ → List Rx → List Rx
refuse zero rx = ok_reply ∷ rx
refuse (suc n) rx = resend_reply ∷ refuse n rx

abbrev pub replies : List ℕ → List Rx → List Rx
replies [] rx = rx
replies (r ∷ rs) rx = refuse r (replies rs rx)

-- The blocks from `i` on, each as often as it is refused, and once more.
abbrev pub blocks_from : Mem → ℕ → ℕ → List ℕ → List ℕ
blocks_from data_at count i [] = []
blocks_from data_at count i (r ∷ rs) =
    times (suc r) (block_at data_at count i) ++ blocks_from data_at count (i + 1) rs

module _ (data_at : Mem) (count blocks : ℕ) (w : World) (small : blocks < 2 ^ 32) where
  -- One block, with its refusals.
  send_blocks_refused :
      (r fuel i total c : ℕ) (rx : List Rx) (sent : List ℕ)
      → c + r ≤ 2
      → r < fuel
      → i < blocks
      → send_blocks fuel data_at count blocks i total (idle w c (refuse r rx) sent)
        ≡ send_blocks
            (fuel - suc r)
            data_at
            count
            blocks
            (i + 1)
            (add32 total (next_datasize count total))
            (idle w 0 rx
              (sent ++ times (suc r) (block_text data_at total (next_datasize count total))))
  unfolding send_blocks
  send_blocks_refused r zero i total c rx sent few enough go = absurd (omega arith)
  send_blocks_refused zero (suc fuel) i total c rx sent few enough go =
      let text = block_text data_at total (next_datasize count total) in
      let left : suc fuel - suc zero ≡ fuel = omega arith in
      let next : add32 i 1 ≡ i + 1 = omega arith in
      rw (lt→ltb i blocks go, left, append-nil text)
        (send_block_ok data_at count w i total c (send_blocks fuel data_at count blocks) rx sent
          ∙ rw next refl)
  send_blocks_refused (suc r) (suc fuel) i total c rx sent few enough go =
      let text = block_text data_at total (next_datasize count total) in
      let left : suc fuel - suc (suc r) ≡ fuel - suc r = omega arith in
      let again : leb 3 (c + 1) ≡ false = ground arith in
      rw (lt→ltb i blocks go, left, ← append_assoc sent text (times (suc r) text))
        (send_block_resend data_at count w i total c (send_blocks fuel data_at count blocks)
            (refuse r rx) sent (omega arith)
          ∙ rw again (
              send_blocks_refused r fuel i total (c + 1) rx (sent ++ text) (omega arith)
                (omega arith) go))

pub next_datasize-block_data :
    (count i : ℕ)
    → count < 2 ^ 32
    → i < nb_blocks count
    → next_datasize count (900 * i) ≡ block_data count (900 * i)
unfolding nb_blocks
next_datasize-block_data count i small go = ground arith

-- The next block begins behind a full one.
next_total :
    (count i : ℕ)
    → count < 2 ^ 32
    → i + 1 < nb_blocks count
    → add32 (900 * i) (block_data count (900 * i)) ≡ 900 * (i + 1)
unfolding nb_blocks
next_total count i small more = ground arith

pub nb_blocks_small : (count : ℕ) → count < 2 ^ 32 → nb_blocks count < 2 ^ 30
unfolding nb_blocks
nb_blocks_small count small = ground arith

module _ (data_at : Mem) (count : ℕ) (w : World) (small : count < 2 ^ 32) where
  send_blocks_delivers :
      (rs : List ℕ) (fuel i total : ℕ) (rx : List Rx) (sent : List ℕ)
      → All (λ r. r ≤ 2) rs
      → i + length rs ≡ nb_blocks count
      → 3 * length rs < fuel
      → (i < nb_blocks count → total ≡ 900 * i)
      → send_blocks fuel data_at count (nb_blocks count) i total (idle w 0 (replies rs rx) sent)
        ≡ done (pos 0) (idle w 0 rx (sent ++ blocks_from data_at count i rs))
  unfolding send_blocks
  send_blocks_delivers rs zero i total rx sent few all enough at = absurd (omega arith)
  send_blocks_delivers [] (suc fuel) i total rx sent few all enough at =
      let over : ltb i (nb_blocks count) ≡ false = ground arith in rw (over, append-nil sent) refl
  send_blocks_delivers (r ∷ rs) (suc fuel) i total rx sent (le, few) all enough at =
      let go : i < nb_blocks count = omega arith in
      let text = block_at data_at count i in
      let size : next_datasize count (900 * i) ≡ block_data count (900 * i) =
        next_datasize-block_data count i small go in
      rw (at go) (
        send_blocks_refused data_at count (nb_blocks count) w
          (omega (arith, nb_blocks_small count small)) r (suc fuel) i (900 * i) 0 (replies rs rx)
          sent (omega arith) (omega arith) go
        ∙ rw size (
            send_blocks_delivers rs (suc fuel - suc r) (i + 1)
              (add32 (900 * i) (block_data count (900 * i))) rx (sent ++ times (suc r) text) few
              (omega arith) (omega arith) (next_total count i small)
            ∙ rw append_assoc refl))

  -- On an idle line, with no resend request counted before and a device that accepts the request and
  -- refuses each of the blocks at most twice, isp_send_buf_to_ram of fewer than 2 ^ 32 bytes to a
  -- 32-bit address, uuencoded, returns 0; it has sent the request, and each block in order once more
  -- than it was refused, with the data from offset 900 * i on in block i, and has read all the
  -- replies.
  pub send_buf_to_ram_delivers :
      (addr uuencode : ℕ) (rs : List ℕ) (rx : List Rx) (sent : List ℕ)
      → addr < 2 ^ 32
      → 0 < uuencode
      → All (λ r. r ≤ 2) rs
      → length rs ≡ nb_blocks count
      → send_buf_to_ram data_at addr count uuencode (idle w 0 (digit_reply 0 ∷ replies rs rx) sent)
        ≡ done (pos 0) (
            idle w 0 rx (sent ++ (two_args_text b'W' addr count ++ blocks_from data_at count 0 rs)))
  unfolding send_buf_to_ram
  send_buf_to_ram_delivers addr uuencode rs rx sent fits encoded few all =
      let same : u32 addr ≡ addr = omega arith in
      let on : (uuencode == 0) ≡ false = ground arith in
      let request = two_args_text b'W' addr count in
      rw
        (same, send_cmd_two_args_digit b'W' addr count 0 w 0 (replies rs rx) sent (omega arith), on)
        (send_blocks_delivers rs (4 * nb_blocks count + 4) 0 0 rx (sent ++ request) few
            (omega arith) (omega arith) (λ _. refl)
          ∙ rw append_assoc refl)
