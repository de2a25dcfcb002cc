-- ===== src/Transfer/Refusals.antt =====
-- When isp_send_buf_to_ram gives a block up.
use mathlib.Core.List.{append-nil, append_assoc}
use lpctools.Base.{
  ℕ, zero, suc, ◌+◌, ◌*◌, ◌^◌, ◌≤◌, ◌<◌, ◌≡◌, refl, ap, ◌∙◌, arith, List, ◌∷◌, ◌++◌, ◌⊎◌, true,
  false, leb, ◌==◌, u32, negsuc, Mem, lt→ltb,
}
use lpctools.Machine.{World, done, Rx}
use lpctools.Serial.Idle.{idle}
use lpctools.Block.{nb_blocks}
use lpctools.Block.Sizes.{nb_blocks_least}
use lpctools.Command.{two_args_text}
use lpctools.Command.Replies.{digit_reply, send_cmd_two_args_digit}
use lpctools.Transfer.{next_datasize, block_text, send_blocks, send_buf_to_ram}
use lpctools.Transfer.Send.{resend_reply, send_block_resend}
use lpctools.Transfer.Delivers.{block_at, times, next_datasize-block_data, nb_blocks_small}

-- A device that only refuses.
abbrev pub only_refuse : ℕ → List Rx → List Rx
only_refuse zero rx = rx
only_refuse (suc n) rx = resend_reply ∷ only_refuse n rx

-- With `c` requests counted, the next `n` reach the third, or the first of them is beyond it.
abbrev pub ReachesThird : ℕ → ℕ → Type 0
ReachesThird c n = (0 < n) × (3 ≤ c + n) × ((c + n ≡ 3) ⊎ (n ≡ 1))

module _ (data_at : Mem) (count blocks : ℕ) (w : World) (small : blocks < 2 ^ 32) where
  send_blocks_gives_up :
      (n fuel i total c : ℕ) (rx : List Rx) (sent : List ℕ)
      → ReachesThird c n
      → n < fuel
      → i < blocks
      → send_blocks fuel data_at count blocks i total (idle w c (only_refuse n rx) sent)
        ≡ done (negsuc 1) (
            idle w
              (c + n)
              rx
              (sent ++ times n (block_text data_at total (next_datasize count total))))
  unfolding send_blocks
  send_blocks_gives_up zero fuel i total c rx sent reaches enough go = absurd (omega arith)
  send_blocks_gives_up (suc n) zero i total c rx sent reaches enough go = absurd (omega arith)
  send_blocks_gives_up (suc zero) (suc fuel) i total c rx sent reaches enough go =
      let text = block_text data_at total (next_datasize count total) in
      let over : leb 3 (c + 1) ≡ true = ground arith in
      rw (lt→ltb i blocks go, append-nil text)
        (send_block_resend data_at count w i total c (send_blocks fuel data_at count blocks) rx sent
            (omega arith)
          ∙ rw over refl)
  send_blocks_gives_up (suc (suc n)) (suc fuel) i total c rx sent reaches enough go =
      let text = block_text data_at total (next_datasize count total) in
      let again : leb 3 (c + 1) ≡ false = ground arith in
      let counted : c + suc (suc n) ≡ (c + 1) + suc n = omega arith in
      rw (lt→ltb i blocks go, counted, ← append_assoc sent text (times (suc n) text))
        (send_block_resend data_at count w i total c (send_blocks fuel data_at count blocks)
            (only_refuse (suc n) rx) sent (omega arith)
          ∙ rw again (
              send_blocks_gives_up (suc n) fuel i total (c + 1) rx (sent ++ text) (ground arith)
                (omega arith) go))

-- On an idle line, with c resend requests counted before and a device that accepts the request and
-- then only refuses, isp_send_buf_to_ram of at least one and fewer than 2 ^ 32 bytes to a 32-bit
-- address, uuencoded, gives the first block up and returns -2 at the refusal that brings the count to
-- three, or at the first refusal if the count was at three or more; the block has been sent once for
-- each refusal, and the count is kept.
pub send_buf_to_ram_gives_up :
    (data_at : Mem) (count addr uuencode c n : ℕ) (w : World) (rx : List Rx) (sent : List ℕ)
    → addr < 2 ^ 32
    → 0 < uuencode
    → 0 < count
    → count < 2 ^ 32
    → ReachesThird c n
    → send_buf_to_ram data_at addr count uuencode (idle w c (digit_reply 0 ∷ only_refuse n rx) sent)
      ≡ done (negsuc 1) (
          idle w
            (c + n)
            rx
            ((sent ++ two_args_text b'W' addr count) ++ times n (block_at data_at count 0)))
unfolding send_buf_to_ram
send_buf_to_ram_gives_up data_at count addr uuencode c n w rx sent fits encoded some small reaches =
    let same : u32 addr ≡ addr = omega arith in
    let on : (uuencode == 0) ≡ false = ground arith in
    let request = two_args_text b'W' addr count in
    let go : 0 < nb_blocks count = omega (arith, (nb_blocks_least count).0) in
    let few : nb_blocks count < 2 ^ 32 = omega (arith, nb_blocks_small count small) in
    let size = next_datasize-block_data count 0 small go in
    rw
      (
        same,
        send_cmd_two_args_digit b'W' addr count 0 w c (only_refuse n rx) sent (omega arith),
        on,
      )
      (send_blocks_gives_up data_at count (nb_blocks count) w few n (4 * nb_blocks count + 4) 0 0 c
          rx (sent ++ request) reaches (ground arith) go
        ∙ ap
            (λ k.
              done (negsuc 1)
                (idle w (c + n) rx ((sent ++ request) ++ times n (block_text data_at 0 k))))
            size)
