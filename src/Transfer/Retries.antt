-- ===== src/Transfer/Retries.antt =====
-- The rounds of isp_read_memory on the garbled sendings of a block.
use mathlib.Core.List.{append-nil, append_assoc}
use lpctools.Base.{
  ℕ, zero, suc, ◌+◌, ◌*◌, ◌^◌, ◌≤◌, ◌<◌, ◌≡◌, refl, ap, ◌∙◌, sym, arith, List, [], ◌∷◌, ◌++◌, ◌-◌,
  drop, bytes, length-bytes, length-append, length, lt→ltb, add32, sub32, Mem,
}
use lpctools.Machine.{World, Run, Rx, no_data, put_back}
use lpctools.Serial.Idle.{idle}
use lpctools.Block.{nb_blocks}
use lpctools.Block.Sizes.{block_data}
use lpctools.Transfer.{Stored, decoded_over, data_block_resend, read_blocks}
use lpctools.Transfer.Delivers.{times}
use lpctools.Transfer.GoodBlock.{acknowledged}
use lpctools.Transfer.BadBlock.{Garbled, garbled_text, IsBad, kept, asked, read_block_bad}
use lpctools.Transfer.Receives.{blocks_small}

-- Garbled sendings of block i, each with a pause behind it.
abbrev pub garbled_sends : ℕ → ℕ → List Garbled → List Rx → List Rx
garbled_sends count i [] rx = rx
garbled_sends count i (g ∷ gs) rx =
    put_back (garbled_text count i g) (no_data ∷ garbled_sends count i gs rx)

abbrev pub AreBad : ℕ → ℕ → List Garbled → Type 0
AreBad count i [] = Unit
AreBad count i (g ∷ gs) = IsBad count i g × AreBad count i gs

-- The state after `n` requests, and the fuel before the rounds of the garbled sendings.
pub asks : ℕ → World → World
asks zero w = w
asks (suc n) w = asks n (asked w)

pub rounds : List Garbled → ℕ → ℕ
rounds [] fuel = fuel
rounds (g ∷ gs) fuel = suc (rounds gs fuel)

pub rounds-length : (gs : List Garbled) (fuel : ℕ) → rounds gs fuel ≡ length gs + fuel
unfolding rounds
rounds-length [] fuel = omega arith
rounds-length (g ∷ gs) fuel = omega (arith, rounds-length gs fuel)

pub acknowledged-asks : (n : ℕ) (w : World) → acknowledged (asks n w) ≡ acknowledged w
unfolding asks
acknowledged-asks zero w = refl
acknowledged-asks (suc n) w = acknowledged-asks n (asked w)

drop-length : (n : ℕ) (xs : List ℕ) → length (drop n xs) ≡ length xs - n
drop-length zero xs = omega arith
drop-length (suc n) [] = omega arith
drop-length (suc n) (x ∷ xs) = omega (arith, drop-length n xs)

-- What garbled blocks leave behind the received data is not longer than the block.
decoded_over-fits :
    (m : Mem) (n : ℕ) (behind : List ℕ)
    → length behind ≤ n
    → length (decoded_over (bytes m 0 n) behind) ≤ n
decoded_over-fits m n behind fits = omega (
  arith,
  length-bytes m 0 n,
  length-append (bytes m 0 n) (drop (length (bytes m 0 n)) behind),
  drop-length (length (bytes m 0 n)) behind,
)

module _ (count : ℕ) (small : count < 2 ^ 32) where
  -- The rounds of the garbled sendings of a block.
  pub read_blocks_bad :
      (gs : List Garbled) (fuel i : ℕ) (received behind : List ℕ) (buf : Mem) (w : World) (c : ℕ)
      (rx : List Rx) (sent : List ℕ) (r : Run Stored)
      → i < nb_blocks count
      → length received ≡ 900 * i
      → length behind ≤ block_data count (900 * i)
      → AreBad count i gs
      → w.resend_request_for_block + length gs ≤ 3
      → ((m : Mem) (left : List ℕ)
          → length left ≤ block_data count (900 * i)
          → read_blocks fuel count
              (nb_blocks count)
              m
              i
              (received, left)
              (idle (asks (length gs) w) c rx (sent ++ times (length gs) data_block_resend))
            ≡ r)
      → read_blocks
          (rounds gs fuel)
          count
          (nb_blocks count)
          buf
          i
          (received, behind)
          (idle w c (garbled_sends count i gs rx) sent)
        ≡ r
  unfolding read_blocks asks rounds
  read_blocks_bad [] fuel i received behind buf w c rx sent r go at fits bad few rest =
      ap
        (λ (s : List ℕ).
          read_blocks fuel count (nb_blocks count) buf i (received, behind) (idle w c rx s))
        (sym (append-nil sent))
      ∙ rest buf behind fits
  read_blocks_bad (g ∷ gs) fuel i received behind buf w c rx sent r go at fits bad few rest =
      let (m, e) =
        read_block_bad count i g w small go bad.0 (received, behind) buf
          (read_blocks (rounds gs fuel) count (nb_blocks count)) c (garbled_sends count i gs rx)
          sent (omega arith) at in
      let again : add32 (sub32 i 1) 1 ≡ i = ground (arith, blocks_small count small) in
      rw (lt→ltb i (nb_blocks count) go) (
        e
        ∙ rw again (
            read_blocks_bad gs fuel i received (kept count i g (received, behind)).1 m (asked w) c
              rx (sent ++ data_block_resend) r go at
              (decoded_over-fits g.content (block_data count (900 * i)) behind fits) bad.1
              (omega arith) λ m' left fits'. rw append_assoc (rest m' left fits')))
