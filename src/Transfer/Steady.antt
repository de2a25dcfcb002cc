-- ===== src/Transfer/Steady.antt =====
-- The termination of isp_send_buf_to_ram, by the counter of resend requests.
use lpctools.Base.{
  ℕ, zero, suc, ◌+◌, ◌-◌, ◌*◌, ◌^◌, ◌≤◌, ◌<◌, arith, List, [], length, ltb, leb, ◌==◌, inl, inr,
  Bool-cases, ltb→lt, u32, ℤ, to_int, eq_ℤ, is_nonpos, is_zero, Mem, bytes,
}
use lpctools.Machine.{World, Run, done, out_of_fuel, Cmd, and_then, ◌>>=◌}
use lpctools.Machine.Steady.{Steady, Frame, Ensures}
use lpctools.Serial.{serial_write, serial_read}
use lpctools.Serial.Terminates.{serial_read-Steady}
use lpctools.Serial.Writing.{serial_write-Steady}
use lpctools.Text.{same_prefix}
use lpctools.Block.{nb_blocks}
use lpctools.Command.{send_cmd_two_args, buffer, rep_bufsize}
use lpctools.Command.Steady.{send_cmd_two_args-Steady, buffer-Steady}
use lpctools.Transfer.{
  data_block_ok, next_datasize, block_text, send_reply, send_block, send_blocks, send_buf_to_ram,
}

-- The run returned.
abbrev pub Returns {ℓ} : {A : Type ℓ} → Run A → Type 0
Returns r = Ensures (λ _ _. Unit {0}) r

-- A run that begins with a steady command goes on behind it, with the counters unchanged.
pub Steady-then {ℓ κ} :
    {A : Type ℓ} {B : Type κ} (m : Cmd A) (f : A → Cmd B) (w : World)
    → Steady m
    → ((a : A) (w' : World) → Frame w w' → Returns (f a w'))
    → Returns ((m >>= f) w)
Steady-then m f w em ef = let (a, w', e, frame) = em.at w in rw e (ef a w' frame)

pub Returns-bind {ℓ κ} :
    {A : Type ℓ} {B : Type κ} (r : Run A) (f : A → Cmd B)
    → Returns r
    → ((a : A) (w : World) → Returns (f a w))
    → Returns (and_then r f)
Returns-bind (done a w) f ends rest = rest a w
Returns-bind out_of_fuel f ends rest = absurd ends

module _ (data_at : Mem) (count blocks : ℕ) (small : blocks < 2 ^ 32) where
  -- The rounds that are left.
  abbrev Left : ℕ → ℕ → World → Type 0
  Left fuel i w = ((blocks - i) * 4 + (3 - w.resend_requested_for_block) < fuel) × (i ≤ blocks)

  send_reply-Returns :
      (fuel i total datasize : ℕ) (next : ℕ → ℕ → Cmd ℤ) (repbuf : List ℕ) (w : World)
      → Left (suc fuel) i w
      → i < blocks
      → ((j t : ℕ) (w' : World) → Left fuel j w' → Returns (next j t w'))
      → Returns (send_reply i total datasize next repbuf w)
  unfolding send_reply
  send_reply-Returns fuel i total datasize next repbuf w left go ends =
      elim (Bool-cases (same_prefix 4 data_block_ok repbuf)) [
        | inl ok ↦ rw ok (ends _ _ _ (ground arith))
        | inr bad ↦ elim (Bool-cases (leb 3 (w.resend_requested_for_block + 1))) [
          | inl over ↦ rw (bad, over) tt
          | inr again ↦ rw (bad, again) (ends _ _ _ (ground arith))
        ]
      ]

  send_block-Returns :
      (fuel i total : ℕ) (next : ℕ → ℕ → Cmd ℤ) (w : World)
      → Left (suc fuel) i w
      → i < blocks
      → ((j t : ℕ) (w' : World) → Left fuel j w' → Returns (next j t w'))
      → Returns (send_block data_at count i total next w)
  unfolding send_block
  send_block-Returns fuel i total next w left go ends =
      let text = block_text data_at total (next_datasize count total) in
      Steady-then (serial_write text) _ w (serial_write-Steady text) λ nb w1 f1.
        elim (Bool-cases (eq_ℤ nb (to_int (length text)))) [
          | inr short ↦ rw short tt
          | inl whole ↦ rw whole (
              Steady-then (serial_read rep_bufsize 4) _ w1 (serial_read-Steady rep_bufsize 4)
                λ (len, stored) w2 f2. elim (Bool-cases (is_nonpos len)) [
                  | inl none ↦ rw none tt
                  | inr some ↦ rw some (
                      Steady-then (buffer rep_bufsize stored []) _ w2 (buffer-Steady _ _ _)
                        λ repbuf w3 f3.
                          send_reply-Returns fuel i total _ next repbuf w3
                            (ground (arith, f1.requested, f2.requested, f3.requested)) go ends)
                ])
        ]

  send_blocks-Returns :
      (fuel i total : ℕ) (w : World)
      → Left fuel i w
      → Returns (send_blocks fuel data_at count blocks i total w)
  unfolding send_blocks
  send_blocks-Returns zero i total w left = absurd (omega arith)
  send_blocks-Returns (suc fuel) i total w left = elim (Bool-cases (ltb i blocks)) [
    | inr over ↦ rw over tt
    | inl go ↦ rw go (
        send_block-Returns fuel i total (send_blocks fuel data_at count blocks) w left
          (ltb→lt i blocks go) (send_blocks-Returns fuel))
  ]

pub nb_blocks_small : (count : ℕ) → count < 2 ^ 32 → nb_blocks count < 2 ^ 30
unfolding nb_blocks
nb_blocks_small count small = ground arith

-- isp_send_buf_to_ram of fewer than 2 ^ 32 bytes returns on every line, whatever the resend requests
-- counted before.
pub send_buf_to_ram-Returns :
    (data_at : Mem) (addr count perform_uuencode : ℕ) (w : World)
    → count < 2 ^ 32
    → Returns (send_buf_to_ram data_at addr count perform_uuencode w)
unfolding send_buf_to_ram
send_buf_to_ram-Returns data_at addr count perform_uuencode w small =
    Steady-then (send_cmd_two_args b'W' (u32 addr) count) _ w (send_cmd_two_args-Steady _ _ _)
      λ ret w1 f1. elim (Bool-cases (is_zero ret)) [
        | inr refused ↦ rw refused tt
        | inl accepted ↦ elim (Bool-cases (perform_uuencode == 0)) [
          | inl raw ↦
              rw (accepted, raw)
                (Steady-then (serial_write (bytes data_at 0 count)) _ w1 (serial_write-Steady _)
                  λ nb w2 f2. elim (Bool-cases (eq_ℤ nb (to_int count))) [
                    | inl whole ↦ rw whole tt
                    | inr short ↦ rw short tt
                  ])
          | inr encoded ↦
              rw (accepted, encoded)
                (send_blocks-Returns data_at count (nb_blocks count)
                  (omega (arith, nb_blocks_small count small)) (4 * nb_blocks count + 4) 0 0 w1
                  (omega arith))
        ]
      ]
