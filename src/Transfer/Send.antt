-- ===== src/Transfer/Send.antt =====
-- One round of isp_send_buf_to_ram on an idle line, for each reply of the device.
use lpctools.Base.{
  ℕ, ◌+◌, ◌^◌, ◌<◌, ◌≡◌, refl, arith, List, [], ◌∷◌, ◌++◌, length, leb, inl, inr, Bool-cases,
  if◌then◌else◌, add32, sub32, ℤ, negsuc, to_int, Mem, bytes, overlay,
}
use lpctools.Machine.{World, Cmd, pure, Rx, ready}
use lpctools.Serial.Idle.{idle, serial_write-idle, serial_read-idle, eq_ℤ_refl}
use lpctools.Text.{same_prefix}
use lpctools.Command.{buffer}
use lpctools.Transfer.{next_datasize, block_text, send_reply, send_block}

-- The device's replies to a block.
abbrev pub ok_reply : Rx
ok_reply = ready b'O' (b'K' ∷ 13 ∷ 10 ∷ [])

abbrev pub resend_reply : Rx
resend_reply = ready b'R' (b'E' ∷ b'S' ∷ b'E' ∷ b'N' ∷ b'D' ∷ 13 ∷ 10 ∷ [])

module _ (data_at : Mem) (count : ℕ) (w : World) where
  pub send_block_ok :
      (i total c : ℕ) (next : ℕ → ℕ → Cmd ℤ) (rx : List Rx) (sent : List ℕ)
      → send_block data_at count i total next (idle w c (ok_reply ∷ rx) sent)
        ≡ next
            (add32 i 1)
            (add32 total (next_datasize count total))
            (idle w 0 rx (sent ++ block_text data_at total (next_datasize count total)))
  unfolding send_block send_reply buffer same_prefix bytes overlay
  send_block_ok i total c next rx sent =
      let text = block_text data_at total (next_datasize count total) in
      let read =
        serial_read-idle 99 4 b'O' (b'K' ∷ 13 ∷ 10 ∷ []) w c rx (sent ++ text) (omega arith)
          (omega arith) (omega arith) in
      rw (serial_write-idle text w c (ok_reply ∷ rx) sent, eq_ℤ_refl (to_int (length text)), read)
        refl

  pub send_block_resend :
      (i total c : ℕ) (next : ℕ → ℕ → Cmd ℤ) (rx : List Rx) (sent : List ℕ)
      → i < 2 ^ 32
      → send_block data_at count i total next (idle w c (resend_reply ∷ rx) sent)
        ≡ (if leb 3 (c + 1) then pure (negsuc 1) else next i total)
            (idle w (c + 1) rx (sent ++ block_text data_at total (next_datasize count total)))
  unfolding send_block send_reply buffer same_prefix bytes overlay
  send_block_resend i total c next rx sent small =
      let text = block_text data_at total (next_datasize count total) in
      let read =
        serial_read-idle 99 4 b'R' (b'E' ∷ b'S' ∷ b'E' ∷ b'N' ∷ b'D' ∷ 13 ∷ 10 ∷ []) w c rx
          (sent ++ text) (omega arith) (omega arith) (omega arith) in
      let back : add32 (sub32 i 1) 1 ≡ i = omega arith in
      elim (Bool-cases (leb 3 (c + 1))) [
        | inl over ↦
            rw
              (
                serial_write-idle text w c (resend_reply ∷ rx) sent,
                eq_ℤ_refl (to_int (length text)),
                read,
                over,
              )
              refl
        | inr again ↦
            rw
              (
                serial_write-idle text w c (resend_reply ∷ rx) sent,
                eq_ℤ_refl (to_int (length text)),
                read,
                again,
                back,
              )
              refl
      ]
