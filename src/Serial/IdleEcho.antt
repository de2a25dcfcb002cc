-- ===== src/Serial/IdleEcho.antt =====
-- isp_serial_empty_buffer on an idle line, with the echo of a line of text to come.
use lpctools.Base.{
  ℕ, zero, suc, ◌<◌, ◌≡◌, refl, ap, arith, List, [], ◌∷◌, ◌++◌, false, ◌||◌, ◌==◌, length,
  length-append,
}
use lpctools.Machine.{World, done, Rx, put_back, sys_read}
use lpctools.Serial.{
  empty_loop, empty_round, after_line, keep_second, serial_empty_buffer, incoming,
}
use lpctools.Serial.Idle.{idle}
use lpctools.Serial.Reading.{incoming-put_back}
use lpctools.Serial.EchoLine.{IsPlain}

-- The echo of a line.
abbrev pub line : List ℕ → List ℕ
line text = text ++ (13 ∷ 10 ∷ [])

module _ (w : World) (c : ℕ) (rx : List Rx) (sent : List ℕ) where
  empty_loop-idle :
      (text : List ℕ) (fuel unused : ℕ)
      → IsPlain text
      → length text < fuel
      → empty_loop fuel unused 0 (idle w c (put_back (line text) rx) sent)
        ≡ done tt (idle w c rx sent)
  unfolding empty_loop empty_round after_line keep_second sys_read
  empty_loop-idle text zero unused plain enough = absurd (omega arith)
  empty_loop-idle [] (suc fuel) unused plain enough = refl
  empty_loop-idle (b ∷ text) (suc fuel) unused ((no_cr, no_lf), plain) enough =
      let more : (b == 13 || b == 10) ≡ false = ground arith in
      rw more (empty_loop-idle text fuel b plain (omega arith))

  -- The echo is dropped, and no character kept.
  pub serial_empty_buffer-idle :
      (text : List ℕ)
      → IsPlain text
      → serial_empty_buffer (idle w c (put_back (line text) rx) sent) ≡ done tt (idle w c rx sent)
  unfolding serial_empty_buffer
  serial_empty_buffer-idle text plain = empty_loop-idle text _ 0 plain (
      omega (
        arith,
        ap length (incoming-put_back (line text) rx),
        length-append (line text) (incoming rx),
        length-append text (13 ∷ 10 ∷ []),
      ))
