-- ===== src/Connect/Steady.antt =====
-- isp_connect as a steady command.
use lpctools.Base.{ℕ, List, []}
use lpctools.Machine.Steady.{Steady, Steady-bind, Steady-if, Steady-pure}
use lpctools.Serial.Terminates.{serial_read-Steady}
use lpctools.Serial.Writing.{serial_write-Steady}
use lpctools.Serial.Emptying.{serial_empty_buffer-Steady}
use lpctools.Command.Steady.{buffer-Steady}
use lpctools.Connect.{connect, acknowledge, say, echo_off}

say-Steady : (text old : List ℕ) → Steady (say text old)
unfolding say
say-Steady text old = Steady-bind _ _ (serial_write-Steady text) λ _.
    Steady-bind _ _ serial_empty_buffer-Steady
      λ _. Steady-bind _ _ (serial_read-Steady _ _) λ (len, stored). buffer-Steady _ stored old

echo_off-Steady : Steady echo_off
unfolding echo_off
echo_off-Steady = Steady-bind _ _ (serial_write-Steady _) λ _.
    Steady-bind _ _ serial_empty_buffer-Steady
      λ _. Steady-bind _ _ (serial_read-Steady _ _) λ _. Steady-pure _

acknowledge-Steady : (crystal_freq : ℕ) (buf : List ℕ) → Steady (acknowledge crystal_freq buf)
unfolding acknowledge
acknowledge-Steady crystal_freq buf = Steady-bind _ _ (say-Steady _ buf) λ buf1.
    Steady-if _ _ _ (Steady-pure _)
      (Steady-bind _ _ (say-Steady _ buf1) λ buf2. Steady-if _ _ _ (Steady-pure _) echo_off-Steady)

-- isp_connect returns on every line, for every crystal frequency, and leaves the counters of resend
-- requests alone.
pub connect-Steady : (crystal_freq : ℕ) → Steady (connect crystal_freq)
unfolding connect
connect-Steady crystal_freq = Steady-bind _ _ (serial_write-Steady _) λ nb.
    Steady-if _ _ _ (Steady-pure _) (
      Steady-bind _ _ (serial_read-Steady _ _) λ (len, stored). Steady-if _ _ _ (Steady-pure _) (
        Steady-bind _ _ (buffer-Steady _ stored [])
          λ buf. Steady-if _ _ _ (Steady-pure _) (acknowledge-Steady crystal_freq buf)))
