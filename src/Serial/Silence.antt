-- ===== src/Serial/Silence.antt =====
-- An idle line with nothing to come: both reading functions wait until their time-out.
use lpctools.Base.{ℕ, ◌≡◌, refl, List, [], pos}
use lpctools.Machine.{World, done, sys_read}
use lpctools.Serial.{
  serial_read, read_loop, read_round, serial_empty_buffer, empty_loop, empty_round, after_line,
  incoming,
}
use lpctools.Serial.Idle.{idle}

module _ (w : World) (c : ℕ) (sent : List ℕ) where
  pub serial_empty_buffer_silent :
      serial_empty_buffer (idle w c [] sent) ≡ done tt (idle w c [] sent)
  unfolding serial_empty_buffer empty_loop empty_round after_line sys_read incoming
  serial_empty_buffer_silent = refl

  pub serial_read_four_silent :
      serial_read 100 4 (idle w c [] sent) ≡ done (pos 0, []) (idle w c [] sent)
  unfolding serial_read read_loop read_round sys_read
  serial_read_four_silent = refl

  pub serial_read_three_silent :
      serial_read 100 3 (idle w c [] sent) ≡ done (pos 0, []) (idle w c [] sent)
  unfolding serial_read read_loop read_round sys_read
  serial_read_three_silent = refl
