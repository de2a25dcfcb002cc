-- ===== src/Serial/Runs.antt =====
-- Runs of the line functions, and the theorems at concrete inputs.
use lpctools.Base.{◌≡◌, refl, arith, [], ◌∷◌, codes}
use lpctools.Machine.{World, Run, ready, put_back}
use lpctools.Machine.Samples.{at_start, slow_line}
use lpctools.Machine.Steady.{Ensures}
use lpctools.Serial.Babble.{empty_loop_babble}
use lpctools.Serial.{empty_loop, serial_read, serial_write, serial_empty_buffer, incoming}
use lpctools.Serial.Reading.{Reads, serial_read-Reads}
use lpctools.Serial.Slow.{Delivered, serial_read-Delivered}
use lpctools.Serial.Writing.{Writes, serial_write-Writes}
use lpctools.Serial.EchoLine.{LineTaken, serial_empty_buffer_line}

serial_read-Reads_example : Ensures (Reads slow_line 10) (serial_read 10 4 slow_line)
serial_read-Reads_example =
    serial_read-Reads 10 4 slow_line (omega arith) (omega arith) (omega arith)

serial_write-Writes_example :
    Ensures (Writes slow_line (codes "G 0 T")) (serial_write (codes "G 0 T") slow_line)
serial_write-Writes_example = serial_write-Writes (codes "G 0 T") slow_line

-- The echo of `U`, and a reply behind it.
abbrev echoing : World
echoing = record at_start { rx = ready b'U' (13 ∷ 10 ∷ b'0' ∷ []) ∷ [] }

serial_empty_buffer_line_example : Ensures (LineTaken (b'0' ∷ []) 0) (serial_empty_buffer echoing)
unfolding incoming
serial_empty_buffer_line_example =
    serial_empty_buffer_line (b'0' ∷ []) (b'U' ∷ []) echoing tt refl
      ((omega arith, omega arith), tt)

-- The two waits of the line do not keep any of its first five bytes back.
serial_read-Delivered_example : Ensures (Delivered 5) (serial_read 10 5 slow_line)
unfolding incoming
serial_read-Delivered_example =
    serial_read-Delivered 10 5 slow_line (omega arith) (omega arith) (omega arith) tt (omega arith)
      (omega arith)

empty_loop_babble_example :
    empty_loop 3 0 0 (record at_start { rx = put_back (codes "LPC") [] }) ≡ Run.out_of_fuel
empty_loop_babble_example =
    empty_loop_babble 3 0 0 (codes "LPC") [] at_start
      ((omega arith, omega arith), ((omega arith, omega arith), ((omega arith, omega arith), tt)))
      (omega arith)
