-- ===== src/Serial/Babble.antt =====
-- isp_serial_empty_buffer on a line that hands over bytes without an end of line.
use lpctools.Base.{ℕ, zero, suc, ◌≤◌, ◌≡◌, refl, arith, List, [], ◌∷◌, length, false, ◌||◌, ◌==◌}
use lpctools.Machine.{World, Run, Rx, put_back, sys_read}
use lpctools.Serial.{empty_loop, empty_round}
use lpctools.Serial.EchoLine.{IsPlain}

-- The loop of isp_serial_empty_buffer has no bound of its own on the bytes that it drops: on a line
-- that hands over at least as many bytes as there are rounds, none of them CR or LF, it has not ended
-- behind these rounds, whatever was counted before.
pub empty_loop_babble :
    (rounds unused loops : ℕ) (bytes : List ℕ) (rest : List Rx) (w : World)
    → IsPlain bytes
    → rounds ≤ length bytes
    → empty_loop rounds unused loops (record w { rx = put_back bytes rest }) ≡ Run.out_of_fuel
unfolding empty_loop empty_round sys_read
empty_loop_babble zero unused loops bytes rest w plain long = refl
empty_loop_babble (suc rounds) unused loops [] rest w plain long = absurd (omega arith)
empty_loop_babble (suc rounds) unused loops (c ∷ bytes) rest w plain long =
    let goes_on : (c == 13 || c == 10) ≡ false = ground (arith, plain.0) in
    rw goes_on (empty_loop_babble rounds c loops bytes rest w plain.1 (omega arith))
