-- ===== src/Transfer/Refused.antt =====
-- isp_read_memory where the device refuses the request.
use lpctools.Base.{ℕ, ◌<◌, ◌≡◌, refl, arith, List, [], ◌∷◌, ◌++◌, false, ◌==◌, pos}
use lpctools.Machine.{World, done, Rx}
use lpctools.Serial.Idle.{idle}
use lpctools.Command.{two_args_text}
use lpctools.Command.Replies.{digit_reply, send_cmd_two_args_digit}
use lpctools.Transfer.{read_memory}

pub read_memory_refused :
    (addr count uuencoded n : ℕ) (w : World) (c : ℕ) (rx : List Rx) (sent : List ℕ)
    → 0 < n
    → n < 10
    → read_memory addr count uuencoded (idle w c (digit_reply n ∷ rx) sent)
      ≡ done (pos n, []) (idle w c rx (sent ++ two_args_text b'R' addr count))
unfolding read_memory
read_memory_refused addr count uuencoded n w c rx sent error small =
    let other : (n == 0) ≡ false = ground arith in
    rw (send_cmd_two_args_digit b'R' addr count n w c rx sent small, other) refl
