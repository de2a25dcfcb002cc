-- ===== src/Machine/Samples.antt =====
-- States and data for the runs.
use lpctools.Base.{zero, suc, arith, [], ◌∷◌, Mem, AreBytes}
use lpctools.Machine.{World, ready, no_data, room, no_room}

abbrev pub blank : Mem
blank i = 0

-- "Cat", the usual example of uuencoding, with zeros behind it.
abbrev pub cat : Mem
cat zero = 67
cat (suc zero) = 97
cat (suc (suc zero)) = 116
cat (suc (suc (suc i))) = 0

pub cat-AreBytes : AreBytes cat
cat-AreBytes zero = omega arith
cat-AreBytes (suc zero) = omega arith
cat-AreBytes (suc (suc zero)) = omega arith
cat-AreBytes (suc (suc (suc i))) = omega arith

-- The program at its start, on a line with nothing to come.
abbrev pub at_start : World
at_start = record {
  rx = [];
  tx = [];
  sent = [];
  next_read_char = 0;
  resend_request_for_block = 0;
  resend_requested_for_block = 0;
  junk = blank;
  reports = [];
}

-- The device answers OK in two parts, late, and the line takes three bytes before it makes the program wait.
abbrev pub slow_line : World
slow_line = record at_start {
  rx = no_data ∷ ready b'O' (b'K' ∷ []) ∷ no_data ∷ ready 13 (10 ∷ b'?' ∷ []) ∷ [];
  tx = room 2 ∷ no_room ∷ [];
}
