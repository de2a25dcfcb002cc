-- ===== src/Serial.antt =====
-- isp_utils.c: isp_serial_write, isp_serial_empty_buffer and isp_serial_read. The pauses (usleep) and
-- the trace output have no effect on the state.
pub mod Setup
pub mod Terminates
pub mod Reading
pub mod Slow
pub mod Silence
pub mod Writing
pub mod Emptying
pub mod EchoLine
pub mod Babble
pub mod Idle
pub mod IdleEcho
pub mod Pause
mod Runs
use lpctools.Base.{
  ℕ, zero, suc, ◌+◌, ◌-◌, ◌%◌, ◌^◌, Bool, true, false, ◌||◌, List, [], ◌∷◌, ◌++◌, length, drop, ltb,
  ◌==◌, if◌then◌else◌, sub32, ℤ, pos, negsuc, to_int,
}
use lpctools.Machine.{
  Rx, World, Run, done, out_of_fuel, Cmd, pure, and_then, ◌>>=◌, ◌>>◌, Received, got, Written, took,
  sys_read, sys_write, ready,
}

-- `loops++ > 100` ends a loop that makes no progress: 102 empty rounds at most.
abbrev pub max_loops : ℕ
max_loops = 100

-- A round of the loop of isp_serial_write, behind its write(); `continue` goes to the loop's condition,
-- and `next` is the round that follows.
pub write_round : List ℕ → ℕ → ℕ → (ℕ → ℕ → Cmd ℤ) → Written → Cmd ℤ
write_round buf count loops next Written.would_block =
    if ltb max_loops loops
    then pure (to_int count)
    else if ltb count (length buf)
    then next count (loops + 1)
    else pure (to_int count)
write_round buf count loops next Written.error = pure (negsuc 0)
write_round buf count loops next (Written.took n) =
    if ltb (count + n) (length buf) then next (count + n) loops else pure (to_int (count + n))

pub write_loop : ℕ → List ℕ → ℕ → ℕ → Cmd ℤ
write_loop zero buf count loops = λ _. out_of_fuel
write_loop (suc fuel) buf count loops =
    sys_write (drop count buf) >>= write_round buf count loops (write_loop fuel buf)

-- isp_serial_write, of a buffer of `length buf` bytes.
unfoldable pub serial_write : List ℕ → Cmd ℤ
unfolding write_loop write_round
serial_write buf = write_loop (length buf + 103) buf 0 0

-- A round of the loop of isp_serial_read, behind its read(). What the loop has stored so far is `stored`,
-- and `count` is its length.
pub read_round : ℕ → List ℕ → ℕ → (List ℕ → ℕ → Cmd (ℤ × List ℕ)) → Received → Cmd (ℤ × List ℕ)
read_round min_read stored loops next Received.would_block =
    if ltb max_loops loops
    then pure (to_int (length stored), stored)
    else if ltb (length stored) min_read
    then next stored (loops + 1)
    else pure (to_int (length stored), stored)
read_round min_read stored loops next Received.error = pure (negsuc 0, stored)
read_round min_read stored loops next (Received.got []) = pure (pos 0, stored)
read_round min_read stored loops next (Received.got (b ∷ bs)) =
    let stored' = stored ++ (b ∷ bs) in
    if ltb (length stored') min_read
    then next stored' loops
    else pure (to_int (length stored'), stored')

pub read_loop : ℕ → ℕ → ℕ → List ℕ → ℕ → Cmd (ℤ × List ℕ)
read_loop zero buf_size min_read stored loops = λ _. out_of_fuel
read_loop (suc fuel) buf_size min_read stored loops =
    sys_read (sub32 buf_size (length stored))
    >>= read_round min_read stored loops (read_loop fuel buf_size min_read)

abbrev pub pending : World → List ℕ
pending w = if w.next_read_char == 0 then [] else w.next_read_char ∷ []

-- isp_serial_read: its result, and what it stored from the start of `buf` on.
unfoldable pub serial_read : ℕ → ℕ → Cmd (ℤ × List ℕ)
unfolding read_loop read_round
serial_read buf_size min_read w =
    if ltb buf_size min_read
    then done (negsuc 2, []) w
    else read_loop (min_read + 103) buf_size min_read (pending w) 0
        (record w { next_read_char = 0 })

-- The bytes that are still to come.
unfoldable pub incoming : List Rx → List ℕ
incoming [] = []
incoming (ready b bs ∷ rest) = b ∷ (bs ++ incoming rest)
incoming (e ∷ rest) = incoming rest

-- The character that a second read() leaves in `unused`.
abbrev pub second_char : Received → ℕ → ℕ
second_char (Received.got (c ∷ cs)) unused = c
second_char _ unused = unused

pub keep_second : ℕ → Received → Cmd (Unit {0})
keep_second unused second =
    let unused' = second_char second unused in
    if unused' == 10 then pure tt else λ w. done tt (record w { next_read_char = unused' })

-- What isp_serial_empty_buffer does with the last character that it has read: the second character
-- of a line end is read if the first was a carriage return, and a character of another kind is kept.
pub after_line : ℕ → Cmd (Unit {0})
unfolding keep_second
after_line unused =
    (if unused == 13 then sys_read 1 else pure (Received.got [])) >>= keep_second unused

-- A round of its loop, behind its read().
pub empty_round : ℕ → ℕ → (ℕ → ℕ → Cmd (Unit {0})) → Received → Cmd (Unit {0})
empty_round unused loops next Received.would_block =
    if ltb max_loops loops
    then after_line unused
    else if unused == 13 || unused == 10
    then after_line unused
    else next unused (loops + 1)
empty_round unused loops next Received.error = pure tt
empty_round unused loops next (Received.got []) = pure tt
empty_round unused loops next (Received.got (c ∷ cs)) =
    if c == 13 || c == 10 then after_line c else next c loops

pub empty_loop : ℕ → ℕ → ℕ → Cmd (Unit {0})
empty_loop zero unused loops = λ _. out_of_fuel
empty_loop (suc fuel) unused loops = sys_read 1 >>= empty_round unused loops (empty_loop fuel)

-- isp_serial_empty_buffer: each round takes a byte that is to come, or counts as an empty one.
unfoldable pub serial_empty_buffer : Cmd (Unit {0})
unfolding empty_loop empty_round after_line
serial_empty_buffer w = empty_loop (length (incoming w.rx) + 103) 0 0 w
