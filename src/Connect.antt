-- ===== src/Connect.antt =====
-- isp_commands.c: isp_connect, the dialogue that opens a session. Only messages depend on its `quiet`.
pub mod Steady
pub mod Dialogue
pub mod Silent
mod Runs
use lpctools.Base.{
  ℕ, ◌-◌, ◌^◌, Bool, not, List, [], ◌∷◌, ◌++◌, take, length, ltb, if◌then◌else◌, ℤ, pos, negsuc,
  eq_ℤ, is_neg, codes,
}
use lpctools.Machine.{World, Run, done, Cmd, pure, and_then, ◌>>=◌, ◌>>◌}
use lpctools.Serial.{serial_write, serial_read, serial_empty_buffer}
use lpctools.Text.{print_u, same_prefix}
use lpctools.Command.{buffer, crlf, rep_bufsize}

-- SYNCHRO_START, SYNCHRO, SYNCHRO_OK and SYNCHRO_ECHO_OFF.
abbrev pub synchro_start : List ℕ
synchro_start = codes "?"

abbrev pub synchro : List ℕ
synchro = codes "Synchronized" ++ crlf

abbrev pub synchro_ok : List ℕ
synchro_ok = codes "OK" ++ crlf

abbrev pub synchro_echo_off : List ℕ
synchro_echo_off = codes "A 0" ++ crlf

-- %d of an unsigned int.
unfoldable pub print_d : ℕ → List ℕ
print_d n = if ltb n (2 ^ 31) then print_u n else b'-' ∷ print_u (2 ^ 32 - n)

-- What snprintf leaves of the crystal frequency in the eight bytes that it is given.
unfoldable pub freq_text : ℕ → List ℕ
unfolding print_d
freq_text crystal_freq = take 7 (print_d crystal_freq ++ crlf)

-- A text is sent, its echo dropped, and the reply read over what the array holds.
pub say : List ℕ → List ℕ → Cmd (List ℕ)
say text old = do
  serial_write text
  serial_empty_buffer
  (len, stored) ← serial_read rep_bufsize 4
  buffer rep_bufsize stored old

-- The end of the dialogue: the echo is turned off, and the reply to that is read, but not looked at.
pub echo_off : Cmd ℤ
echo_off = do
  serial_write synchro_echo_off
  serial_empty_buffer
  serial_read rep_bufsize 3
  pure (pos 1)

-- The dialogue from the acknowledgement of the synchronisation on.
pub acknowledge : ℕ → List ℕ → Cmd ℤ
acknowledge crystal_freq buf = do
  buf1 ← say synchro buf
  if not (same_prefix 4 synchro_ok buf1) then pure (negsuc 1) else do
    buf2 ← say (freq_text crystal_freq) buf1
    if not (same_prefix 4 synchro_ok buf2) then pure (negsuc 1) else echo_off

-- isp_connect
unfoldable pub connect : ℕ → Cmd ℤ
unfolding acknowledge say echo_off freq_text
connect crystal_freq = do
  nb ← serial_write synchro_start
  if not (eq_ℤ nb (pos 1)) then pure (negsuc 4) else do
    (len, stored) ← serial_read rep_bufsize 14
    if is_neg len then pure (negsuc 3) else do
      buf ← buffer rep_bufsize stored []
      if not (same_prefix 14 synchro buf) then pure (negsuc 2) else acknowledge crystal_freq buf
