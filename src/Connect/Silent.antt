-- ===== src/Connect/Silent.antt =====
-- isp_connect with a device that falls silent behind its first acknowledgement, on an idle line.
use mathlib.Core.List.{append_assoc}
use lpctools.Base.{
  ℕ, ◌<◌, ◌≡◌, refl, ap, ◌∙◌, arith, List, [], ◌∷◌, ◌++◌, codes, pos, bytes, overlay,
}
use lpctools.Machine.{World, done, Rx, put_back}
use lpctools.Serial.Silence.{
  serial_empty_buffer_silent, serial_read_four_silent, serial_read_three_silent,
}
use lpctools.Serial.Idle.{idle, serial_write-idle, serial_read-put_back}
use lpctools.Text.{print_u, same_prefix}
use lpctools.Command.{buffer}
use lpctools.Transfer.Send.{ok_reply}
use lpctools.Connect.{
  connect, acknowledge, say, echo_off, synchro, synchro_ok, synchro_start, synchro_echo_off,
}
use lpctools.Connect.Dialogue.{dialogue, freq_text-line, say-idle}
use lpctools.Serial.IdleEcho.{line}

module _ (w : World) (c : ℕ) where
  -- The array keeps what it held.
  say_silent :
      (text old : List ℕ) (sent : List ℕ)
      → say text old (idle w c [] sent)
        ≡ done (bytes (overlay [] (overlay old w.junk)) 0 100) (idle w c [] (sent ++ text))
  unfolding say buffer
  say_silent text old sent =
      rw
        (
          serial_write-idle text w c [] sent,
          serial_empty_buffer_silent w c (sent ++ text),
          serial_read_four_silent w c (sent ++ text),
        )
        refl

  echo_off_silent :
      (sent : List ℕ)
      → echo_off (idle w c [] sent) ≡ done (pos 1) (idle w c [] (sent ++ synchro_echo_off))
  unfolding echo_off
  echo_off_silent sent =
      rw
        (
          serial_write-idle synchro_echo_off w c [] sent,
          serial_empty_buffer_silent w c (sent ++ synchro_echo_off),
          serial_read_three_silent w c (sent ++ synchro_echo_off),
        )
        refl

-- The device answers `?` and acknowledges the synchronisation, and sends nothing more.
abbrev pub falls_silent : List Rx
falls_silent = put_back synchro (put_back synchro (ok_reply ∷ []))

acknowledge_silent :
    (freq : ℕ) (buf : List ℕ) (w : World) (c : ℕ) (sent : List ℕ)
    → freq < 100000
    → acknowledge freq buf (idle w c (put_back synchro (ok_reply ∷ [])) sent)
      ≡ done (pos 1) (idle w c [] (((sent ++ synchro) ++ line (print_u freq)) ++ synchro_echo_off))
unfolding acknowledge bytes overlay same_prefix
acknowledge_silent freq buf w c sent small =
    let buf1 = bytes (overlay synchro_ok (overlay buf w.junk)) 0 100 in
    let first = say-idle w c (codes "Synchronized") buf [] sent (ground arith) in
    let second = say_silent w c (line (print_u freq)) buf1 (sent ++ synchro) in
    let last = echo_off_silent w c ((sent ++ synchro) ++ line (print_u freq)) in
    rw (first, freq_text-line freq small, second, last) refl

-- With a device that answers `?`, acknowledges the synchronisation and sends nothing more, on an idle
-- line, isp_connect with a frequency below 100000 returns 1 and has sent all of the dialogue, as it
-- does for a device that accepts everything.
pub connect-falls_silent :
    (freq : ℕ) (w : World) (c : ℕ) (sent : List ℕ)
    → freq < 100000
    → connect freq (idle w c falls_silent sent) ≡ done (pos 1) (idle w c [] (sent ++ dialogue freq))
unfolding connect buffer bytes overlay same_prefix
connect-falls_silent freq w c sent small =
    let asked = serial_write-idle synchro_start w c falls_silent sent in
    let sent1 = sent ++ synchro_start in
    let answer =
      serial_read-put_back 99 14 synchro w c (put_back synchro (ok_reply ∷ [])) sent1 (omega arith)
        (omega arith) (omega arith) (omega arith) in
    let buf = bytes (overlay synchro (overlay [] w.junk)) 0 100 in
    rw (asked, answer)
      (acknowledge_silent freq buf w c sent1 small
        ∙ ap (λ t. done (pos 1) (idle w c [] t))
            (rw (append_assoc, append_assoc, append_assoc) refl))
