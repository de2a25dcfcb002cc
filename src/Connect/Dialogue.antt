-- ===== src/Connect/Dialogue.antt =====
-- The dialogue of isp_connect with a device that echoes and accepts everything, on an idle line.
use mathlib.Core.List.{append_assoc}
use lpctools.Base.{
  ℕ, zero, suc, ◌≤◌, ◌<◌, ◌≡◌, refl, ap, ◌∙◌, arith, List, [], ◌∷◌, ◌++◌, true, length,
  length-append, All, take, lt→ltb, codes, pos, bytes, overlay, ◌^◌,
}
use lpctools.Machine.{World, done, Rx, put_back}
use lpctools.Serial.Idle.{idle, serial_write-idle, serial_read-idle, serial_read-put_back}
use lpctools.Serial.IdleEcho.{line, serial_empty_buffer-idle}
use lpctools.Serial.EchoLine.{IsPlain}
use lpctools.Text.{print_u, is_digit, same_prefix}
use lpctools.Text.Decimal.{print_u-length_small, print_u-digits}
use lpctools.Command.{buffer, crlf}
use lpctools.Command.Replies.{digit_reply}
use lpctools.Transfer.Send.{ok_reply}
use lpctools.Connect.{
  connect, acknowledge, say, echo_off, freq_text, print_d, synchro, synchro_start, synchro_ok,
  synchro_echo_off,
}

digits-IsPlain : (xs : List ℕ) → All (λ c. is_digit c ≡ true) xs → IsPlain xs
digits-IsPlain [] tt = tt
digits-IsPlain (x ∷ xs) (d, digits) = (ground arith, digits-IsPlain xs digits)

take-long : (n : ℕ) (xs : List ℕ) → length xs ≤ n → take n xs ≡ xs
take-long zero [] h = refl
take-long zero (x ∷ xs) h = absurd (omega arith)
take-long (suc n) [] h = refl
take-long (suc n) (x ∷ xs) h = ap (λ t. x ∷ t) (take-long n xs (omega arith))

-- A frequency of at most five digits is sent as a whole line.
pub freq_text-line : (freq : ℕ) → freq < 100000 → freq_text freq ≡ line (print_u freq)
unfolding freq_text print_d
freq_text-line freq small = rw (lt→ltb freq (2 ^ 31) (omega arith)) (
    take-long 7 (line (print_u freq)) (
      omega (
        arith,
        length-append (print_u freq) crlf,
        print_u-length_small 5 freq small (omega arith),
      )))

module _ (w : World) (c : ℕ) where
  pub say-idle :
      (text old : List ℕ) (rx : List Rx) (sent : List ℕ)
      → IsPlain text
      → say (line text) old (idle w c (put_back (line text) (ok_reply ∷ rx)) sent)
        ≡ done
            (bytes (overlay synchro_ok (overlay old w.junk)) 0 100)
            (idle w c rx (sent ++ line text))
  unfolding say buffer
  say-idle text old rx sent plain =
      let written = serial_write-idle (line text) w c (put_back (line text) (ok_reply ∷ rx)) sent in
      let emptied = serial_empty_buffer-idle w c (ok_reply ∷ rx) (sent ++ line text) text plain in
      let read =
        serial_read-idle 99 4 b'O' (b'K' ∷ 13 ∷ 10 ∷ []) w c rx (sent ++ line text) (omega arith)
          (omega arith) (omega arith) in
      rw (written, emptied, read) refl

  echo_off-idle :
      (rx : List Rx) (sent : List ℕ)
      → echo_off (idle w c (put_back synchro_echo_off (digit_reply 0 ∷ rx)) sent)
        ≡ done (pos 1) (idle w c rx (sent ++ synchro_echo_off))
  unfolding echo_off
  echo_off-idle rx sent =
      let written =
        serial_write-idle synchro_echo_off w c (put_back synchro_echo_off (digit_reply 0 ∷ rx))
          sent in
      let emptied =
        serial_empty_buffer-idle w c (digit_reply 0 ∷ rx) (sent ++ synchro_echo_off) (codes "A 0")
          (ground arith) in
      let read =
        serial_read-idle 99 3 b'0' (13 ∷ 10 ∷ []) w c rx (sent ++ synchro_echo_off) (omega arith)
          (omega arith) (omega arith) in
      rw (written, emptied, read) refl

-- What the device has sent by the end of the dialogue: its answer to `?`, and then the echo of each line
-- with its reply.
abbrev pub device : ℕ → List Rx → List Rx
device freq rx = put_back synchro (
    put_back synchro (
      ok_reply
      ∷ put_back (line (print_u freq)) (ok_reply ∷ put_back synchro_echo_off (digit_reply 0 ∷ rx))))

-- What the program sends in the dialogue.
abbrev pub dialogue : ℕ → List ℕ
dialogue freq = synchro_start ++ (synchro ++ (line (print_u freq) ++ synchro_echo_off))

-- The dialogue from the acknowledgement on.
acknowledge-dialogue :
    (freq : ℕ) (buf : List ℕ) (w : World) (c : ℕ) (rx : List Rx) (sent : List ℕ)
    → freq < 100000
    → acknowledge freq buf (
        idle w c
          (put_back synchro (
            ok_reply
            ∷ put_back
                (line (print_u freq))
                (ok_reply ∷ put_back synchro_echo_off (digit_reply 0 ∷ rx))))
          sent)
      ≡ done (pos 1) (idle w c rx (((sent ++ synchro) ++ line (print_u freq)) ++ synchro_echo_off))
unfolding acknowledge bytes overlay same_prefix
acknowledge-dialogue freq buf w c rx sent small =
    let rx3 = put_back synchro_echo_off (digit_reply 0 ∷ rx) in
    let rx2 = put_back (line (print_u freq)) (ok_reply ∷ rx3) in
    let buf1 = bytes (overlay synchro_ok (overlay buf w.junk)) 0 100 in
    let plain = digits-IsPlain (print_u freq) (print_u-digits freq) in
    let first = say-idle w c (codes "Synchronized") buf rx2 sent (ground arith) in
    let second = say-idle w c (print_u freq) buf1 rx3 (sent ++ synchro) plain in
    let last = echo_off-idle w c rx ((sent ++ synchro) ++ line (print_u freq)) in
    rw (first, freq_text-line freq small, second, last) refl

-- With a device that answers `?`, echoes each line and accepts it, on an idle line, isp_connect with a
-- frequency below 100000 returns 1, has sent `?`, the synchronisation, the frequency and the request
-- to turn the echo off, and has read all that the device sent.
pub connect-dialogue :
    (freq : ℕ) (w : World) (c : ℕ) (rx : List Rx) (sent : List ℕ)
    → freq < 100000
    → connect freq (idle w c (device freq rx) sent)
      ≡ done (pos 1) (idle w c rx (sent ++ dialogue freq))
unfolding connect buffer bytes overlay same_prefix
connect-dialogue freq w c rx sent small =
    let asked = serial_write-idle synchro_start w c (device freq rx) sent in
    let rx3 = put_back synchro_echo_off (digit_reply 0 ∷ rx) in
    let rx1 = put_back synchro (ok_reply ∷ put_back (line (print_u freq)) (ok_reply ∷ rx3)) in
    let sent1 = sent ++ synchro_start in
    let answer =
      serial_read-put_back 99 14 synchro w c rx1 sent1 (omega arith) (omega arith) (omega arith)
        (omega arith) in
    let buf = bytes (overlay synchro (overlay [] w.junk)) 0 100 in
    rw (asked, answer)
      (acknowledge-dialogue freq buf w c rx sent1 small
        ∙ ap (λ t. done (pos 1) (idle w c rx t))
            (rw (append_assoc, append_assoc, append_assoc) refl))
