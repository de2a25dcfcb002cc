-- ===== src/Command/PartId.antt =====
-- isp_cmd_part_id with a device that answers on an idle line.
use lpctools.Base.{
  ℕ, ◌+◌, ◌^◌, ◌<◌, ◌≡◌, refl, arith, List, [], ◌∷◌, ◌++◌, length, length-append, overlay,
  overlay-Holds, to_int, negsuc, is_nonpos, false,
}
use lpctools.Machine.{World, done, Rx, put_back}
use lpctools.Serial.Idle.{idle}
use lpctools.Serial.IdleEcho.{line}
use lpctools.Serial.Pause.{pause, serial_read-pause-put_back}
use lpctools.Text.{print_u}
use lpctools.Text.Decimal.{print_u-length, print_u_some}
use lpctools.Command.Printed.{strtoul-Holds}
use lpctools.Command.{send_cmd_no_args, cmd_part_id, read_part_id, buffer}
use lpctools.Command.Replies.{digit_reply, exchange_digit}

-- The reply: the code for success, and the identifier.
abbrev pub id_reply : ℕ → List Rx → List Rx
id_reply id rx = digit_reply 0 ∷ put_back (line (print_u id)) (pause rx)

-- The identifier comes back as an int, and the request has been sent.
pub cmd_part_id-id_reply :
    (id : ℕ) (w : World) (c : ℕ) (rx : List Rx) (sent : List ℕ)
    → id < 2 ^ 32
    → cmd_part_id 1 (idle w c (id_reply id rx) sent)
      ≡ done (to_int id) (idle w c rx (sent ++ read_part_id))
unfolding cmd_part_id send_cmd_no_args buffer
cmd_part_id-id_reply id w c rx sent small =
    let text = line (print_u id) in
    let sent' = sent ++ read_part_id in
    let size : length text ≡ length (print_u id) + 2 = length-append (print_u id) (13 ∷ 10 ∷ []) in
    let asked =
      exchange_digit read_part_id 5 [] (negsuc 4) (negsuc 3) 0 w c (put_back text (pause rx)) sent
        (omega arith) (omega arith) in
    let read =
      serial_read-pause-put_back 99 15 text w c rx sent'
        (omega (arith, size, print_u_some id small)) (omega (arith, size, print_u-length id))
        (omega arith) (omega arith) in
    let m = overlay text (overlay [] w.junk) in
    let value =
      strtoul-Holds m [] id 100 small (overlay-Holds text (overlay [] w.junk)) (omega arith) in
    let filled : is_nonpos (to_int (length text)) ≡ false =
      ground (arith, size, print_u-length id) in
    rw (asked, read, filled, value) refl
