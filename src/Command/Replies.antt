-- ===== src/Command/Replies.antt =====
-- What a request sends, and the result that the device's reply gives.
use Prim.Native.String.{String}
use lpctools.Base.{
  ℕ, zero, suc, ◌+◌, ◌^◌, ◌-◌, ◌≤◌, ◌<◌, ◌≡◌, refl, ap, ◌∙◌, arith, List, [], ◌∷◌, ◌++◌, Bool,
  false, ◌≢◌, length, length-append, ltb, ◌==◌, ◌⊎◌, inl, inr, lt→ltb, Bool-cases, u32, ℤ, pos,
  to_int, Mem, bytes, bytes-pos, overlay, take, none, some,
}
use lpctools.Machine.{World, done, Rx, ready}
use lpctools.Serial.Idle.{idle, serial_write-idle, serial_read-idle, eq_ℤ_refl}
use lpctools.Text.{strtoul, print_u}
use lpctools.Text.Decimal.{strtoul-print_u, print_u-length, print_u_digit}
use lpctools.Command.{
  buffer, formatted, exchange, ret_code, rep_bufsize, crlf, two_args_text, send_cmd_two_args,
  address_text, send_cmd_address, send_cmd_sectors, ret_code_message, Message, entry, silent,
  unknown, table_entry, error_codes,
}

-- A reply of one digit.
abbrev pub digit_reply : ℕ → Rx
digit_reply n = ready (b'0' + n) (13 ∷ 10 ∷ [])

take_append-le : (n : ℕ) (xs ys : List ℕ) → length xs ≤ n → take (length xs) (take n xs ++ ys) ≡ xs
take_append-le n [] ys h = refl
take_append-le zero (x ∷ xs) ys h = absurd (omega arith)
take_append-le (suc n) (x ∷ xs) ys h = ap (λ t. x ∷ t) (take_append-le n xs ys (omega arith))

-- A text that fits with its NUL is sent as it is.
pub formatted_fits : (size : ℕ) (text : List ℕ) → length text < size → formatted size text ≡ text
unfolding formatted
formatted_fits size text fits =
    let inside : ltb size (length text) ≡ false = ground arith in
    rw inside (take_append-le (size - 1) text (0 ∷ []) (omega arith))

digit_value_of :
    (m : Mem) (size n : ℕ)
    → n < 10
    → 3 < size
    → m 0 ≡ b'0' + n
    → m 1 ≡ 13
    → (strtoul (bytes m 0 size) 10).value ≡ n
digit_value_of m size n small room first second =
    let start : bytes m 0 size ≡ print_u n ++ (13 ∷ bytes m 2 (size - 1 - 1)) =
      bytes-pos m 0 size (omega arith)
      ∙ rw (bytes-pos m (0 + 1) (size - 1) (omega arith), print_u_digit n small, first, second)
          refl in
    rw (start, strtoul-print_u n 13 (bytes m 2 (size - 1 - 1)) (omega arith) (ground arith)) refl

-- A request that the device answers with a digit has been sent as it is, and gives the digit.
pub exchange_digit :
    (request : List ℕ) (buf_size : ℕ) (old : List ℕ) (write_error read_error : ℤ) (n : ℕ)
    (w : World) (c : ℕ) (rx : List Rx) (sent : List ℕ)
    → n < 10
    → 3 < buf_size
    → exchange request buf_size old 3 write_error read_error (idle w c (digit_reply n ∷ rx) sent)
      ≡ done (pos n) (idle w c rx (sent ++ request))
unfolding exchange buffer ret_code overlay
exchange_digit request buf_size old write_error read_error n w c rx sent small room =
    let read =
      serial_read-idle 2 3 (b'0' + n) (13 ∷ 10 ∷ []) w c rx (sent ++ request) (omega arith)
        (omega arith) (omega arith) in
    let reply = overlay ((b'0' + n) ∷ 13 ∷ 10 ∷ []) (overlay old w.junk) in
    let value : to_int (u32 (strtoul (bytes reply 0 buf_size) 10).value) ≡ pos n =
      rw (digit_value_of reply buf_size n small room refl refl) (ground arith) in
    rw
      (
        serial_write-idle request w c (digit_reply n ∷ rx) sent,
        eq_ℤ_refl (to_int (length request)),
        read,
      )
      (ap (λ r. done r (idle w c rx (sent ++ request))) value)

two_args-short : (cmd arg1 arg2 : ℕ) → length (two_args_text cmd arg1 arg2) < 100
two_args-short cmd arg1 arg2 = omega (
  arith,
  length-append (print_u arg1) (b' ' ∷ (print_u arg2 ++ crlf)),
  length-append (print_u arg2) crlf,
  print_u-length arg1,
  print_u-length arg2,
)

-- On an idle line with a reply of one digit to come, a request with two numbers is sent as one whole
-- line of text, and its result is the digit.
pub send_cmd_two_args_digit :
    (cmd arg1 arg2 n : ℕ) (w : World) (c : ℕ) (rx : List Rx) (sent : List ℕ)
    → n < 10
    → send_cmd_two_args cmd arg1 arg2 (idle w c (digit_reply n ∷ rx) sent)
      ≡ done (pos n) (idle w c rx (sent ++ two_args_text cmd arg1 arg2))
unfolding send_cmd_two_args
send_cmd_two_args_digit cmd arg1 arg2 n w c rx sent small =
    let text = two_args_text cmd arg1 arg2 in
    let fits : formatted rep_bufsize text ≡ text =
      formatted_fits rep_bufsize text (two_args-short cmd arg1 arg2) in
    rw fits (exchange_digit text rep_bufsize text _ _ n w c rx sent small (omega arith))

table_entry-inside :
    (table : List String) (i : ℕ) → i < length table → (s : String) × (table_entry table i ≡ some s)
table_entry-inside [] i h = absurd (omega arith)
table_entry-inside (s ∷ table) zero h = (s, refl)
table_entry-inside (s ∷ table) (suc i) h = table_entry-inside table i (omega arith)

-- What isp_ret_code may print without reading behind the table.
abbrev pub IsGood : ℕ → Message → Type 0
IsGood ret m = (m ≡ silent) ⊎ (m ≡ unknown ret) ⊎ ((s : String) × (m ≡ entry (some s)))

entry-IsGood : (ret : ℕ) → ret < 20 → IsGood ret (entry (table_entry error_codes ret))
entry-IsGood ret inside =
    let (s, e) = table_entry-inside error_codes ret (omega arith) in inr (inr (s, ap entry e))

-- For a code other than 20, what isp_ret_code prints of its table lies in the table; the code 20
-- passes its test and is read behind the table's end.
pub ret_code_message_lem :
    (ret : ℕ) (quiet trace_on : Bool)
    → ret ≢ 20
    → (IsGood ret (ret_code_message ret quiet trace_on))
      × (ret_code_message 20 false trace_on ≡ entry none)
unfolding ret_code_message
ret_code_message_lem ret quiet trace_on other = (
  elim (Bool-cases quiet) [
    | inl q ↦ rw q (inl refl)
    | inr talk ↦ elim (Bool-cases (ltb (length error_codes) ret)) [
      | inl above ↦ rw (talk, above) (inr (inl refl))
      | inr inside ↦ elim (Bool-cases (ret == 0)) [
        | inr nonzero ↦ rw (talk, inside, nonzero) (entry-IsGood ret (ground arith))
        | inl success ↦ elim (Bool-cases trace_on) [
          | inl traced ↦ rw (talk, inside, success, traced) (entry-IsGood ret (ground arith))
          | inr untraced ↦ rw (talk, inside, success, untraced) (inl refl)
        ]
      ]
    ]
  ],
  refl,
)

-- The same for a request with two addresses and a length.
pub send_cmd_address_digit :
    (cmd addr1 addr2 len n : ℕ) (w : World) (c : ℕ) (rx : List Rx) (sent : List ℕ)
    → n < 10
    → send_cmd_address cmd addr1 addr2 len (idle w c (digit_reply n ∷ rx) sent)
      ≡ done (pos n) (idle w c rx (sent ++ address_text cmd addr1 addr2 len))
unfolding send_cmd_address
send_cmd_address_digit cmd addr1 addr2 len n w c rx sent small =
    let text = address_text cmd addr1 addr2 len in
    let short : length text < 1300 = omega (
      arith,
      length-append (print_u addr1) (b' ' ∷ (print_u addr2 ++ (b' ' ∷ (print_u len ++ crlf)))),
      length-append (print_u addr2) (b' ' ∷ (print_u len ++ crlf)),
      length-append (print_u len) crlf,
      print_u-length addr1,
      print_u-length addr2,
      print_u-length len,
    ) in
    let fits = formatted_fits 1300 text short in
    rw fits (exchange_digit text 1300 text _ _ n w c rx sent small (omega arith))

-- The same for a request about one sector.
pub send_cmd_sectors_digit :
    (cmd sector n : ℕ) (w : World) (c : ℕ) (rx : List Rx) (sent : List ℕ)
    → n < 10
    → sector < 2 ^ 31
    → send_cmd_sectors cmd (to_int sector) (to_int sector) (idle w c (digit_reply n ∷ rx) sent)
      ≡ done (pos n) (idle w c rx (sent ++ two_args_text cmd sector sector))
unfolding send_cmd_sectors
send_cmd_sectors_digit cmd sector n w c rx sent small fits_int =
    let text = two_args_text cmd sector sector in
    let fits = formatted_fits 1300 text (omega (arith, two_args-short cmd sector sector)) in
    let ordered : ltb sector sector ≡ false = ground arith in
    rw (lt→ltb sector (2 ^ 31) fits_int, ordered, fits)
      (exchange_digit text 1300 text _ _ n w c rx sent small (omega arith))
