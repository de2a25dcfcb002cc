-- ===== src/Command/Printed.antt =====
-- Numbers that the device prints, read back from a buffer.
use mathlib.Core.List.{append_assoc}
use lpctools.Base.{
  ℕ, ◌+◌, ◌-◌, ◌^◌, ◌≤◌, ◌<◌, ◌≡◌, arith, List, ◌∷◌, ◌++◌, length, length-append, Holds,
  Holds-append, bytes-Holds, subst, Mem, bytes, u32,
}
use lpctools.Text.{strtoul, print_u}
use lpctools.Text.Decimal.{strtoul-print_u, print_u-length}
use lpctools.Command.{crlf}

-- A number in memory, printed with a line end, is read back; a text `enc` stands before it.
pub strtoul-Holds :
    (m : Mem) (enc : List ℕ) (number n : ℕ)
    → number < 2 ^ 32
    → Holds m 0 (enc ++ (print_u number ++ crlf))
    → 12 ≤ n
    → u32 (strtoul (bytes m (length enc) n) 10).value ≡ number
strtoul-Holds m enc number n small holds room =
    let digits = print_u number ++ crlf in
    let there = (Holds-append m 0 enc digits holds).1 in
    let at : Holds m (length enc) digits = subst (λ k. Holds m k digits) (omega arith) there in
    let size = length-append (print_u number) crlf in
    let read =
      bytes-Holds m (length enc) digits n at (omega (arith, size, print_u-length number)) in
    let rest = bytes m (length enc + length digits) (n - length digits) in
    let value = strtoul-print_u number 13 (10 ∷ rest) small (ground arith) in
    rw (read, append_assoc (print_u number) crlf rest, value) (omega arith)
