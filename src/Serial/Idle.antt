-- ===== src/Serial/Idle.antt =====
-- A line that takes every byte at once, and hands over what the device sends in whole replies.
use lpctools.Base.{
  ℕ, zero, suc, ◌+◌, ◌^◌, ◌≤◌, ◌<◌, ◌≡◌, refl, ap, arith, List, [], ◌∷◌, ◌++◌, true, false, length,
  ltb, take, drop, sub32, ℤ, pos, negsuc, to_int, eq_ℤ,
}
use lpctools.Machine.{World, done, Rx, ready, no_data, put_back, sys_read, sys_write}
use lpctools.Serial.{serial_write, serial_read, read_loop, read_round, write_loop, write_round}

-- No character is kept from an earlier read, and `refused` resend requests have been counted.
abbrev pub idle : World → ℕ → List Rx → List ℕ → World
idle w refused rx sent = record w {
  rx = rx;
  tx = [];
  sent = sent;
  next_read_char = 0;
  resend_requested_for_block = refused;
}

pub eq_ℤ_refl : (x : ℤ) → eq_ℤ x x ≡ true
eq_ℤ_refl (pos n) = ground arith
eq_ℤ_refl (negsuc n) = ground arith

write_loop-idle :
    (fuel : ℕ) (buf : List ℕ) (w : World) (c : ℕ) (rx : List Rx) (sent : List ℕ)
    → write_loop (suc fuel) buf 0 0 (idle w c rx sent)
      ≡ done (to_int (length buf)) (idle w c rx (sent ++ buf))
unfolding write_loop write_round sys_write
write_loop-idle fuel buf w c rx sent =
    let all : ltb (0 + length buf) (length buf) ≡ false = ground arith in
    let same : 0 + length buf ≡ length buf = omega arith in rw (all, same) refl

-- A buffer is written at once.
pub serial_write-idle :
    (buf : List ℕ) (w : World) (c : ℕ) (rx : List Rx) (sent : List ℕ)
    → serial_write buf (idle w c rx sent) ≡ done (to_int (length buf)) (idle w c rx (sent ++ buf))
unfolding serial_write
serial_write-idle buf w c rx sent =
    let fuel : length buf + 103 ≡ suc (length buf + 102) = omega arith in
    rw fuel (write_loop-idle (length buf + 102) buf w c rx sent)

pub whole : (n : ℕ) (xs : List ℕ) → length xs ≤ n → (take n xs ≡ xs) × (drop n xs ≡ [])
whole zero [] h = (refl, refl)
whole zero (x ∷ xs) h = absurd (omega arith)
whole (suc n) [] h = (refl, refl)
whole (suc n) (x ∷ xs) h = let (t, d) = whole n xs (omega arith) in (ap (λ t. x ∷ t) t, d)

read_loop-idle :
    (fuel size min_read b : ℕ) (bs : List ℕ) (w : World) (c : ℕ) (rx : List Rx) (sent : List ℕ)
    → min_read ≤ suc (length bs)
    → length bs ≤ size
    → suc size < 2 ^ 32
    → read_loop (suc fuel) (suc size) min_read [] 0 (idle w c (ready b bs ∷ rx) sent)
      ≡ done (to_int (suc (length bs)), b ∷ bs) (idle w c rx sent)
unfolding read_loop read_round sys_read
read_loop-idle fuel size min_read b bs w c rx sent enough fits small =
    let (t, d) = whole size bs fits in
    let offered : sub32 (suc size) 0 ≡ suc size = omega arith in
    let filled : ltb (suc (length bs)) min_read ≡ false = ground arith in
    rw (offered, t, d, filled) refl

-- A reply of at least the bytes waited for, and at most the size of the buffer, is read as a whole.
pub serial_read-idle :
    (size min_read b : ℕ) (bs : List ℕ) (w : World) (c : ℕ) (rx : List Rx) (sent : List ℕ)
    → min_read ≤ suc (length bs)
    → length bs ≤ size
    → suc size < 2 ^ 32
    → serial_read (suc size) min_read (idle w c (ready b bs ∷ rx) sent)
      ≡ done (to_int (suc (length bs)), b ∷ bs) (idle w c rx sent)
unfolding serial_read
serial_read-idle size min_read b bs w c rx sent enough fits small =
    let room : ltb (suc size) min_read ≡ false = ground arith in
    let fuel : min_read + 103 ≡ suc (min_read + 102) = omega arith in
    rw (room, fuel)
      (read_loop-idle (min_read + 102) size min_read b bs w c rx sent enough fits small)

-- The same for a reply that is not empty.
pub serial_read-put_back :
    (size min_read : ℕ) (xs : List ℕ) (w : World) (c : ℕ) (rx : List Rx) (sent : List ℕ)
    → 0 < length xs
    → min_read ≤ length xs
    → length xs ≤ suc size
    → suc size < 2 ^ 32
    → serial_read (suc size) min_read (idle w c (put_back xs rx) sent)
      ≡ done (to_int (length xs), xs) (idle w c rx sent)
serial_read-put_back size min_read [] w c rx sent some enough fits small = absurd (omega arith)
serial_read-put_back size min_read (b ∷ bs) w c rx sent some enough fits small =
    serial_read-idle size min_read b bs w c rx sent enough (omega arith) small

-- A read that waits for nothing finds nothing.
pub serial_read-no_data :
    (size : ℕ) (w : World) (c : ℕ) (rx : List Rx) (sent : List ℕ)
    → suc size < 2 ^ 32
    → serial_read (suc size) 0 (idle w c (no_data ∷ rx) sent) ≡ done (pos 0, []) (idle w c rx sent)
unfolding serial_read read_loop read_round sys_read
serial_read-no_data size w c rx sent small =
    let offered : sub32 (suc size) 0 ≡ suc size = omega arith in
    let fits : ltb (suc size) 0 ≡ false = ground arith in rw (fits, offered) refl
