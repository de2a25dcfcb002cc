-- ===== src/Serial/Pause.antt =====
-- A reply that is shorter than what isp_serial_read waits for, with a pause behind it.
use lpctools.Base.{
  ℕ, zero, suc, ◌+◌, ◌-◌, ◌^◌, ◌≤◌, ◌<◌, ◌≡◌, refl, ◌∙◌, arith, List, [], ◌∷◌, ◌++◌, length,
  replicate, ltb, true, false, sub32, to_int,
}
use lpctools.Machine.{World, done, Rx, ready, no_data, put_back, sys_read}
use lpctools.Serial.{serial_read, read_loop, read_round, max_loops}
use lpctools.Serial.Idle.{idle, whole}

-- The rounds of waiting until the time-out.
abbrev pub pause : List Rx → List Rx
pause rx = replicate 102 no_data ++ rx

module _ (size min_read : ℕ) (stored : List ℕ) (short : length stored < min_read)
    (fits : length stored < size) (small : size < 2 ^ 32) (w : World) (c : ℕ) (rx : List Rx)
    (sent : List ℕ) where
  wait_round :
      (fuel loops : ℕ) (rest : List Rx)
      → loops < 101
      → read_loop (suc fuel) size min_read stored loops (idle w c (no_data ∷ rest) sent)
        ≡ read_loop fuel size min_read stored (loops + 1) (idle w c rest sent)
  unfolding read_loop read_round sys_read
  wait_round fuel loops rest early =
      let offered : sub32 size (length stored) ≡ suc (size - length stored - 1) = omega arith in
      let more : ltb (length stored) min_read ≡ true = ground arith in
      let waits : ltb max_loops loops ≡ false = ground arith in rw (offered, waits, more) refl

  last_round :
      (fuel : ℕ) (rest : List Rx)
      → read_loop (suc fuel) size min_read stored 101 (idle w c (no_data ∷ rest) sent)
        ≡ done (to_int (length stored), stored) (idle w c rest sent)
  unfolding read_loop read_round sys_read
  last_round fuel rest =
      let offered : sub32 size (length stored) ≡ suc (size - length stored - 1) = omega arith in
      rw offered refl

  read_loop-pause :
      (k fuel loops : ℕ)
      → loops + k ≡ 101
      → read_loop
          (suc (k + fuel))
          size
          min_read
          stored
          loops
          (idle w c (replicate (suc k) no_data ++ rx) sent)
        ≡ done (to_int (length stored), stored) (idle w c rx sent)
  read_loop-pause zero fuel loops h =
      let e : loops ≡ 101 = omega arith in rw e (last_round (0 + fuel) rx)
  read_loop-pause (suc k) fuel loops h =
      let e : suc k + fuel ≡ suc (k + fuel) = omega arith in
      wait_round (suc k + fuel) loops (replicate (suc k) no_data ++ rx) (omega arith)
      ∙ rw e (read_loop-pause k fuel (loops + 1) (omega arith))

first_read :
    (fuel size min_read b : ℕ) (bs : List ℕ) (w : World) (c : ℕ) (rest : List Rx) (sent : List ℕ)
    → suc (length bs) < min_read
    → length bs ≤ size
    → suc size < 2 ^ 32
    → read_loop (suc fuel) (suc size) min_read [] 0 (idle w c (ready b bs ∷ rest) sent)
      ≡ read_loop fuel (suc size) min_read (b ∷ bs) 0 (idle w c rest sent)
unfolding read_loop read_round sys_read
first_read fuel size min_read b bs w c rest sent short fits small =
    let (t, d) = whole size bs fits in
    let offered : sub32 (suc size) 0 ≡ suc size = omega arith in
    let more : ltb (suc (length bs)) min_read ≡ true = ground arith in rw (offered, t, d, more) refl

-- It is returned as it is when the time is over.
pub serial_read-pause :
    (size min_read b : ℕ) (bs : List ℕ) (w : World) (c : ℕ) (rx : List Rx) (sent : List ℕ)
    → suc (length bs) < min_read
    → min_read ≤ suc size
    → suc size < 2 ^ 32
    → serial_read (suc size) min_read (idle w c (ready b bs ∷ pause rx) sent)
      ≡ done (to_int (suc (length bs)), b ∷ bs) (idle w c rx sent)
unfolding serial_read
serial_read-pause size min_read b bs w c rx sent short enough small =
    let room : ltb (suc size) min_read ≡ false = ground arith in
    let fuel : min_read + 103 ≡ suc (suc (101 + min_read)) = omega arith in
    rw (room, fuel)
      (first_read (suc (101 + min_read)) size min_read b bs w c (pause rx) sent short (omega arith)
          small
        ∙ read_loop-pause (suc size) min_read (b ∷ bs) short (omega arith) small w c rx sent 101
            min_read 0 refl)

-- The same for a reply that is not empty.
pub serial_read-pause-put_back :
    (size min_read : ℕ) (xs : List ℕ) (w : World) (c : ℕ) (rx : List Rx) (sent : List ℕ)
    → 0 < length xs
    → length xs < min_read
    → min_read ≤ suc size
    → suc size < 2 ^ 32
    → serial_read (suc size) min_read (idle w c (put_back xs (pause rx)) sent)
      ≡ done (to_int (length xs), xs) (idle w c rx sent)
serial_read-pause-put_back size min_read [] w c rx sent some short enough small =
    absurd (omega arith)
serial_read-pause-put_back size min_read (b ∷ bs) w c rx sent some short enough small =
    serial_read-pause size min_read b bs w c rx sent short enough small
