-- ===== src/Serial/Slow.antt =====
-- isp_serial_read on a line that hands the bytes over slowly.
use lpctools.Base.{
  ℕ, zero, suc, ◌+◌, ◌^◌, ◌≤◌, ◌<◌, ◌≡◌, refl, ap, ◌∙◌, sym, arith, List, [], ◌∷◌, ◌++◌, ltb, false,
  length, length-append, inl, inr, ◌⊎◌, Bool-cases, take, drop, ℤ, sub32, to_int, take-append-drop,
  le→ltb,
}
use lpctools.Machine.{
  World, Rx, ready, no_data, closed, put_back, read_events, sys_read, Received, Cmd,
}
use lpctools.Machine.Steady.{Ensures}
use lpctools.Serial.{read_loop, read_round, serial_read, pending, incoming, max_loops}
use lpctools.Serial.Terminates.{Enough}
use lpctools.Serial.Reading.{incoming-put_back}

-- No read fails, and the line is not closed.
abbrev pub IsUnbroken : List Rx → Type 0
IsUnbroken [] = Unit {0}
IsUnbroken (ready b bs ∷ rest) = IsUnbroken rest
IsUnbroken (no_data ∷ rest) = IsUnbroken rest
IsUnbroken (Rx.broken ∷ rest) = ⊥
IsUnbroken (closed ∷ rest) = ⊥

-- How often a read finds nothing.
abbrev pub waits : List Rx → ℕ
waits [] = 0
waits (no_data ∷ rest) = suc (waits rest)
waits (_ ∷ rest) = waits rest

put_back-IsUnbroken :
    (ds : List ℕ) (rest : List Rx)
    → IsUnbroken rest
    → IsUnbroken (put_back ds rest) × (waits (put_back ds rest) ≡ waits rest)
put_back-IsUnbroken [] rest sound = (sound, refl)
put_back-IsUnbroken (d ∷ ds) rest sound = (sound, refl)

-- All that was awaited has come, and the result counts it.
abbrev pub Delivered : ℕ → ℤ × List ℕ → World → Type 0
Delivered min_read r w = (r.0 ≡ to_int (length r.1)) × (min_read ≤ length r.1)

module _ (size min_read : ℕ) (small : size < 2 ^ 32) (least : min_read ≤ size) where
  record Awaits (stored : List ℕ) (loops : ℕ) (rx : List Rx) : Type 0 where
    sound : IsUnbroken rx
    few : loops + waits rx ≤ 101
    comes : min_read ≤ length stored + length (incoming rx)

  -- What a read of such a line may meet.
  AfterRead : List ℕ → ℕ → Received → List Rx → Type 0
  AfterRead stored loops Received.would_block rest =
      Awaits stored (loops + 1) rest ⊎ (min_read ≤ length stored)
  AfterRead stored loops Received.error rest = ⊥
  AfterRead stored loops (Received.got []) rest = ⊥
  AfterRead stored loops (Received.got (b ∷ bs)) rest = Awaits (stored ++ (b ∷ bs)) loops rest

  read_events-AfterRead :
      (n : ℕ) (stored : List ℕ) (loops : ℕ) (rx : List Rx)
      → 0 < n
      → Awaits stored loops rx
      → AfterRead stored loops (read_events n rx).0 (read_events n rx).1
  unfolding AfterRead incoming
  read_events-AfterRead zero stored loops rx room ok = absurd (omega arith)
  read_events-AfterRead (suc n) stored loops [] room ok = inr (omega (arith, ok.comes))
  read_events-AfterRead (suc n) stored loops (ready b bs ∷ rest) room ok =
      let (sound, same) = put_back-IsUnbroken (drop n bs) rest ok.sound in
      let all : length (take n bs) + length (drop n bs) ≡ length bs =
        sym (length-append (take n bs) (drop n bs)) ∙ ap length (take-append-drop n bs) in
      let left : length (incoming (put_back (drop n bs) rest))
          ≡ length (drop n bs) + length (incoming rest) =
        ap length (incoming-put_back (drop n bs) rest)
        ∙ length-append (drop n bs) (incoming rest) in
      record {
        sound = sound;
        few = omega (arith, same, ok.few);
        comes = omega (
          arith,
          all,
          left,
          ok.comes,
          length-append bs (incoming rest),
          length-append stored (b ∷ take n bs),
        );
      }
  read_events-AfterRead (suc n) stored loops (no_data ∷ rest) room ok =
      inl (record { sound = ok.sound; few = omega (arith, ok.few); comes = ok.comes })
  read_events-AfterRead (suc n) stored loops (Rx.broken ∷ rest) room ok = absurd ok.sound
  read_events-AfterRead (suc n) stored loops (closed ∷ rest) room ok = absurd ok.sound

  read_round-Delivered :
      (fuel : ℕ) (stored : List ℕ) (loops : ℕ) (next : List ℕ → ℕ → Cmd (ℤ × List ℕ)) (w : World)
      → Enough size min_read (suc fuel) stored loops
      → ((xs : List ℕ) (n : ℕ) (w' : World)
          → Enough size min_read fuel xs n
          → length xs < min_read
          → Awaits xs n w'.rx
          → Ensures (Delivered min_read) (next xs n w'))
      → (r : Received) → AfterRead stored loops r w.rx
      → Ensures (Delivered min_read) (read_round min_read stored loops next r w)
  unfolding read_round AfterRead
  read_round-Delivered fuel stored loops next w enough ih Received.would_block ok =
      elim (Bool-cases (ltb (length stored) min_read)) [
        | inr filled ↦
            let all : min_read ≤ length stored = ground arith in
            elim (Bool-cases (ltb max_loops loops)) [
              | inl over ↦ rw over (refl, all)
              | inr left ↦ rw (left, filled) (refl, all)
            ]
        | inl more ↦
            let below : length stored < min_read = ground arith in
            elim ok [
              | inl ok' ↦
                  let left : ltb max_loops loops ≡ false = ground (arith, ok'.few) in
                  rw (left, more) (ih stored (loops + 1) w (ground arith) below ok')
              | inr all ↦ absurd (omega (arith, below, all))
            ]
      ]
  read_round-Delivered fuel stored loops next w enough ih Received.error ok = absurd ok
  read_round-Delivered fuel stored loops next w enough ih (Received.got []) ok = absurd ok
  read_round-Delivered fuel stored loops next w enough ih (Received.got (b ∷ bs)) ok =
      let stored' = stored ++ (b ∷ bs) in
      elim (Bool-cases (ltb (length stored') min_read)) [
        | inr filled ↦ let all : min_read ≤ length stored' = ground arith in rw filled (refl, all)
        | inl more ↦
            let below : length stored' < min_read = ground arith in
            rw more (ih stored' loops w (ground (arith, length-append stored (b ∷ bs))) below ok)
      ]

  read_loop-Delivered :
      (fuel : ℕ) (stored : List ℕ) (loops : ℕ) (w : World)
      → Enough size min_read fuel stored loops
      → length stored < size
      → Awaits stored loops w.rx
      → Ensures (Delivered min_read) (read_loop fuel size min_read stored loops w)
  unfolding read_loop sys_read
  read_loop-Delivered zero stored loops w enough room ok = absurd (omega arith)
  read_loop-Delivered (suc fuel) stored loops w enough room ok =
      read_round-Delivered fuel stored loops (read_loop fuel size min_read) _ enough
        (λ xs n w' enough' below ok'. read_loop-Delivered fuel xs n w' enough' (omega arith) ok')
        (read_events (sub32 size (length stored)) w.rx).0
        (read_events-AfterRead (sub32 size (length stored)) stored loops w.rx (omega arith) ok)

-- If no read fails, the line is not closed, a read finds nothing at most 101 times, and the kept
-- character and the bytes to come are at least as many as asked for, isp_serial_read into a buffer of
-- at least two and fewer than 2 ^ 32 bytes, which holds the least count, ends with at least that many
-- bytes, and returns the count of those stored.
pub serial_read-Delivered :
    (buf_size min_read : ℕ) (w : World)
    → buf_size < 2 ^ 32
    → min_read ≤ buf_size
    → 1 < buf_size
    → IsUnbroken w.rx
    → waits w.rx ≤ 101
    → min_read ≤ length (pending w) + length (incoming w.rx)
    → Ensures (Delivered min_read) (serial_read buf_size min_read w)
unfolding serial_read
serial_read-Delivered buf_size min_read w small least room sound few comes =
    let start : length (pending w) < buf_size = ground arith in
    rw (le→ltb buf_size min_read least) (
      read_loop-Delivered buf_size min_read small least (min_read + 103) (pending w) 0
        (record w { next_read_char = 0 }) (omega arith) start
        (record { sound = sound; few = omega (arith, few); comes = comes }))
