-- ===== src/Serial/Writing.antt =====
-- isp_serial_write: what the line has taken, and what its result tells.
use Prim.Native.Nat.add
use mathlib.Core.List.{append-nil, append_assoc}
use lpctools.Base.{
  ℕ, zero, suc, ◌+◌, ◌-◌, ◌≤◌, ◌<◌, ◌≡◌, refl, ap, ◌∙◌, sym, arith, List, [], ◌∷◌, ◌++◌, ltb,
  length, inl, inr, ◌⊎◌, Bool-cases, take, drop, ℤ, negsuc, to_int, length-take-le,
}
use lpctools.Machine.{World, Tx, room, no_room, sys_write, write_event, write_taken, Written, took}
use lpctools.Machine.Steady.{Ensures, Frame, Frame-refl, Steady, Ensures-inv}
use lpctools.Serial.{write_loop, write_round, serial_write, max_loops}

take-add : (n k : ℕ) (xs : List ℕ) → take (n + k) xs ≡ take n xs ++ take k (drop n xs)
take-add zero k xs = ap (λ (i : ℕ). take i xs) (omega arith)
take-add (suc n) zero [] = rw (add.suc n 0)
take-add (suc n) (suc k) [] = rw (add.suc n (suc k))
take-add (suc n) k (x ∷ xs) = rw (add.suc n k) (ap (λ (t : List ℕ). x ∷ t) (take-add n k xs))

length-drop : (n : ℕ) (xs : List ℕ) → length (drop n xs) ≡ length xs - n
length-drop zero xs = omega arith
length-drop (suc n) [] = omega arith
length-drop (suc n) (x ∷ xs) = omega (arith, length-drop n xs)

take-length : (xs : List ℕ) → take (length xs) xs ≡ xs
take-length [] = refl
take-length (x ∷ xs) = ap (λ (t : List ℕ). x ∷ t) (take-length xs)

take-length-take : (n : ℕ) (xs : List ℕ) → take (length (take n xs)) xs ≡ take n xs
take-length-take zero xs = refl
take-length-take (suc n) [] = refl
take-length-take (suc n) (x ∷ xs) = ap (λ (t : List ℕ). x ∷ t) (take-length-take n xs)

-- What a write() does to the bytes that it is offered.
abbrev Offered : List Tx → List ℕ → Type 0
Offered tx xs =
    ((n : ℕ) × (write_event tx xs ≡ took n)
      × (write_taken tx xs ≡ take n xs)
      × (n ≤ length xs)
      × ((0 < n) ⊎ (length xs ≡ 0)))
    ⊎ ((write_event tx xs ≡ Written.would_block) × (write_taken tx xs ≡ []))
    ⊎ ((write_event tx xs ≡ Written.error) × (write_taken tx xs ≡ []))

write_event_cases : (tx : List Tx) (xs : List ℕ) → Offered tx xs
write_event_cases [] [] = inl (0, refl, refl, omega arith, inr refl)
write_event_cases [] (x ∷ xs) =
    inl (length (x ∷ xs), refl, sym (take-length (x ∷ xs)), omega arith, inl (omega arith))
write_event_cases (room n ∷ tx) [] = inl (0, refl, refl, omega arith, inr refl)
write_event_cases (room n ∷ tx) (x ∷ xs) = inl (
  suc (length (take n xs)),
  refl,
  sym (take-length-take (suc n) (x ∷ xs)),
  omega (arith, length-take-le n xs),
  inl (omega arith),
)
write_event_cases (no_room ∷ tx) xs = inr (inl (refl, refl))
write_event_cases (Tx.broken ∷ tx) xs = inr (inr (refl, refl))

-- What isp_serial_write may return: -1, or the count of the bytes taken, which are the first of `buf`.
pub record Writes (origin : World) (buf : List ℕ) (r : ℤ) (w : World) : Type 0 where
  pub count : ℕ
  pub in_buf : count ≤ length buf
  pub sent : w.sent ≡ origin.sent ++ take count buf
  pub same_rx : w.rx ≡ origin.rx
  pub same_char : w.next_read_char ≡ origin.next_read_char
  pub frame : Frame origin w
  pub result : (r ≡ negsuc 0) ⊎ (r ≡ to_int count)

module _ (origin : World) (buf : List ℕ) where
  record Progress (count : ℕ) (w : World) : Type 0 where
    in_buf : count ≤ length buf
    sent : w.sent ≡ origin.sent ++ take count buf
    same_rx : w.rx ≡ origin.rx
    same_char : w.next_read_char ≡ origin.next_read_char
    frame : Frame origin w

  abbrev Enough : ℕ → ℕ → ℕ → Type 0
  Enough fuel count loops = ((length buf - count) + (102 - loops) < fuel) × (loops ≤ 101)

  Progress-Writes :
      (count : ℕ) (r : ℤ) (w : World)
      → Progress count w
      → (r ≡ negsuc 0) ⊎ (r ≡ to_int count)
      → Writes origin buf r w
  Progress-Writes count r w ok result = record {
    count = count;
    in_buf = ok.in_buf;
    sent = ok.sent;
    same_rx = ok.same_rx;
    same_char = ok.same_char;
    frame = ok.frame;
    result = result;
  }

  Progress-none :
      (count : ℕ) (w : World) (rest : List Tx)
      → Progress count w
      → Progress count (record w { tx = rest; sent = w.sent ++ [] })
  Progress-none count w rest ok = record {
    in_buf = ok.in_buf;
    sent = append-nil w.sent ∙ ok.sent;
    same_rx = ok.same_rx;
    same_char = ok.same_char;
    frame = record {
      request = ok.frame.request;
      requested = ok.frame.requested;
      junk = ok.frame.junk;
    };
  }

  Progress-took :
      (count n : ℕ) (w : World) (rest : List Tx)
      → n ≤ length (drop count buf)
      → Progress count w
      → Progress (count + n) (record w { tx = rest; sent = w.sent ++ take n (drop count buf) })
  Progress-took count n w rest le ok = record {
    in_buf = omega (arith, length-drop count buf, ok.in_buf);
    sent =
        ap (λ (t : List ℕ). t ++ take n (drop count buf)) ok.sent
        ∙ append_assoc origin.sent (take count buf) _
        ∙ ap (λ (t : List ℕ). origin.sent ++ t) (sym (take-add count n buf));
    same_rx = ok.same_rx;
    same_char = ok.same_char;
    frame = record {
      request = ok.frame.request;
      requested = ok.frame.requested;
      junk = ok.frame.junk;
    };
  }

  write_loop-Writes :
      (fuel count loops : ℕ) (w : World)
      → Enough fuel count loops
      → Progress count w
      → Ensures (Writes origin buf) (write_loop fuel buf count loops w)
  unfolding write_loop write_round sys_write
  write_loop-Writes zero count loops w enough ok = absurd (omega arith)
  write_loop-Writes (suc fuel) count loops w enough ok =
      elim (write_event_cases w.tx (drop count buf)) [
        | inr (inr (e, t)) ↦
            rw (e, t) (Progress-Writes count _ _ (Progress-none count w _ ok) (inl refl))
        | inr (inl (e, t)) ↦
            let ok' = Progress-none count w (drop 1 w.tx) ok in
            let stop = Progress-Writes count _ _ ok' (inr refl) in
            elim (Bool-cases (ltb max_loops loops)) [
              | inl over ↦ rw (e, t, over) stop
              | inr left ↦ elim (Bool-cases (ltb count (length buf))) [
                | inr filled ↦ rw (e, t, left, filled) stop
                | inl more ↦
                    rw (e, t, left, more)
                      (write_loop-Writes fuel count (loops + 1) _ (ground arith) ok')
              ]
            ]
        | inl (n, e, t, le, some_byte) ↦
            let ok' = Progress-took count n w (drop 1 w.tx) le ok in
            elim (Bool-cases (ltb (count + n) (length buf))) [
              | inr filled ↦ rw (e, t, filled) (Progress-Writes (count + n) _ _ ok' (inr refl))
              | inl more ↦
                  rw (e, t, more)
                    (write_loop-Writes fuel (count + n) loops _
                      (ground (arith, length-drop count buf)) ok')
            ]
      ]

-- On every line isp_serial_write ends; the line has taken the first bytes of the buffer and no others;
-- the result is -1 or the count of the bytes taken.
pub serial_write-Writes : (buf : List ℕ) (w : World) → Ensures (Writes w buf) (serial_write buf w)
unfolding serial_write
serial_write-Writes buf w = write_loop-Writes w buf (length buf + 103) 0 0 w (omega arith) (record {
  in_buf = omega arith;
  sent = sym (append-nil w.sent);
  same_rx = refl;
  same_char = refl;
  frame = Frame-refl w;
})

pub serial_write-Steady : (buf : List ℕ) → Steady (serial_write buf)
serial_write-Steady buf = record {
  at = λ w.
      let (r, w', e, writes) = Ensures-inv _ _ (serial_write-Writes buf w) in
      (r, w', e, writes.frame);
}
