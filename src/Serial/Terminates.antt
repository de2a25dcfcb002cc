-- ===== src/Serial/Terminates.antt =====
-- The termination of isp_serial_read.
use lpctools.Base.{
  ℕ, zero, suc, ◌+◌, ◌-◌, ◌≤◌, ◌<◌, refl, arith, List, [], ◌∷◌, ◌++◌, ltb, length, length-append,
  inl, inr, Bool-cases, ℤ, sub32,
}
use lpctools.Machine.{sys_read, Received, Cmd}
use lpctools.Machine.Steady.{Frame, Frame-refl, Steady, Steady-pure, Steady-bind, Steady-sys_read}
use lpctools.Serial.{read_loop, read_round, serial_read, pending, max_loops}

module _ (size min_read : ℕ) where
  -- The rounds that are left: an empty one counts `loops` up, another stores a byte at least.
  abbrev pub Enough : ℕ → List ℕ → ℕ → Type 0
  Enough fuel stored loops = ((min_read - length stored) + (102 - loops) < fuel) × (loops ≤ 101)

  read_round-Steady :
      (fuel : ℕ) (stored : List ℕ) (loops : ℕ) (next : List ℕ → ℕ → Cmd (ℤ × List ℕ))
      → Enough (suc fuel) stored loops
      → ((xs : List ℕ) (n : ℕ) → Enough fuel xs n → Steady (next xs n))
      → (r : Received) → Steady (read_round min_read stored loops next r)
  unfolding read_round
  read_round-Steady fuel stored loops next enough ends Received.would_block =
      elim (Bool-cases (ltb max_loops loops)) [
        | inl over ↦ rw over (Steady-pure _)
        | inr left ↦ elim (Bool-cases (ltb (length stored) min_read)) [
          | inr filled ↦ rw (left, filled) (Steady-pure _)
          | inl more ↦ rw (left, more) (ends stored (loops + 1) (ground arith))
        ]
      ]
  read_round-Steady fuel stored loops next enough ends Received.error = Steady-pure _
  read_round-Steady fuel stored loops next enough ends (Received.got []) = Steady-pure _
  read_round-Steady fuel stored loops next enough ends (Received.got (b ∷ bs)) =
      let stored' = stored ++ (b ∷ bs) in
      elim (Bool-cases (ltb (length stored') min_read)) [
        | inr filled ↦ rw filled (Steady-pure _)
        | inl more ↦ rw more (ends stored' loops (ground (arith, length-append stored (b ∷ bs))))
      ]

  read_loop-Steady :
      (fuel : ℕ) (stored : List ℕ) (loops : ℕ)
      → Enough fuel stored loops
      → Steady (read_loop fuel size min_read stored loops)
  unfolding read_loop
  read_loop-Steady zero stored loops enough = absurd (omega arith)
  read_loop-Steady (suc fuel) stored loops enough =
      Steady-bind (sys_read (sub32 size (length stored)))
        (read_round min_read stored loops (read_loop fuel size min_read)) (Steady-sys_read _)
        (read_round-Steady fuel stored loops _ enough (read_loop-Steady fuel))

-- isp_serial_read returns on every line, for all sizes, and leaves the counters of resend requests
-- alone.
pub serial_read-Steady : (buf_size min_read : ℕ) → Steady (serial_read buf_size min_read)
unfolding serial_read
serial_read-Steady buf_size min_read = record {
  at = λ w. elim (Bool-cases (ltb buf_size min_read)) [
    | inl short ↦ rw short (_, _, refl, Frame-refl w)
    | inr fits ↦
        let (r, w', e, frame) =
          (read_loop-Steady buf_size min_read (min_read + 103) (pending w) 0 (omega arith)).at
            (record w { next_read_char = 0 }) in
        let same : Frame w w' = record {
          request = frame.request;
          requested = frame.requested;
          junk = frame.junk;
        } in
        (r, w', rw fits e, same)
  ];
}
