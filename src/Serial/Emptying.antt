-- ===== src/Serial/Emptying.antt =====
-- isp_serial_empty_buffer on an arbitrary line.
use mathlib.Core.List.{append_assoc}
use lpctools.Base.{
  ℕ, zero, suc, ◌+◌, ◌-◌, ◌≤◌, ◌<◌, ◌≡◌, refl, ap, ◌∙◌, sym, arith, List, [], ◌∷◌, ◌++◌, ◌||◌, ltb,
  length, inl, inr, ◌⊎◌, ◌==◌, Bool-cases,
}
use lpctools.Machine.{
  World, Rx, ready, no_data, closed, put_back, read_events, sys_read, Received, got,
}
use lpctools.Machine.Steady.{Ensures, Ensures-inv, Steady, Frame, Frame-refl}
use lpctools.Serial.{
  empty_loop, empty_round, after_line, keep_second, serial_empty_buffer, incoming, max_loops,
  second_char,
}
use lpctools.Serial.Reading.{IsReady, incoming-put_back, put_back-IsReady}

-- What a read of one byte meets.
abbrev pub OneByte : List Rx → Type 0
OneByte rx =
    ((c : ℕ) × (rest : List Rx) × (read_events 1 rx ≡ (got (c ∷ []), rest))
      × (incoming rx ≡ c ∷ incoming rest)
      × (IsReady rx → IsReady rest))
    ⊎ ((rest : List Rx) × (read_events 1 rx ≡ (Received.would_block, rest))
        × (incoming rx ≡ incoming rest)
        × (IsReady rx → incoming rx ≡ []))
    ⊎ ((rest : List Rx) × ((read_events 1 rx ≡ (Received.error, rest))
          ⊎ (read_events 1 rx ≡ (got [], rest)))
        × (incoming rx ≡ incoming rest)
        × (IsReady rx → ⊥))

pub one_byte : (rx : List Rx) → OneByte rx
unfolding incoming
one_byte [] = inr (inl ([], refl, refl, λ is. refl))
one_byte (ready b bs ∷ rest) = inl (
  b,
  put_back bs rest,
  refl,
  ap (λ (t : List ℕ). b ∷ t) (sym (incoming-put_back bs rest)),
  put_back-IsReady bs rest,
)
one_byte (no_data ∷ rest) = inr (inl (rest, refl, refl, λ is. absurd is))
one_byte (Rx.broken ∷ rest) = inr (inr (rest, inl refl, refl, λ is. is))
one_byte (closed ∷ rest) = inr (inr (rest, inr refl, refl, λ is. is))

-- What was to come at `origin` has lost `dropped`, from the front.
abbrev pub Gone : World → List ℕ → World → Type 0
Gone origin dropped w = (incoming origin.rx ≡ dropped ++ incoming w.rx) × Frame origin w

-- Some of the bytes that were to come are gone, from the front.
abbrev pub Drops : World → Unit {0} → World → Type 0
Drops origin _ w = (dropped : List ℕ) × Gone origin dropped w

move : {origin w : World} (rest : List Rx) → Frame origin w → Frame origin (record w { rx = rest })
move rest f = record { request = f.request; requested = f.requested; junk = f.junk }

keep : {origin w : World} (c : ℕ) → Frame origin w → Frame origin (record w { next_read_char = c })
keep c f = record { request = f.request; requested = f.requested; junk = f.junk }

keep_second-Drops :
    (origin : World) (dropped : List ℕ) (unused : ℕ) (second : Received) (w : World)
    → Gone origin dropped w
    → Ensures (Drops origin) (keep_second unused second w)
unfolding keep_second
keep_second-Drops origin dropped unused second w (e, f) =
    elim (Bool-cases (second_char second unused == 10)) [
      | inl lf ↦ rw lf (dropped, (e, f))
      | inr other ↦ rw other (dropped, (e, keep (second_char second unused) f))
    ]

drop_one :
    (before dropped : List ℕ) (rx : List Rx)
    → before ≡ dropped ++ incoming rx
    → (more : List ℕ) × (before ≡ more ++ incoming (read_events 1 rx).1)
drop_one before dropped rx e = elim (one_byte rx) [
  | inl (c, rest, r, i, _) ↦ (dropped ++ (c ∷ []), rw r (e ∙ rw (append_assoc, i)))
  | inr (inl (rest, r, i, _)) ↦ (dropped, rw r (e ∙ rw i))
  | inr (inr (rest, inl r, i, _)) ↦ (dropped, rw r (e ∙ rw i))
  | inr (inr (rest, inr r, i, _)) ↦ (dropped, rw r (e ∙ rw i))
]

after_line-Drops :
    (origin : World) (dropped : List ℕ) (unused : ℕ) (w : World)
    → Gone origin dropped w
    → Ensures (Drops origin) (after_line unused w)
unfolding after_line sys_read
after_line-Drops origin dropped unused w (e, f) = elim (Bool-cases (unused == 13)) [
  | inr other ↦ rw other (keep_second-Drops origin dropped unused (got []) w (e, f))
  | inl cr ↦
      let (more, e') = drop_one (incoming origin.rx) dropped w.rx e in
      rw cr (
        keep_second-Drops origin more unused (read_events 1 w.rx).0
          (record w { rx = (read_events 1 w.rx).1 }) (e', move _ f))
]

empty_loop-Drops :
    (origin : World) (fuel unused loops : ℕ) (dropped : List ℕ) (w : World)
    → length (incoming w.rx) + (102 - loops) < fuel
    → loops ≤ 101
    → Gone origin dropped w
    → Ensures (Drops origin) (empty_loop fuel unused loops w)
unfolding empty_loop empty_round sys_read
empty_loop-Drops origin zero unused loops dropped w enough few e = absurd (omega arith)
empty_loop-Drops origin (suc fuel) unused loops dropped w enough few (e, f) = elim (one_byte w.rx) [
  | inr (inr (rest, inl r, i, _)) ↦ rw r (dropped, (e ∙ rw i, move rest f))
  | inr (inr (rest, inr r, i, _)) ↦ rw r (dropped, (e ∙ rw i, move rest f))
  | inr (inl (rest, r, i, _)) ↦
      let stop =
        after_line-Drops origin dropped unused (record w { rx = rest }) (e ∙ rw i, move rest f) in
      elim (Bool-cases (ltb max_loops loops)) [
        | inl over ↦ rw (r, over) stop
        | inr left ↦ elim (Bool-cases (unused == 13 || unused == 10)) [
          | inl ended ↦ rw (r, left, ended) stop
          | inr more ↦
              rw (r, left, more)
                (empty_loop-Drops origin fuel unused (loops + 1) dropped (record w { rx = rest })
                  (ground (arith, ap length i)) (ground arith) (e ∙ rw i, move rest f))
        ]
      ]
  | inl (c, rest, r, i, _) ↦
      let e' : incoming origin.rx ≡ (dropped ++ (c ∷ [])) ++ incoming rest =
        e ∙ rw (append_assoc, i) in
      elim (Bool-cases (c == 13 || c == 10)) [
        | inl ended ↦
            rw (r, ended)
              (after_line-Drops origin (dropped ++ (c ∷ [])) c (record w { rx = rest })
                (e', move rest f))
        | inr more ↦
            rw (r, more)
              (empty_loop-Drops origin fuel c loops (dropped ++ (c ∷ [])) (record w { rx = rest })
                (omega (arith, ap length i)) few (e', move rest f))
      ]
]

-- On every line isp_serial_empty_buffer ends, and has at most dropped bytes from the front of those
-- that were to come; the counters of resend requests have not changed.
pub serial_empty_buffer-Drops : (w : World) → Ensures (Drops w) (serial_empty_buffer w)
unfolding serial_empty_buffer
serial_empty_buffer-Drops w =
    empty_loop-Drops w (length (incoming w.rx) + 103) 0 0 [] w (omega arith) (omega arith)
      (refl, Frame-refl w)

pub serial_empty_buffer-Steady : Steady serial_empty_buffer
serial_empty_buffer-Steady = record {
  at = λ w.
      let (a, w', e, (_, (_, frame))) = Ensures-inv (Drops w) _ (serial_empty_buffer-Drops w) in
      (a, w', e, frame);
}
