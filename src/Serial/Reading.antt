-- ===== src/Serial/Reading.antt =====
-- What isp_serial_read stores and what it takes off the line.
use mathlib.Core.List.{append-nil, append_assoc}
use lpctools.Base.{
  ℕ, zero, suc, ◌+◌, ◌^◌, ◌≤◌, ◌<◌, ◌≡◌, refl, ap, subst, ◌∙◌, sym, arith, List, [], ◌∷◌, ◌++◌, ltb,
  length, length-append, inl, inr, ◌⊎◌, Bool-cases, take, drop, ℤ, pos, negsuc, sub32, to_int,
  take-append-drop, length-take-le, le→ltb,
}
use lpctools.Machine.{
  World, Rx, ready, no_data, closed, put_back, read_events, sys_read, Received, got, Cmd,
}
use lpctools.Machine.Steady.{Ensures, Frame}
use lpctools.Serial.{read_loop, read_round, serial_read, pending, incoming, max_loops}
use lpctools.Serial.Terminates.{Enough}

abbrev taken : Received → List ℕ
taken (Received.got xs) = xs
taken _ = []

pub incoming-put_back :
    (xs : List ℕ) (rest : List Rx) → incoming (put_back xs rest) ≡ xs ++ incoming rest
unfolding incoming
incoming-put_back [] rest = refl
incoming-put_back (x ∷ xs) rest = refl

-- A read takes the first bytes, `size` at most, and drops none.
read_events_takes :
    (size : ℕ) (rx : List Rx)
    → (length (taken (read_events size rx).0) ≤ size)
      × (incoming rx ≡ taken (read_events size rx).0 ++ incoming (read_events size rx).1)
unfolding incoming
read_events_takes zero rx = (omega arith, refl)
read_events_takes (suc size) [] = (omega arith, refl)
read_events_takes (suc size) (ready b bs ∷ rest) = (
  omega (arith, length-take-le size bs),
  ap (λ (t : List ℕ). b ∷ t) (rw (incoming-put_back, ← append_assoc, take-append-drop)),
)
read_events_takes (suc size) (no_data ∷ rest) = (omega arith, refl)
read_events_takes (suc size) (Rx.broken ∷ rest) = (omega arith, refl)
read_events_takes (suc size) (closed ∷ rest) = (omega arith, refl)

-- What isp_serial_read may return: -1, 0, or the count of the bytes stored. The bytes that were to come
-- are those stored and those that are still to come.
pub record Reads (origin : World) (buf_size : ℕ) (r : ℤ × List ℕ) (w : World) : Type 0 where
  pub result : (r.0 ≡ negsuc 0) ⊎ (r.0 ≡ pos 0) ⊎ (r.0 ≡ to_int (length r.1))
  pub fits : length r.1 ≤ buf_size
  pub in_order : pending origin ++ incoming origin.rx ≡ r.1 ++ incoming w.rx
  pub none_kept : w.next_read_char ≡ 0
  pub same_sent : w.sent ≡ origin.sent
  pub frame : Frame origin w

module _ (origin : World) (size min_read : ℕ) (small : size < 2 ^ 32)
    (least : min_read ≤ size) where
  record Ready (stored : List ℕ) (w : World) : Type 0 where
    fits : length stored ≤ size
    in_order : pending origin ++ incoming origin.rx ≡ stored ++ incoming w.rx
    none_kept : w.next_read_char ≡ 0
    same_sent : w.sent ≡ origin.sent
    frame : Frame origin w

  Ready-Reads :
      (stored : List ℕ) (w : World) (r : ℤ)
      → Ready stored w
      → (r ≡ negsuc 0) ⊎ (r ≡ pos 0) ⊎ (r ≡ to_int (length stored))
      → Reads origin size (r, stored) w
  Ready-Reads stored w r ok result = record {
    result = result;
    fits = ok.fits;
    in_order = ok.in_order;
    none_kept = ok.none_kept;
    same_sent = ok.same_sent;
    frame = ok.frame;
  }

  read_round-Reads :
      (fuel : ℕ) (stored : List ℕ) (loops : ℕ) (next : List ℕ → ℕ → Cmd (ℤ × List ℕ)) (w : World)
      → Enough size min_read (suc fuel) stored loops
      → ((xs : List ℕ) (n : ℕ) (w' : World)
          → Enough size min_read fuel xs n
          → Ready xs w'
          → Ensures (Reads origin size) (next xs n w'))
      → (r : Received) → Ready (stored ++ taken r) w
      → Ensures (Reads origin size) (read_round min_read stored loops next r w)
  unfolding read_round
  read_round-Reads fuel stored loops next w enough ih Received.would_block ok =
      let ok' : Ready stored w = subst (λ x. Ready x w) (append-nil stored) ok in
      let stop = Ready-Reads stored w _ ok' (inr (inr refl)) in
      elim (Bool-cases (ltb max_loops loops)) [
        | inl over ↦ rw over stop
        | inr left ↦ elim (Bool-cases (ltb (length stored) min_read)) [
          | inr filled ↦ rw (left, filled) stop
          | inl more ↦ rw (left, more) (ih stored (loops + 1) w (ground arith) ok')
        ]
      ]
  read_round-Reads fuel stored loops next w enough ih Received.error ok =
      Ready-Reads stored w _ (subst (λ x. Ready x w) (append-nil stored) ok) (inl refl)
  read_round-Reads fuel stored loops next w enough ih (Received.got []) ok =
      Ready-Reads stored w _ (subst (λ x. Ready x w) (append-nil stored) ok) (inr (inl refl))
  read_round-Reads fuel stored loops next w enough ih (Received.got (b ∷ bs)) ok =
      let stored' = stored ++ (b ∷ bs) in
      elim (Bool-cases (ltb (length stored') min_read)) [
        | inr filled ↦ rw filled (Ready-Reads stored' w _ ok (inr (inr refl)))
        | inl more ↦ rw more (ih stored' loops w (ground (arith, length-append stored (b ∷ bs))) ok)
      ]

  Ready-sys_read :
      (stored : List ℕ) (w : World)
      → Ready stored w
      → Ready
          (stored ++ taken (read_events (sub32 size (length stored)) w.rx).0)
          (record w { rx = (read_events (sub32 size (length stored)) w.rx).1 })
  Ready-sys_read stored w ok =
      let n = sub32 size (length stored) in
      let (short, split) = read_events_takes n w.rx in
      let xs = taken (read_events n w.rx).0 in
      record {
        fits = omega (arith, short, length-append stored xs, ok.fits);
        in_order =
            ok.in_order ∙ ap (λ (t : List ℕ). stored ++ t) split ∙ sym (append_assoc stored xs _);
        none_kept = ok.none_kept;
        same_sent = ok.same_sent;
        frame = record {
          request = ok.frame.request;
          requested = ok.frame.requested;
          junk = ok.frame.junk;
        };
      }

  read_loop-Reads :
      (fuel : ℕ) (stored : List ℕ) (loops : ℕ) (w : World)
      → Enough size min_read fuel stored loops
      → Ready stored w
      → Ensures (Reads origin size) (read_loop fuel size min_read stored loops w)
  unfolding read_loop sys_read
  read_loop-Reads zero stored loops w enough ok = absurd (omega arith)
  read_loop-Reads (suc fuel) stored loops w enough ok =
      read_round-Reads fuel stored loops (read_loop fuel size min_read) _ enough
        (read_loop-Reads fuel) (read_events (sub32 size (length stored)) w.rx).0
        (Ready-sys_read stored w ok)

-- If its buffer is not empty, is smaller than 2 ^ 32 bytes and holds the least count, isp_serial_read
-- ends on every line; the result is -1, 0 or the count of the bytes stored, which fit the buffer; the
-- bytes that were to come, the character kept first, are those stored and those still to come, in
-- order.
pub serial_read-Reads :
    (buf_size min_read : ℕ) (w : World)
    → buf_size < 2 ^ 32
    → min_read ≤ buf_size
    → 0 < buf_size
    → Ensures (Reads w buf_size) (serial_read buf_size min_read w)
unfolding serial_read
serial_read-Reads buf_size min_read w small least room = rw (le→ltb buf_size min_read least) (
    read_loop-Reads w buf_size min_read small least (min_read + 103) (pending w) 0
      (record w { next_read_char = 0 }) (omega arith)
      (record {
        fits = ground arith;
        in_order = refl;
        none_kept = refl;
        same_sent = refl;
        frame = record { request = refl; requested = refl; junk = refl };
      }))

-- A line that only hands bytes over.
abbrev pub IsReady : List Rx → Type 0
IsReady [] = Unit {0}
IsReady (ready b bs ∷ rest) = IsReady rest
IsReady (_ ∷ rest) = ⊥

pub put_back-IsReady : (ds : List ℕ) (rest : List Rx) → IsReady rest → IsReady (put_back ds rest)
put_back-IsReady [] rest is = is
put_back-IsReady (d ∷ ds) rest is = is

read_events-IsReady :
    (size : ℕ) (rx : List Rx)
    → 0 < size
    → IsReady rx
    → 0 < length (incoming rx)
    → (x : ℕ) × (xs : List ℕ) × (rest : List Rx) × (read_events size rx ≡ (got (x ∷ xs), rest))
      × IsReady rest
unfolding incoming
read_events-IsReady zero rx room is some_byte = absurd (omega arith)
read_events-IsReady (suc size) [] room is some_byte = absurd (omega arith)
read_events-IsReady (suc size) (ready b bs ∷ rest) room is some_byte =
    (b, take size bs, put_back (drop size bs) rest, refl, put_back-IsReady (drop size bs) rest is)
read_events-IsReady (suc size) (no_data ∷ rest) room is some_byte = absurd is
read_events-IsReady (suc size) (Rx.broken ∷ rest) room is some_byte = absurd is
read_events-IsReady (suc size) (closed ∷ rest) room is some_byte = absurd is
