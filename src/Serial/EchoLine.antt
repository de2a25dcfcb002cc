-- ===== src/Serial/EchoLine.antt =====
-- isp_serial_empty_buffer on the echo of a command.
use lpctools.Base.{
  ℕ, zero, suc, ◌+◌, ◌<◌, ◌≡◌, ◌≢◌, refl, ap, ◌∙◌, sym, arith, List, [], ◌∷◌, ◌++◌, false, ◌||◌,
  length, length-append, inl, inr, ◌==◌, All,
}
use lpctools.Machine.{World, sys_read}
use lpctools.Machine.Steady.{Ensures}
use lpctools.Serial.{
  empty_loop, empty_round, after_line, keep_second, serial_empty_buffer, incoming,
}
use lpctools.Serial.Emptying.{one_byte}
use lpctools.Serial.Reading.{IsReady}

-- Text without a line end.
abbrev pub IsPlain : List ℕ → Type 0
IsPlain = All (λ c. (c ≢ 13) × (c ≢ 10))

after_line_crlf :
    (w : World) (rest : List ℕ)
    → IsReady w.rx
    → incoming w.rx ≡ 10 ∷ rest
    → Ensures
        (λ _ w'. (incoming w'.rx ≡ rest) × IsReady w'.rx × (w'.next_read_char ≡ w.next_read_char))
        (after_line 13 w)
unfolding after_line sys_read keep_second
after_line_crlf w rest is e = elim (one_byte w.rx) [
  | inr (inr (others, _, _, not_ready)) ↦ absurd (not_ready is)
  | inr (inl (others, r, i, empty)) ↦ absurd (omega (arith, ap length (sym e ∙ empty is)))
  | inl (c, others, r, i, ready') ↦
      let same : c ∷ incoming others ≡ 10 ∷ rest = sym i ∙ e in
      let lf : c ≡ 10 = cc in rw (r, lf) (cc, ready' is, refl)
]

module _ (rest : List ℕ) where
  -- The line has been taken off, and nothing else has changed that later reads look at.
  abbrev pub LineTaken : ℕ → Unit {0} → World → Type 0
  LineTaken kept _ w = (incoming w.rx ≡ rest) × IsReady w.rx × (w.next_read_char ≡ kept)

  empty_loop_line :
      (echo : List ℕ) (fuel unused loops : ℕ) (w : World)
      → IsReady w.rx
      → incoming w.rx ≡ echo ++ (13 ∷ 10 ∷ rest)
      → IsPlain echo
      → length echo < fuel
      → Ensures (LineTaken w.next_read_char) (empty_loop fuel unused loops w)
  unfolding empty_loop empty_round sys_read
  empty_loop_line echo zero unused loops w is e plain enough = absurd (omega arith)
  empty_loop_line [] (suc fuel) unused loops w is e plain enough = elim (one_byte w.rx) [
    | inr (inr (others, _, _, not_ready)) ↦ absurd (not_ready is)
    | inr (inl (others, r, i, empty)) ↦ absurd (omega (arith, ap length (sym e ∙ empty is)))
    | inl (c, others, r, i, ready') ↦
        let same : c ∷ incoming others ≡ 13 ∷ 10 ∷ rest = sym i ∙ e in
        let cr : c ≡ 13 = cc in
        rw (r, cr) (after_line_crlf (record w { rx = others }) rest (ready' is) (cc))
  ]
  empty_loop_line (x ∷ echo) (suc fuel) unused loops w is e (plain_x, plain) enough =
      elim (one_byte w.rx) [
        | inr (inr (others, _, _, not_ready)) ↦ absurd (not_ready is)
        | inr (inl (others, r, i, empty)) ↦ absurd (omega (arith, ap length (sym e ∙ empty is)))
        | inl (c, others, r, i, ready') ↦
            let same : c ∷ incoming others ≡ x ∷ (echo ++ (13 ∷ 10 ∷ rest)) = sym i ∙ e in
            let first : c ≡ x = cc in
            let go_on : (x == 13 || x == 10) ≡ false = ground arith in
            rw (r, first, go_on)
              (empty_loop_line echo fuel x loops (record w { rx = others }) (ready' is) (cc) plain
                (omega arith))
      ]

  -- On a line on which no read fails or waits, and that hands over a text without line ends and then
  -- CR LF, isp_serial_empty_buffer takes exactly that line off and keeps no character.
  pub serial_empty_buffer_line :
      (echo : List ℕ) (w : World)
      → IsReady w.rx
      → incoming w.rx ≡ echo ++ (13 ∷ 10 ∷ rest)
      → IsPlain echo
      → Ensures (LineTaken w.next_read_char) (serial_empty_buffer w)
  unfolding serial_empty_buffer
  serial_empty_buffer_line echo w is e plain =
      empty_loop_line echo (length (incoming w.rx) + 103) 0 0 w is e plain
        (omega (arith, ap length e, length-append echo (13 ∷ 10 ∷ rest)))
