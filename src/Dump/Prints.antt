-- ===== src/Dump/Prints.antt =====
-- What isp_dump prints, line by line.
use Prim.Native.Nat.{min}
use mathlib.Core.List.{append-nil, append_assoc}
use lpctools.Base.{
  ℕ, zero, suc, ◌+◌, ◌-◌, ◌*◌, ◌/◌, ◌%◌, ◌^◌, ◌≤◌, ◌<◌, ◌≡◌, refl, ap, ◌∙◌, arith, Bool, true,
  false, not, ◌||◌, some, List, [], ◌++◌, codes, ltb, ◌==◌, add32, sub32, Mem, inl, inr, Bool-cases,
}
use lpctools.Dump.{align, at_end, line_head, cell, dump_round, dump_loop, dump_text}
use lpctools.Text.Hex.{hex_digits}
use lpctools.Dump.Lines.{cells, gaps, dump_line, dump_lines}
use lpctools.Dump.Rounds.{
  Prints, from, goes, line_end-inside, first_cell, more_cells, last_hex, last_shown, last_of_all,
  bar, ltb_self,
}

cells-last :
    (buf : Mem) (pass : Bool) (p n : ℕ)
    → cells pass buf p (suc n) ≡ cells pass buf p n ++ cell pass (buf (p + n))
unfolding cells
cells-last buf pass p zero =
    append-nil (cell pass (buf p)) ∙ ap (λ q. cell pass (buf q)) {y = p + 0} (omega arith)
cells-last buf pass p (suc n) =
    let at : p + 1 + n ≡ p + suc n = omega arith in
    rw (append_assoc, ← at)
      (ap (λ (t : List ℕ). cell pass (buf p) ++ t) (cells-last buf pass (p + 1) n))

-- The parts of a line, in the order in which they are printed.
parts_in_order :
    (h c cs g b d ds e t : List ℕ)
    → (h ++ ((c ++ cs) ++ (g ++ (b ++ ((d ++ ds) ++ e))))) ++ t
      ≡ (h ++ c) ++ (cs ++ (g ++ ((b ++ d) ++ (ds ++ (e ++ t)))))
parts_in_order h c cs g b d ds e t = simp append_assoc refl

-- What the two passes print of a line of `n + 1` bytes.
dump_line-passes :
    (buf : Mem) (p n : ℕ) (t : List ℕ)
    → p % 16 ≡ 0
    → dump_line buf p (suc n) ++ t
      ≡ (line_head p false ++ cell false (buf p))
        ++ (cells false buf (p + 1) n
            ++ (gaps (16 - suc n)
                ++ ((line_head p true ++ cell true (buf p))
                    ++ (cells true buf (p + 1) n ++ (codes "|\n" ++ t)))))
unfolding cells line_head
dump_line-passes buf p n t first =
    let e : (p % 16 == 0) ≡ true = ground arith in
    rw e (
      parts_in_order (codes " " ++ (hex_digits 8 p [] ++ codes "  ")) (cell false (buf p))
        (cells false buf (p + 1) n) (gaps (16 - suc n)) (codes " |") (cell true (buf p))
        (cells true buf (p + 1) n) (codes "|\n") t)

-- The rest of a line that is not whole.
align-gaps :
    (fuel d count : ℕ)
    → d ≤ fuel
    → d < 16
    → (count + d) % 16 ≡ 0
    → count < 2 ^ 32
    → align fuel count ≡ (gaps d, (count + d) % 2 ^ 32)
unfolding align gaps
align-gaps zero zero count enough few ends small =
    ap (λ (c : ℕ). ([], c)) {y = (count + 0) % 2 ^ 32} (omega arith)
align-gaps zero (suc d) count enough few ends small = absurd (omega arith)
align-gaps (suc fuel) zero count enough few ends small =
    let e : (count % 16 == 0) ≡ true = ground arith in
    rw e (ap (λ (c : ℕ). ([], c)) {y = (count + 0) % 2 ^ 32} (omega arith))
align-gaps (suc fuel) (suc d) count enough few ends small =
    let e : (count % 16 == 0) ≡ false = ground arith in
    let rest =
      align-gaps fuel d (add32 count 1) (omega arith) (omega arith) (omega arith) (omega arith) in
    let same : (add32 count 1 + d) % 2 ^ 32 ≡ (count + suc d) % 2 ^ 32 = omega arith in
    rw (e, rest, same) refl

module _ (buf : Mem) (size : ℕ) (small : size < 2 ^ 32) where
  -- The rest of a whole line, behind its first byte, in each of the two passes.
  rest_hex :
      (k p : ℕ) (t : List ℕ)
      → p % 16 ≡ 0
      → p + 16 ≤ size
      → Prints buf size small k p true t
      → Prints buf size small (k + 15) (p + 1) false (cells false buf (p + 1) 15 ++ t)
  rest_hex k p t first inside rest =
      rw (cells-last buf false (p + 1) 14, append_assoc)
        (from buf size small false _ (omega arith) refl (
          more_cells buf size small 14 (k + 1) (p + 1) false _ (omega (arith, first))
            (omega (arith, first)) (omega arith)
            (last_hex buf size small k (p + 1 + 14) t (omega arith) (omega (arith, first))
              (from buf size small true t (omega arith) (omega arith) rest))))

  rest_shown :
      (k p : ℕ) (t : List ℕ)
      → p % 16 ≡ 0
      → p + 16 < size
      → Prints buf size small k (p + 16) false t
      → Prints buf size small (k + 15) (p + 1) true (cells true buf (p + 1) 15 ++ (bar ++ t))
  rest_shown k p t first inside rest =
      rw (cells-last buf true (p + 1) 14, append_assoc, ← append_assoc _ bar t)
        (from buf size small true _ (omega arith) refl (
          more_cells buf size small 14 (k + 1) (p + 1) true _ (omega (arith, first))
            (omega (arith, first)) (omega arith)
            (last_shown buf size small k (p + 1 + 14) t (omega arith) (omega (arith, first))
              (from buf size small false t (omega arith) (omega arith) rest))))

  rest_of_all :
      (p : ℕ)
      → p % 16 ≡ 0
      → p + 16 ≡ size
      → Prints buf size small 15 (p + 1) true (cells true buf (p + 1) 15 ++ bar)
  rest_of_all p first inside =
      rw (cells-last buf true (p + 1) 14, append_assoc)
        (from buf size small true _ (omega arith) refl (
          more_cells buf size small 14 1 (p + 1) true _ (omega (arith, first))
            (omega (arith, first)) (omega arith)
            (last_of_all buf size small (p + 1 + 14) (omega arith) (omega (arith, first)))))

  -- A whole line, up to the end of its second pass.
  whole_line :
      (k p : ℕ) (t : List ℕ)
      → p % 16 ≡ 0
      → p + 16 ≤ size
      → Prints buf size small k (p + 1) true (cells true buf (p + 1) 15 ++ (bar ++ t))
      → Prints buf size small (k + 17) p false (dump_line buf p 16 ++ t)
  unfolding gaps
  whole_line k p t first inside rest =
      let second = first_cell buf size small k p true _ (omega arith) first rest in
      let start = first_cell buf size small (k + 16) p false _ (omega arith) first (
        from buf size small false _ (omega arith) refl
          (rest_hex (k + 1) p _ first inside second)) in
      rw (dump_line-passes buf p 15 t first) (from buf size small false _ (omega arith) refl start)

  -- The last line, if it is not whole: the round behind its last byte.
  fill_round :
      (k p n : ℕ) (t : List ℕ)
      → p % 16 ≡ 0
      → n < 15
      → p + suc n ≡ size
      → Prints buf size small k (p + 1) true t
      → Prints buf size small
          (k + 1)
          size
          false
          (gaps (16 - suc n) ++ ((line_head p true ++ cell true (buf p)) ++ t))
  unfolding dump_round at_end
  fill_round k p n t first short all rest =
      let here : (size == size) ≡ true = ground arith in
      let filled =
        align-gaps 16 (16 - suc n) size (omega arith) (omega arith) (omega (arith, first)) small in
      let back : sub32 ((size + (16 - suc n)) % 2 ^ 32) 16 ≡ p = omega (arith, first) in
      let next : add32 p 1 ≡ p + 1 = omega arith in
      let over = ltb_self size in
      let on : (ltb size size || not false) ≡ true = rw over refl in
      let out = gaps (16 - suc n) ++ (line_head p true ++ cell true (buf p)) in
      rw (← append_assoc (gaps (16 - suc n)) _ t) (
        goes buf size small k size false out (p + 1) true t on
          (rw (here, filled, back, next)
            (line_end-inside buf size small out (p + 1) true λ h. omega (arith, h, first)))
          rest)

  at_the_end : Prints buf size small 1 size true bar
  unfolding dump_loop
  at_the_end zero enough = absurd (omega arith)
  at_the_end (suc fuel) enough = let over = ltb_self size in rw over refl

  short_line :
      (p n : ℕ)
      → p % 16 ≡ 0
      → n < 15
      → p + suc n ≡ size
      → Prints buf size small (2 * n + 3) p false (dump_line buf p (suc n) ++ [])
  short_line p n first short all =
      let second =
        more_cells buf size small n 1 (p + 1) true bar (omega (arith, first)) (omega (arith, first))
          (omega arith) (from buf size small true _ (omega arith) (omega arith) at_the_end) in
      let fill = fill_round (1 + n) p n _ first short all second in
      let start =
        more_cells buf size small n (2 + n) (p + 1) false _ (omega (arith, first))
          (omega (arith, first)) (omega arith)
          (from buf size small false _ (omega arith) (omega arith) fill) in
      rw (dump_line-passes buf p n [] first) (
        from buf size small false _ (omega arith) refl
          (first_cell buf size small _ p false _ (omega arith) first start))

  lines_printed :
      (lines p : ℕ)
      → p % 16 ≡ 0
      → p < size
      → size ≤ p + 16 * lines
      → p + 16 * lines < size + 16
      → Prints buf size small (2 * (size - p) + 1) p false (dump_lines lines buf size p)
  unfolding dump_lines
  lines_printed zero p first inside enough no_more = absurd (omega arith)
  lines_printed (suc lines) p first inside enough no_more = elim (Bool-cases (ltb (p + 16) size)) [
    | inl more ↦
        let below : p + 16 < size = ground arith in
        let rest =
          lines_printed lines (p + 16) (omega (arith, first)) below (omega arith) (omega arith) in
        let n : min 16 (size - p) ≡ 16 = ground arith in
        rw n (
          from buf size small false _ (omega arith) refl
            (whole_line _ p _ first (omega arith) (rest_shown _ p _ first below rest)))
    | inr over ↦ elim (Bool-cases (size == p + 16)) [
      | inl even ↦
          let whole : p + 16 ≡ size = ground arith in
          let n : min 16 (size - p) ≡ 16 = ground arith in
          let none_left : lines ≡ 0 = omega (arith, whole) in
          rw (n, none_left)
            (from buf size small false _ (omega (arith, whole)) refl
              (whole_line 15 p [] first (omega (arith, whole)) (rest_of_all p first whole)))
      | inr short ↦
          let m = size - p - 1 in
          let few : m < 15 = ground arith in
          let n : min 16 (size - p) ≡ suc m = ground arith in
          let none_left : lines ≡ 0 = omega (arith, few) in
          rw (n, none_left)
            (from buf size small false _ (omega arith) refl
              (short_line p m first few (omega arith)))
    ]
  ]

-- isp_dump of fewer than 2 ^ 32 bytes ends, and prints the lines of the bytes, 16 by 16: the offset,
-- the bytes in hexadecimal, gaps for those missing in the last line, and the bytes as characters
-- between bars.
pub dump_text-dump_lines :
    (buf : Mem) (buf_size : ℕ)
    → buf_size < 2 ^ 32
    → dump_text buf buf_size ≡ some (dump_lines ((buf_size + 15) / 16) buf buf_size 0)
unfolding dump_text dump_lines
dump_text-dump_lines buf buf_size small = elim (Bool-cases (buf_size == 0)) [
  | inl empty ↦
      let none_left : (buf_size + 15) / 16 ≡ 0 = ground arith in rw (empty, none_left) refl
  | inr other ↦
      let some_bytes : 0 < buf_size = ground arith in
      rw other (
        lines_printed buf buf_size small ((buf_size + 15) / 16) 0 refl some_bytes (omega arith)
          (omega arith) (2 * buf_size + 1) (omega arith))
]
