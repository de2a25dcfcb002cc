-- ===== src/Dump/Rounds.antt =====
-- The rounds of isp_dump, one byte after the other.
use mathlib.Core.List.{append_assoc}
use lpctools.Base.{
  ℕ, zero, suc, ◌+◌, ◌-◌, ◌%◌, ◌^◌, ◌≤◌, ◌<◌, ◌≡◌, ◌≢◌, refl, subst, ◌∙◌, arith, Bool, true, false,
  not, ◌||◌, some, List, [], ◌++◌, codes, ltb, ◌==◌, lt→ltb, add32, sub32, Mem,
}
use lpctools.Dump.{
  at_end, line_head, cell, goes_on, breaks, line_end, dump_round, after_round, dump_loop,
}
use lpctools.Dump.Lines.{cells}

abbrev pub bar : List ℕ
bar = codes "|\n"

pub ltb_self : (n : ℕ) → ltb n n ≡ false
ltb_self n = ground arith

module _ (buf : Mem) (size : ℕ) (small : size < 2 ^ 32) where
  -- The loop prints `t` from here on, with fuel `k` or more.
  abbrev pub Prints : ℕ → ℕ → Bool → List ℕ → Type 0
  Prints k count pass t = (fuel : ℕ) → k ≤ fuel → dump_loop fuel buf size count pass ≡ some t

  pub from :
      {k k' count count' : ℕ} (pass : Bool) (t : List ℕ)
      → k ≤ k'
      → count ≡ count'
      → Prints k count pass t
      → Prints k' count' pass t
  from pass t le e rest fuel enough =
      subst (λ c. dump_loop fuel buf size c pass ≡ some t) e (rest fuel (omega arith))

  pub goes :
      (k count : ℕ) (pass : Bool) (out : List ℕ) (count' : ℕ) (pass' : Bool) (t : List ℕ)
      → (ltb count size || not pass) ≡ true
      → dump_round buf size count pass ≡ goes_on out count' pass'
      → Prints k count' pass' t
      → Prints (k + 1) count pass (out ++ t)
  unfolding dump_loop after_round
  goes k count pass out count' pass' t on e rest zero enough = absurd (omega arith)
  goes k count pass out count' pass' t on e rest (suc fuel) enough =
      rw (on, e, rest fuel (omega arith)) refl

  pub stops :
      (count : ℕ) (pass : Bool) (out : List ℕ)
      → (ltb count size || not pass) ≡ true
      → dump_round buf size count pass ≡ breaks out
      → Prints 1 count pass (out ++ bar)
  unfolding dump_loop after_round
  stops count pass out on e zero enough = absurd (omega arith)
  stops count pass out on e (suc fuel) enough = rw (on, e) refl

  pub round_inside :
      (count : ℕ) (pass : Bool)
      → count < size
      → dump_round buf size count pass
        ≡ line_end size (line_head count pass ++ cell pass (buf count)) (count + 1) pass
  unfolding dump_round at_end
  round_inside count pass inside =
      let other : (count == size) ≡ false = ground arith in
      let next : add32 count 1 ≡ count + 1 = omega arith in rw (other, next) refl

  pub on_inside : (count : ℕ) (pass : Bool) → count < size → (ltb count size || not pass) ≡ true
  on_inside count pass inside = rw (lt→ltb count size inside) refl

  pub line_end-inside :
      (out : List ℕ) (count : ℕ) (pass : Bool)
      → count % 16 ≢ 0
      → line_end size out count pass ≡ goes_on out count pass
  unfolding line_end
  line_end-inside out count true more =
      let e : (count % 16 == 0) ≡ false = ground arith in rw e refl
  line_end-inside out count false more =
      let e : (count % 16 == 0) ≡ false = ground arith in rw e refl

  -- One byte within a line.
  pub one_cell :
      (k count : ℕ) (pass : Bool) (t : List ℕ)
      → count < size
      → 0 < count % 16
      → count % 16 < 15
      → Prints k (count + 1) pass t
      → Prints (k + 1) count pass (cell pass (buf count) ++ t)
  unfolding line_head
  one_cell k count pass t inside behind before rest =
      let e : (count % 16 == 0) ≡ false = ground arith in
      let head : line_head count pass ≡ [] = rw e refl in
      goes k count pass (cell pass (buf count)) (count + 1) pass t (on_inside count pass inside)
        (round_inside count pass inside
          ∙ rw head
              (line_end-inside (cell pass (buf count)) (count + 1) pass λ h. omega (arith, h)))
        rest

  -- The first byte of a line.
  pub first_cell :
      (k count : ℕ) (pass : Bool) (t : List ℕ)
      → count < size
      → count % 16 ≡ 0
      → Prints k (count + 1) pass t
      → Prints (k + 1) count pass ((line_head count pass ++ cell pass (buf count)) ++ t)
  first_cell k count pass t inside first rest =
      goes k count pass (line_head count pass ++ cell pass (buf count)) (count + 1) pass t
        (on_inside count pass inside)
        (round_inside count pass inside
          ∙ line_end-inside _ (count + 1) pass λ h. omega (arith, h, first))
        rest

  pub more_cells :
      (d k count : ℕ) (pass : Bool) (t : List ℕ)
      → 0 < count % 16
      → count % 16 + d ≤ 15
      → count + d ≤ size
      → Prints k (count + d) pass t
      → Prints (k + d) count pass (cells pass buf count d ++ t)
  unfolding cells
  more_cells zero k count pass t behind before inside rest =
      from pass t (omega arith) (omega arith) rest
  more_cells (suc d) k count pass t behind before inside rest =
      let more =
        more_cells d k (count + 1) pass t (omega arith) (omega arith) (omega arith)
          (from pass t (omega arith) (omega arith) rest) in
      rw append_assoc (
        from pass _ (omega arith) refl (
          one_cell (k + d) count pass (cells pass buf (count + 1) d ++ t) (omega arith) behind
            (omega arith) more))

  -- The last byte of a line.
  pub last_hex :
      (k count : ℕ) (t : List ℕ)
      → count < size
      → count % 16 ≡ 15
      → Prints k (count - 15) true t
      → Prints (k + 1) count false (cell false (buf count) ++ t)
  unfolding line_head line_end
  last_hex k count t inside last rest =
      let e : (count % 16 == 0) ≡ false = ground arith in
      let e' : ((count + 1) % 16 == 0) ≡ true = ground arith in
      let back : sub32 (count + 1) 16 ≡ count - 15 = omega arith in
      goes k count false (cell false (buf count)) (count - 15) true t (on_inside count false inside)
        (round_inside count false inside ∙ rw (e, e', back) refl) rest

  pub last_shown :
      (k count : ℕ) (t : List ℕ)
      → count + 1 < size
      → count % 16 ≡ 15
      → Prints k (count + 1) false t
      → Prints (k + 1) count true ((cell true (buf count) ++ bar) ++ t)
  unfolding line_head line_end
  last_shown k count t inside last rest =
      let e : (count % 16 == 0) ≡ false = ground arith in
      let e' : ((count + 1) % 16 == 0) ≡ true = ground arith in
      let more : (count + 1 == size) ≡ false = ground arith in
      goes k count true (cell true (buf count) ++ bar) (count + 1) false t
        (on_inside count true (omega arith))
        (round_inside count true (omega arith) ∙ rw (e, e', more) refl) rest

  pub last_of_all :
      (count : ℕ)
      → count + 1 ≡ size
      → count % 16 ≡ 15
      → Prints 1 count true (cell true (buf count) ++ bar)
  unfolding line_head line_end
  last_of_all count all last =
      let e : (count % 16 == 0) ≡ false = ground arith in
      let e' : ((count + 1) % 16 == 0) ≡ true = ground arith in
      let over : (count + 1 == size) ≡ true = ground arith in
      stops count true (cell true (buf count)) (on_inside count true (omega arith))
        (round_inside count true (omega arith) ∙ rw (e, e', over) refl)
