-- ===== src/Dump.antt =====
-- isp_utils.c: isp_dump, as the text that it prints.
pub mod Lines
pub mod Rounds
pub mod Prints
mod Runs
use lpctools.Base.{
  ℕ, zero, suc, ◌+◌, ◌*◌, ◌%◌, Bool, true, false, not, ◌&&◌, ◌||◌, Option, none, some, List, [],
  ◌∷◌, ◌++◌, codes, ltb, leb, ◌==◌, if◌then◌else◌, add32, sub32, Mem,
}
use lpctools.Text.Hex.{hex_digits}

-- while (count & 0x0F): 15 rounds at most.
pub align : ℕ → ℕ → List ℕ × ℕ
align zero count = ([], count)
align (suc fuel) count =
    let rest = align fuel (add32 count 1) in
    if count % 16 == 0 then ([], count) else (codes "   " ++ rest.0, rest.1)

-- if (count == buf_size): what is printed, the count and the pass behind it
pub at_end : ℕ → ℕ → Bool → List ℕ × ℕ × Bool
unfolding align
at_end buf_size count pass =
    let filled = align 16 count in
    if count == buf_size then (filled.0, sub32 filled.1 16, true) else ([], count, pass)

pub line_head : ℕ → Bool → List ℕ
line_head count pass =
    if count % 16 == 0
    then (if pass then codes " |" else (codes " " ++ (hex_digits 8 count [] ++ codes "  ")))
    else []

-- isgraph, in the C locale.
abbrev is_graph : ℕ → Bool
is_graph c = leb 33 c && leb c 126

pub cell : Bool → ℕ → List ℕ
cell false b = hex_digits 2 b [] ++ codes " "
cell true b = (if is_graph b then b else b'.') ∷ []

-- What a round prints, and the count and the pass behind it; or the `break`.
pub data Round : Type 0 where
  goes_on : List ℕ → ℕ → Bool → Round
  breaks : List ℕ → Round

-- The end of a round, from count++ on; `out` has been printed before.
pub line_end : ℕ → List ℕ → ℕ → Bool → Round
line_end buf_size out count true =
    if count % 16 == 0
    then (if count == buf_size then breaks out else goes_on (out ++ codes "|\n") count false)
    else goes_on out count true
line_end buf_size out count false =
    if count % 16 == 0 then goes_on out (sub32 count 16) true else goes_on out count false

pub dump_round : Mem → ℕ → ℕ → Bool → Round
unfolding at_end line_head cell line_end
dump_round buf buf_size count pass =
    let (fill, count', pass') = at_end buf_size count pass in
    line_end buf_size (fill ++ (line_head count' pass' ++ cell pass' (buf count'))) (add32 count' 1)
      pass'

pub after_round : Round → (ℕ → Bool → Option (List ℕ)) → Option (List ℕ)
after_round (breaks out) next = some (out ++ codes "|\n")
after_round (goes_on out count pass) next = elim (next count pass) [
  | none ↦ none
  | some t ↦ some (out ++ t)
]

-- The loop; `none` stands for a loop that has not ended.
pub dump_loop : ℕ → Mem → ℕ → ℕ → Bool → Option (List ℕ)
unfolding dump_round after_round
dump_loop zero buf buf_size count pass = none
dump_loop (suc fuel) buf buf_size count pass =
    if ltb count buf_size || not pass
    then after_round (dump_round buf buf_size count pass) (dump_loop fuel buf buf_size)
    else some (codes "|\n")

-- Each byte is printed twice.
unfoldable pub dump_text : Mem → ℕ → Option (List ℕ)
unfolding dump_loop
dump_text buf buf_size =
    if buf_size == 0 then some [] else dump_loop (2 * buf_size + 1) buf buf_size 0 false
