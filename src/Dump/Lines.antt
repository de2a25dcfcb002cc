-- ===== src/Dump/Lines.antt =====
-- A dump, line by line: the offset, up to 16 bytes in hexadecimal, and the same bytes as characters.
use lpctools.Base.{ℕ, zero, suc, ◌+◌, ◌-◌, Bool, true, false, List, [], ◌++◌, codes, Mem}
use Prim.Native.Nat.{min}
use lpctools.Text.Hex.{hex_digits}
use lpctools.Dump.{cell}

-- The cells of `n` bytes from `p` on.
unfoldable pub cells : Bool → Mem → ℕ → ℕ → List ℕ
cells pass buf p zero = []
cells pass buf p (suc n) = cell pass (buf p) ++ cells pass buf (p + 1) n

unfoldable pub gaps : ℕ → List ℕ
gaps zero = []
gaps (suc n) = codes "   " ++ gaps n

-- The line at offset `p` with `n` bytes.
abbrev pub dump_line : Mem → ℕ → ℕ → List ℕ
dump_line buf p n =
    (codes " " ++ (hex_digits 8 p [] ++ codes "  "))
    ++ (cells false buf p n
        ++ (gaps (16 - n) ++ (codes " |" ++ (cells true buf p n ++ codes "|\n"))))

-- `lines` lines from offset `p` on.
unfoldable pub dump_lines : ℕ → Mem → ℕ → ℕ → List ℕ
dump_lines zero buf buf_size p = []
dump_lines (suc lines) buf buf_size p =
    dump_line buf p (min 16 (buf_size - p)) ++ dump_lines lines buf buf_size (p + 16)
