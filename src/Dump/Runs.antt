-- ===== src/Dump/Runs.antt =====
-- Dumps of concrete data.
use lpctools.Base.{◌/◌, ◌+◌, ◌≡◌, refl, arith, some, codes, ◌++◌}
use lpctools.Text.Hex.{hex_digits}
use lpctools.Machine.Samples.{cat}
use lpctools.Dump.{dump_text}
use lpctools.Dump.Lines.{dump_lines}
use lpctools.Dump.Prints.{dump_text-dump_lines}

-- The last line is filled up, and what is no visible character is shown as a dot.
dump_of_cat :
    dump_text cat 18
    ≡ some (
        codes " 00000000  43 61 74 00 00 00 00 00 00 00 00 00 00 00 00 00  |Cat.............|\n"
        ++ codes " 00000010  00 00                                            |..|\n")
unfolding dump_text hex_digits
dump_of_cat = refl

dump_text-dump_lines_example : dump_text cat 18 ≡ some (dump_lines ((18 + 15) / 16) cat 18 0)
dump_text-dump_lines_example = dump_text-dump_lines cat 18 (omega arith)
