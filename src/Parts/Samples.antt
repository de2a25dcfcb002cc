-- ===== src/Parts/Samples.antt =====
-- Parts and a parts description file for the runs.
use lpctools.Base.{refl, arith, List, [], ◌∷◌, All, codes}
use lpctools.Parts.{PartDesc}
use lpctools.Parts.Format.{Entry, IsEntry, NoNewline, comment, blank, part}

-- An LPC1114: 32 KB of flash in 8 sectors, 8 KB of RAM.
abbrev pub lpc1114 : PartDesc
lpc1114 = record {
  part_id = 0x2540102B;
  name = codes "LPC1114";
  flash_base = 0;
  flash_size = 0x8000;
  flash_nb_sectors = 8;
  reset_vector_offset = 4;
  ram_base = 0x10000000;
  ram_size = 0x2000;
  ram_buff_offset = 0x800;
  ram_buff_size = 0x400;
  uuencode = 1;
}

-- A part with one sector of 1 KB.
abbrev pub small_part : PartDesc
small_part = record lpc1114 {
  part_id = 0x8100;
  name = codes "LPC8";
  flash_size = 0x400;
  flash_nb_sectors = 1;
}

abbrev pub table : List Entry
table = comment (codes " Parts") ∷ blank ∷ part small_part ∷ part lpc1114 ∷ []

small_text : All NoNewline (codes " Parts")
small_text = ground arith

lpc1114-IsEntry : IsEntry (part lpc1114)
lpc1114-IsEntry = (omega arith, refl, omega arith, ground arith, omega arith)

small_part-IsEntry : IsEntry (part small_part)
small_part-IsEntry = (omega arith, refl, omega arith, ground arith, omega arith)

pub table-IsEntry : All IsEntry table
table-IsEntry = ((small_text, omega arith), (tt, (small_part-IsEntry, (lpc1114-IsEntry, tt))))
