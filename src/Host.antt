-- ===== src/Host.antt =====
-- What the commands of lpcisp and lpcprog meet on the host: files by their names, the serial devices,
-- and memory.
use lpctools.Base.{ℕ, Bool, List, Option, ℤ}
use lpctools.File.{Feed, Sink}

pub record Host : Type 0 where
  -- what isp_file_to_buff reads of a file
  pub load : List ℕ → Option (List Feed)
  -- what isp_buff_to_file meets
  pub sink : List ℕ → Sink
  -- the text of a parts description file; whether strtoul sets EINVAL where there is no number, and what the
  -- buffer holds behind each of the file's lines
  pub parts_text : List ℕ → Option (List ℕ)
  pub einval : Bool
  pub behind : ℕ → List ℕ
  -- whether open() succeeds, and which speeds a line can have
  pub opens_line : List ℕ → Bool
  pub is_speed : ℤ → Bool
  -- whether malloc() succeeds
  pub can_allocate : Bool

-- What a command gives: its result, and what it wrote to its output file, if it opened one.
abbrev pub Outcome : Type 0
Outcome = ℤ × Option (List ℕ)
