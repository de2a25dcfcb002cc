-- ===== src/File.antt =====
-- isp_utils.c: isp_file_to_buff and isp_buff_to_file. A file that is read is a finite script of the outcomes
-- of its reads, behind which its end is reached. A file whose data never come is not described: the loop of
-- isp_file_to_buff would wait for ever.
pub mod Contents
pub mod Sizes
pub mod Written
mod Runs
use lpctools.Text.{same_prefix}
use lpctools.Base.{
  Bool, not, Mem, bytes, codes, ◌&&◌, eq_ℤ, true, false, ℕ, ◌-◌, Option, none, some, List, [], ◌∷◌,
  ◌++◌, length, take, ltb, if◌then◌else◌, ℤ, negsuc, to_int,
}

-- What a read() of the file meets: some bytes, never none, or no bytes yet, or an error.
pub data Feed : Type 0 where
  chunk : ℕ → List ℕ → Feed
  no_data : Feed
  broken : Feed

-- The do loop. `stored` is what data[] holds from its start on; `continue` goes to the loop's condition.
pub read_file : List Feed → ℕ → List ℕ → ℤ × List ℕ
read_file [] len stored = (to_int (length stored), stored)
read_file (chunk b bs ∷ rest) len stored =
    let stored' = stored ++ take (len - length stored) (b ∷ bs) in
    if ltb (length stored') len
    then read_file rest len stored'
    else (to_int (length stored'), stored')
read_file (no_data ∷ rest) len stored =
    if ltb (length stored) len then read_file rest len stored else (to_int (length stored), stored)
read_file (broken ∷ rest) len stored = (negsuc 11, stored)

-- isp_file_to_buff; `none` is a file that cannot be opened.
unfoldable pub file_to_buff : Option (List Feed) → ℕ → ℤ × List ℕ
unfolding read_file
file_to_buff none len = (negsuc 12, [])
file_to_buff (some script) len = read_file script len []

-- What a file that is written meets: whether it can be opened, and how many bytes its write() takes at
-- most, or `none` if it fails.
pub record Sink : Type 0 where
  pub opens : Bool
  pub room : Option ℕ

-- The name stands for the standard output; the empty one does, too.
abbrev pub is_stdout : List ℕ → Bool
is_stdout filename = same_prefix (length filename) filename (codes "-")

-- write()
abbrev pub file_write : Option ℕ → Mem → ℕ → ℤ × List ℕ
file_write none data_at len = (negsuc 0, [])
file_write (some room) data_at len =
    let count = (if ltb len room then len else room) in (to_int count, bytes data_at 0 count)

-- isp_buff_to_file: the result, and the bytes that the file then holds, or `none` if it was not opened.
unfoldable pub buff_to_file : Mem → ℕ → List ℕ → Sink → ℤ × Option (List ℕ)
buff_to_file data_at len filename sink =
    if not (is_stdout filename) && not sink.opens
    then (negsuc 0, none)
    else (let (ret, written) = file_write sink.room data_at len in
        ((if not (eq_ℤ ret (to_int len)) then negsuc 1 else ret), some written))
