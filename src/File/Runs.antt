-- ===== src/File/Runs.antt =====
-- A file read in chunks.
use lpctools.Base.{
  ◌≡◌, refl, arith, true, false, codes, bytes, List, [], ◌∷◌, take, length, to_int, some, pos,
}
use lpctools.Machine.Samples.{cat}
use lpctools.Text.{same_prefix}
use lpctools.File.Written.{file_to_buff-buff_to_file}
use lpctools.File.{Sink, buff_to_file, Feed, chunk, no_data, file_to_buff}
use lpctools.File.Contents.{contents, file_to_buff-contents}

abbrev two_chunks : List Feed
two_chunks = chunk 1 (2 ∷ 3 ∷ []) ∷ no_data ∷ chunk 4 (5 ∷ 6 ∷ []) ∷ []

two_chunks_cut : file_to_buff (some two_chunks) 5 ≡ (pos 5, 1 ∷ 2 ∷ 3 ∷ 4 ∷ 5 ∷ [])
unfolding file_to_buff
two_chunks_cut = refl

file_to_buff-contents_example :
    file_to_buff (some two_chunks) 5
    ≡ (to_int (length (take 5 (contents two_chunks))), take 5 (contents two_chunks))
file_to_buff-contents_example = file_to_buff-contents two_chunks 5 tt

abbrev free_sink : Sink
free_sink = record { opens = true; room = some 10 }

cat_written : buff_to_file cat 3 (codes "a") free_sink ≡ (pos 3, some (67 ∷ 97 ∷ 116 ∷ []))
unfolding buff_to_file bytes same_prefix
cat_written = refl

-- The empty name is the standard output, too.
nameless :
    buff_to_file cat 1 [] (record { opens = false; room = some 10 }) ≡ (pos 1, some (67 ∷ []))
unfolding buff_to_file bytes same_prefix
nameless = refl

abbrev cat_script : List Feed
cat_script = chunk 67 (97 ∷ []) ∷ no_data ∷ chunk 116 [] ∷ []

cat_written_in_parts :
    buff_to_file cat 3 (codes "a") free_sink ≡ (pos 3, some (contents cat_script))
unfolding buff_to_file bytes contents same_prefix
cat_written_in_parts = refl

file_to_buff-buff_to_file_example : file_to_buff (some cat_script) 3 ≡ (pos 3, bytes cat 0 3)
file_to_buff-buff_to_file_example =
    file_to_buff-buff_to_file cat 3 (codes "a") free_sink cat_script (omega arith)
      cat_written_in_parts tt
