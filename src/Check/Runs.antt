-- ===== src/Check/Runs.antt =====
-- lpccheck on concrete images.
use lpctools.Base.{
  List, ◌≡◌, refl, arith, [], ◌∷◌, none, some, true, pos, negsuc, overlay, bytes, overlay_at, codes,
}
use lpctools.Machine.Samples.{at_start, cat, cat-AreBytes}
use lpctools.File.{Sink, Feed, chunk, file_to_buff}
use lpctools.Parts.Samples.{lpc1114}
use lpctools.Prog.{flash_target}
use lpctools.File.Contents.{contents}
use lpctools.Check.{
  CheckHost, main, check_image, Opt, vectors_checksum, checked_image, is_protected,
}
use lpctools.Check.Verdicts.{both}
use lpctools.Check.Whole.{meets}
use lpctools.Check.Agrees.{flash_trusted, main-flash_target}
use lpctools.Check.Update.{updated_passes}
use lpctools.Check.Short.{stale, zeros, main_short}

abbrev free_sink : Sink
free_sink = record { opens = true; room = some 0x8000 }

abbrev host : CheckHost
host = record {
  st_size = some 3;
  can_allocate = true;
  junk = zeros;
  load = some (chunk 67 (97 ∷ 116 ∷ []) ∷ []);
  sink = free_sink;
}

-- Without the file's name, and with -n for an image whose checksum is wrong.
unnamed : main host [] [] ≡ (negsuc 0, none)
unfolding main
unnamed = refl

wrong : main host (Opt.no_user_code ∷ []) (codes "a" ∷ []) ≡ (negsuc 2, none)
unfolding main file_to_buff vectors_checksum is_protected overlay
wrong = refl

cat_accepted : (check_image (both 1) cat 0x400 (codes "a") free_sink).0 ≡ pos 0
unfolding check_image is_protected overlay_at overlay
cat_accepted = refl

-- The same image in a file.
abbrev cat_script : List Feed
cat_script = chunk (cat 0) (bytes cat 1 0x3FF) ∷ []

main-flash_target_example :
    flash_target lpc1114 (some cat_script) 1 true at_start
    ≡ flash_trusted lpc1114 (contents cat_script) 1 true at_start
unfolding contents bytes overlay main is_protected overlay_at file_to_buff
main-flash_target_example =
    main-flash_target cat_script zeros free_sink [] (both 1) (codes "a") lpc1114 true at_start tt
      (omega arith) (omega arith) (omega arith) refl refl refl

updated_passes_example :
    ((check_image (both 1) cat 0x400 (codes "a") free_sink).1
      ≡ some (bytes (checked_image cat 1) 0 0x400))
    × ((check_image
          (both 0)
          (overlay (bytes (checked_image cat 1) 0 0x400) stale)
          0x400
          (codes "a")
          free_sink).0
        ≡ pos 0)
updated_passes_example =
    updated_passes cat cat-AreBytes 0x400 (codes "a") free_sink (omega arith) cat_accepted stale
      (record { opens = refl; room = 0x8000; roomy = refl; enough = omega arith })

abbrev two_bytes : List Feed
two_bytes = chunk 1 (2 ∷ []) ∷ []

main_short_example :
    ((main (meets two_bytes stale free_sink) [] (codes "a" ∷ [])).0 ≡ negsuc 3)
    × ((main (meets two_bytes zeros free_sink) [] (codes "a" ∷ [])).0 ≡ pos 0)
unfolding contents
main_short_example = main_short two_bytes (codes "a") free_sink tt (omega arith) (omega arith)
