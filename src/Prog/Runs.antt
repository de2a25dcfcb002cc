-- ===== src/Prog/Runs.antt =====
-- The commands of lpcprog for a concrete part.
use lpctools.File.{Sink, Feed, chunk}
use lpctools.Command.{unlock, two_args_text}
use lpctools.Command.Replies.{digit_reply}
use lpctools.Prog.Erases.{Sector, is_blank, holds, sector_replies, sector_texts, erase_flash_erases}
use lpctools.Prog.Dump.{dump_to_file_refused}
use lpctools.Prog.{dump_to_file}
use lpctools.Base.{
  List, ℤ, inr, overlay, to_int, bytes, codes, ◌%◌, ◌^◌, ◌≡◌, refl, arith, [], ◌∷◌, some, true,
  ◌==◌, if◌then◌else◌, inl, ◌⊎◌, pos, ◌++◌, Mem,
}
use lpctools.Machine.{World, done}
use lpctools.Machine.Samples.{at_start, cat, cat-AreBytes}
use lpctools.Parts.Samples.{lpc1114}
use lpctools.Prog.{erase_flash, flash_target, checked_image}
use lpctools.Serial.Idle.{idle}
use lpctools.Prog.Image.{vectors_sum, checked_image-sum}
use lpctools.Prog.Outcomes.{Unflashed}
use lpctools.Prog.Safe.{FlashedInside, flash_target_inside}
use lpctools.Prog.Protected.{flash_target_protected}
use lpctools.File.Contents.{contents}

checked_image-sum_example : vectors_sum (checked_image cat 1) % 2 ^ 32 ≡ 0
checked_image-sum_example = checked_image-sum cat 1 cat-AreBytes (inl refl)

-- CRP_CRP1 at each word.
abbrev locked : Mem
locked i =
    if i % 4 == 0 then 0x78 else if i % 4 == 1 then 0x56 else if i % 4 == 2 then 0x34 else 0x12

abbrev locked_script : List Feed
locked_script = chunk (locked 0) (bytes locked 1 0x2FF) ∷ []

flash_target_protected_example :
    (ret : ℤ) × (w1 : World) × (erase_flash lpc1114 at_start ≡ done ret w1)
    × Unflashed at_start w1 (flash_target lpc1114 (some locked_script) 1 true at_start)
unfolding contents bytes overlay
flash_target_protected_example =
    flash_target_protected lpc1114 locked_script 1 true at_start tt (omega arith) (omega arith)
      (inr (inl refl))

flash_target_inside_example :
    (ret : ℤ) × (w1 : World) × (erase_flash lpc1114 at_start ≡ done ret w1)
    × (Unflashed at_start w1 (flash_target lpc1114 (some locked_script) 0 true at_start)
        ⊎ FlashedInside lpc1114
            (some locked_script)
            0
            w1
            (flash_target lpc1114 (some locked_script) 0 true at_start))
flash_target_inside_example =
    flash_target_inside lpc1114 (some locked_script) 0 true at_start (omega arith)

-- An LPC1114 with blank sectors but for its first.
abbrev sectors : List Sector
sectors =
    holds b'0' (codes "\r\n42\r\n")
    ∷ is_blank
    ∷ is_blank
    ∷ is_blank
    ∷ is_blank
    ∷ is_blank
    ∷ is_blank
    ∷ is_blank
    ∷ []

erase_flash_erases_example :
    erase_flash lpc1114 (idle at_start 0 (digit_reply 0 ∷ sector_replies sectors []) [])
    ≡ done (pos 0) (idle at_start 0 [] ([] ++ (unlock ++ sector_texts 0 sectors)))
erase_flash_erases_example =
    erase_flash_erases lpc1114 sectors at_start 0 [] [] refl (omega arith)
      ((omega arith, omega arith), (tt, (tt, (tt, (tt, (tt, (tt, (tt, tt))))))))

abbrev free_sink : Sink
free_sink = record { opens = true; room = some 0x8000 }

dump_to_file_refused_example :
    dump_to_file lpc1114 (codes "a") true free_sink (idle at_start 0 (digit_reply 4 ∷ []) [])
    ≡ done
        (to_int 0x8000, some (bytes at_start.junk 0 0x8000))
        (idle at_start 0 [] ([] ++ two_args_text b'R' 0 0x8000))
dump_to_file_refused_example =
    dump_to_file_refused lpc1114 (codes "a") free_sink 4 at_start 0 [] [] (omega arith)
      (omega arith) (record { opens = refl; room = 0x8000; roomy = refl; enough = omega arith })
