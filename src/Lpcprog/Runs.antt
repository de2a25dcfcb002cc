-- ===== src/Lpcprog/Runs.antt =====
-- lpcprog with concrete options, files and devices.
use lpctools.Base.{
  ℕ, ◌≡◌, refl, arith, List, [], ◌∷◌, ◌++◌, none, some, true, false, codes, length, pos, negsuc,
  inl, bytes, overlay, overlay_at,
}
use lpctools.Machine.{done}
use lpctools.Machine.Samples.{at_start, slow_line, cat, cat-AreBytes}
use lpctools.Serial.Idle.{idle}
use lpctools.File.{Feed, chunk}
use lpctools.File.Contents.{contents}
use lpctools.Block.{nb_blocks}
use lpctools.Command.Replies.{digit_reply}
use lpctools.Transfer.GoodBlock.{acknowledged}
use lpctools.Transfer.Receives.{sends}
use lpctools.Transfer.Steady.{Returns}
use lpctools.Host.{Host}
use lpctools.Parts.Format.{print_file, lookup_part}
use lpctools.Parts.Samples.{small_part, table, table-IsEntry}
use lpctools.Prog.{calc_write_size, checked_image, is_protected}
use lpctools.Prog.Erases.{Sector, holds}
use lpctools.Prog.Programs.{CanFlash, loaded, image_of, programs, program_texts}
use lpctools.Prog.Dump.{dump_texts}
use lpctools.Lpcprog.{
  CmdNum, run_command, main, Opt, Settings, parse_options, defaults, choose_parts_file,
}
use lpctools.Lpcprog.Session.{IsCall, greeting, greeted, exit_zero, main-greeting, main_high_id}
use lpctools.Lpcprog.Ends.{lpcprog_ends}
use lpctools.Lpcprog.WholeRuns.{main_flash, main_dump}

abbrev script : List Feed
script = chunk 67 (97 ∷ 116 ∷ []) ∷ []

abbrev host : Host
host = record {
  load = λ name. some script;
  sink = λ name. record { opens = true; room = some 0x8000 };
  parts_text = λ name. some (print_file table);
  einval = false;
  behind = λ line. [];
  opens_line = λ device. true;
  is_speed = λ speed. true;
  can_allocate = true;
}

abbrev opts : List ℕ → List Opt
opts cmd = Opt.device (codes "/dev/ttyS0") ∷ Opt.command cmd ∷ Opt.parts (codes "parts") ∷ []

abbrev settings : List ℕ → Settings
settings cmd = record defaults {
  parts_file_name = some (codes "parts");
  command = some cmd;
  isp_serial_device = some (codes "/dev/ttyS0");
}

call :
    (cmd : List ℕ)
    → IsCall host (opts cmd) (settings cmd) table (codes "parts") (codes "/dev/ttyS0")
unfolding parse_options choose_parts_file
call cmd = record {
  parsed = refl;
  chosen = refl;
  table = refl;
  valid = table-IsEntry;
  named = refl;
  opened = refl;
  slow = omega arith;
}

known : lookup_part 0x8100 table ≡ some small_part
unfolding lookup_part
known = refl

lpcprog_ends_example : Returns (main host (opts (codes "flash")) (codes "a" ∷ []) slow_line)
lpcprog_ends_example = lpcprog_ends host (opts (codes "flash")) (codes "a" ∷ []) slow_line

main-greeting_example :
    main host (opts (codes "ident")) [] (idle at_start 0 (greeting 10000 0x8100 []) [])
    ≡ exit_zero
        (run_command host 1 small_part CmdNum.id [] (idle at_start 0 [] ([] ++ greeted 10000)))
main-greeting_example =
    main-greeting host (opts (codes "ident")) (settings (codes "ident")) table (codes "parts")
      (codes "/dev/ttyS0") [] (call (codes "ident")) at_start 0 [] [] small_part CmdNum.id
      (codes "ent") 0x8100 refl (omega arith) known

main_high_id_example :
    main host (opts (codes "id")) [] (idle at_start 0 (greeting 10000 0x80008100 []) [])
    ≡ done (negsuc 0, none) (idle at_start 0 [] ([] ++ greeted 10000))
main_high_id_example =
    main_high_id host (opts (codes "id")) (settings (codes "id")) table (codes "parts")
      (codes "/dev/ttyS0") [] (call (codes "id")) at_start 0 [] [] (codes "id") 0x80008100 refl
      (omega arith) (omega arith)

-- The device says that its sector is not blank.
abbrev sectors : List Sector
sectors = holds b'0' (codes "\r\n42\r\n") ∷ []

can : CanFlash small_part script at_start.junk 1
unfolding calc_write_size contents is_protected checked_image overlay overlay_at
can = record {
  ram = refl;
  some_bytes = omega arith;
  whole = refl;
  small = omega arith;
  sectors = omega arith;
  encoded = omega arith;
  sound = tt;
  not_empty = omega arith;
  checked = inl refl;
  readable = refl;
}

main_flash_example :
    main host (opts (codes "flash")) (codes "a" ∷ []) (
      idle at_start 0
        (greeting 10000 0x8100 (programs small_part sectors (length (loaded small_part script)) []))
        [])
    ≡ done
        (pos 0, none)
        (idle at_start 0 [] (
          ([] ++ greeted 10000)
          ++ program_texts small_part sectors
              (length (loaded small_part script))
              (checked_image (image_of small_part script at_start.junk) 1)))
main_flash_example =
    main_flash host (opts (codes "flash")) (settings (codes "flash")) table (codes "parts")
      (codes "/dev/ttyS0") (codes "a") (call (codes "flash")) refl small_part 0x8100 (omega arith)
      known at_start [] [] script sectors refl refl can refl ((omega arith, omega arith), tt)

main_dump_example :
    main host (opts (codes "dump")) (codes "a" ∷ []) (
      idle at_start 0
        (greeting 10000 0x8100 (digit_reply 0 ∷ sends cat 0x400 0 (nb_blocks 0x400) []))
        [])
    ≡ done
        (pos 0, some (bytes cat 0 0x400))
        (idle (acknowledged at_start) 0 [] (([] ++ greeted 10000) ++ dump_texts small_part))
main_dump_example =
    main_dump host (opts (codes "dump")) (settings (codes "dump")) table (codes "parts")
      (codes "/dev/ttyS0") (codes "a") (call (codes "dump")) refl small_part 0x8100 (omega arith)
      known at_start [] [] cat refl cat-AreBytes (omega arith) (omega arith) (omega arith)
      (record { opens = refl; room = 0x8000; roomy = refl; enough = omega arith })
