-- ===== src/Check/Whole.antt =====
-- What lpccheck does with a file whose reads do not fail.
use lpctools.Base.{
  ℕ, ◌^◌, ◌<◌, ◌≡◌, refl, arith, false, List, [], ◌∷◌, some, true, length, take, u32, is_nonpos,
  to_int, to_unsigned, Mem, overlay,
}
use lpctools.File.{Feed, Sink}
use lpctools.File.Contents.{contents, IsSound, file_to_buff-contents}
use lpctools.Check.{
  CheckHost, Opt, Settings, settings, defaults, parse_options, check_image, check_file, main,
}

-- What lpccheck meets where the file has the bytes that `script` hands over.
abbrev pub meets : List Feed → Mem → Sink → CheckHost
meets script junk sink = record {
  st_size = some (length (contents script));
  can_allocate = true;
  junk = junk;
  load = some script;
  sink = sink;
}

pub to_int-positive : (n : ℕ) → 0 < n → n < 2 ^ 31 → is_nonpos (to_int n) ≡ false
to_int-positive n some_bytes small = ground arith

pub to_unsigned-to_int : (n : ℕ) → n < 2 ^ 31 → to_unsigned (to_int n) ≡ n
to_unsigned-to_int n small = ground arith

pub take_all : (xs : List ℕ) → take (length xs) xs ≡ xs
take_all [] = refl
take_all (x ∷ xs) = rw (take_all xs) refl

-- The image is the file, with the rest of the buffer behind it.
pub main-check_image :
    (script : List Feed) (junk : Mem) (sink : Sink) (opts : List Opt) (s : Settings)
    (filename : List ℕ)
    → IsSound script
    → 0 < length (contents script)
    → length (contents script) < 2 ^ 31
    → parse_options opts defaults ≡ settings s
    → main (meets script junk sink) opts (filename ∷ [])
      ≡ check_image s (overlay (contents script) junk) (length (contents script)) filename sink
unfolding main check_file
main-check_image script junk sink opts s filename sound some_bytes small parsed =
    let c = contents script in
    let whole : u32 (length c) ≡ length c = omega arith in
    rw
      (
        parsed,
        whole,
        file_to_buff-contents script (length c) sound,
        take_all c,
        to_int-positive (length c) some_bytes small,
        to_unsigned-to_int (length c) small,
        main,
      )
      refl
