-- ===== src/Check.antt =====
-- check.c: main of lpccheck, with its own copy of the checks of flash_target. getopt_long() is not modelled: main is given the options that it returns,
-- in order, and the arguments that it leaves.
pub mod Verdicts
pub mod Whole
pub mod Short
pub mod Agrees
pub mod Update
mod Runs
use lpctools.Base.{
  Bool, true, false, not, ◌&&◌, List, [], ◌∷◌, Option, none, some, ◌==◌, if◌then◌else◌, u32, ℤ, pos,
  negsuc, is_nonpos, to_unsigned, overlay, Mem, overlay_at, sub32, ◌||◌, ℕ,
}
use lpctools.File.{Feed, file_to_buff, Sink, buff_to_file}
use lpctools.Host.{Outcome}
use lpctools.Prog.{word_at, word_bytes, crp_word}

-- What lpccheck meets: the size that stat() gives, or `none` if it fails; whether malloc() succeeds and what
-- its buffer holds; and the file, as it is read and as it is written.
pub record CheckHost : Type 0 where
  pub st_size : Option ℕ
  pub can_allocate : Bool
  pub junk : Mem
  pub load : Option (List Feed)
  pub sink : Sink

pub data Opt : Type 0 where
  no_user_code : Opt
  skip_crp_verification : Opt
  help : Opt
  version : Opt

-- The static variables.
pub record Settings : Type 0 where
  pub calc_user_code : ℕ
  pub check_crp : ℕ

abbrev pub defaults : Settings
defaults = record { calc_user_code = 1; check_crp = 1 }

-- The settings, or the result of main.
pub data Parsed : Type 0 where
  settings : Settings → Parsed
  exits : ℤ → Parsed

unfoldable pub parse_options : List Opt → Settings → Parsed
parse_options [] s = settings s
parse_options (no_user_code ∷ more) s = parse_options more (record s { calc_user_code = 0 })
parse_options (skip_crp_verification ∷ more) s = parse_options more (record s { check_crp = 0 })
parse_options (version ∷ more) s = exits (pos 0)
parse_options (help ∷ more) s = exits (negsuc 0)

-- cksum = 0 - v[0] - ... - v[6]
unfoldable pub vectors_checksum : Mem → ℕ
vectors_checksum v =
    sub32
      (sub32
        (sub32
          (sub32 (sub32 (sub32 (sub32 0 (word_at v 0)) (word_at v 1)) (word_at v 2)) (word_at v 3))
          (word_at v 4))
        (word_at v 5))
      (word_at v 6)

-- The buffer with the checksum stored, if it is to be.
unfoldable pub checked_image : Mem → ℕ → Mem
unfolding vectors_checksum
checked_image data_at calc_user_code =
    if calc_user_code == 1
    then overlay_at 28 (word_bytes (vectors_checksum data_at)) data_at
    else data_at

-- The words that CRP_OFFSET may not hold.
unfoldable pub is_protected : ℕ → Bool
is_protected crp = crp == 0x4E697370 || crp == 0x12345678 || crp == 0x87654321 || crp == 0x43218765

-- The checksum of the vectors: what it leaves of `ret`, and the file that is written.
unfoldable pub check_vectors : Settings → Mem → ℕ → List ℕ → Sink → Outcome
check_vectors s data_at size filename sink =
    let cksum = vectors_checksum data_at in
    if s.calc_user_code == 1
    then (pos 0, (buff_to_file (checked_image data_at 1) size filename sink).1)
    else if not (cksum == word_at data_at 7)
    then (negsuc 2, none)
    else (pos 0, none)

-- The word for code read protection, in the buffer as it then is.
unfoldable pub check_protection : Settings → Mem → ℤ → ℤ
check_protection s image ret =
    if s.check_crp == 1 && is_protected (word_at image crp_word) then negsuc 3 else ret

-- The checks of an image in the buffer.
unfoldable pub check_image : Settings → Mem → ℕ → List ℕ → Sink → Outcome
unfolding check_vectors check_protection checked_image vectors_checksum is_protected
check_image s data_at size filename sink =
    let (ret, written) = check_vectors s data_at size filename sink in
    (check_protection s (checked_image data_at s.calc_user_code) ret, written)

-- main, behind the options; the argument list has to be one name.
unfoldable pub check_file : CheckHost → Settings → List (List ℕ) → Outcome
unfolding check_image
check_file host s (filename ∷ []) = elim host.st_size [
  | none ↦ (negsuc 1, none)
  | some st_size ↦
      if not host.can_allocate
      then (negsuc 1, none)
      else (let (size, stored) = file_to_buff host.load (u32 st_size) in
          if is_nonpos size
          then (negsuc 1, none)
          else check_image s (overlay stored host.junk) (to_unsigned size) filename host.sink)
]
check_file host s _ = (negsuc 0, none)

unfoldable pub main : CheckHost → List Opt → List (List ℕ) → Outcome
unfolding parse_options check_file
main host opts args = elim (parse_options opts defaults) [
  | exits code ↦ (code, none)
  | settings s ↦ check_file host s args
]
