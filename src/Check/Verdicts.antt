-- ===== src/Check/Verdicts.antt =====
-- What lpccheck's verdict says of an image.
use lpctools.Base.{
  ℕ, ◌≡◌, refl, Bool, not, ◌&&◌, List, ◌==◌, inl, inr, Bool-cases, if◌then◌else◌, pos, negsuc, Mem,
}
use lpctools.File.{Sink}
use lpctools.Prog.{word_at, crp_word}
use lpctools.Check.{
  Settings, vectors_checksum, checked_image, is_protected, check_image, check_vectors,
  check_protection,
}

-- The check for code read protection is on.
abbrev pub both : ℕ → Settings
both calc_user_code = record { calc_user_code = calc_user_code; check_crp = 1 }

abbrev pub is_wrong : ℕ → Mem → Bool
is_wrong calc_user_code v = not (calc_user_code == 1) && not (vectors_checksum v == word_at v 7)

check_vectors-verdict :
    (calc_user_code size : ℕ) (v : Mem) (filename : List ℕ) (sink : Sink)
    → (check_vectors (both calc_user_code) v size filename sink).0
      ≡ (if is_wrong calc_user_code v then negsuc 2 else pos 0)
unfolding check_vectors
check_vectors-verdict calc_user_code size v filename sink =
    elim (Bool-cases (calc_user_code == 1)) [
      | inl one ↦ rw one refl
      | inr other ↦ elim (Bool-cases (vectors_checksum v == word_at v 7)) [
        | inl same ↦ rw (other, same) refl
        | inr differs ↦ rw (other, differs) refl
      ]
    ]

-- The verdict with both checks.
pub check_image-verdict :
    (calc_user_code size : ℕ) (v : Mem) (filename : List ℕ) (sink : Sink)
    → (check_image (both calc_user_code) v size filename sink).0 ≡ (
        if is_protected (word_at (checked_image v calc_user_code) crp_word)
        then negsuc 3
        else if is_wrong calc_user_code v
        then negsuc 2
        else pos 0)
unfolding check_image check_protection
check_image-verdict calc_user_code size v filename sink =
    rw (check_vectors-verdict calc_user_code size v filename sink) refl
