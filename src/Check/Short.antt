-- ===== src/Check/Short.antt =====
-- lpccheck on a file that ends before the word for code read protection.
use lpctools.Base.{
  ℕ, zero, suc, ◌%◌, ◌≤◌, ◌<◌, ◌≡◌, refl, ap, ◌∙◌, arith, List, [], ◌∷◌, length, ◌==◌,
  if◌then◌else◌, pos, negsuc, Mem, overlay, overlay_at,
}
use lpctools.File.{Feed, Sink}
use lpctools.File.Contents.{contents, IsSound}
use lpctools.Prog.{word_at, crp_word}
use lpctools.Check.{checked_image, is_protected, check_image, main, parse_options}
use lpctools.Check.Verdicts.{both, check_image-verdict}
use lpctools.Check.Whole.{meets, main-check_image}

-- What a buffer may hold that has just been allocated: the word for CRP1, everywhere, or zeros.
abbrev pub stale : Mem
stale i =
    if i % 4 == 0 then 0x78 else if i % 4 == 1 then 0x56 else if i % 4 == 2 then 0x34 else 0x12

abbrev pub zeros : Mem
zeros i = 0

overlay-behind : (xs : List ℕ) (old : Mem) (i : ℕ) → length xs ≤ i → overlay xs old i ≡ old i
unfolding overlay
overlay-behind [] old i behind = refl
overlay-behind (x ∷ xs) old zero behind = absurd (omega arith)
overlay-behind (x ∷ xs) old (suc i) behind = overlay-behind xs (λ j. old (suc j)) i (omega arith)

crp_word-checked : (m : Mem) → word_at (checked_image m 1) crp_word ≡ word_at m crp_word
unfolding checked_image overlay_at overlay
crp_word-checked m = refl

-- The word for code read protection in the buffer of a shorter file.
crp_word-behind :
    (stored : List ℕ) (old : Mem)
    → length stored ≤ 0x2FC
    → word_at (checked_image (overlay stored old) 1) crp_word ≡ word_at old crp_word
crp_word-behind stored old short =
    crp_word-checked (overlay stored old)
    ∙ rw
        (
          overlay-behind stored old 0x2FC short,
          overlay-behind stored old 0x2FD (omega arith),
          overlay-behind stored old 0x2FE (omega arith),
          overlay-behind stored old 0x2FF (omega arith),
        )
        refl

check_image-stale :
    (stored : List ℕ) (filename : List ℕ) (sink : Sink)
    → length stored ≤ 0x2FC
    → ((check_image (both 1) (overlay stored stale) (length stored) filename sink).0 ≡ negsuc 3)
      × ((check_image (both 1) (overlay stored zeros) (length stored) filename sink).0 ≡ pos 0)
unfolding is_protected
check_image-stale stored filename sink short = (
  check_image-verdict 1 (length stored) (overlay stored stale) filename sink
      ∙ rw (crp_word-behind stored stale short) refl,
  check_image-verdict 1 (length stored) (overlay stored zeros) filename sink
      ∙ rw (crp_word-behind stored zeros short) refl,
)

-- For a file whose reads do not fail, of at least one and at most 0x2FC bytes, the result of lpccheck,
-- without options, depends on what its buffer happens to hold behind the file: with the word for CRP1
-- there it is -4, with zeros it is 0.
pub main_short :
    (script : List Feed) (filename : List ℕ) (sink : Sink)
    → IsSound script
    → 0 < length (contents script)
    → length (contents script) ≤ 0x2FC
    → ((main (meets script stale sink) [] (filename ∷ [])).0 ≡ negsuc 3)
      × ((main (meets script zeros sink) [] (filename ∷ [])).0 ≡ pos 0)
unfolding parse_options
main_short script filename sink sound some_bytes short =
    let (bad, good) = check_image-stale (contents script) filename sink short in
    let run = λ (junk : Mem).
      main-check_image script junk sink [] (both 1) filename sound some_bytes (omega arith) refl in
    (ap (λ r. r.0) (run stale) ∙ bad, ap (λ r. r.0) (run zeros) ∙ good)
