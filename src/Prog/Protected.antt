-- ===== src/Prog/Protected.antt =====
-- flash_target with an image that has a word for code read protection.
use lpctools.Base.{
  ℕ, zero, suc, ◌+◌, ◌*◌, ◌≤◌, ◌<◌, ◌≡◌, refl, ap, ◌∙◌, arith, true, Bool, ◌==◌, List, [], ◌∷◌,
  ◌++◌, length, take, some, inl, inr, ◌⊎◌, Bool-cases, ℤ, to_unsigned, Mem, overlay, overlay_at,
}
use lpctools.Machine.{World, Run}
use lpctools.File.{Feed, file_to_buff}
use lpctools.File.Contents.{contents, IsSound, file_to_buff-contents}
use lpctools.Parts.{PartDesc}
use lpctools.Prog.{flash_target, checked_image, is_protected, word_at, crp_word, erase_flash}
use lpctools.Prog.Image.{flash_image_protected}
use lpctools.Prog.Outcomes.{write_size_of, Unflashed, loaded_buffer, flash_target-Loaded}

-- The words for code read protection: CRP_NO_ISP, CRP_CRP1, CRP_CRP2 and CRP_CRP3.
abbrev pub IsCrp : ℕ → Type 0
IsCrp crp = (crp ≡ 0x4E697370) ⊎ (crp ≡ 0x12345678) ⊎ (crp ≡ 0x87654321) ⊎ (crp ≡ 0x43218765)

-- A file in memory, with zeros behind it.
abbrev pub in_memory : List ℕ → Mem
in_memory xs = overlay xs (λ _. 0)

is_protected-IsCrp : (crp : ℕ) → IsCrp crp → is_protected crp ≡ true
unfolding is_protected
is_protected-IsCrp crp (inl e) = rw e refl
is_protected-IsCrp crp (inr (inl e)) = rw e refl
is_protected-IsCrp crp (inr (inr (inl e))) = rw e refl
is_protected-IsCrp crp (inr (inr (inr e))) = rw e refl

overlay-take :
    (n : ℕ) (xs ys : List ℕ) (old old' : Mem) (i : ℕ)
    → i < n
    → i < length xs
    → overlay (take n xs ++ ys) old i ≡ overlay xs old' i
unfolding overlay
overlay-take zero xs ys old old' i below inside = absurd (omega arith)
overlay-take (suc n) [] ys old old' i below inside = absurd (omega arith)
overlay-take (suc n) (x ∷ xs) ys old old' zero below inside = refl
overlay-take (suc n) (x ∷ xs) ys old old' (suc i) below inside =
    overlay-take n xs ys (λ j. old (suc j)) (λ j. old' (suc j)) i (omega arith) (omega arith)

-- A word that lies in the part of the file that is loaded.
pub word_at-take :
    (n k : ℕ) (xs ys : List ℕ) (old old' : Mem)
    → 4 * k + 4 ≤ n
    → 4 * k + 4 ≤ length xs
    → word_at (overlay (take n xs ++ ys) old) k ≡ word_at (overlay xs old') k
word_at-take n k xs ys old old' below inside =
    rw
      (
        overlay-take n xs ys old old' (4 * k) (omega arith) (omega arith),
        overlay-take n xs ys old old' (4 * k + 1) (omega arith) (omega arith),
        overlay-take n xs ys old old' (4 * k + 2) (omega arith) (omega arith),
        overlay-take n xs ys old old' (4 * k + 3) (omega arith) (omega arith),
      )
      refl

pub crp_word-checked_image :
    (m : Mem) (calc_user_code : ℕ)
    → word_at (checked_image m calc_user_code) crp_word ≡ word_at m crp_word
unfolding checked_image overlay_at overlay
crp_word-checked_image m calc_user_code = elim (Bool-cases (calc_user_code == 1)) [
  | inl one ↦ rw one refl
  | inr other ↦ rw other refl
]

-- A file whose reads do not fail, of at least 0x300 bytes, with one of the four words for code read
-- protection at 0x2FC, is never flashed on a part with at least 0x300 bytes of flash: on every line,
-- with and without the checksum, flash_target ends with a negative result, and the line is as it was
-- at the start or as erase_flash leaves it, so that nothing but the erasing has been sent.
pub flash_target_protected :
    (part : PartDesc) (script : List Feed) (calc_user_code : ℕ) (can_allocate : Bool) (w : World)
    → IsSound script
    → 0x300 ≤ length (contents script)
    → 0x300 ≤ part.flash_size
    → IsCrp (word_at (in_memory (contents script)) crp_word)
    → (ret : ℤ) × (w1 : World) × (erase_flash part w ≡ Run.done ret w1)
      × Unflashed w w1 (flash_target part (some script) calc_user_code can_allocate w)
flash_target_protected part script calc_user_code can_allocate w sound long big crp =
    let c = contents script in
    let n = part.flash_size in
    let (ret, w1, e, cases) =
      flash_target-Loaded part (some script) calc_user_code can_allocate w in
    let stored : (file_to_buff (some script) n).1 ≡ take n c =
      ap (λ r. r.1) (file_to_buff-contents script n sound) in
    let buf = loaded_buffer part (file_to_buff (some script) n).1 w1 in
    let word : word_at buf crp_word ≡ word_at (in_memory c) crp_word =
      rw stored (word_at-take n crp_word c _ w1.junk (λ _. 0) (omega arith) (omega arith)) in
    let locked : is_protected (word_at (checked_image buf calc_user_code) crp_word) ≡ true =
      ap is_protected (crp_word-checked_image buf calc_user_code ∙ word)
      ∙ is_protected-IsCrp _ crp in
    (
      ret,
      w1,
      e,
      elim cases [
        | inl unflashed ↦ unflashed
        | inr (nonempty, blocks, same) ↦
            elim (flash_image_protected part buf (to_unsigned (file_to_buff (some script) n).0)
              (write_size_of part) calc_user_code w1 locked) [
                | inl bad ↦ rw (same ∙ bad) (refl, inr refl)
                | inr refused ↦ rw (same ∙ refused) (refl, inr refl)
              ]
      ],
    )
