-- ===== src/Check/Agrees.antt =====
-- What flash_target does with an image that lpccheck accepts.
use lpctools.Base.{
  ℕ, zero, suc, ◌-◌, ◌*◌, ◌^◌, ◌≤◌, ◌<◌, ◌≡◌, refl, ap, ◌∙◌, sym, arith, Bool, false, not, ◌&&◌,
  List, [], ◌∷◌, ◌++◌, length, take, replicate, some, ltb, ◌==◌, inl, inr, Bool-cases,
  if◌then◌else◌, u32, add32, ℤ, pos, negsuc, is_zero, Mem, overlay,
}
use lpctools.Machine.{World, Cmd, pure, ◌>>=◌}
use lpctools.File.{Feed, Sink}
use lpctools.File.Contents.{contents, IsSound, file_to_buff-contents}
use lpctools.Parts.{PartDesc}
use lpctools.Prog
use lpctools.Prog.{
  word_at, crp_word, erase_flash, flash_target, flash_image, flash_blocks, blocks_of,
}
use lpctools.Prog.Erase.{erase_flash-Steady}
use lpctools.Prog.Outcomes.{write_size_of}
use lpctools.Prog.Protected.{word_at-take, crp_word-checked_image}
use lpctools.Check.{
  Opt, Settings, settings, parse_options, defaults, vectors_checksum, checked_image, is_protected,
  check_image, main,
}
use lpctools.Check.Verdicts.{both, is_wrong, check_image-verdict}
use lpctools.Check.Whole.{meets, main-check_image, take_all, to_int-positive, to_unsigned-to_int}

-- The image in flash_target's buffer: the file, and zeros up to the size of the flash.
abbrev pub padded_image : PartDesc → List ℕ → World → Mem
padded_image part image w = overlay (image ++ replicate (part.flash_size - length image) 0) w.junk

-- The test of the size, and the flashing.
abbrev pub behind_checks : PartDesc → List ℕ → ℕ → ℕ → Cmd ℤ
behind_checks part image calc_user_code write_size =
    let blocks = blocks_of (length image) write_size in
    if ltb part.flash_size (u32 (blocks * write_size)) then pure (negsuc 6) else λ w.
    flash_blocks blocks part (Prog.checked_image (padded_image part image w) calc_user_code)
      write_size 0 w

-- flash_target with the image at hand, and without its tests of the vectors and of the code read protection.
abbrev pub flash_trusted : PartDesc → List ℕ → ℕ → Bool → Cmd ℤ
flash_trusted part image calc_user_code can_allocate = do
  let write_size = write_size_of part
  if ltb (add32 part.ram_base part.ram_size) (add32 part.ram_base part.ram_buff_offset)
      then pure (negsuc 0)
      else (if write_size == 0 then pure (negsuc 1) else do
        ret ← erase_flash part
        if not (is_zero ret)
            then pure (negsuc 2)
            else (if not can_allocate
                then pure (negsuc 3)
                else behind_checks part image calc_user_code write_size))

-- The two copies of the checks agree.
same_checks :
    (m : Mem) (calc_user_code crp : ℕ)
    → (Prog.vectors_checksum m ≡ vectors_checksum m)
      × (Prog.checked_image m calc_user_code ≡ checked_image m calc_user_code)
      × (Prog.is_protected crp ≡ is_protected crp)
unfolding Prog.vectors_checksum vectors_checksum Prog.checked_image checked_image Prog.is_protected
    is_protected
same_checks m calc_user_code crp = (refl, refl, refl)

module _ (part : PartDesc) (script : List Feed) (sound : IsSound script)
    (long : 0x300 ≤ length (contents script)) (fits : length (contents script) ≤ part.flash_size)
    (small : part.flash_size < 2 ^ 31) (calc_user_code : ℕ) (junk : Mem) (filename : List ℕ)
    (sink : Sink)
    (accepted : (check_image
        (both calc_user_code)
        (overlay (contents script) junk)
        (length (contents script))
        filename
        sink).0
      ≡ pos 0) where
  word-padded :
      (w : World) (k : ℕ)
      → k ≤ 0xBF
      → word_at (padded_image part (contents script) w) k
        ≡ word_at (overlay (contents script) junk) k
  word-padded w k inside = rw (take_all (contents script)) at (
      word_at-take (length (contents script)) k (contents script)
        (replicate (part.flash_size - length (contents script)) 0) w.junk junk (omega arith)
        (omega arith))

  vectors_checksum-padded :
      (w : World)
      → Prog.vectors_checksum (padded_image part (contents script) w)
        ≡ vectors_checksum (overlay (contents script) junk)
  unfolding vectors_checksum
  vectors_checksum-padded w =
      (same_checks (padded_image part (contents script) w) 0 0).0
      ∙ rw
          (
            word-padded w 0 (omega arith),
            word-padded w 1 (omega arith),
            word-padded w 2 (omega arith),
            word-padded w 3 (omega arith),
            word-padded w 4 (omega arith),
            word-padded w 5 (omega arith),
            word-padded w 6 (omega arith),
          )
          refl

  -- Neither test of lpccheck has failed.
  verdict :
      (is_protected (word_at (overlay (contents script) junk) crp_word) ≡ false)
      × (is_wrong calc_user_code (overlay (contents script) junk) ≡ false)
  verdict =
      let m = overlay (contents script) junk in
      let e =
        rw (check_image-verdict calc_user_code (length (contents script)) m filename sink) at
          accepted in
      let word : word_at (checked_image m calc_user_code) crp_word ≡ word_at m crp_word =
        ap (λ v. word_at v crp_word) (sym (same_checks m calc_user_code 0).1)
        ∙ crp_word-checked_image m calc_user_code in
      elim (Bool-cases (is_protected (word_at (checked_image m calc_user_code) crp_word))) [
        | inl locked ↦ absurd (refuted (rw locked at e))
        | inr readable ↦ elim (Bool-cases (is_wrong calc_user_code m)) [
          | inl bad ↦ absurd (refuted (rw (readable, bad) at e))
          | inr good ↦ (ap is_protected (sym word) ∙ readable, good)
        ]
      ]
    where
      refuted : {k : ℕ} → negsuc k ≡ pos 0 → ⊥
      refuted h = cc

  -- What lpccheck has found out of its buffer holds of that of flash_target.
  pub flash_image-trusted :
      (w : World) (write_size : ℕ)
      → flash_image part
          (padded_image part (contents script) w)
          (length (contents script))
          write_size
          calc_user_code
          w
        ≡ behind_checks part (contents script) calc_user_code write_size w
  unfolding flash_image
  flash_image-trusted w write_size =
      let m = padded_image part (contents script) w in
      let (readable, good) = verdict in
      let locked : Prog.is_protected (word_at (Prog.checked_image m calc_user_code) crp_word)
          ≡ false =
        (same_checks m 0 _).2
        ∙ ap is_protected
            (crp_word-checked_image m calc_user_code ∙ word-padded w crp_word (omega arith))
        ∙ readable in
      let right : (not (calc_user_code == 1) && not (Prog.vectors_checksum m == word_at m 7))
          ≡ false =
        rw (vectors_checksum-padded w, word-padded w 7 (omega arith)) good in
      elim (Bool-cases (
        ltb part.flash_size (u32 (blocks_of (length (contents script)) write_size * write_size)))) [
          | inl large ↦ rw (right, locked, large) refl
          | inr fitting ↦ rw (right, locked, fitting) refl
        ]

take_fitting : (n : ℕ) (xs : List ℕ) → length xs ≤ n → take n xs ≡ xs
take_fitting zero [] h = refl
take_fitting zero (x ∷ xs) h = absurd (omega arith)
take_fitting (suc n) [] h = refl
take_fitting (suc n) (x ∷ xs) h = ap (λ t. x ∷ t) (take_fitting n xs (omega arith))

-- If lpccheck with the check for code read protection on ends with 0 for a file whose reads do not
-- fail, of at least 0x300 bytes, whatever its buffer holds before and whatever becomes of the update,
-- then flash_target of the same file, with the same setting of the checksum, on every line and for a
-- part whose flash is below 2 ^ 31 bytes and not smaller than the file, does what it would do without
-- its tests of the vectors and of the code read protection: it refuses the image for the part's
-- settings, the erasing, the memory or the size only, and else flashes it, with zeros behind it.
pub main-flash_target :
    (script : List Feed) (junk : Mem) (sink : Sink) (opts : List Opt) (s : Settings)
    (filename : List ℕ) (part : PartDesc) (can_allocate : Bool) (w : World)
    → IsSound script
    → 0x300 ≤ length (contents script)
    → length (contents script) ≤ part.flash_size
    → part.flash_size < 2 ^ 31
    → parse_options opts defaults ≡ settings s
    → s.check_crp ≡ 1
    → (main (meets script junk sink) opts (filename ∷ [])).0 ≡ pos 0
    → flash_target part (some script) s.calc_user_code can_allocate w
      ≡ flash_trusted part (contents script) s.calc_user_code can_allocate w
unfolding flash_target flash_image Prog.filled
main-flash_target script junk sink opts s filename part can_allocate w sound long fits small parsed
      crp accepted =
    let c = contents script in
    let checked =
      main-check_image script junk sink opts s filename sound (omega arith) (omega arith) parsed in
    let same : s ≡ both s.calc_user_code = rw crp refl in
    let passed : (check_image (both s.calc_user_code) (overlay c junk) (length c) filename sink).0
        ≡ pos 0 =
      ap (λ t. (check_image t (overlay c junk) (length c) filename sink).0) (sym same)
      ∙ ap (λ r. r.0) (sym checked)
      ∙ accepted in
    let write_size = write_size_of part in
    elim (Bool-cases
      (ltb (add32 part.ram_base part.ram_size) (add32 part.ram_base part.ram_buff_offset))) [
        | inl outside ↦ rw outside refl
        | inr inside ↦ elim (Bool-cases (write_size == 0)) [
          | inl none ↦ rw (inside, none) refl
          | inr blocks ↦
              let (ret, w1, e, frame) = (erase_flash-Steady part).at w in
              elim (Bool-cases (is_zero ret)) [
                | inr refused ↦ rw (inside, blocks, e, refused) refl
                | inl erased ↦ elim (Bool-cases can_allocate) [
                  | inr lacking ↦ rw (inside, blocks, e, erased, lacking) refl
                  | inl allocated ↦
                      rw
                        (
                          inside,
                          blocks,
                          e,
                          erased,
                          allocated,
                          file_to_buff-contents script part.flash_size sound,
                          take_fitting part.flash_size c fits,
                          to_int-positive (length c) (omega arith) (omega arith),
                          to_unsigned-to_int (length c) (omega arith),
                        )
                        (flash_image-trusted part script sound long fits small s.calc_user_code junk
                          filename sink passed w1 write_size)
                ]
              ]
        ]
      ]
