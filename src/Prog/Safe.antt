-- ===== src/Prog/Safe.antt =====
-- The blocks that flash_target writes for a loaded image.
use lpctools.Base.{
  ℕ, ◌+◌, ◌*◌, ◌/◌, ◌^◌, ◌≤◌, ◌<◌, ◌≡◌, refl, ap, ◌∙◌, arith, true, false, Bool, not, ◌&&◌, ◌==◌,
  List, length, Option, inl, inr, ◌⊎◌, Bool-cases, ltb, u32, ℤ, is_neg, is_nonpos, to_int,
  to_unsigned, Mem,
}
use lpctools.Machine.{World, Run}
use lpctools.Machine.Steady.{Ensures}
use lpctools.File.{Feed, file_to_buff}
use lpctools.File.Sizes.{file_to_buff-IsLoaded}
use lpctools.Parts.{PartDesc}
use lpctools.Prog.{
  flash_blocks, flash_image, flash_target, calc_write_size, checked_image, is_protected,
  vectors_checksum, word_at, crp_word, blocks_of, erase_flash,
}
use lpctools.Prog.Bounds.{blocks_of-cover, blocks_of-u32, ltb-false-le}
use lpctools.Prog.Outcomes.{write_size_of, Unflashed, loaded_buffer, flash_target-Loaded}

-- `n` blocks of the image are flashed: they lie in the flash and cover what was loaded, and the last one
-- holds some of it.
abbrev pub FlashedInside : PartDesc → Option (List Feed) → ℕ → World → Run ℤ → Type 0
FlashedInside part file calc_user_code w1 r =
    let stored = (file_to_buff file part.flash_size).1 in
    let size = write_size_of part in
    (n : ℕ) × (r
      ≡ flash_blocks n part (checked_image (loaded_buffer part stored w1) calc_user_code) size 0 w1)
    × (n * size ≤ part.flash_size)
    × (length stored ≤ n * size)
    × (n * size < length stored + size)

calc_write_size_most : (a b : ℕ) → calc_write_size a b ≤ 4096
unfolding calc_write_size
calc_write_size_most a b = ground arith

to_unsigned-positive : (n : ℕ) → n < 2 ^ 32 → to_unsigned (to_int n) ≡ n
to_unsigned-positive n small = ground arith

-- The blocks of flash_image lie in the flash, or there are none.
flash_image-inside :
    (part : PartDesc) (v : Mem) (size write_size calc_user_code : ℕ) (w : World)
    → 0 < write_size
    → size + write_size < 2 ^ 32
    → (Ensures
        (λ ret w'. (is_neg ret ≡ true) × (w' ≡ w))
        (flash_image part v size write_size calc_user_code w))
      ⊎ ((n : ℕ) × (flash_image part v size write_size calc_user_code w
            ≡ flash_blocks n part (checked_image v calc_user_code) write_size 0 w)
          × (n * write_size ≤ part.flash_size)
          × (size ≤ n * write_size)
          × (n * write_size < size + write_size))
unfolding flash_image
flash_image-inside part v size write_size calc_user_code w room small =
    elim (Bool-cases (not (calc_user_code == 1) && not (vectors_checksum v == word_at v 7))) [
      | inl bad ↦ inl (rw bad (refl, refl))
      | inr good ↦
          elim (Bool-cases (is_protected (word_at (checked_image v calc_user_code) crp_word))) [
            | inl locked ↦ inl (rw (good, locked) (refl, refl))
            | inr readable ↦
                let b = blocks_of size write_size in
                let (covered, tight) = blocks_of-cover size write_size room in
                elim (Bool-cases (ltb part.flash_size (u32 (b * write_size)))) [
                  | inl large ↦ inl (rw (good, readable, large) (refl, refl))
                  | inr fits ↦ inr (
                    b,
                    rw (good, readable, fits) refl,
                    ltb-false-le part.flash_size (b * write_size)
                        (rw (blocks_of-u32 size write_size room small) at fits),
                    covered,
                    tight,
                  )
                ]
          ]
    ]

behind_erasing :
    (w w1 : World) (r : Run ℤ)
    → Ensures (λ ret w'. (is_neg ret ≡ true) × (w' ≡ w1)) r
    → Unflashed w w1 r
behind_erasing w w1 (Run.done ret w') (negative, same) = (negative, inr same)
behind_erasing w w1 Run.out_of_fuel h = absurd h

nonempty_loads :
    (part : PartDesc) (file : Option (List Feed))
    → part.flash_size < 2 ^ 32
    → is_nonpos (file_to_buff file part.flash_size).0 ≡ false
    → (length (file_to_buff file part.flash_size).1 ≤ part.flash_size)
      × (to_unsigned (file_to_buff file part.flash_size).0
          ≡ length (file_to_buff file part.flash_size).1)
nonempty_loads part file small nonempty = elim (file_to_buff-IsLoaded file part.flash_size) [
  | inl empty ↦ absurd (ground arith)
  | inr (size, fits) ↦ (fits, ap to_unsigned size ∙ to_unsigned-positive _ (omega arith))
]

-- For a part whose flash is more than 4096 bytes below 2 ^ 32, and every file and line, flash_target
-- ends with a negative result and the line as it was at the start or as erase_flash leaves it, or it
-- goes on behind the erasing to flash the first n blocks of the checked image, where the n blocks lie
-- in the flash and cover the bytes that were loaded, and less than a block lies behind these.
pub flash_target_inside :
    (part : PartDesc) (file : Option (List Feed)) (calc_user_code : ℕ) (can_allocate : Bool)
    (w : World)
    → part.flash_size + 4096 < 2 ^ 32
    → (ret : ℤ) × (w1 : World) × (erase_flash part w ≡ Run.done ret w1)
      × (Unflashed w w1 (flash_target part file calc_user_code can_allocate w)
          ⊎ FlashedInside part file calc_user_code w1
              (flash_target part file calc_user_code can_allocate w))
flash_target_inside part file calc_user_code can_allocate w small =
    let (ret, w1, e, cases) = flash_target-Loaded part file calc_user_code can_allocate w in
    (
      ret,
      w1,
      e,
      elim cases [
        | inl unflashed ↦ inl unflashed
        | inr (nonempty, blocks, same) ↦
            let stored = (file_to_buff file part.flash_size).1 in
            let size = to_unsigned (file_to_buff file part.flash_size).0 in
            let (fits, count) = nonempty_loads part file (omega arith) nonempty in
            let most =
              calc_write_size_most (part.flash_size / part.flash_nb_sectors) part.ram_buff_size in
            elim (flash_image-inside part (loaded_buffer part stored w1) size (write_size_of part)
              calc_user_code w1 (ground arith) (omega arith)) [
                | inl refused ↦ inl (rw same (behind_erasing w w1 _ refused))
                | inr (n, run, inside, covered, tight) ↦
                    inr (n, same ∙ run, inside, omega arith, omega arith)
              ]
      ],
    )
