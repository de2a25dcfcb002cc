-- ===== src/Prog/Outcomes.antt =====
-- The ends of flash_target: behind its checks and the erasing, or in the flashing.
use lpctools.Base.{
  ℕ, ◌-◌, ◌/◌, ◌≡◌, refl, true, false, Bool, ◌==◌, List, ◌++◌, length, replicate, Option, inl, inr,
  ◌⊎◌, Bool-cases, ltb, add32, ℤ, is_zero, is_neg, is_nonpos, to_unsigned, Mem, overlay,
}
use lpctools.Machine.{World, Run}
use lpctools.Machine.Steady.{Ensures}
use lpctools.File.{Feed, file_to_buff}
use lpctools.Parts.{PartDesc}
use lpctools.Prog.{filled, flash_image, flash_target, calc_write_size, erase_flash}
use lpctools.Prog.Erase.{erase_flash-Steady}

-- The block size of flash_target for a part.
abbrev pub write_size_of : PartDesc → ℕ
write_size_of part = calc_write_size (part.flash_size / part.flash_nb_sectors) part.ram_buff_size

-- The run ends with an error, before anything or with the erasing only.
abbrev pub Unflashed : World → World → Run ℤ → Type 0
Unflashed w w1 r = Ensures (λ ret w'. (is_neg ret ≡ true) × ((w' ≡ w) ⊎ (w' ≡ w1))) r

-- The buffer behind the loading of the image.
abbrev pub loaded_buffer : PartDesc → List ℕ → World → Mem
loaded_buffer part stored w =
    overlay (stored ++ replicate (part.flash_size - length stored) 0) w.junk

-- An image has been loaded, and is checked and flashed behind the erasing.
abbrev pub Loaded : PartDesc → Option (List Feed) → ℕ → World → Run ℤ → Type 0
Loaded part file calc_user_code w1 r =
    let (size, stored) = file_to_buff file part.flash_size in
    (is_nonpos size ≡ false)
    × ((write_size_of part == 0) ≡ false)
    × (r
        ≡ flash_image part (loaded_buffer part stored w1) (to_unsigned size) (write_size_of part)
            calc_user_code w1)

module _ (part : PartDesc) (file : Option (List Feed)) (calc_user_code : ℕ) (can_allocate : Bool)
    (w : World) where
  pub flash_target-Loaded :
      (ret : ℤ) × (w1 : World) × (erase_flash part w ≡ Run.done ret w1)
      × (Unflashed w w1 (flash_target part file calc_user_code can_allocate w)
          ⊎ Loaded part file calc_user_code w1
              (flash_target part file calc_user_code can_allocate w))
  unfolding flash_target filled
  flash_target-Loaded =
      let (ret, w1, e, frame) = (erase_flash-Steady part).at w in
      (
        ret,
        w1,
        e,
        elim (Bool-cases
            (ltb (add32 part.ram_base part.ram_size) (add32 part.ram_base part.ram_buff_offset))) [
              | inl outside ↦ rw outside (inl (refl, inl refl))
              | inr inside ↦ elim (Bool-cases (write_size_of part == 0)) [
                | inl none ↦ rw (inside, none) (inl (refl, inl refl))
                | inr some ↦ elim (Bool-cases (is_zero ret)) [
                  | inr refused ↦ rw (inside, some, e, refused) (inl (refl, inr refl))
                  | inl erased ↦ elim (Bool-cases can_allocate) [
                    | inr lacking ↦ rw (inside, some, e, erased, lacking) (inl (refl, inr refl))
                    | inl allocated ↦
                        elim (Bool-cases (is_nonpos (file_to_buff file part.flash_size).0)) [
                          | inl empty ↦
                              rw (inside, some, e, erased, allocated, empty) (inl (refl, inr refl))
                          | inr nonempty ↦
                              rw (inside, some, e, erased, allocated, nonempty)
                                (inr (refl, refl, refl))
                        ]
                  ]
                ]
              ]
            ],
      )
