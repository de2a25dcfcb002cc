-- ===== src/Prog/Image.antt =====
-- The image that flash_target writes: the checksum of its vectors, and the words that it refuses.
use lpctools.Base.{
  ℕ, ◌+◌, ◌*◌, ◌/◌, ◌%◌, ◌^◌, ◌<◌, ◌≡◌, refl, arith, true, not, ◌&&◌, ◌==◌, sub32, inl, inr, ◌⊎◌,
  Mem, AreBytes, overlay_at, overlay, negsuc, Bool-cases,
}
use lpctools.Machine.{World, done}
use lpctools.Parts.{PartDesc}
use lpctools.Prog.{
  vectors_checksum, checked_image, word_at, word_bytes, flash_image, is_protected, crp_word,
}

-- The sum of the eight vectors.
abbrev pub vectors_sum : Mem → ℕ
vectors_sum v =
    word_at v 0
    + word_at v 1
    + word_at v 2
    + word_at v 3
    + word_at v 4
    + word_at v 5
    + word_at v 6
    + word_at v 7

word_at-small : (v : Mem) (k : ℕ) → AreBytes v → word_at v k < 2 ^ 32
word_at-small v k are =
    omega (arith, are (4 * k), are (4 * k + 1), are (4 * k + 2), are (4 * k + 3))

subtract :
    (s t a : ℕ)
    → (s + t) % 2 ^ 32 ≡ 0
    → s < 2 ^ 32
    → a < 2 ^ 32
    → (sub32 s a < 2 ^ 32) × ((sub32 s a + (t + a)) % 2 ^ 32 ≡ 0)
subtract s t a zero small small' = omega arith

negated :
    (a b c d e f g : ℕ)
    → a < 2 ^ 32
    → b < 2 ^ 32
    → c < 2 ^ 32
    → d < 2 ^ 32
    → e < 2 ^ 32
    → f < 2 ^ 32
    → g < 2 ^ 32
    → (sub32 (sub32 (sub32 (sub32 (sub32 (sub32 (sub32 0 a) b) c) d) e) f) g < 2 ^ 32)
      × ((sub32 (sub32 (sub32 (sub32 (sub32 (sub32 (sub32 0 a) b) c) d) e) f) g
              + (a + b + c + d + e + f + g))
            % 2 ^ 32
          ≡ 0)
negated a b c d e f g ha hb hc hd he hf hg =
    let (la, ea) = subtract 0 0 a (omega arith) (omega arith) ha in
    let (lb, eb) = subtract _ (0 + a) b ea la hb in
    let (lc, ec) = subtract _ (0 + a + b) c eb lb hc in
    let (ld, ed) = subtract _ (0 + a + b + c) d ec lc hd in
    let (le, ee) = subtract _ (0 + a + b + c + d) e ed ld he in
    let (lf, ef) = subtract _ (0 + a + b + c + d + e) f ee le hf in
    let (lg, eg) = subtract _ (0 + a + b + c + d + e + f) g ef lf hg in (lg, omega (arith, eg))

pub word_bytes_lem :
    (c : ℕ)
    → c < 2 ^ 32
    → c % 256
        + 2 ^ 8 * (c / 2 ^ 8 % 256)
        + 2 ^ 16 * (c / 2 ^ 16 % 256)
        + 2 ^ 24 * (c / 2 ^ 24 % 256)
      ≡ c
word_bytes_lem c small = omega arith

pub vectors_checksum_lem :
    (v : Mem)
    → AreBytes v
    → (vectors_checksum v < 2 ^ 32)
      × ((vectors_checksum v
              + (word_at v 0
                  + word_at v 1
                  + word_at v 2
                  + word_at v 3
                  + word_at v 4
                  + word_at v 5
                  + word_at v 6))
            % 2 ^ 32
          ≡ 0)
unfolding vectors_checksum
vectors_checksum_lem v are =
    negated (word_at v 0) (word_at v 1) (word_at v 2) (word_at v 3) (word_at v 4) (word_at v 5)
      (word_at v 6) (word_at-small v 0 are) (word_at-small v 1 are) (word_at-small v 2 are)
      (word_at-small v 3 are) (word_at-small v 4 are) (word_at-small v 5 are)
      (word_at-small v 6 are)

stored_sum :
    (v : Mem)
    → AreBytes v
    → vectors_sum (overlay_at 28 (word_bytes (vectors_checksum v)) v) % 2 ^ 32 ≡ 0
unfolding overlay_at overlay
stored_sum v are =
    let (small, sum) = vectors_checksum_lem v are in
    omega (arith, sum, word_bytes_lem (vectors_checksum v) small)

-- If the checksum is to be stored, or was found in place, the eight vectors of the image of bytes that
-- is flashed have the sum 0 modulo 2 ^ 32.
pub checked_image-sum :
    (v : Mem) (calc_user_code : ℕ)
    → AreBytes v
    → (calc_user_code ≡ 1) ⊎ (vectors_checksum v ≡ word_at v 7)
    → vectors_sum (checked_image v calc_user_code) % 2 ^ 32 ≡ 0
unfolding checked_image
checked_image-sum v calc_user_code are (inl one) = rw one (stored_sum v are)
checked_image-sum v calc_user_code are (inr same) = elim (Bool-cases (calc_user_code == 1)) [
  | inl one ↦ rw one (stored_sum v are)
  | inr found ↦ rw found (omega (arith, (vectors_checksum_lem v are).1))
]

-- Behind the loading of an image with a word for code read protection at CRP_OFFSET, the result is -5 or
-- -6, and nothing more is sent.
pub flash_image_protected :
    (part : PartDesc) (v : Mem) (size write_size calc_user_code : ℕ) (w : World)
    → is_protected (word_at (checked_image v calc_user_code) crp_word) ≡ true
    → (flash_image part v size write_size calc_user_code w ≡ done (negsuc 4) w)
      ⊎ (flash_image part v size write_size calc_user_code w ≡ done (negsuc 5) w)
unfolding flash_image
flash_image_protected part v size write_size calc_user_code w locked =
    elim (Bool-cases (not (calc_user_code == 1) && not (vectors_checksum v == word_at v 7))) [
      | inl bad ↦ inl (rw bad refl)
      | inr good ↦ inr (rw (good, locked) refl)
    ]
