-- ===== src/Check/Update.antt =====
-- A file that lpccheck has updated, and one that is too short for it.
use lpctools.Base.{
  ◌^◌, ℕ, zero, suc, ◌+◌, ◌*◌, ◌≤◌, ◌<◌, ◌≡◌, refl, sym, ap, ◌∙◌, arith, false, List, inl, inr,
  Bool-cases, ==_iff, pos, negsuc, Mem, AreBytes, overlay, overlay_at, bytes, none, some,
}
use lpctools.File.Written.{IsWhole, buff_to_file-whole}
use lpctools.File.{Sink, buff_to_file}
use lpctools.Prog.{word_at, crp_word}
use lpctools.Check.{vectors_checksum, checked_image, is_protected, check_image, check_vectors}
use lpctools.Prog
use lpctools.Prog.Image.{word_bytes_lem, vectors_checksum_lem}
use lpctools.Check.Verdicts.{both, check_image-verdict}

overlay-bytes : (m old : Mem) (p n i : ℕ) → i < n → overlay (bytes m p n) old i ≡ m (p + i)
unfolding overlay bytes
overlay-bytes m old p zero i inside = absurd (omega arith)
overlay-bytes m old p (suc n) zero inside = ap m (omega arith)
overlay-bytes m old p (suc n) (suc i) inside =
    overlay-bytes m (λ j. old (suc j)) (p + 1) n i (omega arith) ∙ ap m (omega arith)

overlay-bytes_start : (m old : Mem) (n i : ℕ) → i < n → overlay (bytes m 0 n) old i ≡ m i
overlay-bytes_start m old n i inside = overlay-bytes m old 0 n i inside ∙ ap m {y = i} (omega arith)

-- A word that lies in the file.
word_at-bytes :
    (m old : Mem) (n k : ℕ) → 4 * k + 4 ≤ n → word_at (overlay (bytes m 0 n) old) k ≡ word_at m k
word_at-bytes m old n k inside =
    rw
      (
        overlay-bytes_start m old n (4 * k) (omega arith),
        overlay-bytes_start m old n (4 * k + 1) (omega arith),
        overlay-bytes_start m old n (4 * k + 2) (omega arith),
        overlay-bytes_start m old n (4 * k + 3) (omega arith),
      )
      refl

vectors_checksum-bytes :
    (m old : Mem) (n : ℕ)
    → 32 ≤ n
    → vectors_checksum (overlay (bytes m 0 n) old) ≡ vectors_checksum m
unfolding vectors_checksum
vectors_checksum-bytes m old n enough =
    let word = λ (k : ℕ) (h : 4 * k + 4 ≤ n). word_at-bytes m old n k h in
    rw
      (
        word 0 (omega arith),
        word 1 (omega arith),
        word 2 (omega arith),
        word 3 (omega arith),
        word 4 (omega arith),
        word 5 (omega arith),
        word 6 (omega arith),
      )
      refl

-- The stored checksum is that of the vectors, and nothing else changes.
stored_words :
    (v : Mem)
    → AreBytes v
    → (vectors_checksum (checked_image v 1) ≡ vectors_checksum v)
      × (word_at (checked_image v 1) 7 ≡ vectors_checksum v)
unfolding checked_image overlay_at overlay vectors_checksum Prog.vectors_checksum
stored_words v are =
    let small : vectors_checksum v < 2 ^ 32 = (vectors_checksum_lem v are).0 in
    (refl, word_bytes_lem (vectors_checksum v) small)

check_image-written :
    (v : Mem) (size : ℕ) (filename : List ℕ) (sink : Sink)
    → (check_image (both 1) v size filename sink).1
      ≡ (buff_to_file (checked_image v 1) size filename sink).1
unfolding check_image check_vectors
check_image-written v size filename sink = refl

check_image-unwritten :
    (v : Mem) (size : ℕ) (filename : List ℕ) (sink : Sink)
    → (check_image (both 0) v size filename sink).1 ≡ none
unfolding check_image check_vectors
check_image-unwritten v size filename sink = ground arith

checked_image_off : (m : Mem) → checked_image m 0 ≡ m
unfolding checked_image
checked_image_off m = refl

module _ (v : Mem) (are : AreBytes v) (size : ℕ) (filename : List ℕ) (sink : Sink)
    (enough : 0x300 ≤ size) (accepted : (check_image (both 1) v size filename sink).0 ≡ pos 0) where
  readable : is_protected (word_at (checked_image v 1) crp_word) ≡ false
  readable = elim (Bool-cases (is_protected (word_at (checked_image v 1) crp_word))) [
    | inr free ↦ free
    | inl locked ↦
        absurd (refuted (rw (check_image-verdict 1 size v filename sink, locked) at accepted))
  ]
    where
      refuted : {k : ℕ} → negsuc k ≡ pos 0 → ⊥
      refuted h = cc

  -- If lpccheck updates an image of bytes, of at least 0x300 bytes, with the result 0, and the file
  -- can be opened and takes all of it, then the file holds the image with the checksum stored, and
  -- passes lpccheck without an update, whatever the buffer holds behind it.
  pub updated_passes :
      (old : Mem)
      → IsWhole sink size
      → ((check_image (both 1) v size filename sink).1 ≡ some (bytes (checked_image v 1) 0 size))
        × ((check_image
              (both 0)
              (overlay (bytes (checked_image v 1) 0 size) old)
              size
              filename
              sink).0
            ≡ pos 0)
  updated_passes old whole =
      let image = checked_image v 1 in
      let m = overlay (bytes image 0 size) old in
      let (kept, stored) = stored_words v are in
      let crp : word_at m crp_word ≡ word_at image crp_word =
        word_at-bytes image old size crp_word (omega arith) in
      let same : vectors_checksum m ≡ word_at m 7 =
        vectors_checksum-bytes image old size (omega arith)
        ∙ kept
        ∙ sym stored
        ∙ sym (word_at-bytes image old size 7 (omega arith)) in
      (
        check_image-written v size filename sink
            ∙ ap (λ r. r.1) (buff_to_file-whole image size filename sink whole),
        check_image-verdict 0 size m filename sink
            ∙ rw (checked_image_off m, crp, readable, (==_iff _ _).1 same) refl,
      )
