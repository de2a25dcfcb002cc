-- ===== src/Uu/Runs.antt =====
-- Runs of the two coders, and the theorems at concrete inputs.
use lpctools.Base.{
  ℕ, ◌+◌, ◌*◌, ◌-◌, ◌^◌, ◌≤◌, ◌≡◌, refl, arith, some, List, [], ◌∷◌, ◌++◌, overlay, overlay-Holds,
  codes, bytes, length,
}
use lpctools.Machine.Samples.{blank, cat, cat-AreBytes}
use lpctools.Uu.{uu_encode, uu_decode, line_length_of}
use lpctools.Uu.Decode.{uu_decode_total}
use lpctools.Uu.Corrupt.{uu_decode_corrupt}
use lpctools.Uu.RoundTrip.{uu_decode-uu_encode}

abbrev encoded_cat : List ℕ
encoded_cat = codes "#0V%T" ++ (13 ∷ 10 ∷ [])

encode_cat : uu_encode cat 3 ≡ encoded_cat
unfolding uu_encode
encode_cat = refl

decode_cat : uu_decode (overlay encoded_cat blank) 7 ≡ some (codes "Cat")
unfolding uu_decode overlay
decode_cat = refl

-- Two lines, the second a short one.
uu_decode-uu_encode_example :
    uu_decode (overlay (uu_encode cat 50) blank) (length (uu_encode cat 50)) ≡ some (bytes cat 0 50)
uu_decode-uu_encode_example =
    uu_decode-uu_encode cat (overlay (uu_encode cat 50) blank) 50 cat-AreBytes (omega arith)
      (overlay-Holds (uu_encode cat 50) blank)

uu_decode_total_example :
    (out : List ℕ) × (uu_decode (overlay encoded_cat blank) 7 ≡ some out)
    × (4 * length out ≤ 3 * (7 + 128))
unfolding line_length_of overlay
uu_decode_total_example = uu_decode_total (overlay encoded_cat blank) 7 (omega arith) (omega arith)

-- A block that begins with a line end.
uu_decode_corrupt_example :
    (out : List ℕ) × (uu_decode (overlay (13 ∷ []) blank) 7 ≡ some out)
    × (2 ^ 32 - 160 ≤ length out)
unfolding overlay
uu_decode_corrupt_example =
    uu_decode_corrupt (overlay (13 ∷ []) blank) 7 (omega arith) (omega arith) refl
