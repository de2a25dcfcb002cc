-- ===== src/Block/Runs.antt =====
-- Sizes and checksums at concrete inputs.
use lpctools.Base.{ℕ, zero, suc, ◌≡◌, ◌≢◌, refl, arith, Mem, AreBytes, length}
use lpctools.Machine.Samples.{cat, cat-AreBytes}
use lpctools.Uu.{uu_encode}
use lpctools.Block.{remaining_blocksize, calc_checksum}
use lpctools.Block.Sizes.{block_data, remaining_blocksize-eq-length-uu_encode}
use lpctools.Block.Checksum.{calc_checksum_one}

checksum_of_cat : calc_checksum cat 3 ≡ 280
unfolding calc_checksum
checksum_of_cat = refl

remaining_blocksize-eq-length-uu_encode_example :
    remaining_blocksize 1000 900 ≡ length (uu_encode cat (block_data 1000 900))
remaining_blocksize-eq-length-uu_encode_example =
    remaining_blocksize-eq-length-uu_encode cat 1000 900 (omega arith) (omega arith)

-- The first letter is damaged.
abbrev damaged : Mem
damaged zero = 66
damaged (suc i) = cat (suc i)

damaged-AreBytes : AreBytes damaged
damaged-AreBytes zero = omega arith
damaged-AreBytes (suc i) = cat-AreBytes (suc i)

same_elsewhere : (j : ℕ) → j ≢ 0 → cat j ≡ damaged j
same_elsewhere zero ne = absurd (ne refl)
same_elsewhere (suc j) ne = refl

calc_checksum_one_example : calc_checksum cat 3 ≢ calc_checksum damaged 3
calc_checksum_one_example =
    calc_checksum_one cat damaged 3 0 cat-AreBytes damaged-AreBytes (omega arith) (omega arith)
      same_elsewhere (omega arith)
