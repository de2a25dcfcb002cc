-- ===== src/Block/Checksum.antt =====
-- What calc_checksum computes, and which errors it shows.
use lpctools.Base.{
  ℕ, zero, suc, ◌+◌, ◌*◌, ◌%◌, ◌^◌, ◌≤◌, ◌<◌, ◌≡◌, ◌≢◌, refl, arith, Mem, AreBytes, List, [], ◌∷◌,
  bytes, add32,
}
use lpctools.Block.{checksum_loop, calc_checksum}

unfoldable pub sum : List ℕ → ℕ
sum [] = 0
sum (x ∷ xs) = x + sum xs

checksum_loop-sum :
    (left : ℕ) (m : Mem) (i acc : ℕ)
    → acc < 2 ^ 32
    → checksum_loop left m i acc ≡ (acc + sum (bytes m i left)) % 2 ^ 32
unfolding checksum_loop sum bytes
checksum_loop-sum zero m i acc h = omega arith
checksum_loop-sum (suc left) m i acc h =
    omega (arith, checksum_loop-sum left m (i + 1) (add32 acc (m i)) (omega arith))

-- calc_checksum is the sum of the bytes modulo 2 ^ 32.
pub calc_checksum-eq-sum : (m : Mem) (n : ℕ) → calc_checksum m n ≡ sum (bytes m 0 n) % 2 ^ 32
unfolding calc_checksum
calc_checksum-eq-sum m n = omega (arith, checksum_loop-sum n m 0 0 (omega arith))

sum-bytes-le : (m : Mem) (p n : ℕ) → AreBytes m → sum (bytes m p n) ≤ 255 * n
unfolding sum bytes
sum-bytes-le m p zero are = omega arith
sum-bytes-le m p (suc n) are = omega (arith, are p, sum-bytes-le m (p + 1) n are)

sum-bytes_same :
    (m m' : Mem) (p n : ℕ) → ((j : ℕ) → p ≤ j → m j ≡ m' j) → sum (bytes m p n) ≡ sum (bytes m' p n)
unfolding sum bytes
sum-bytes_same m m' p zero same = refl
sum-bytes_same m m' p (suc n) same =
    omega (arith, same p (omega arith), sum-bytes_same m m' (p + 1) n (λ j h. same j (omega arith)))

-- Data that differ at one offset alone differ in their sums by as much.
sum-bytes_one :
    (m m' : Mem) (p n k : ℕ)
    → k < n
    → ((j : ℕ) → j ≢ p + k → m j ≡ m' j)
    → sum (bytes m p n) + m' (p + k) ≡ sum (bytes m' p n) + m (p + k)
unfolding sum bytes
sum-bytes_one m m' p zero k h same = absurd (omega arith)
sum-bytes_one m m' p (suc n) zero h same =
    let rest = sum-bytes_same m m' (p + 1) n (λ j above. same j (omega arith)) in
    let here : p + 0 ≡ p = omega arith in rw here (omega (arith, rest))
sum-bytes_one m m' p (suc n) (suc k) h same =
    let there : p + suc k ≡ p + 1 + k = omega arith in
    let rest = sum-bytes_one m m' (p + 1) n k (omega arith) (λ j ne. same j (omega arith)) in
    rw there (omega (arith, rest, same p (omega arith)))

-- A single wrong byte in a block of at most 900 bytes always changes calc_checksum: memories of bytes
-- that differ at one offset of the block, and nowhere else, have different checksums.
pub calc_checksum_one :
    (m m' : Mem) (n k : ℕ)
    → AreBytes m
    → AreBytes m'
    → n ≤ 900
    → k < n
    → ((j : ℕ) → j ≢ k → m j ≡ m' j)
    → m k ≢ m' k
    → calc_checksum m n ≢ calc_checksum m' n
calc_checksum_one m m' n k are are' small h same differ e =
    let here : 0 + k ≡ k = omega arith in
    let sums : sum (bytes m 0 n) + m' k ≡ sum (bytes m' 0 n) + m k =
      rw here at (sum-bytes_one m m' 0 n k h (λ j ne. same j (rw here at ne))) in
    differ (
      omega (
        arith,
        e,
        sums,
        calc_checksum-eq-sum m n,
        calc_checksum-eq-sum m' n,
        sum-bytes-le m 0 n are,
        sum-bytes-le m' 0 n are',
      ))
