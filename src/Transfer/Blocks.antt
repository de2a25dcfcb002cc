-- ===== src/Transfer/Blocks.antt =====
-- What the receiver of the blocks recovers from them.
use Prim.Native.Nat.{min}
use lpctools.Base.{
  ℕ, zero, suc, ◌+◌, ◌*◌, ◌^◌, ◌≤◌, ◌<◌, ◌≡◌, refl, ap, ◌∙◌, sym, arith, List, [], ◌∷◌, ◌++◌,
  length, Mem, AreBytes, bytes, bytes-add, shift, Holds, Holds-append, some, drop, inl, inr,
  Bool-cases, ltb,
}
use lpctools.Text.{strtoul, print_u}
use lpctools.Text.Decimal.{strtoul-print_u}
use lpctools.Uu.{uu_encode, uu_decode}
use lpctools.Uu.RoundTrip.{uu_decode-uu_encode}
use lpctools.Block.{nb_blocks, remaining_blocksize, calc_checksum}
use lpctools.Block.Sizes.{block_data, remaining_blocksize-eq-length-uu_encode, nb_blocks_least}
use lpctools.Block.Checksum.{calc_checksum-eq-sum}
use lpctools.Command.{crlf}
use lpctools.Transfer.{block_text}
use lpctools.Transfer.Delivers.{block_at}

pub bytes-shift : (k : ℕ) (m : Mem) (p n : ℕ) → bytes (shift k m) p n ≡ bytes m (k + p) n
unfolding bytes
bytes-shift k m p zero = refl
bytes-shift k m p (suc n) =
    ap (λ (t : List ℕ). m (k + p) ∷ t)
      (bytes-shift k m (p + 1) n ∙ ap (λ (q : ℕ). bytes m q n) (omega arith))

drop-append : (xs ys : List ℕ) → drop (length xs) (xs ++ ys) ≡ ys
drop-append [] ys = refl
drop-append (x ∷ xs) ys = drop-append xs ys

pub inside_count : (count i : ℕ) → i < nb_blocks count → 900 * i ≤ count
unfolding nb_blocks
inside_count count i h = ground arith

-- A receiver whose memory holds block i, one of the get_nb_blocks blocks of a transfer of fewer than 2
-- ^ 32 bytes, decodes, with the size that get_remaining_blocksize gives for the bytes before the
-- block, the data of the block, and strtoul behind the uuencoded text reads the checksum of the data.
pub block_at-decodes :
    (data_at m : Mem) (count i : ℕ)
    → AreBytes data_at
    → count < 2 ^ 32
    → i < nb_blocks count
    → Holds m 0 (block_at data_at count i)
    → (uu_decode m (remaining_blocksize count (900 * i))
        ≡ some (bytes data_at (900 * i) (block_data count (900 * i))))
      × ((strtoul (drop (remaining_blocksize count (900 * i)) (block_at data_at count i)) 10).value
          ≡ calc_checksum (shift (900 * i) data_at) (block_data count (900 * i)))
unfolding block_text
block_at-decodes data_at m count i are small go holds =
    let n = block_data count (900 * i) in
    let src = shift (900 * i) data_at in
    let enc = uu_encode src n in
    let size : remaining_blocksize count (900 * i) ≡ length enc =
      remaining_blocksize-eq-length-uu_encode src count (900 * i) (inside_count count i go) small in
    let (first, rest) = Holds-append m 0 enc (print_u (calc_checksum src n) ++ crlf) holds in
    let wrapped : calc_checksum src n < 2 ^ 32 = omega (arith, calc_checksum-eq-sum src n) in
    let at : bytes src 0 n ≡ bytes data_at (900 * i) n =
      bytes-shift (900 * i) data_at 0 n ∙ ap (λ (q : ℕ). bytes data_at q n) (omega arith) in
    (
      rw size
          (uu_decode-uu_encode src m n (λ j. are (900 * i + j)) (ground arith) first ∙ ap some at),
      rw (size, drop-append enc (print_u (calc_checksum src n) ++ crlf))
          (rw (strtoul-print_u (calc_checksum src n) 13 (10 ∷ []) wrapped (ground arith)) refl),
    )

-- The data of the first `k` blocks.
abbrev pub data_of_blocks : Mem → ℕ → ℕ → List ℕ
data_of_blocks data_at count zero = []
data_of_blocks data_at count (suc k) =
    data_of_blocks data_at count k ++ bytes data_at (900 * k) (block_data count (900 * k))

pub data_of_blocks-bytes :
    (data_at : Mem) (count k : ℕ)
    → data_of_blocks data_at count k ≡ bytes data_at 0 (min count (900 * k))
unfolding bytes
data_of_blocks-bytes data_at count zero = ap (bytes data_at 0) {x = 0} (omega arith)
data_of_blocks-bytes data_at count (suc k) =
    let a = min count (900 * k) in
    let n = block_data count (900 * k) in
    let next : bytes data_at (0 + a) n ≡ bytes data_at (900 * k) n =
      elim (Bool-cases (ltb count (900 * k))) [
        | inl behind ↦
            let none : n ≡ 0 = ground arith in
            ap (bytes data_at (0 + a)) none ∙ sym (ap (bytes data_at (900 * k)) none)
        | inr within ↦ ap (λ q. bytes data_at q n) (ground arith)
      ] in
    rw (data_of_blocks-bytes data_at count k) (
      ap (λ t. bytes data_at 0 a ++ t) (sym next)
      ∙ sym (bytes-add data_at 0 a n)
      ∙ ap (bytes data_at 0) (ground arith))

-- The data of the get_nb_blocks blocks, one after the other, are the bytes of the buffer, each once
-- and in order.
pub data_of_blocks_all :
    (data_at : Mem) (count : ℕ)
    → data_of_blocks data_at count (nb_blocks count) ≡ bytes data_at 0 count
data_of_blocks_all data_at count =
    data_of_blocks-bytes data_at count (nb_blocks count)
    ∙ ap (bytes data_at 0) (ground (arith, (nb_blocks_least count).0))
