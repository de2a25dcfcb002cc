-- ===== src/Prog/Bounds.antt =====
-- The block size of flash_target and the flash that its blocks cover.
use native.Mathlib.Nat.{div-add-mod, mod-lt, mul_comm, add-mul, suc-mul, mul-le-mul_right}
use lpctools.Base.{
  ℕ, suc, ◌+◌, ◌*◌, ◌/◌, ◌%◌, ◌^◌, ◌≤◌, ◌<◌, ◌≡◌, arith, false, Bool-cases, ltb, leb, ◌==◌, u32,
  inl, inr, ◌⊎◌,
}
use lpctools.Prog.{calc_write_size, blocks_of}

-- The sizes that calc_write_size chooses from.
abbrev pub IsWriteSize : ℕ → Type 0
IsWriteSize n = (n ≡ 4096) ⊎ (n ≡ 1024) ⊎ (n ≡ 512) ⊎ (n ≡ 256) ⊎ (n ≡ 64)

-- If one of 64, 256, 512, 1024 and 4096 is at most the sector and the buffer in RAM, calc_write_size
-- is one of these sizes too, at most both, and not less than it.
pub calc_write_size_lem :
    (sector_size ram_buff_size n : ℕ)
    → IsWriteSize n
    → n ≤ sector_size
    → n ≤ ram_buff_size
    → (n ≤ calc_write_size sector_size ram_buff_size)
      × (calc_write_size sector_size ram_buff_size ≤ sector_size)
      × (calc_write_size sector_size ram_buff_size ≤ ram_buff_size)
      × IsWriteSize (calc_write_size sector_size ram_buff_size)
unfolding calc_write_size
calc_write_size_lem sector_size ram_buff_size n is fits fits' =
    (ground arith, ground arith, ground arith, ground arith)

pub blocks_of-cover :
    (size write_size : ℕ)
    → 0 < write_size
    → (size ≤ blocks_of size write_size * write_size)
      × (blocks_of size write_size * write_size < size + write_size)
blocks_of-cover size write_size some =
    let divided = div-add-mod size write_size in
    let below = mod-lt size some in
    elim (Bool-cases (size % write_size == 0)) [
      | inl whole ↦ rw whole (
        ground (arith, mul_comm write_size (size / write_size)),
        ground (arith, mul_comm write_size (size / write_size)),
      )
      | inr more ↦ rw more (
        ground (
          arith,
          mul_comm write_size (size / write_size),
          add-mul (size / write_size) 1 write_size,
        ),
        ground (
          arith,
          mul_comm write_size (size / write_size),
          add-mul (size / write_size) 1 write_size,
        ),
      )
    ]

-- A number of blocks that ends less than one block behind a whole number of them.
whole_blocks : (b q write_size : ℕ) → b * write_size < q * write_size + write_size → b ≤ q
whole_blocks b q write_size h = elim (Bool-cases (leb b q)) [
  | inl le ↦ ground arith
  | inr more ↦ absurd (
      ground (
        arith,
        mul-le-mul_right {m = suc q} {n = b} write_size (ground arith),
        suc-mul q write_size,
      ))
]

pub ltb-false-le : (a b : ℕ) → ltb a b ≡ false → b ≤ a
ltb-false-le a b h = ground arith

-- The product does not wrap.
pub blocks_of-u32 :
    (size write_size : ℕ)
    → 0 < write_size
    → size + write_size < 2 ^ 32
    → u32 (blocks_of size write_size * write_size) ≡ blocks_of size write_size * write_size
blocks_of-u32 size write_size some small = omega (arith, blocks_of-cover size write_size some)

-- Each of the blocks of an image that passes lies in the flash.
pub blocks_of-inside :
    (flash_size size write_size i : ℕ)
    → 0 < write_size
    → size ≤ flash_size
    → flash_size + write_size < 2 ^ 32
    → ltb flash_size (u32 (blocks_of size write_size * write_size)) ≡ false
    → i < blocks_of size write_size
    → (i * write_size + write_size ≤ flash_size) × (size ≤ blocks_of size write_size * write_size)
blocks_of-inside flash_size size write_size i some fits small passed inside =
    let b = blocks_of size write_size in
    let covered = (blocks_of-cover size write_size some).0 in
    let le =
      ltb-false-le flash_size (b * write_size)
        (rw (blocks_of-u32 size write_size some (omega arith)) at passed) in
    (
      ground (arith, mul-le-mul_right {m = suc i} {n = b} write_size inside, suc-mul i write_size),
      covered,
    )

-- Where the flash is a whole number of blocks, with flash and block together below 2 ^ 32,
-- flash_target's test lets every image pass that is not longer than the flash.
pub blocks_of_passes :
    (flash_size size write_size : ℕ)
    → 0 < write_size
    → size ≤ flash_size
    → flash_size + write_size < 2 ^ 32
    → flash_size % write_size ≡ 0
    → ltb flash_size (u32 (blocks_of size write_size * write_size)) ≡ false
blocks_of_passes flash_size size write_size some fits small whole =
    let b = blocks_of size write_size in
    let q = flash_size / write_size in
    let (covered, tight) = blocks_of-cover size write_size some in
    let multiple : flash_size ≡ q * write_size =
      omega (arith, div-add-mod flash_size write_size, mul_comm write_size q) in
    let le = whole_blocks b q write_size (omega arith) in
    rw (blocks_of-u32 size write_size some (omega arith))
      (ground (arith, mul-le-mul_right {m = b} {n = q} write_size le))
