-- ===== src/Block/Sizes.antt =====
-- get_remaining_blocksize and get_nb_blocks beside the sizes of isp_uu_encode.
use lpctools.Base.{
  ℕ, ◌+◌, ◌-◌, ◌*◌, ◌^◌, ◌≤◌, ◌<◌, ◌≡◌, arith, Mem, length, ltb, if◌then◌else◌, ◌↔◌,
}
use lpctools.Uu.{uu_encode}
use lpctools.Uu.Encode.{encoded_size, length-uu_encode}
use lpctools.Block.{remaining_blocksize, nb_blocks, serial_bufsize}

-- How many bytes of data the next block carries.
abbrev pub block_data : ℕ → ℕ → ℕ
block_data count sent = if ltb (count - sent) 900 then count - sent else 900

pub remaining_blocksize-eq-encoded_size :
    (count sent : ℕ)
    → sent ≤ count
    → count < 2 ^ 32
    → remaining_blocksize count sent ≡ encoded_size (block_data count sent)
unfolding remaining_blocksize
remaining_blocksize-eq-encoded_size count sent le small = ground arith

-- The size that get_remaining_blocksize gives when `sent` bytes of `count`, at most that many and
-- `count` below 2 ^ 32, are through is the length of what isp_uu_encode writes for the next block.
pub remaining_blocksize-eq-length-uu_encode :
    (src : Mem) (count sent : ℕ)
    → sent ≤ count
    → count < 2 ^ 32
    → remaining_blocksize count sent ≡ length (uu_encode src (block_data count sent))
remaining_blocksize-eq-length-uu_encode src count sent le small = omega (
  arith,
  remaining_blocksize-eq-encoded_size count sent le small,
  length-uu_encode src (block_data count sent),
)

pub nb_blocks_least :
    (count : ℕ)
    → (count ≤ 900 * nb_blocks count) × ((k : ℕ) → count ≤ 900 * k → nb_blocks count ≤ k)
unfolding nb_blocks
nb_blocks_least count = (ground arith, λ k h. ground arith)

-- A number of blocks of 900 bytes carries all the data if and only if it is at least get_nb_blocks.
pub nb_blocks_iff : (count k : ℕ) → (nb_blocks count ≤ k) ↔ (count ≤ 900 * k)
unfolding nb_blocks
nb_blocks_iff count k = (λ h. ground arith, λ h. ground arith)

-- The uuencoded text of a block leaves at least twelve bytes of SERIAL_BUFSIZE for its checksum.
pub uu_encode_fits :
    (src : Mem) (count sent : ℕ)
    → length (uu_encode src (block_data count sent)) + 12 ≤ serial_bufsize
uu_encode_fits src count sent = ground (arith, length-uu_encode src (block_data count sent))
