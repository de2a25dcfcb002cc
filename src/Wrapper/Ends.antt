-- ===== src/Wrapper/Ends.antt =====
-- The termination of the commands of lpcisp that transfer data.
use lpctools.Base.{
  ℕ, ◌%◌, ◌^◌, ◌<◌, arith, Bool, not, ◌||◌, Option, List, [], ◌∷◌, ◌==◌, u32, to_unsigned, inl, inr,
  Bool-cases, overlay,
}
use lpctools.Machine.{World}
use lpctools.File.{Feed, file_to_buff, Sink}
use lpctools.File.Sizes.{file_to_buff-small}
use lpctools.Transfer.Steady.{Returns, Returns-bind, send_buf_to_ram-Returns}
use lpctools.Transfer.Fetch.{read_memory-Returns}
use lpctools.Wrapper.{
  number, padded, ram_max_size, uuencoded_flag, cmd_read_memory, cmd_write_to_ram,
}

padded-small : (n : ℕ) → n < 2 ^ 32 → padded n < 2 ^ 32
unfolding padded
padded-small n small = ground arith

-- write-to-ram returns on every line, for all arguments and files.
pub cmd_write_to_ram-Returns :
    (args : List (List ℕ)) (file : Option (List Feed)) (w : World)
    → Returns (cmd_write_to_ram args file w)
unfolding cmd_write_to_ram
cmd_write_to_ram-Returns [] file w = tt
cmd_write_to_ram-Returns (a ∷ []) file w = tt
cmd_write_to_ram-Returns (addr ∷ file_name ∷ more) file w =
    let (size, stored) = file_to_buff file ram_max_size in
    let small : to_unsigned size < 2 ^ 32 = file_to_buff-small file ram_max_size in
    elim (Bool-cases (number addr % 4 == 0)) [
      | inr odd ↦ rw odd tt
      | inl aligned ↦ elim (Bool-cases (to_unsigned size == 0)) [
        | inl empty ↦ rw (aligned, empty) tt
        | inr full ↦
            rw (aligned, full)
              (send_buf_to_ram-Returns (overlay stored w.junk) (number addr)
                (padded (to_unsigned size)) (uuencoded_flag more) w
                (padded-small (to_unsigned size) small))
      ]
    ]

-- read-memory returns on every line, for all arguments, whether or not there is memory, whatever the file.
pub cmd_read_memory-Returns :
    (args : List (List ℕ)) (can_allocate : Bool) (sink : Sink) (w : World)
    → Returns (cmd_read_memory args can_allocate sink w)
unfolding cmd_read_memory
cmd_read_memory-Returns [] can_allocate sink w = tt
cmd_read_memory-Returns (a ∷ []) can_allocate sink w = tt
cmd_read_memory-Returns (a ∷ b ∷ []) can_allocate sink w = tt
cmd_read_memory-Returns (addr ∷ count ∷ file_name ∷ more) can_allocate sink w =
    elim (Bool-cases (not (number addr % 4 == 0) || not (number count % 4 == 0))) [
      | inl odd ↦ rw odd tt
      | inr aligned ↦ elim (Bool-cases can_allocate) [
        | inr lacking ↦ rw (aligned, lacking) tt
        | inl allocated ↦
            rw (aligned, allocated)
              (Returns-bind _ _
                (read_memory-Returns (u32 (number addr)) (u32 (number count)) (uuencoded_flag more)
                  w (omega arith))
                λ r w'. tt)
      ]
    ]
