-- ===== src/Wrapper/Steady.antt =====
-- The commands of lpcisp that send one request, as steady commands.
use lpctools.Base.{ℕ, List, [], ◌∷◌}
use lpctools.Machine.Steady.{Steady, steady_rules}
use lpctools.Command.Steady.{
  command_rules, send_cmd_address-Steady, send_cmd_go-Steady, send_cmd_sectors-Steady,
}
use lpctools.Wrapper.{
  address_wrapper, cmd_compare, cmd_copy_ram_to_flash, cmd_go, sectors_skel, cmd_blank_check,
  cmd_prepare_for_write, cmd_erase,
}

address_wrapper-Steady : (args : List (List ℕ)) (cmd : ℕ) → Steady (address_wrapper args cmd)
unfolding address_wrapper
address_wrapper-Steady [] cmd = search steady_rules
address_wrapper-Steady (a ∷ []) cmd = search steady_rules
address_wrapper-Steady (a ∷ b ∷ []) cmd = search steady_rules
address_wrapper-Steady (a ∷ b ∷ c ∷ []) cmd =
    search (steady_rules, send_cmd_address-Steady) depth 12
address_wrapper-Steady (a ∷ b ∷ c ∷ d ∷ more) cmd = search steady_rules

sectors_skel-Steady : (args : List (List ℕ)) (cmd : ℕ) → Steady (sectors_skel args cmd)
unfolding sectors_skel
sectors_skel-Steady [] cmd = search steady_rules
sectors_skel-Steady (a ∷ []) cmd = search steady_rules
sectors_skel-Steady (a ∷ b ∷ []) cmd = search send_cmd_sectors-Steady
sectors_skel-Steady (a ∷ b ∷ c ∷ more) cmd = search steady_rules

cmd_compare-Steady : (args : List (List ℕ)) → Steady (cmd_compare args)
unfolding cmd_compare
cmd_compare-Steady args = search (command_rules, address_wrapper-Steady) depth 14

cmd_copy_ram_to_flash-Steady : (args : List (List ℕ)) → Steady (cmd_copy_ram_to_flash args)
unfolding cmd_copy_ram_to_flash
cmd_copy_ram_to_flash-Steady args = search (steady_rules, address_wrapper-Steady) depth 8

cmd_go-Steady : (args : List (List ℕ)) → Steady (cmd_go args)
unfolding cmd_go
cmd_go-Steady [] = search steady_rules
cmd_go-Steady (a ∷ []) = search steady_rules
cmd_go-Steady (a ∷ b ∷ []) = search (steady_rules, send_cmd_go-Steady) depth 8
cmd_go-Steady (a ∷ b ∷ c ∷ more) = search steady_rules

cmd_blank_check-Steady : (args : List (List ℕ)) → Steady (cmd_blank_check args)
unfolding cmd_blank_check
cmd_blank_check-Steady args = search (command_rules, sectors_skel-Steady) depth 16

cmd_prepare_for_write-Steady : (args : List (List ℕ)) → Steady (cmd_prepare_for_write args)
unfolding cmd_prepare_for_write
cmd_prepare_for_write-Steady args = search (steady_rules, sectors_skel-Steady) depth 8

cmd_erase-Steady : (args : List (List ℕ)) → Steady (cmd_erase args)
unfolding cmd_erase
cmd_erase-Steady args = search (steady_rules, sectors_skel-Steady) depth 8

-- For all arguments and on every line, the commands compare, copy-ram-to-flash, go, blank-check,
-- prepare-for-write and erase return, and leave the counters of resend requests alone.
pub commands-Steady :
    (args : List (List ℕ))
    → Steady (cmd_compare args)
      × Steady (cmd_copy_ram_to_flash args)
      × Steady (cmd_go args)
      × Steady (cmd_blank_check args)
      × Steady (cmd_prepare_for_write args)
      × Steady (cmd_erase args)
commands-Steady args = (
  cmd_compare-Steady args,
  cmd_copy_ram_to_flash-Steady args,
  cmd_go-Steady args,
  cmd_blank_check-Steady args,
  cmd_prepare_for_write-Steady args,
  cmd_erase-Steady args,
)
