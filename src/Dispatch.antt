-- ===== src/Dispatch.antt =====
-- The loops of lpcisp.c and lpcprog.c that look a command up by its name.
pub mod Prefix
use lpctools.Base.{ℕ, zero, suc, Bool, List, [], ◌∷◌, Option, none, some, length, if◌then◌else◌}
use lpctools.Text.{same_prefix}

-- `name` gives the member of a table's entry; the end of the list is the entry whose name is NULL.
unfoldable pub find_command {ℓ} : {E : Type ℓ} → (E → List ℕ) → List E → List ℕ → Option E
find_command name [] cmd = none
find_command name (e ∷ es) cmd =
    let rest = find_command name es cmd in
    if same_prefix (length (name e)) (name e) cmd then some e else rest
