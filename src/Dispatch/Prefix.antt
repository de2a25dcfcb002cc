-- ===== src/Dispatch/Prefix.antt =====
-- What the look-up of a command by strncmp finds: the entry whose name the text starts with.
use lpctools.Base.{
  ℕ, ◌≡◌, refl, subst, arith, true, false, List, [], ◌∷◌, ◌++◌, some, length, All, inl, inr,
  Bool-cases, ◌==◌,
}
use lpctools.Text.{same_prefix}
use lpctools.Dispatch.{find_command}

abbrev pub NoNul : ℕ → Type 0
NoNul c = (c == 0) ≡ false

same_prefix-inv :
    (a b : List ℕ)
    → All NoNul a
    → same_prefix (length a) a b ≡ true
    → (rest : List ℕ) × (b ≡ a ++ rest)
unfolding same_prefix
same_prefix-inv [] b texts h = (b, refl)
same_prefix-inv (x ∷ a) [] (text, texts) h = absurd (ground arith)
same_prefix-inv (x ∷ a) (y ∷ b) (text, texts) h = elim (Bool-cases (x == y)) [
  | inr differ ↦ absurd (ground arith)
  | inl same ↦
      let (rest, e) = same_prefix-inv a b texts (rw (same, text) at h) in (rest, ground arith)
]

some_inj {ℓ} : {E : Type ℓ} (a b : E) → some a ≡ some b → a ≡ b
some_inj a b h = cc

-- What holds of each entry of the table holds of the one that is found, and the text starts with its name.
pub find_command-inv {ℓ κ} :
    {E : Type ℓ} (P : E → Type κ) (name : E → List ℕ) (es : List E) (cmd : List ℕ) (e : E)
    → All (λ e'. P e' × All NoNul (name e')) es
    → find_command name es cmd ≡ some e
    → P e × ((rest : List ℕ) × (cmd ≡ name e ++ rest))
unfolding find_command
find_command-inv P name [] cmd e texts h = absurd (ground arith)
find_command-inv P name (e' ∷ es) cmd e ((p, text), texts) h =
    elim (Bool-cases (same_prefix (length (name e')) (name e') cmd)) [
      | inl fits ↦
          subst (λ f. P f × ((rest : List ℕ) × (cmd ≡ name f ++ rest)))
            (some_inj e' e (rw fits at h)) (p, same_prefix-inv (name e') cmd text fits)
      | inr differs ↦ find_command-inv P name es cmd e texts (rw differs at h)
    ]
