-- ===== src/Base/Lists.antt =====
-- Lists measured and indexed by native numbers, and memory as a function from offsets to bytes.
use Prim.Native.Char.{code}
use Prim.Native.String.{String}
use Prim.Native.Nat.{ℕ, zero, suc, ◌+◌, ◌-◌, ◌<◌, ◌≤◌}
use Prim.Native.Nat.add
use mathlib.Core.Path.{◌≡◌, refl, ap, subst, ◌∙◌}
use mathlib.Core.List.{append-nil, List, [], ◌∷◌, ◌++◌}
use native.Mathlib.Omega.{arith}
use native.Mathlib.Nat.{add-zero, zero-add}

module _ {ℓ} {A : Type ℓ} where
  abbrev pub length : List A → ℕ
  length [] = 0
  length (x ∷ xs) = suc (length xs)

  abbrev pub get_or : List A → ℕ → A → A
  get_or [] i d = d
  get_or (x ∷ xs) zero d = x
  get_or (x ∷ xs) (suc i) d = get_or xs i d

  abbrev pub take : ℕ → List A → List A
  take zero xs = []
  take (suc n) [] = []
  take (suc n) (x ∷ xs) = x ∷ take n xs

  abbrev pub drop : ℕ → List A → List A
  drop zero xs = xs
  drop (suc n) [] = []
  drop (suc n) (x ∷ xs) = drop n xs

  abbrev pub replicate : ℕ → A → List A
  replicate zero a = []
  replicate (suc n) a = a ∷ replicate n a

  abbrev pub All {κ} : (A → Type κ) → List A → Type κ
  All P [] = Unit {κ}
  All P (x ∷ xs) = P x × All P xs

  pub take-append-drop : (n : ℕ) (xs : List A) → take n xs ++ drop n xs ≡ xs
  take-append-drop zero xs = refl
  take-append-drop (suc n) [] = refl
  take-append-drop (suc n) (x ∷ xs) = ap (λ t. x ∷ t) (take-append-drop n xs)

  pub length-take-le :
      (n : ℕ) (xs : List A) → (length (take n xs) ≤ n) × (length (take n xs) ≤ length xs)
  length-take-le zero xs = omega arith
  length-take-le (suc n) [] = omega arith
  length-take-le (suc n) (x ∷ xs) = omega (arith, length-take-le n xs)

  pub length-append : (xs ys : List A) → length (xs ++ ys) ≡ length xs + length ys
  length-append [] ys = omega arith
  length-append (x ∷ xs) ys = omega (arith, length-append xs ys)

module _ {ℓ κ} {A : Type ℓ} (P : A → Type κ) where
  pub All-append : (xs ys : List A) → All P xs → All P ys → All P (xs ++ ys)
  All-append [] ys hx hy = hy
  All-append (x ∷ xs) ys (p, hx) hy = (p, All-append xs ys hx hy)

-- The bytes of an ASCII text.
abbrev pub codes : String → List ℕ
codes String.[] = []
codes (String.◌∷◌ c s) = code c ∷ codes s

-- What a `char *` shows: the byte at each offset. What lies past the object is any byte.
abbrev pub Mem : Type 0
Mem = ℕ → ℕ

abbrev pub AreBytes : Mem → Type 0
AreBytes m = (i : ℕ) → m i < 256

-- The pointer `p + k`.
abbrev pub shift : ℕ → Mem → Mem
shift k m i = m (k + i)

-- The bytes at the offsets from `p` up to `p + n`.
unfoldable pub bytes : Mem → ℕ → ℕ → List ℕ
bytes m p zero = []
bytes m p (suc n) = m p ∷ bytes m (p + 1) n

-- A list in memory from offset 0, with `old` behind it.
unfoldable pub overlay : List ℕ → Mem → Mem
overlay [] old i = old i
overlay (x ∷ xs) old zero = x
overlay (x ∷ xs) old (suc i) = overlay xs (λ j. old (suc j)) i

-- The same from the offset `k` on.
unfoldable pub overlay_at : ℕ → List ℕ → Mem → Mem
unfolding overlay
overlay_at zero xs old i = overlay xs old i
overlay_at (suc k) xs old zero = old zero
overlay_at (suc k) xs old (suc i) = overlay_at k xs (λ j. old (suc j)) i

-- `m` holds `xs` from offset `p` on.
abbrev pub Holds : Mem → ℕ → List ℕ → Type 0
Holds m p [] = Unit {0}
Holds m p (x ∷ xs) = (m p ≡ x) × Holds m (p + 1) xs

pub length-bytes : (m : Mem) (p n : ℕ) → length (bytes m p n) ≡ n
unfolding bytes
length-bytes m p zero = refl
length-bytes m p (suc n) = ap suc (length-bytes m (p + 1) n)

pub bytes-add : (m : Mem) (p a b : ℕ) → bytes m p (a + b) ≡ bytes m p a ++ bytes m (p + a) b
unfolding bytes
bytes-add m p zero b = rw (zero-add, add-zero)
bytes-add m p (suc a) b = rw (add.suc a b) (
    ap (λ (t : List ℕ). m p ∷ t)
      (bytes-add m (p + 1) a b ∙ ap (λ (k : ℕ). bytes m (p + 1) a ++ bytes m k b) (omega arith)))

pub Holds-append :
    (m : Mem) (p : ℕ) (xs ys : List ℕ)
    → Holds m p (xs ++ ys)
    → Holds m p xs × Holds m (p + length xs) ys
Holds-append m p [] ys h = (tt, rw add-zero h)
Holds-append m p (x ∷ xs) ys (e, h) =
    let (l, r) = Holds-append m (p + 1) xs ys h in
    ((e, l), subst (λ k. Holds m k ys) (omega arith) r)

pub Holds-overlay :
    (xs : List ℕ) (old : Mem) (m : Mem) (p : ℕ)
    → ((i : ℕ) → m (p + i) ≡ overlay xs old i)
    → Holds m p xs
unfolding overlay
Holds-overlay [] old m p h = tt
Holds-overlay (x ∷ xs) old m p h = (
  subst (λ k. m k ≡ x) (add-zero p) (h 0),
  Holds-overlay xs (λ j. old (suc j)) m (p + 1)
      λ i. subst (λ k. m k ≡ overlay xs (λ j. old (suc j)) i) (omega arith) (h (suc i)),
)

pub overlay-append : (xs ys : List ℕ) (old : Mem) → Holds (overlay (xs ++ ys) old) 0 xs
overlay-append xs ys old =
    (Holds-append _ 0 xs ys (Holds-overlay (xs ++ ys) old _ 0 λ i. rw zero-add)).0

pub overlay-Holds : (xs : List ℕ) (old : Mem) → Holds (overlay xs old) 0 xs
overlay-Holds xs old = Holds-overlay xs old _ 0 λ i. rw zero-add

-- The first of a positive number of bytes.
pub bytes-pos : (m : Mem) (p n : ℕ) → 0 < n → bytes m p n ≡ m p ∷ bytes m (p + 1) (n - 1)
unfolding bytes
bytes-pos m p zero h = absurd (omega arith)
bytes-pos m p (suc n) h = ap (λ (k : ℕ). m p ∷ bytes m (p + 1) k) (omega arith)

-- What a list in memory reads as.
pub bytes-Holds :
    (m : Mem) (p : ℕ) (xs : List ℕ) (n : ℕ)
    → Holds m p xs
    → length xs ≤ n
    → bytes m p n ≡ xs ++ bytes m (p + length xs) (n - length xs)
unfolding bytes
bytes-Holds m p [] n h fits =
    ap (λ k. bytes m k n) (omega arith) ∙ ap (bytes m (p + 0)) (omega arith)
bytes-Holds m p (x ∷ xs) zero h fits = absurd (omega arith)
bytes-Holds m p (x ∷ xs) (suc n) (e, h) fits = rw e (
    ap (λ (t : List ℕ). x ∷ t)
      (bytes-Holds m (p + 1) xs n h (omega arith)
        ∙ ap (λ k. xs ++ bytes m k (n - length xs)) (omega arith)
        ∙ ap (λ k. xs ++ bytes m (p + suc (length xs)) k) (omega arith)))

pub bytes-overlay : (xs : List ℕ) (old : Mem) → bytes (overlay xs old) 0 (length xs) ≡ xs
unfolding bytes
bytes-overlay xs old =
    bytes-Holds (overlay xs old) 0 xs (length xs) (overlay-Holds xs old) (omega arith)
    ∙ ap (λ k. xs ++ bytes (overlay xs old) (0 + length xs) k) {y = 0} (omega arith)
    ∙ append-nil xs
