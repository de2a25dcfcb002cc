-- ===== src/Machine/Steady.antt =====
-- Commands that return on every state, with one rule for each way to build a command.
use lpctools.Base.{ℕ, ◌≡◌, refl, ◌∙◌, Bool, true, false, if◌then◌else◌}
use lpctools.Machine.{World, Run, done, out_of_fuel, Cmd, pure, ◌>>=◌, sys_read}

-- What no read() and no write() changes.
pub record Frame (w w' : World) : Type 0 where
  pub request : w'.resend_request_for_block ≡ w.resend_request_for_block
  pub requested : w'.resend_requested_for_block ≡ w.resend_requested_for_block
  pub junk : w'.junk ≡ w.junk

pub Frame-refl : (w : World) → Frame w w
Frame-refl w = record { request = refl; requested = refl; junk = refl }

pub Frame-trans : {a b c : World} → Frame a b → Frame b c → Frame a c
Frame-trans f g = record {
  request = g.request ∙ f.request;
  requested = g.requested ∙ f.requested;
  junk = g.junk ∙ f.junk;
}

-- The run returned, with a result and a state of which `P` holds.
abbrev pub Ensures {ℓ} : {A : Type ℓ} → (A → World → Type 0) → Run A → Type 0
Ensures P (done a w) = P a w
Ensures P out_of_fuel = ⊥

-- `m` returns, whatever the line does, and leaves alone what no read() and no write() changes.
pub record Steady {ℓ} {A : Type ℓ} (m : Cmd A) : Type ℓ where
  pub at : (w : World) → (a : A) × (w' : World) × (m w ≡ done a w') × Frame w w'

pub Ensures-inv {ℓ} :
    {A : Type ℓ} (P : A → World → Type 0) (r : Run A)
    → Ensures P r
    → (a : A) × (w : World) × (r ≡ done a w) × P a w
Ensures-inv P (done a w) p = (a, w, refl, p)
Ensures-inv P out_of_fuel p = absurd p

pub Steady-pure {ℓ} : {A : Type ℓ} (a : A) → Steady (pure a)
Steady-pure a = record { at = λ w. (a, w, refl, Frame-refl w) }

pub Steady-if {ℓ} :
    {A : Type ℓ} (b : Bool) (m n : Cmd A) → Steady m → Steady n → Steady (if b then m else n)
Steady-if true m n em en = em
Steady-if false m n em en = en

pub Steady-bind {ℓ κ} :
    {A : Type ℓ} {B : Type κ} (m : Cmd A) (f : A → Cmd B)
    → Steady m
    → ((a : A) → Steady (f a))
    → Steady (m >>= f)
Steady-bind m f em ef = record {
  at = λ w.
      let (a, w', e, frame) = em.at w in
      let (b, w'', e', frame') = (ef a).at w' in (b, w'', rw e e', Frame-trans frame frame');
}

pub Steady-sys_read : (size : ℕ) → Steady (sys_read size)
unfolding sys_read
Steady-sys_read size = record {
  at = λ w. (_, _, refl, record { request = refl; requested = refl; junk = refl });
}

pub ruleset steady_rules = (Steady-pure, Steady-if, Steady-bind, Steady-sys_read)
