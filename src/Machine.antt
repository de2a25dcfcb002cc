-- ===== src/Machine.antt =====
-- What the program shares with its environment: the serial line as a script of outcomes of read() and
-- write(), and the program's static variables. Commands are functions of this state; a loop whose fuel
-- runs out has no result, which the termination theorems exclude.
pub mod Steady
pub mod Samples
use lpctools.Base.{
  ℕ, zero, suc, ◌+◌, List, [], ◌∷◌, ◌++◌, Mem, take, drop, length, ℤ, Option, none, some,
}

-- What a read() of the line meets. `ready` is never empty: one byte and those behind it.
pub data Rx : Type 0 where
  ready : ℕ → List ℕ → Rx
  no_data : Rx
  broken : Rx
  closed : Rx

-- What a write() to the line meets: `room n` takes n + 1 bytes, or fewer if fewer are offered.
pub data Tx : Type 0 where
  room : ℕ → Tx
  no_room : Tx
  broken : Tx

-- Values that the program prints as the result of a command.
pub data Report : Type 0 where
  part_id : ℕ → Report
  uid : ℕ → ℕ → ℕ → ℕ → Report
  boot_version : ℕ → ℕ → Report
  mismatch : ℕ → Report
  not_blank : ℕ → ℕ → Report

pub record World : Type 0 where
  pub rx : List Rx
  pub tx : List Tx
  -- every byte that the line has taken
  pub sent : List ℕ
  -- the static variables next_read_char, and the two that count the resend requests for a block
  pub next_read_char : ℕ
  pub resend_request_for_block : ℕ
  pub resend_requested_for_block : ℕ
  -- what a local array holds before it is written
  pub junk : Mem
  pub reports : List Report

pub data Run {ℓ} (A : Type ℓ) : Type ℓ where
  done : A → World → Run A
  out_of_fuel : Run A

abbrev pub Cmd {ℓ} : Type ℓ → Type ℓ
Cmd A = World → Run A

abbrev pub pure {ℓ} : {A : Type ℓ} → A → Cmd A
pure a w = done a w

abbrev pub and_then {ℓ κ} : {A : Type ℓ} {B : Type κ} → Run A → (A → Cmd B) → Run B
and_then (done a w) f = f a w
and_then out_of_fuel f = out_of_fuel

infixl 5 ◌>>=◌ ◌>>◌
abbrev pub ◌>>=◌ {ℓ κ} : {A : Type ℓ} {B : Type κ} → Cmd A → (A → Cmd B) → Cmd B
◌>>=◌ m f w = and_then (m w) f

abbrev pub ◌>>◌ {ℓ κ} : {A : Type ℓ} {B : Type κ} → Cmd A → Cmd B → Cmd B
m >> n = m >>= λ _. n

-- The outcome of read(): `got []` is the result 0.
pub data Received : Type 0 where
  got : List ℕ → Received
  would_block : Received
  error : Received

abbrev pub put_back : List ℕ → List Rx → List Rx
put_back [] rest = rest
put_back (b ∷ bs) rest = ready b bs ∷ rest

-- read(): at most `size` bytes of what is ready. A line with nothing left to come stays silent.
abbrev pub read_events : ℕ → List Rx → Received × List Rx
read_events zero rx = (got [], rx)
read_events (suc size) [] = (would_block, [])
read_events (suc size) (ready b bs ∷ rest) = (got (b ∷ take size bs), put_back (drop size bs) rest)
read_events (suc size) (no_data ∷ rest) = (would_block, rest)
read_events (suc size) (broken ∷ rest) = (error, rest)
read_events (suc size) (closed ∷ rest) = (got [], rest)

unfoldable pub sys_read : ℕ → Cmd Received
sys_read size w = done (read_events size w.rx).0 (record w { rx = (read_events size w.rx).1 })

-- The outcome of write(): how many bytes were taken.
pub data Written : Type 0 where
  took : ℕ → Written
  would_block : Written
  error : Written

abbrev pub write_event : List Tx → List ℕ → Written
write_event [] buf = took (length buf)
write_event (room n ∷ rest) buf = took (length (take (suc n) buf))
write_event (no_room ∷ rest) buf = would_block
write_event (broken ∷ rest) buf = error

abbrev pub write_taken : List Tx → List ℕ → List ℕ
write_taken [] buf = buf
write_taken (room n ∷ rest) buf = take (suc n) buf
write_taken (no_room ∷ rest) buf = []
write_taken (broken ∷ rest) buf = []

unfoldable pub sys_write : List ℕ → Cmd Written
sys_write buf w =
    done (write_event w.tx buf)
      (record w { tx = drop 1 w.tx; sent = w.sent ++ write_taken w.tx buf })
