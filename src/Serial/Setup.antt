-- ===== src/Serial/Setup.antt =====
-- isp_utils.c: isp_serial_open. What the system takes as a speed is a parameter, as cfsetospeed() and
-- cfsetispeed() leave the settings alone where they refuse one.
use lpctools.Base.{ℕ, Bool, List, [], ◌∷◌, Option, none, some, ℤ, pos, negsuc, if◌then◌else◌}

pub data InputFlag : Type 0 where
  ixon : InputFlag
  ixoff : InputFlag

pub data ControlFlag : Type 0 where
  cs8 : ControlFlag
  cread : ControlFlag
  clocal : ControlFlag

-- The members of struct termios that are not left at zero.
pub record Termios : Type 0 where
  pub c_iflag : List InputFlag
  pub c_cflag : List ControlFlag
  pub vmin : ℕ
  pub vtime : ℕ
  pub ospeed : ℤ
  pub ispeed : ℤ

abbrev set_speed : (ℤ → Bool) → ℤ → ℤ → ℤ
set_speed is_speed baudrate old = if is_speed baudrate then baudrate else old

-- isp_serial_open: the result, and the settings of the line. `opens` says whether open() succeeds.
unfoldable pub serial_open : (ℤ → Bool) → Bool → ℤ → Option (List ℕ) → ℤ × Option Termios
serial_open is_speed opens baudrate none = (negsuc 1, none)
serial_open is_speed opens baudrate (some serial_device) =
    if opens
    then (
      pos 0,
      some (record {
        c_iflag = InputFlag.ixon ∷ InputFlag.ixoff ∷ [];
        c_cflag = ControlFlag.cs8 ∷ ControlFlag.cread ∷ ControlFlag.clocal ∷ [];
        vmin = 1;
        vtime = 5;
        ospeed = set_speed is_speed baudrate (pos 0);
        ispeed = set_speed is_speed baudrate (pos 0);
      }),
    )
    else (negsuc 0, none)
