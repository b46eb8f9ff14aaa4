-- ===== src/Termios.antt =====
-- utils/setInterface.cpp, and setAttributesOnSerial of receiver/read.cpp: the attributes that a serial
-- port is given. The bits of the flags and the calls that set a speed are the platform's, and are
-- parameters; a word of flags is the function that tells its bits.
pub mod Bits
pub mod Speed
use serial.Base.{ℕ, Bool, true, false, not, ◌&&◌, ◌||◌, Option, none, some, if◌then◌else◌}

abbrev pub Flags : Type 0
Flags = ℕ → Bool

infixl 30 ◌or◌
abbrev pub ◌or◌ : Flags → Flags → Flags
(a or b) i = a i || b i

-- a & ~b
infixl 35 ◌without◌
abbrev pub ◌without◌ : Flags → Flags → Flags
(a without b) i = a i && not (b i)

abbrev pub no_flags : Flags
no_flags i = false

pub record Termios : Type 0 where
  pub c_iflag : Flags
  pub c_oflag : Flags
  pub c_cflag : Flags
  pub c_lflag : Flags
  pub vmin : ℕ
  pub vtime : ℕ
  pub ospeed : ℕ
  pub ispeed : ℕ

-- The constants of termios.h that are used, and the calls that set the two speeds.
pub record Platform : Type 0 where
  pub clocal : Flags
  pub cread : Flags
  pub csize : Flags
  pub cs8 : Flags
  pub parenb : Flags
  pub cstopb : Flags
  pub crtscts : Flags
  pub ignbrk : Flags
  pub brkint : Flags
  pub parmrk : Flags
  pub istrip : Flags
  pub inlcr : Flags
  pub igncr : Flags
  pub icrnl : Flags
  pub ixon : Flags
  pub echo : Flags
  pub echonl : Flags
  pub icanon : Flags
  pub isig : Flags
  pub iexten : Flags
  pub opost : Flags
  pub cfsetospeed : ℕ → Termios → Termios
  pub cfsetispeed : ℕ → Termios → Termios

module _ (os : Platform) where
  open os use {
    clocal, cread, csize, cs8, parenb, cstopb, crtscts, ignbrk, brkint, parmrk, istrip, inlcr,
    igncr, icrnl, ixon, echo, echonl, icanon, isig, iexten, opost, cfsetospeed, cfsetispeed,
  }

  -- Between tcgetattr and tcsetattr.
  unfoldable pub interface_attribs : ℕ → Termios → Termios
  interface_attribs speed tty =
      let t = cfsetispeed speed (cfsetospeed speed tty) in
      record t {
        c_cflag =
            (((((t.c_cflag or (clocal or cread)) without csize) or cs8) without parenb)
              without cstopb)
            without crtscts;
        c_iflag =
            t.c_iflag
            without (ignbrk or brkint or parmrk or istrip or inlcr or igncr or icrnl or ixon);
        c_lflag = t.c_lflag without (echo or echonl or icanon or isig or iexten);
        c_oflag = t.c_oflag without opost;
        vmin = 1;
        vtime = 0;
      }

  -- What tcgetattr gives, none if it fails, and whether tcsetattr succeeds: the attributes that are
  -- set, and the result.
  unfoldable pub set_interface_attribs : Option Termios → Bool → ℕ → Option Termios × ℕ
  set_interface_attribs got set_ok speed = elim got [
    | none ↦ (none, 1)
    | some tty ↦ (some (interface_attribs speed tty), if set_ok then 0 else 1)
  ]

  -- `setAttributesOnSerial`, for the attributes that tcgetattr gives and the speed B9600: the result
  -- of neither call is looked at.
  unfoldable pub set_attributes_on_serial : ℕ → Termios → Termios
  set_attributes_on_serial b9600 sendtio =
      let t = cfsetispeed b9600 (cfsetospeed b9600 sendtio) in
      record t {
        c_iflag = no_flags;
        c_lflag = no_flags;
        c_oflag = no_flags;
        c_cflag = parenb;
        vtime = 1;
        vmin = 0;
      }
