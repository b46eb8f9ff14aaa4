-- ===== src/Termios/Bits.antt =====
-- The bits of the control flags, one by one.
use mathlib.Core.Path.{ap}
use serial.Base.{ℕ, ◌≡◌, ◌∙◌, Bool, true, false, not, ◌&&◌, ◌||◌, arith, if◌then◌else◌}
use serial.Termios.{Termios, Platform, interface_attribs}

-- The six statements that change the control flags, at one bit of them.
flags_bit :
    (c l r z d p t h : Bool)
    → (((((c || (l || r)) && not z) || d) && not p) && not t) && not h
      ≡ (if p || t || h then false else if d then true else if z then false else l || r || c)
flags_bit c l r z d p t h = ground arith

module _ (os : Platform) where
  -- With speeds that are kept outside of the control flags, set_interface_attribs clears both parity
  -- and stop bits and the flow control, sets the character size to CS8, sets CLOCAL and CREAD, and
  -- leaves every other bit as it is.
  pub interface_attribs_cflag :
      (speed : ℕ) (tty : Termios) (i : ℕ)
      → ((t : Termios) → (os.cfsetospeed speed t).c_cflag ≡ t.c_cflag)
      → ((t : Termios) → (os.cfsetispeed speed t).c_cflag ≡ t.c_cflag)
      → (interface_attribs os speed tty).c_cflag i ≡ (
          if os.parenb i || os.cstopb i || os.crtscts i
          then false
          else if os.cs8 i
          then true
          else if os.csize i
          then false
          else os.clocal i || os.cread i || tty.c_cflag i)
  unfolding interface_attribs
  interface_attribs_cflag speed tty i o p =
      flags_bit ((os.cfsetispeed speed (os.cfsetospeed speed tty)).c_cflag i) (os.clocal i)
        (os.cread i) (os.csize i) (os.cs8 i) (os.parenb i) (os.cstopb i) (os.crtscts i)
      ∙ ap
          (λ f.
            if os.parenb i || os.cstopb i || os.crtscts i
            then false
            else if os.cs8 i
            then true
            else if os.csize i
            then false
            else os.clocal i || os.cread i || f i)
          (p (os.cfsetospeed speed tty) ∙ o tty)
