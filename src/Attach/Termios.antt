-- ===== src/Attach/Termios.antt =====
-- The settings of a TTY in Lunix_Device_Driver/lunix-attach.c: `struct termios` by the fields that
-- the flags of <termios.h> name, and the functions that set them.
pub mod Mode
use operating_systems_lab_nt.Prelude.{
  ℕ, ◌-◌, Bool, true, false, ◌&&◌, List, [], ◌∷◌, Option, none, some, if◌then◌else◌, leb, ◌==◌,
  length, replicate,
}
use operating_systems_lab_nt.Lunix.Kernel.{Ret, ok, err, einval}

-- The codes of the speeds, and any other.
pub data Baud : Type 0 where
  b50 b75 b110 b300 b600 b1200 b2400 b4800 b9600 b14400 b19200 b38400 b57600 b115200 : Baud
  other_baud : ℕ → Baud

-- The values of the mask CSIZE; CS5 is 0.
pub data CharSize : Type 0 where
  cs5 cs6 cs7 cs8 : CharSize

-- `c_cflag`: the masks CBAUD and CSIZE, the flags of one bit, and the bits that the program leaves.
pub record Cflag : Type 0 where
  pub cbaud : Baud
  pub csize : CharSize
  pub cstopb : Bool
  pub parenb : Bool
  pub parodd : Bool
  pub crtscts : Bool
  pub hupcl : Bool
  pub cread : Bool
  pub clocal : Bool
  pub c_rest : ℕ

-- `c_iflag`
pub record Iflag : Type 0 where
  pub ignbrk : Bool
  pub ignpar : Bool
  pub i_rest : ℕ

-- `c_cc`: the characters at VMIN and VTIME, and the others.
pub record ControlChars : Type 0 where
  pub vmin : ℕ
  pub vtime : ℕ
  pub others : List ℕ

pub record Termios : Type 0 where
  pub c_iflag : Iflag
  pub c_oflag : ℕ
  pub c_lflag : ℕ
  pub c_cflag : Cflag
  pub c_cc : ControlChars

abbrev set_cflag : Termios → Cflag → Termios
set_cflag tty c = record tty { c_cflag = c }

-- `strcmp(a, b) == 0`
abbrev pub str_eq : List ℕ → List ℕ → Bool
str_eq [] [] = true
str_eq [] (d ∷ b) = false
str_eq (c ∷ a) [] = false
str_eq (c ∷ a) (d ∷ b) = c == d && str_eq a b

-- `tty_speeds`, where <termios.h> has all the speeds.
abbrev pub tty_speeds : List (List ℕ × Baud)
tty_speeds =
    (b'5' ∷ b'0' ∷ [], b50)
    ∷ (b'7' ∷ b'5' ∷ [], b75)
    ∷ (b'1' ∷ b'1' ∷ b'0' ∷ [], b110)
    ∷ (b'3' ∷ b'0' ∷ b'0' ∷ [], b300)
    ∷ (b'6' ∷ b'0' ∷ b'0' ∷ [], b600)
    ∷ (b'1' ∷ b'2' ∷ b'0' ∷ b'0' ∷ [], b1200)
    ∷ (b'2' ∷ b'4' ∷ b'0' ∷ b'0' ∷ [], b2400)
    ∷ (b'4' ∷ b'8' ∷ b'0' ∷ b'0' ∷ [], b4800)
    ∷ (b'9' ∷ b'6' ∷ b'0' ∷ b'0' ∷ [], b9600)
    ∷ (b'1' ∷ b'4' ∷ b'4' ∷ b'0' ∷ b'0' ∷ [], b14400)
    ∷ (b'1' ∷ b'9' ∷ b'2' ∷ b'0' ∷ b'0' ∷ [], b19200)
    ∷ (b'3' ∷ b'8' ∷ b'4' ∷ b'0' ∷ b'0' ∷ [], b38400)
    ∷ (b'5' ∷ b'7' ∷ b'6' ∷ b'0' ∷ b'0' ∷ [], b57600)
    ∷ (b'1' ∷ b'1' ∷ b'5' ∷ b'2' ∷ b'0' ∷ b'0' ∷ [], b115200)
    ∷ []

-- The loop of `tty_find_speed`, over the rows left.
unfoldable pub find_row : List ℕ → List (List ℕ × Baud) → Option Baud
find_row speed [] = none
find_row speed ((name, code) ∷ rows) = if str_eq name speed then some code else find_row speed rows

-- `tty_find_speed`; `none` is -EINVAL.
unfoldable pub tty_find_speed : List ℕ → Option Baud
unfolding find_row
tty_find_speed speed = find_row speed tty_speeds

abbrev pub with_speed : Termios → Option Baud → Ret × Termios
with_speed tty none = (err einval, tty)
with_speed tty (some code) = (ok, set_cflag tty (record tty.c_cflag { cbaud = code }))

-- `tty_set_speed`
unfoldable pub tty_set_speed : Termios → List ℕ → Ret × Termios
unfolding tty_find_speed
tty_set_speed tty speed = with_speed tty (tty_find_speed speed)

-- `tty_set_stopbits`, by the first character of its argument.
unfoldable pub tty_set_stopbits : Termios → ℕ → Ret × Termios
tty_set_stopbits tty c =
    if c == b'1'
    then (ok, set_cflag tty (record tty.c_cflag { cstopb = false }))
    else if c == b'2'
    then (ok, set_cflag tty (record tty.c_cflag { cstopb = true }))
    else (err einval, tty)

abbrev pub with_size : Termios → CharSize → Termios
with_size tty size = set_cflag tty (record tty.c_cflag { csize = size })

-- `tty_set_databits`: the mask is cleared, to CS5, before the character is looked at.
unfoldable pub tty_set_databits : Termios → ℕ → Ret × Termios
tty_set_databits tty c =
    if c == b'5'
    then (ok, with_size tty cs5)
    else if c == b'6'
    then (ok, with_size tty cs6)
    else if c == b'7'
    then (ok, with_size tty cs7)
    else if c == b'8'
    then (ok, with_size tty cs8)
    else (err einval, with_size tty cs5)

abbrev toupper : ℕ → ℕ
toupper c = if leb b'a' c && leb c b'z' then c - 32 else c

abbrev pub with_parity : Termios → Bool → Bool → Termios
with_parity tty enabled odd = set_cflag tty (record tty.c_cflag { parenb = enabled; parodd = odd })

-- `tty_set_parity`
unfoldable pub tty_set_parity : Termios → ℕ → Ret × Termios
tty_set_parity tty c =
    if toupper c == b'N'
    then (ok, with_parity tty false false)
    else if toupper c == b'O'
    then (ok, with_parity tty true true)
    else if toupper c == b'E'
    then (ok, with_parity tty true false)
    else (err einval, tty)

-- `tty_set_raw`: all is set, but for the speed.
unfoldable pub tty_set_raw : Termios → Ret × Termios
tty_set_raw tty = (
  ok,
  record {
    c_iflag = record { ignbrk = true; ignpar = true; i_rest = 0 };
    c_oflag = 0;
    c_lflag = 0;
    c_cflag = record {
      cbaud = tty.c_cflag.cbaud;
      csize = cs5;
      cstopb = false;
      parenb = false;
      parodd = false;
      crtscts = true;
      hupcl = true;
      cread = true;
      clocal = true;
      c_rest = 0;
    };
    c_cc = record { vmin = 1; vtime = 0; others = replicate (length tty.c_cc.others) 0 };
  },
)
