-- ===== src/Serial/Scripted.antt =====
-- System calls with a script: the bytes that each call of `read` finds. What is written is lost.
use light_modem.Base.{
  ℕ, ◌≡◌, ◌≤◌, subst, ap, true, List, [], ◌∷◌, Option, none, some, take, length, length-take,
  IsBytes, IsBytes-take, arith,
}
use light_modem.Modem.Script.{to_bytes, to_bytes-IsBytes}
use light_modem.Serial.{Os, Termios, Masks}

abbrev some_termios : Termios
some_termios = record { c_iflag = 0; c_oflag = 0; c_cflag = 0; c_lflag = 0; vmin = 0; vtime = 0 }

-- The masks of Linux.
abbrev linux_masks : Masks
linux_masks = record {
  csize = 0o60;
  cs8 = 0o60;
  clocal = 0o4000;
  cread = 0o200;
  parenb = 0o400;
  parodd = 0o1000;
  cstopb = 0o100;
  crtscts = 0x80000000;
}

-- A call takes what fits, and the rest is lost.
abbrev scripted_read : ℕ → ℕ → List (List ℕ) → Option (List ℕ) × List (List ℕ)
scripted_read fd n [] = (some [], [])
scripted_read fd n (bytes ∷ later) = (some (take n (to_bytes bytes)), later)

content : {a b : List ℕ} → some a ≡ some b → a ≡ b
content {a} e = ap (λ o. elim o [ none ↦ a | some x ↦ x ]) e

pub scripted_fits :
    (fd n : ℕ) (w : List (List ℕ)) (bytes : List ℕ)
    → (scripted_read fd n w).0 ≡ some bytes
    → length bytes ≤ n
scripted_fits fd n [] bytes e = subst (λ l. length l ≤ n) (content e) (omega arith)
scripted_fits fd n (x ∷ w) bytes e =
    subst (λ l. length l ≤ n) (content e) (omega (arith, length-take n (to_bytes x)))

pub scripted_bytes :
    (fd n : ℕ) (w : List (List ℕ)) (bytes : List ℕ)
    → (scripted_read fd n w).0 ≡ some bytes
    → IsBytes bytes
scripted_bytes fd n [] bytes e = subst IsBytes (content e) tt
scripted_bytes fd n (x ∷ w) bytes e =
    subst IsBytes (content e) (IsBytes-take n (to_bytes x) (to_bytes-IsBytes x))

abbrev pub scripted_os : Os (List (List ℕ))
scripted_os = record {
  masks = linux_masks;
  speed_flag = λ s. 0;
  cfsetospeed = λ speed t. t;
  cfsetispeed = λ speed t. t;
  cfmakeraw = λ t. t;
  tcgetattr = λ fd w. (some some_termios, w);
  tcsetattr = λ fd t w. (true, w);
  tcflush = λ fd w. w;
  open_device = λ device w. (some 3, w);
  close = λ fd w. w;
  read = scripted_read;
  write = λ fd bytes w. (some (length bytes), w);
  read_fits = scripted_fits;
  read_bytes = scripted_bytes;
}
