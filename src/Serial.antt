-- ===== src/Serial.antt =====
-- The serial port of the tools: src/tools/serial.c and src/tools/serial.h. The system calls are
-- the parameter `os`, over any state of the outside world; error messages are left out.
pub mod Read
pub mod Calls
pub mod Rate
pub mod Scripted
pub mod Stream
mod Tests
use light_modem.Base.{
  ℕ, zero, suc, ◌+◌, ◌-◌, ◌≤◌, ◌^◌, Bool, true, false, List, [], ◌∷◌, ◌++◌, Option, none, some, M,
  spent, ◌≡◌, ◌>>=◌, ◌>>◌, pure, length, IsBytes, u32, bit_and, bit_or, minus_one, lt_int32, ltb,
  leb, ◌==◌, if◌then◌else◌,
}
use light_modem.Modem.{Received}

-- The constants B134 to B115200 of termios.h that the code names.
pub data Speed : Type 0 where
  b134 b150 b200 b300 b600 b1200 b1800 b2400 b4800 b9600 b19200 b38400 b57600 b115200 : Speed

-- `struct termios`, with the two entries of `c_cc` that the code sets.
pub record Termios : Type 0 where
  pub c_iflag : ℕ
  pub c_oflag : ℕ
  pub c_cflag : ℕ
  pub c_lflag : ℕ
  pub vmin : ℕ
  pub vtime : ℕ

-- The masks of termios.h for `c_cflag`.
pub record Masks : Type 0 where
  pub csize : ℕ
  pub cs8 : ℕ
  pub clocal : ℕ
  pub cread : ℕ
  pub parenb : ℕ
  pub parodd : ℕ
  pub cstopb : ℕ
  pub crtscts : ℕ

-- The system calls. `read` and `write` give `none` for -1; `read` gives at most as many bytes as
-- are asked for. A file descriptor below 0 is `none`.
pub record Os (W : Type 0) : Type 0 where
  pub masks : Masks
  pub speed_flag : Speed → ℕ
  pub cfsetospeed : ℕ → Termios → Termios
  pub cfsetispeed : ℕ → Termios → Termios
  pub cfmakeraw : Termios → Termios
  pub tcgetattr : ℕ → W → Option Termios × W
  pub tcsetattr : ℕ → Termios → W → Bool × W
  pub tcflush : ℕ → W → W
  pub open_device : List ℕ → W → Option ℕ × W
  pub close : ℕ → W → W
  pub read : ℕ → ℕ → W → Option (List ℕ) × W
  pub write : ℕ → List ℕ → W → Option ℕ × W
  pub read_fits :
      (fd n : ℕ) (w : W) (bytes : List ℕ) → (read fd n w).0 ≡ some bytes → length bytes ≤ n
  pub read_bytes :
      (fd n : ℕ) (w : W) (bytes : List ℕ) → (read fd n w).0 ≡ some bytes → IsBytes bytes

-- `serial_convertBaudRateToFlag`
pub convert_baud_rate_to_flag : ℕ → Speed
convert_baud_rate_to_flag baudrate =
    if baudrate == 134
    then b134
    else if baudrate == 150
    then b150
    else if baudrate == 200
    then b200
    else if baudrate == 300
    then b300
    else if baudrate == 600
    then b600
    else if baudrate == 1200
    then b1200
    else if baudrate == 1800
    then b1800
    else if baudrate == 2400
    then b2400
    else if baudrate == 4800
    then b4800
    else if baudrate == 9600
    then b9600
    else if baudrate == 19200
    then b19200
    else if baudrate == 38400
    then b38400
    else if baudrate == 57600
    then b57600
    else if baudrate == 115200
    then b115200
    else b9600

-- `a & ~mask` on 32 bits.
abbrev without : ℕ → ℕ → ℕ
without mask a = bit_and a (2 ^ 32 - 1 - mask)

-- The changes of `serial_set_interface` to `c_cflag`; `parity`, `rtscts` and `nbstop` are bit
-- patterns of an int32_t.
pub control_flags : Masks → ℕ → ℕ → ℕ → ℕ → ℕ
control_flags k parity rtscts nbstop flags =
    let eight_bits = bit_or (without k.csize flags) k.cs8 in
    let local = bit_or eight_bits (bit_or k.clocal k.cread) in
    let checked = bit_or (without (bit_or k.parenb k.parodd) local) parity in
    let stopped = if lt_int32 1 nbstop then bit_or checked k.cstopb else without k.cstopb checked in
    if rtscts == 0 then without k.crtscts stopped else bit_or stopped k.crtscts

module _ {W : Type 0} (os : Os W) where
  -- A call of the system.
  abbrev call : {A : Type 0} → (W → A × W) → M W A
  call f w = pure (f w).0 (f w).1

  -- The attributes that `serial_set_interface` sets.
  pub configured : ℕ → ℕ → ℕ → ℕ → Termios → Termios
  configured speed_flags parity rtscts nbstop tty =
      let raw = os.cfmakeraw (os.cfsetispeed speed_flags (os.cfsetospeed speed_flags tty)) in
      record raw {
        vmin = 0;
        vtime = 5;
        c_cflag = control_flags os.masks parity rtscts nbstop raw.c_cflag;
      }

  -- `serial_set_interface`: true for its result 0, false for -1.
  unfoldable pub set_interface : ℕ → ℕ → ℕ → ℕ → ℕ → M W Bool
  set_interface fd speed_flags parity rtscts nbstop = do
    got ← call (os.tcgetattr fd)
    elim got [
      | none ↦ pure false
      | some tty ↦ do
        _ ← call (λ w. (tt, os.tcflush fd w))
        call (os.tcsetattr fd (configured speed_flags parity rtscts nbstop tty))
    ]

  -- `serial_set_blocking`
  pub set_blocking : ℕ → Bool → M W (Unit {0})
  set_blocking fd should_block = do
    got ← call (os.tcgetattr fd)
    elim got [
      | none ↦ pure tt
      | some tty ↦ do
        _ ← call (os.tcsetattr fd (record tty { vmin = if should_block then 1 else 0; vtime = 5 }))
        pure tt
    ]

  -- `serial_set_baudrate`, with the results of `set_interface`.
  pub set_baudrate : ℕ → ℕ → M W Bool
  set_baudrate fd baudrate = do
    let speed_flags = os.speed_flag (convert_baud_rate_to_flag baudrate)
    got ← call (os.tcgetattr fd)
    elim got [
      | none ↦ pure false
      | some tty ↦
          call (os.tcsetattr fd (os.cfsetispeed speed_flags (os.cfsetospeed speed_flags tty)))
    ]

  -- `serial_setup`; the result of `serial_set_interface` is not used.
  unfoldable pub setup : List ℕ → ℕ → ℕ → ℕ → ℕ → M W (Option ℕ)
  setup device speed parity rtscts nbstop = do
    opened ← call (os.open_device device)
    elim opened [
      | none ↦ pure none
      | some fd ↦ do
        _ ← set_interface fd (os.speed_flag (convert_baud_rate_to_flag speed)) parity rtscts nbstop
        pure (some fd)
    ]

  -- The loop of `serial_read`; `got` are the bytes in the buffer, of which there are `nbRead`.
  pub read_loop : ℕ → ℕ → ℕ → List ℕ → ℕ → M W Received
  read_loop zero fd size got attempt =
      if ltb (length got) size then (λ w. spent) else pure (record { ok = true; bytes = got })
  read_loop (suc fuel) fd size got attempt =
      let failed : M W Received = pure (record { ok = false; bytes = got }) in
      let silent = read_loop fuel fd size got (attempt + 1) in
      let body : M W Received = (do
        r ← call (os.read fd (size - length got))
        elim r [
          | none ↦ failed
          | some bytes ↦ elim bytes [
            | [] ↦ if ltb 2 (attempt + 1) then failed else silent
            | c ∷ more ↦ read_loop fuel fd size (got ++ (c ∷ more)) attempt
          ]
        ]) in
      if ltb (length got) size then body else pure (record { ok = true; bytes = got })

  -- `serial_read`: the result, and the bytes at the start of `buffer`.
  pub serial_read : ℕ → ℕ → ℕ → M W Received
  serial_read fuel fd size = read_loop fuel fd size [] 0

  -- `serial_write`
  pub serial_write : ℕ → List ℕ → M W Bool
  serial_write fd bytes = do
    r ← call (os.write fd bytes)
    elim r [ none ↦ pure false | some nb_written ↦ pure (length bytes == u32 nb_written) ]

  -- `serial_send_char`
  pub serial_send_char : ℕ → ℕ → M W Bool
  serial_send_char fd c = serial_write fd (c ∷ [])
