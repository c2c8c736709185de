-- ===== src/DbgSerial.antt =====
-- The serial tracer src/tools/dbg_serial.c, over the system calls of the parameter `os`. What it
-- prints on the standard output is a list of characters; messages on the error output are left out.
pub mod Ascii
pub mod Names
pub mod Session
pub mod Sum
pub mod Safe
mod Tests
use Prim.Native.Char.{code}
use Prim.Native.String.{String}
use light_modem.Base.{
  ℕ, zero, suc, ◌+◌, ◌-◌, ◌*◌, ◌/◌, ◌%◌, ◌^◌, Bool, true, false, ◌&&◌, List, [], ◌∷◌, ◌++◌, Option,
  none, some, Outcome, done, fault, spent, M, ◌>>=◌, ◌>>◌, pure, lift, modify, zoom, u8, drop,
  get_or, get_elem?, ltb, ◌==◌, if◌then◌else◌,
}
use light_modem.Modem.{Received}
use light_modem.Serial.{Os, serial_read, serial_send_char, setup}
use light_modem.DbgSerial.Ascii.{value, soh, eot, ack, first_printable}

-- The characters of a text.
abbrev pub codes : String → List ℕ
codes String.[] = []
codes (String.◌∷◌ c text) = code c ∷ codes text

-- `isCtrlCode`; a `char` is signed, and `c >= 0` says that it is below 128.
pub is_ctrl_code : ℕ → Bool
is_ctrl_code c = ltb c 128 && ltb c first_printable

-- `controlCode`
pub control_code : List (List ℕ)
control_code =
    codes "NUL"
    ∷ codes "SOH"
    ∷ codes "STX"
    ∷ codes "ETX"
    ∷ codes "EOT"
    ∷ codes "ENQ"
    ∷ codes "ACK"
    ∷ codes "BEL"
    ∷ codes "BS"
    ∷ codes "TAB"
    ∷ codes "LF"
    ∷ codes "VT"
    ∷ codes "FF"
    ∷ codes "CR"
    ∷ codes "SO"
    ∷ codes "SI"
    ∷ codes "DLE"
    ∷ codes "DC1"
    ∷ codes "DC2"
    ∷ codes "DC3"
    ∷ codes "DC4"
    ∷ codes "NAK"
    ∷ codes "SYN"
    ∷ codes "ETB"
    ∷ codes "CAN"
    ∷ codes "EM"
    ∷ codes "SUB"
    ∷ codes "ESC"
    ∷ codes "FS"
    ∷ codes "GS"
    ∷ codes "RS"
    ∷ codes "US"
    ∷ []

-- `getCtrlCode`; an index behind the table is a fault.
pub get_ctrl_code : ℕ → Outcome (List ℕ)
get_ctrl_code c =
    if is_ctrl_code c
    then (elim (get_elem? control_code c) [ none ↦ fault | some name ↦ done name ])
    else done []

-- The loop of `calcul_chksum`, from the sum `t` on.
pub sum_from : ℕ → List ℕ → ℕ → Outcome ℕ
sum_from t buffer zero = done t
sum_from t [] (suc i) = fault
sum_from t (c ∷ buffer) (suc i) = sum_from (u8 (t + c)) buffer i

-- `calcul_chksum`
pub calcul_chksum : List ℕ → ℕ → Outcome ℕ
calcul_chksum buffer size = sum_from 0 buffer size

-- The conversion %x of a number of `digits` digits, leading zeros included.
abbrev hex_digit : ℕ → ℕ
hex_digit d = if ltb d 10 then b'0' + d else b'a' + (d - 10)

pub hex : ℕ → ℕ → List ℕ
hex zero n = []
hex (suc digits) n = hex digits (n / 16) ++ (hex_digit (n % 16) ∷ [])

-- %.2x of a byte, and %x of a `char`, which is an `int` for `fprintf` and keeps its sign.
pub hex_of_byte : ℕ → List ℕ
hex_of_byte n = hex 2 n

pub hex_of_char : ℕ → List ℕ
hex_of_char c =
    if ltb c 16 then hex 1 c else if ltb c 128 then hex 2 c else hex 8 (c + (2 ^ 32 - 256))

-- What the loop prints of a block.
pub dump : List ℕ → List ℕ
dump [] = []
dump (c ∷ buffer) = codes "0x" ++ (hex_of_byte c ++ (b'-' ∷ dump buffer))

-- The world, and what was printed.
pub record Tracer (W : Type 0) : Type 0 where
  pub world : W
  pub out : List ℕ

abbrev pub newline : List ℕ
newline = 10 ∷ []

module _ {W : Type 0} (os : Os W) (fd : ℕ) where
  abbrev pub print : List ℕ → M (Tracer W) (Unit {0})
  print text = modify λ t. record t { out = t.out ++ text }

  abbrev pub on_port : {A : Type 0} → M W A → M (Tracer W) A
  on_port = zoom (λ t. t.world) (λ w t. record t { world = w })

  -- `serial_read` with fuel that is enough.
  abbrev pub read_port : ℕ → M (Tracer W) Received
  read_port size = on_port (serial_read os (size + 3) fd size)

  abbrev pub send_char : ℕ → M (Tracer W) (Unit {0})
  send_char c = do _ ← on_port (serial_send_char os fd c); pure tt

  -- The part of the loop for SOH.
  pub trace_block : M (Tracer W) (Unit {0})
  trace_block = do
    print (codes "SOH: ")
    r ← read_port (131 + 1)
    elim r.ok [
      | false ↦ pure tt
      | true ↦ do
        print (dump r.bytes)
        print newline
        chksum ← lift (calcul_chksum (drop 2 r.bytes) (128 + 1))
        print (codes "chksum = 0x" ++ hex_of_byte chksum)
        print newline
        send_char (value ack)
    ]

  -- The part for EOT.
  pub trace_eot : M (Tracer W) (Unit {0})
  trace_eot = do print (codes "EOT: "); send_char (value ack); print newline

  -- The part for any other character.
  pub trace_other : ℕ → M (Tracer W) (Unit {0})
  trace_other c = do
    print (b'>' ∷ c ∷ codes " (0x" ++ (hex_of_char c ++ codes ")"))
    name ← lift (if is_ctrl_code c then get_ctrl_code c else done [])
    print name
    print newline

  -- What the loop does with a character; the result is `isDone`.
  pub dispatch : ℕ → M (Tracer W) Bool
  dispatch c =
      if c == value soh
      then (do trace_block; pure false)
      else if c == value eot
      then (do trace_eot; pure true)
      else (do trace_other c; pure false)

  -- The body of the loop.
  pub body : M (Tracer W) Bool
  body = do r ← read_port 1; elim r.ok [ false ↦ pure false | true ↦ dispatch (get_or r.bytes 0 0) ]

  -- The loop, for `fuel` rounds at most.
  pub loop : ℕ → M (Tracer W) (Unit {0})
  loop zero = λ t. spent
  loop (suc fuel) = do
    let rest = loop fuel
    is_done ← body
    elim is_done [ true ↦ pure tt | false ↦ rest ]

-- `main`: the exit code, true for EXIT_SUCCESS.
pub main : {W : Type 0} → Os W → ℕ → M (Tracer W) Bool
main os fuel = do
  opened ←
      zoom (λ t. t.world) (λ w t. record t { world = w })
        (setup os (codes "/dev/ttyUSB0") 115200 0 0 1)
  elim opened [
    | none ↦ pure false
    | some fd ↦ do
      send_char os fd b'C'
      loop os fd fuel
      modify λ t. record t { world = os.close fd t.world }
      pure true
  ]
