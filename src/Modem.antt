-- ===== src/Modem.antt =====
-- The modem context: include/lmodem.h, src/lmodem_priv.h, and the set-up in src/lmodem_init.c.
pub mod Script
pub mod Wait
pub mod Metadata
pub mod Names
pub mod Flags
mod Tests
use light_modem.Base.{
  ℕ, ◌+◌, Bool, true, false, List, [], Option, none, some, ◌≡◌, M, done, ◌>>=◌, ◌>>◌, pure, lift,
  gets, modify, length, IsBytes, ◌≤◌, get_or, leb, if◌then◌else◌, load, store,
}
use light_modem.Buffer
use light_modem.Buffer.{Buffer}
use light_modem.Crc
use light_modem.Crc.{CrcContext}

pub data Protocol : Type 0 where
  xmodem ymodem : Protocol

-- `lxmodem_opts`
pub data Opts : Type 0 where
  with_chksum_128 with_crc_128 one_k : Opts

-- `lmodem_linebuffer`
pub record LineBuffer : Type 0 where
  pub buffer : List ℕ
  pub current_size : ℕ
  pub max_size : ℕ

-- `lmodem_file_characteristics`; a NULL `filename` is `none`.
pub record FileCharacteristics : Type 0 where
  pub valid : ℕ
  pub filename : Option (List ℕ)
  pub filename_size : ℕ
  pub size : ℕ
  pub modif_date : ℕ
  pub permission : ℕ
  pub serial_number : ℕ

-- `modem_context_t`. `port` is what the two callbacks work on: the serial line and all behind it.
pub record Modem (P : Type 0) : Type 0 where
  pub protocol : Protocol
  pub crc16 : CrcContext
  pub opts : Opts
  pub blk_buffer : LineBuffer
  pub ramfile : Buffer
  pub file_data : FileCharacteristics
  pub with_crc : Bool
  pub port : P

-- What a call of the `getchar` callback does: its result, and the bytes that it put at `data`,
-- on failure too.
pub record Received : Type 0 where
  pub ok : Bool
  pub bytes : List ℕ

-- The callbacks `getchar` and `putchar`, which the application supplies: `getchar` writes bytes
-- inside the `size` bytes that it was given, and all of them when it succeeds.
pub record Line (P : Type 0) : Type 0 where
  pub getchar : P → ℕ → Received × P
  pub putchar : P → List ℕ → P
  pub getchar_fits : (p : P) (n : ℕ) → length (getchar p n).0.bytes ≤ n
  pub getchar_fills : (p : P) (n : ℕ) → (getchar p n).0.ok ≡ true → length (getchar p n).0.bytes ≡ n
  pub getchar_bytes : (p : P) (n : ℕ) → IsBytes (getchar p n).0.bytes

-- The control characters of lmodem_priv.h.
abbrev pub soh : ℕ
soh = 1

abbrev pub stx : ℕ
stx = 2

abbrev pub eot : ℕ
eot = 4

abbrev pub ack : ℕ
ack = 6

abbrev pub nak : ℕ
nak = 0o25

abbrev pub can : ℕ
can = 0o30

abbrev pub sub : ℕ
sub = 0o32

abbrev pub header_size : ℕ
header_size = 2

abbrev pub chksum_size : ℕ
chksum_size = 1

abbrev pub crc16_size : ℕ
crc16_size = 2

abbrev pub ccitt_polynome : ℕ
ccitt_polynome = 0x1021

abbrev pub is_ymodem : Protocol → Bool
is_ymodem xmodem = false
is_ymodem ymodem = true

abbrev pub is_one_k : Opts → Bool
is_one_k one_k = true
is_one_k _ = false

abbrev pub empty_buffer : Buffer
empty_buffer = record { buffer = []; read_offset = 0; write_offset = 0; max_size = 0 }

abbrev pub no_file : FileCharacteristics
no_file = record {
  valid = 0;
  filename = none;
  filename_size = 0;
  size = 0;
  modif_date = 0;
  permission = 0;
  serial_number = 0;
}

-- The size that `lmodem_set_line_buffer` asks for, and the check that it chooses.
abbrev pub expected_size : Opts → ℕ
expected_size with_chksum_128 = header_size + 128 + chksum_size
expected_size with_crc_128 = header_size + 128 + crc16_size
expected_size one_k = header_size + 1024 + crc16_size

abbrev pub crc_of : Opts → Bool
crc_of with_chksum_128 = false
crc_of with_crc_128 = true
crc_of one_k = true

module _ {P : Type 0} where
  -- `lmodem_init`: `memset` makes every pointer NULL, which is storage of no bytes.
  unfoldable pub init : P → Opts → Modem P
  init port opts = record {
    protocol = xmodem;
    crc16 = Crc.init ccitt_polynome;
    opts = opts;
    blk_buffer = record { buffer = []; current_size = 0; max_size = 0 };
    ramfile = empty_buffer;
    file_data = no_file;
    with_crc = false;
    port = port;
  }

  unfoldable pub set_line_buffer : List ℕ → ℕ → Modem P → Bool × Modem P
  set_line_buffer buffer size m =
      let chosen = record m { with_crc = crc_of m.opts } in
      if leb (expected_size m.opts) size
      then (
        true,
        record chosen {
          blk_buffer = record { buffer = buffer; current_size = 0; max_size = size };
        },
      )
      else (false, chosen)

  unfoldable pub set_file_buffer : List ℕ → ℕ → Modem P → Modem P
  set_file_buffer buffer size m = record m { ramfile = Buffer.init buffer size }

  unfoldable pub set_filename_buffer : List ℕ → ℕ → Modem P → Modem P
  set_filename_buffer buffer size m = record m {
    file_data = record m.file_data { filename = some buffer; filename_size = size };
  }

  -- Byte `i` of the block buffer.
  unfoldable pub byte_at : ℕ → M (Modem P) ℕ
  byte_at i = do
    m ← gets (λ m. m)
    bytes ← lift (load m.blk_buffer.buffer i 1)
    pure (get_or bytes 0 0)

  -- Bytes written into the block buffer from offset `off` on.
  unfoldable pub write_block : ℕ → List ℕ → M (Modem P) (Unit {0})
  write_block off bytes = do
    m ← gets (λ m. m)
    buffer ← lift (store m.blk_buffer.buffer off bytes)
    modify λ m. record m { blk_buffer = record m.blk_buffer { buffer = buffer } }

module _ {P : Type 0} (line : Line P) where
  -- `lmodem_putchar`
  unfoldable pub putchar : List ℕ → M (Modem P) (Unit {0})
  putchar bytes m = done (tt, record m { port = line.putchar m.port bytes })

  -- `lmodem_getchar` with a local variable of one byte for `data`; `none` is its failure.
  unfoldable pub getchar : M (Modem P) (Option ℕ)
  getchar m =
      let (r, port) = line.getchar m.port 1 in
      done (if r.ok then some (get_or r.bytes 0 0) else none, record m { port = port })

  -- `lmodem_getchar` into the block buffer.
  unfoldable pub getchar_block : ℕ → M (Modem P) Bool
  getchar_block size m =
      let (r, port) = line.getchar m.port size in
      (write_block 0 r.bytes >> pure r.ok) (record m { port = port })
