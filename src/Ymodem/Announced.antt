-- ===== src/Ymodem/Announced.antt =====
-- The fields of block 0: the text that the protocol wants for them, without the code, and block 0 of
-- src/lmodem_tx.c with it.
use light_modem.Base.{
  ℕ, zero, suc, ◌+◌, ◌^◌, ◌<◌, ◌≤◌, ◌≡◌, refl, true, List, [], ◌∷◌, ◌++◌, done, arith, length, take,
  if◌then◌else◌, IsBytes, IsBytes-append, leb, bit_and, bit_or,
}
use light_modem.Crc
use light_modem.Modem.{Modem, Line, FileCharacteristics, ccitt_polynome}
use light_modem.Modem.Metadata.{memory, has_filename}
use light_modem.Modem.Names.{NoNul}
use light_modem.Ymodem.Text.{decimal, octal}
use light_modem.Ymodem.Emit.{nb_meta_data, meta_data_text, build_and_send_block0}
use light_modem.Ymodem.Sent.{is_short, packet0, build_and_send_block0_lem}
use light_modem.Ymodem.Link.{decimal-IsBytes, octal-IsBytes}

-- The fields in the order of the protocol: the size as %d prints it; the modification time, the
-- permission with the bit of a regular file, and the serial number as %o prints them.
abbrev pub all_fields : FileCharacteristics → List (List ℕ)
all_fields d =
    decimal d.size
    ∷ octal d.modif_date
    ∷ octal (bit_or d.permission 0x8000)
    ∷ octal d.serial_number
    ∷ []

-- Texts with a space between each two.
abbrev pub spaced : List (List ℕ) → List ℕ
spaced [] = []
spaced (x ∷ []) = x
spaced (x ∷ y ∷ more) = x ++ (b' ' ∷ spaced (y ∷ more))

-- The text of the first `nb` fields.
abbrev pub fields_of : ℕ → FileCharacteristics → List ℕ
fields_of nb d = spaced (take nb (all_fields d))

-- The first `nb` fields are set, and the others are not.
pub record HasFields (nb : ℕ) (d : FileCharacteristics) : Type 0 where
  pub some_field : 1 ≤ nb
  pub four : nb ≤ 4
  pub size : bit_and d.valid 0x02 ≡ 0x02
  pub modif_date : bit_and d.valid 0x04 ≡ (if leb 2 nb then 0x04 else 0)
  pub permission : bit_and d.valid 0x08 ≡ (if leb 3 nb then 0x08 else 0)
  pub serial_number : bit_and d.valid 0x10 ≡ (if leb 4 nb then 0x10 else 0)

nb_meta_data_lem : (nb : ℕ) (d : FileCharacteristics) → HasFields nb d → nb_meta_data d ≡ nb
unfolding nb_meta_data
nb_meta_data_lem zero d h = absurd (omega (arith, h.some_field))
nb_meta_data_lem (suc zero) d h = rw (h.size, h.modif_date, h.permission, h.serial_number) refl
nb_meta_data_lem (suc (suc zero)) d h =
    rw (h.size, h.modif_date, h.permission, h.serial_number) refl
nb_meta_data_lem (suc (suc (suc zero))) d h =
    rw (h.size, h.modif_date, h.permission, h.serial_number) refl
nb_meta_data_lem (suc (suc (suc (suc zero)))) d h =
    rw (h.size, h.modif_date, h.permission, h.serial_number) refl
nb_meta_data_lem (suc (suc (suc (suc (suc nb))))) d h = absurd (omega (arith, h.four))

meta_data_text_lem :
    (nb : ℕ) (d : FileCharacteristics) → nb ≤ 4 → meta_data_text nb d ≡ fields_of nb d
unfolding meta_data_text
meta_data_text_lem zero d h = refl
meta_data_text_lem (suc zero) d h = refl
meta_data_text_lem (suc (suc zero)) d h = refl
meta_data_text_lem (suc (suc (suc zero))) d h = refl
meta_data_text_lem (suc (suc (suc (suc zero)))) d h = refl
meta_data_text_lem (suc (suc (suc (suc (suc nb))))) d h = absurd (omega arith)

abbrev AreBytes : List (List ℕ) → Type 0
AreBytes [] = Unit
AreBytes (x ∷ xs) = IsBytes x × AreBytes xs

AreBytes-take : (n : ℕ) (xs : List (List ℕ)) → AreBytes xs → AreBytes (take n xs)
AreBytes-take zero xs h = tt
AreBytes-take (suc n) [] h = tt
AreBytes-take (suc n) (x ∷ xs) h = (h.0, AreBytes-take n xs h.1)

spaced-IsBytes : (xs : List (List ℕ)) → AreBytes xs → IsBytes (spaced xs)
spaced-IsBytes [] h = tt
spaced-IsBytes (x ∷ []) h = h.0
spaced-IsBytes (x ∷ y ∷ more) h =
    IsBytes-append x (b' ' ∷ spaced (y ∷ more)) h.0 (omega arith, spaced-IsBytes (y ∷ more) h.1)

fields_of-IsBytes : (nb : ℕ) (d : FileCharacteristics) → IsBytes (fields_of nb d)
fields_of-IsBytes nb d =
    let all : AreBytes (all_fields d) = (
      decimal-IsBytes d.size,
      (
        octal-IsBytes d.modif_date,
        (octal-IsBytes (bit_or d.permission 0x8000), (octal-IsBytes d.serial_number, tt)),
      ),
    ) in
    spaced-IsBytes (take nb (all_fields d)) (AreBytes-take nb (all_fields d) all)

-- On a context with the CRC table of `lmodem_init`, a block buffer of bytes whose announced size is
-- 1029 at least, below 2 ^ 31 and less than what it has, a file name of bytes without NUL, and one
-- to four of the other fields set, none of them behind one that is not, whose text together with the
-- name has at most 1021 bytes, `lymodem_build_and_send_block0` sends one block in the format of the
-- protocol: number 0 with a CRC, 128 bytes behind SOH or 1024 behind STX, which hold the name, a
-- NUL, the fields that are set, with a space between each two, and NULs. The fields are the size as
-- %d prints it, and the modification time, the permission with the bit of a regular file and the
-- serial number as %o prints them. It returns true, and metadata and RAM file are unchanged.
pub build_and_send_block0-HasFields :
    {P : Type 0} (line : Line P) (nb : ℕ) (name rest : List ℕ) (m : Modem P)
    → let text = fields_of nb m.file_data in
      m.crc16 ≡ Crc.init ccitt_polynome
      → IsBytes m.blk_buffer.buffer
      → 1029 ≤ m.blk_buffer.max_size
      → m.blk_buffer.max_size < 2 ^ 31
      → m.blk_buffer.max_size < length m.blk_buffer.buffer
      → has_filename m.file_data ≡ true
      → memory m.file_data.filename ≡ name ++ (0 ∷ rest)
      → NoNul name
      → IsBytes name
      → HasFields nb m.file_data
      → length name + length text ≤ 1021
      → (m' : Modem P) × (build_and_send_block0 line m ≡ done (true, m'))
        × (m'.port ≡ line.putchar m.port (packet0 (is_short name text) name text))
        × (m'.file_data ≡ m.file_data)
        × (m'.ramfile ≡ m.ramfile)
build_and_send_block0-HasFields line zero name rest m table mem big small longer has f visible bytes
      fields short =
    absurd (omega (arith, fields.some_field))
build_and_send_block0-HasFields line (suc nb) name rest m table mem big small longer has f visible
      bytes fields short =
    build_and_send_block0_lem line nb name (fields_of (suc nb) m.file_data) rest m table mem big
      small longer has f visible bytes (nb_meta_data_lem (suc nb) m.file_data fields)
      (meta_data_text_lem (suc nb) m.file_data fields.four) (fields_of-IsBytes (suc nb) m.file_data)
      short
