-- ===== src/Modem/Metadata.antt =====
-- The metadata of the file: the setters and getters of src/lmodem_init.c.
use light_modem.Base.{
  ℕ, zero, suc, Bool, true, false, List, [], ◌∷◌, Option, none, some, Outcome, done, fault, spent,
  M, ◌>>=◌, pure, lift, modify, u16, sub_u32, bit_and, bit_or, ◌==◌, if◌then◌else◌, load, store,
  replicate,
}
use light_modem.Modem.{FileCharacteristics}

-- The flags of `valid`.
abbrev pub filename_valid : ℕ
filename_valid = 0x01

abbrev pub filesize_valid : ℕ
filesize_valid = 0x02

abbrev pub modifdate_valid : ℕ
modifdate_valid = 0x04

abbrev pub permission_valid : ℕ
permission_valid = 0x08

abbrev pub serial_valid : ℕ
serial_valid = 0x10

-- The `n` bytes that `strncpy` makes of the string in the memory `src`: the bytes before the NUL,
-- and NUL from there on.
unfoldable pub strncpy : ℕ → List ℕ → Outcome (List ℕ)
strncpy zero src = done []
strncpy (suc n) [] = fault
strncpy (suc n) (c ∷ src) =
    let rest : Outcome (List ℕ) = elim (strncpy n src) [
      | done bytes ↦ done (c ∷ bytes)
      | fault ↦ fault
      | spent ↦ spent
    ] in
    if c == 0 then done (replicate (suc n) 0) else rest

-- `lmodem_metadata_set_filename`; `src` is the memory behind the argument.
unfoldable pub set_filename : List ℕ → M FileCharacteristics (Unit {0})
set_filename src d = elim d.filename [
  | none ↦ done (tt, d)
  | some dst ↦
      (do
        name ← lift (strncpy d.filename_size src)
        copied ← lift (store dst 0 name)
        ended ← lift (store copied (sub_u32 d.filename_size 1) (0 ∷ []))
        modify λ d. record d { filename = some ended; valid = bit_or d.valid filename_valid })
        d
]

unfoldable pub set_filesize : ℕ → FileCharacteristics → FileCharacteristics
set_filesize size d = record d { size = size; valid = bit_or d.valid filesize_valid }

unfoldable pub set_modif_time : ℕ → FileCharacteristics → FileCharacteristics
set_modif_time modif_date d = record d {
  modif_date = modif_date;
  valid = bit_or d.valid modifdate_valid;
}

-- The field has 16 bits.
unfoldable pub set_permission : ℕ → FileCharacteristics → FileCharacteristics
set_permission perm d = record d { permission = u16 perm; valid = bit_or d.valid permission_valid }

unfoldable pub set_serial : ℕ → FileCharacteristics → FileCharacteristics
set_serial serial d = record d { serial_number = serial; valid = bit_or d.valid serial_valid }

-- The test of every getter.
unfoldable pub has_filename : FileCharacteristics → Bool
has_filename d = bit_and d.valid filename_valid == filename_valid

-- A NULL `filename` is memory of no bytes.
abbrev pub memory : Option (List ℕ) → List ℕ
memory none = []
memory (some bytes) = bytes

-- `lmodem_metadata_get_filename`. `out` is the memory behind the argument `filename`, or NULL; the
-- result is the Boolean and that memory afterwards.
unfoldable pub get_filename : Option (List ℕ) → ℕ → M FileCharacteristics (Bool × Option (List ℕ))
get_filename none size d = done ((false, none), d)
get_filename (some out) size d =
    let copy : M FileCharacteristics (Bool × Option (List ℕ)) = (do
      bytes ← lift (load (memory d.filename) 0 size)
      copied ← lift (store out 0 bytes)
      ended ← lift (store copied (sub_u32 size 1) (0 ∷ []))
      pure (true, some ended)) in
    if has_filename d then copy d else done ((false, some out), d)

-- The other getters: `wanted` says that the pointer is not NULL, and what is written there is
-- returned, with `none` for the result false.
abbrev pub get_value : ℕ → Bool → FileCharacteristics → Option ℕ
get_value value wanted d = if has_filename d then (if wanted then some value else none) else none

unfoldable pub get_filesize : Bool → FileCharacteristics → Option ℕ
get_filesize wanted d = get_value d.size wanted d

unfoldable pub get_modif_time : Bool → FileCharacteristics → Option ℕ
get_modif_time wanted d = get_value d.modif_date wanted d

unfoldable pub get_permission : Bool → FileCharacteristics → Option ℕ
get_permission wanted d = get_value d.permission wanted d

unfoldable pub get_serial : Bool → FileCharacteristics → Option ℕ
get_serial wanted d = get_value d.serial_number wanted d
