-- ===== src/Ymodem/Header.antt =====
-- Block 0 in the receiver: `lymodem_decode_block0` of src/lmodem_rx.c and what it calls.
use light_modem.Base.{
  ℕ, zero, suc, ◌+◌, ◌-◌, Bool, true, false, ◌||◌, List, [], ◌∷◌, Option, none, some, M, Outcome,
  done, fault, spent, ◌>>=◌, ◌>>◌, pure, lift, gets, modify, zoom, u16, u32, sub_u32, bit_and,
  bit_or, leb, ltb, ◌==◌, if◌then◌else◌, drop, load, store, get_or,
}
use light_modem.Modem.{Modem, FileCharacteristics, byte_at, write_block}
use light_modem.Modem.Metadata.{
  strncpy, memory, filename_valid, filesize_valid, modifdate_valid, permission_valid, serial_valid,
}
use light_modem.Ymodem.Text.{strlen, strtoul, map_done}

-- `lmodem_metadata_clean`
unfoldable pub metadata_clean : M FileCharacteristics (Unit {0})
metadata_clean d = elim (store (memory d.filename) 0 (0 ∷ [])) [
  | done name ↦ done (
    tt,
    record d {
      filename = some name;
      modif_date = 0;
      permission = 0;
      serial_number = 0;
      size = 0;
      valid = 0;
    },
  )
  | fault ↦ fault
  | spent ↦ spent
]

-- `lymodem_getValue` of the string `text`: the number, cut to 32 bits, and `*isValid`.
unfoldable pub get_number : ℕ → List ℕ → Outcome (ℕ × Bool)
get_number mode text = elim (strtoul mode text) [
  | done (r, rest) ↦ map_done (λ c. (u32 r, get_or c 0 0 == 0)) (load rest 0 1)
  | fault ↦ fault
  | spent ↦ spent
]

-- The loop of `lymodem_get_next_meta_data_string`: the bytes before a space, a NUL, or the end of
-- the `room` bytes, which is tested after the byte was read.
unfoldable pub word_length : ℕ → List ℕ → Outcome ℕ
word_length room [] = fault
word_length zero (c ∷ text) = done 0
word_length (suc room) (c ∷ text) =
    let rest = map_done suc (word_length room text) in if c == b' ' || c == 0 then done 0 else rest

-- The loop over the NULs behind the name, in the same way.
unfoldable pub nul_length : ℕ → List ℕ → Outcome ℕ
nul_length room [] = fault
nul_length zero (c ∷ text) = done 0
nul_length (suc room) (c ∷ text) =
    let rest = map_done suc (nul_length room text) in if c == 0 then rest else done 0

-- What field `nb` does to the metadata, and the base of its number.
unfoldable pub set_field : ℕ → ℕ → FileCharacteristics → FileCharacteristics
set_field zero r d = record d { size = r; valid = bit_or d.valid filesize_valid }
set_field (suc zero) r d = record d { modif_date = r; valid = bit_or d.valid modifdate_valid }
set_field (suc (suc zero)) r d = record d {
  permission = bit_and (u16 r) 0x7fff;
  valid = bit_or d.valid permission_valid;
}
set_field (suc (suc (suc nb))) r d = record d {
  serial_number = r;
  valid = bit_or d.valid serial_valid;
}

abbrev pub field_mode : ℕ → ℕ
field_mode zero = 10
field_mode (suc nb) = 8

module _ {P : Type 0} where
  -- `lymodem_get_next_meta_data_string`, with indices into the block buffer for the pointers: the
  -- string, and where the next one starts.
  unfoldable pub get_next_meta_data_string : ℕ → ℕ → M (Modem P) (Option (ℕ × ℕ))
  get_next_meta_data_string cursor end = do
    c ← byte_at cursor
    let cut = do
      m ← gets (λ m. m)
      n ← lift (word_length (end - cursor) (drop cursor m.blk_buffer.buffer))
      write_block (cursor + n) (0 ∷ [])
      pure (some (cursor, cursor + n + 1))
    if c == 0 || leb end cursor then pure none else cut

  -- One field: its number goes to the metadata. The result is `bResult`.
  unfoldable pub take_field : ℕ → ℕ → M (Modem P) Bool
  take_field nb start = do
    m ← gets (λ m. m)
    (r, is_valid) ← lift (get_number (field_mode nb) (drop start m.blk_buffer.buffer))
    modify λ m. record m { file_data = set_field nb r m.file_data }
    pure is_valid

  -- The loop over the fields, of which `left` are left.
  unfoldable pub fields : ℕ → ℕ → ℕ → ℕ → M (Modem P) Bool
  fields zero nb cursor end = pure true
  fields (suc left) nb cursor end = do
    string ← get_next_meta_data_string cursor end
    elim string [
      | none ↦ pure true
      | some (start, next) ↦ do
        is_valid ← take_field nb start
        let rest = fields left (nb + 1) next end
        if is_valid then rest else pure false
    ]

  unfoldable pub get_meta_data : M (Modem P) Bool
  get_meta_data = do
    m ← gets (λ m. m)
    length_of_name ← lift (strlen (memory m.file_data.filename))
    let start = 2 + length_of_name
    let end = start + m.blk_buffer.max_size
    n ← lift (nul_length m.blk_buffer.max_size (drop start m.blk_buffer.buffer))
    if ltb (start + n) end then fields 4 0 (start + n) end else pure true

  -- The name is copied, at most as much of it as the field has room for.
  unfoldable pub take_name : M (Modem P) (Unit {0})
  take_name = do
    m ← gets (λ m. m)
    let d = m.file_data
    name ← lift (strncpy (sub_u32 d.filename_size 1) (drop 2 m.blk_buffer.buffer))
    copied ← lift (store (memory d.filename) 0 name)
    ended ← lift (store copied (sub_u32 d.filename_size 1) (0 ∷ []))
    modify λ m. record m {
      file_data = record m.file_data {
        filename = some ended;
        valid = bit_or m.file_data.valid filename_valid;
      };
    }

  unfoldable pub decode_block0 : M (Modem P) Bool
  decode_block0 = do
    zoom (λ m. m.file_data) (λ d m. record m { file_data = d }) metadata_clean
    c ← byte_at 2
    let named = do take_name; get_meta_data
    if c == 0 then pure false else named
