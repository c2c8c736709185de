-- ===== src/Ymodem/RoundTrip.antt =====
-- The metadata that src/lmodem_tx.c puts into block 0, as src/lmodem_rx.c takes them out.
use light_modem.Base.{
  ℕ, ◌+◌, ◌%◌, ◌^◌, ◌<◌, ◌≤◌, ◌≡◌, ap, ◌∙◌, true, List, [], ◌∷◌, ◌++◌, some, done, arith, length,
  append_assoc, bit_or, bit_and, u16, or_top, and_low,
}
use light_modem.Modem.{Modem, FileCharacteristics}
use light_modem.Modem.Names.{NoNul}
use light_modem.Ymodem.Text.{decimal, octal}
use light_modem.Ymodem.Header.{decode_block0, set_field}
use light_modem.Ymodem.Emit.{meta_data_text}
use light_modem.Ymodem.Fields.{with_block, fields_text}
use light_modem.Ymodem.Decode.{decode_block0_lem, IsFresh, name_stored}

-- The numbers of the metadata fit their C types.
pub record IsTyped (d : FileCharacteristics) : Type 0 where
  pub size : d.size < 2 ^ 32
  pub modif_date : d.modif_date < 2 ^ 32
  pub permission : d.permission < 2 ^ 16
  pub serial_number : d.serial_number < 2 ^ 32

abbrev values : FileCharacteristics → List ℕ
values d = d.size ∷ d.modif_date ∷ bit_or d.permission 0x8000 ∷ d.serial_number ∷ []

text_lem :
    (d : FileCharacteristics) (rest : List ℕ)
    → meta_data_text 4 d ++ (0 ∷ 0 ∷ rest) ≡ fields_text 0 (values d) rest
unfolding meta_data_text
text_lem d rest =
    let s = octal d.serial_number in
    let p = octal (bit_or d.permission 0x8000) in
    let t = octal d.modif_date in
    append_assoc (decimal d.size) (b' ' ∷ (t ++ (b' ' ∷ (p ++ (b' ' ∷ s))))) (0 ∷ 0 ∷ rest)
    ∙ ap (λ l. decimal d.size ++ (b' ' ∷ l))
        (append_assoc t (b' ' ∷ (p ++ (b' ' ∷ s))) (0 ∷ 0 ∷ rest)
          ∙ ap (λ l. t ++ (b' ' ∷ l)) (append_assoc p (b' ' ∷ s) (0 ∷ 0 ∷ rest)))

-- What the receiver knows after block 0 has brought a name and the metadata `d`.
abbrev pub announced :
    List ℕ → List ℕ → FileCharacteristics → FileCharacteristics → FileCharacteristics
announced name dst d own = record {
  valid = 0x1f;
  filename = some (name_stored own.filename_size name dst);
  filename_size = own.filename_size;
  size = d.size;
  modif_date = d.modif_date;
  permission = d.permission % 2 ^ 15;
  serial_number = d.serial_number;
}

permission_lem : (p : ℕ) → p < 2 ^ 16 → bit_and (u16 (bit_or p 0x8000)) 0x7fff ≡ p % 2 ^ 15
permission_lem p h = omega (arith, or_top p h, and_low (u16 (bit_or p 0x8000)))

-- The receiver of such a block, and the memory of the block afterwards.
pub announced_lem :
    {P : Type 0}
    → (number inverse : ℕ) (name rest dst : List ℕ) (d : FileCharacteristics) (m : Modem P)
    → m.blk_buffer.buffer
      ≡ number ∷ inverse ∷ (name ++ (0 ∷ (meta_data_text 4 d ++ (0 ∷ 0 ∷ rest))))
    → length m.blk_buffer.buffer ≤ m.blk_buffer.max_size
    → IsTyped d
    → m.file_data.filename ≡ some dst
    → m.file_data.filename_size ≤ length dst
    → m.file_data.filename_size < 2 ^ 32
    → NoNul name
    → 0 < length name
    → length name + 1 < m.file_data.filename_size
    → (bytes : List ℕ) × (decode_block0 m
        ≡ done (true, with_block bytes (record m { file_data = announced name dst d m.file_data })))
      × IsFresh m.blk_buffer.buffer bytes
unfolding set_field
announced_lem number inverse name rest dst d m e room typed f fits small visible some_name short =
    let e' : m.blk_buffer.buffer
        ≡ (number ∷ inverse ∷ name) ++ (0 ∷ fields_text 0 (values d) rest) =
      e ∙ ap (λ l. number ∷ inverse ∷ (name ++ (0 ∷ l))) (text_lem d rest) in
    let p = bit_or d.permission 0x8000 in
    let small_p : p < 2 ^ 32 =
      omega (arith, or_top d.permission typed.permission, typed.permission) in
    let (bytes, run, fresh) =
      decode_block0_lem number inverse d.size name (d.modif_date ∷ p ∷ d.serial_number ∷ []) rest
        dst m e' room f fits small visible some_name short (omega arith)
        (typed.size, (typed.modif_date, (small_p, (typed.serial_number, tt)))) in
    (bytes, rw (permission_lem d.permission typed.permission) at run, fresh)

-- A block buffer not longer than its announced size holds, behind the block number and its
-- complement, whatever they are, a name of one byte or more without NUL, a NUL, and the text of
-- all four fields of the metadata, whose numbers fit their C types, with two NULs behind it. The
-- receiver's storage for names has the announced size at least, which fits a uint32_t and is at
-- least two more than the length of the name. Then `lymodem_decode_block0` returns true: the name
-- is in the storage, filled up with NUL, the size, the date and the serial number are those of the
-- transmitter, and so are the lower 15 bits of the permission; all five flags are set. Nothing
-- else of the context changes but bytes in the block buffer.
pub decode_block0-meta_data_text :
    {P : Type 0}
    → (number inverse : ℕ) (name rest dst : List ℕ) (d : FileCharacteristics) (m : Modem P)
    → m.blk_buffer.buffer
      ≡ number ∷ inverse ∷ (name ++ (0 ∷ (meta_data_text 4 d ++ (0 ∷ 0 ∷ rest))))
    → length m.blk_buffer.buffer ≤ m.blk_buffer.max_size
    → IsTyped d
    → m.file_data.filename ≡ some dst
    → m.file_data.filename_size ≤ length dst
    → m.file_data.filename_size < 2 ^ 32
    → NoNul name
    → 0 < length name
    → length name + 1 < m.file_data.filename_size
    → (bytes : List ℕ) × (decode_block0 m
        ≡ done (true, with_block bytes (record m { file_data = announced name dst d m.file_data })))
decode_block0-meta_data_text number inverse name rest dst d m e room typed f fits small visible
      some_name short =
    let (bytes, run, _) =
      announced_lem number inverse name rest dst d m e room typed f fits small visible some_name
        short in
    (bytes, run)
