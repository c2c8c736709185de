-- ===== src/Ymodem/Emit.antt =====
-- The YMODEM transmitter: `lymodem_emit` of src/lmodem_tx.c.
use light_modem.Base.{
  ℕ, zero, suc, ◌+◌, ◌-◌, ◌^◌, ◌%◌, Bool, true, false, ◌&&◌, List, [], ◌∷◌, ◌++◌, Option, none,
  some, M, spent, ◌>>=◌, ◌>>◌, pure, lift, gets, u32, sub_u32, minus_one, complement, bit_and,
  bit_or, leb, ltb, ◌==◌, if◌then◌else◌, drop, length, replicate,
}
use light_modem.Modem.{
  Modem, Line, FileCharacteristics, write_block, getchar, soh, stx, ack, nak, can,
}
use light_modem.Modem.Metadata.{
  strncpy, memory, has_filename, filesize_valid, modifdate_valid, permission_valid, serial_valid,
}
use light_modem.Emit.{wait_char, reemit_previous_block, write_trailer, send_block, lxmodem_emit}
use light_modem.Ymodem.Text.{strlen, decimal, octal, printed}

-- One for a flag that is set.
abbrev pub flag : ℕ → FileCharacteristics → ℕ
flag mask d = if bit_and d.valid mask == mask then 1 else 0

-- `nbMetaDataTocpy`
unfoldable pub nb_meta_data : FileCharacteristics → ℕ
nb_meta_data d =
    flag filesize_valid d + flag modifdate_valid d + flag permission_valid d + flag serial_valid d

-- The text that `lymodem_format` and its arguments give for so many fields.
unfoldable pub meta_data_text : ℕ → FileCharacteristics → List ℕ
meta_data_text zero d = []
meta_data_text (suc zero) d = decimal d.size
meta_data_text (suc (suc zero)) d = decimal d.size ++ (b' ' ∷ octal d.modif_date)
meta_data_text (suc (suc (suc zero))) d =
    decimal d.size ++ (b' ' ∷ (octal d.modif_date ++ (b' ' ∷ octal (bit_or d.permission 0x8000))))
meta_data_text (suc (suc (suc (suc nb)))) d =
    decimal d.size
    ++ (b' '
        ∷ (octal d.modif_date
            ++ (b' ' ∷ (octal (bit_or d.permission 0x8000) ++ (b' ' ∷ octal d.serial_number)))))

-- What `snprintf` writes; where there is no field it is not called.
unfoldable pub meta_data_bytes : ℕ → ℕ → FileCharacteristics → List ℕ
meta_data_bytes zero room d = []
meta_data_bytes (suc nb) room d = printed room (meta_data_text (suc nb) d)

module _ {P : Type 0} where
  -- The name and the fields behind it; returns the size of what they take with the header.
  unfoldable pub write_header : M (Modem P) ℕ
  write_header = do
    m ← gets (λ m. m)
    let max_to_copy = sub_u32 m.blk_buffer.max_size 3
    name ← lift (strncpy max_to_copy (memory m.file_data.filename))
    write_block 3 name
    write_block (3 + max_to_copy) (0 ∷ [])
    m ← gets (λ m. m)
    size_filename ← lift (strlen (drop 3 m.blk_buffer.buffer))
    let start = 3 + size_filename + 1
    let nb = nb_meta_data m.file_data
    let room = (m.blk_buffer.max_size + 2 ^ 64 - 3 - start) % 2 ^ 64
    write_block start (meta_data_bytes nb room m.file_data)
    pure (u32 (start + length (meta_data_text nb m.file_data) + 1))

module _ {P : Type 0} (line : Line P) where
  -- The block around the name and the fields, `max_size` bytes long without the trailer.
  unfoldable pub send_block0 : ℕ → M (Modem P) (Unit {0})
  send_block0 max_size = do
    let blksize = if ltb max_size 128 then 128 else 1024
    write_block 0 ((if ltb max_size 128 then soh else stx) ∷ [])
    size ← write_trailer blksize true
    send_block line size

  -- `lymodem_build_and_send_block0`
  unfoldable pub build_and_send_block0 : M (Modem P) Bool
  build_and_send_block0 = do
    m ← gets (λ m. m)
    write_block 0 (replicate m.blk_buffer.max_size 0)
    write_block 1 (0 ∷ [])
    write_block 2 (complement 0 ∷ [])
    let named = do max_size ← write_header; send_block0 max_size; pure true
    if has_filename m.file_data then named else pure false

  -- `lymodem_send_end_of_bach`
  unfoldable pub send_end_of_batch : M (Modem P) (Unit {0})
  send_end_of_batch = do
    m ← gets (λ m. m)
    write_block 0 (replicate m.blk_buffer.max_size 0)
    write_block 0 (soh ∷ [])
    write_block 1 (0 ∷ [])
    write_block 2 (complement 0 ∷ [])
    size ← write_trailer 128 true
    send_block line size

  -- `lmodem_wait_reception_of`, `left` calls of `getchar` at most.
  unfoldable pub wait_reception_of : ℕ → ℕ → M (Modem P) Bool
  wait_reception_of char zero = pure false
  wait_reception_of char (suc left) = do
    c ← getchar line
    let again = wait_reception_of char left
    elim c [ none ↦ again | some byte ↦ if byte == char then pure true else again ]

  -- `lmodem_wait_reception`; `none` leaves the variable of the caller alone.
  unfoldable pub wait_reception : M (Modem P) (Option ℕ)
  wait_reception = wait_char line 10

  -- The loops on the reply to a block: `ok` is `bOk` and `char` is `receivedChar`, both of which
  -- are results. Silence repeats the round with the character of before.
  unfoldable pub replies : ℕ → Bool → ℕ → ℕ → M (Modem P) (Bool × ℕ)
  replies zero ok retry char = if leb 10 retry then pure (ok, char) else (λ m. spent)
  replies (suc fuel) ok retry char =
      let react : ℕ → M (Modem P) (Bool × ℕ) = λ char'.
        (let again = (do reemit_previous_block line; replies fuel ok (u32 (retry + 1)) char') in
          let ignored = replies fuel ok retry char' in
          if char' == ack
          then pure (true, char')
          else if char' == can
          then pure (false, char')
          else if char' == nak
          then again
          else ignored) in
      let body : M (Modem P) (Bool × ℕ) = (do
        c ← wait_reception
        elim c [ none ↦ react char | some byte ↦ react byte ]) in
      if leb 10 retry then pure (ok, char) else body

  -- Block 0, and the replies to it, once the receiver has asked for it.
  unfoldable pub announce : ℕ → M (Modem P) (Bool × ℕ)
  announce fuel = do sent ← build_and_send_block0; replies fuel true 0 0

  -- The end of the batch, which decides on the result.
  unfoldable pub close_batch : ℕ → ℕ → ℕ → M (Modem P) ℕ
  close_batch fuel nb_emitted char = do
    send_end_of_batch
    (ok, char') ← replies fuel true 0 char
    pure (if ok then nb_emitted else minus_one)

  -- `lymodem_emit`: the bit pattern of its int32_t result.
  unfoldable pub lymodem_emit : ℕ → M (Modem P) ℕ
  lymodem_emit fuel = do
    asked ← wait_reception_of b'C' 10
    (ok, char) ← if asked then announce fuel else pure (false, 0)
    nb_emitted ← if ok then lxmodem_emit line fuel else pure minus_one
    ready ← if ok && ltb 0 nb_emitted then wait_reception_of b'C' 10 else pure ok
    if ready then close_batch fuel nb_emitted char else pure nb_emitted
