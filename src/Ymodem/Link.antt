-- ===== src/Ymodem/Link.antt =====
-- Block 0 of src/lmodem_tx.c before the tests and the parser of src/lmodem_rx.c.
use light_modem.Base.{
  ℕ, zero, suc, ◌+◌, ◌-◌, ◌%◌, ◌/◌, ◌^◌, ◌<◌, ◌≤◌, ◌≡◌, refl, ap, ◌∙◌, true, List, [], ◌∷◌, ◌++◌,
  some, done, arith, length, append_assoc, take, drop, take-append, ◌==◌, IsBytes, IsBytes-append,
  ltb, Bool-cases, inl, inr, bit_or,
}
use light_modem.Crc
use light_modem.Modem.{Modem, Line, FileCharacteristics, ccitt_polynome}
use light_modem.Modem.Metadata.{memory, has_filename}
use light_modem.Modem.Names.{NoNul}
use light_modem.Frame.{block, trailer}
use light_modem.Receive.{recv_ok, uses_crc, check_block_no_and_crc}
use light_modem.Emit.Link.{accepted}
use light_modem.Emit.Message.{length-block}
use light_modem.Ymodem.Text.{digits, decimal, octal}
use light_modem.Ymodem.Header.{decode_block0}
use light_modem.Ymodem.Emit.{nb_meta_data, meta_data_text, build_and_send_block0}
use light_modem.Ymodem.Fields.{with_block}
use light_modem.Ymodem.RoundTrip.{IsTyped, announced, decode_block0-meta_data_text}
use light_modem.Ymodem.Block0.{zeros, payload0}
use light_modem.Ymodem.Sent.{is_short, size0, packet0, length-payload0, build_and_send_block0_lem}
use native.Mathlib.Nat.{mod-lt}

digits-IsBytes :
    (fuel base n : ℕ) (out : List ℕ)
    → 0 < base
    → base ≤ 10
    → IsBytes out
    → IsBytes (digits fuel base n out)
unfolding digits
digits-IsBytes zero base n out some_base small h = h
digits-IsBytes (suc fuel) base n out some_base small h = elim (Bool-cases (n / base == 0)) [
  | inl e ↦ rw (e) (omega (arith, mod-lt n some_base), h)
  | inr e ↦ rw (e) (
      digits-IsBytes fuel base (n / base) ((b'0' + n % base) ∷ out) some_base small
        (omega (arith, mod-lt n some_base), h))
]

pub octal-IsBytes : (n : ℕ) → IsBytes (octal n)
unfolding octal
octal-IsBytes n = digits-IsBytes 11 8 n [] (omega arith) (omega arith) tt

pub decimal-IsBytes : (n : ℕ) → IsBytes (decimal n)
unfolding decimal
decimal-IsBytes n = elim (Bool-cases (ltb n (2 ^ 31))) [
  | inl e ↦ rw (e) (digits-IsBytes 11 10 n [] (omega arith) (omega arith) tt)
  | inr e ↦
      rw (e) (omega arith, digits-IsBytes 11 10 (2 ^ 32 - n) [] (omega arith) (omega arith) tt)
]

pub text-IsBytes : (d : FileCharacteristics) → IsBytes (meta_data_text 4 d)
unfolding meta_data_text
text-IsBytes d =
    let s = octal d.serial_number in
    let p = octal (bit_or d.permission 0x8000) in
    let t = octal d.modif_date in
    IsBytes-append (decimal d.size) (b' ' ∷ (t ++ (b' ' ∷ (p ++ (b' ' ∷ s)))))
      (decimal-IsBytes d.size)
      (
        omega arith,
        IsBytes-append t (b' ' ∷ (p ++ (b' ' ∷ s))) (octal-IsBytes d.modif_date) (
          omega arith,
          IsBytes-append p (b' ' ∷ s) (octal-IsBytes (bit_or d.permission 0x8000))
              (omega arith, octal-IsBytes d.serial_number),
        ),
      )

-- The transmitter has a name and all four fields, which fit a block, and room for a block.
pub record CanAnnounce {P : Type 0} (name : List ℕ) (m : Modem P) : Type 0 where
  pub table : m.crc16 ≡ Crc.init ccitt_polynome
  pub bytes : IsBytes m.blk_buffer.buffer
  pub big : 1029 ≤ m.blk_buffer.max_size
  pub small : m.blk_buffer.max_size < 2 ^ 31
  pub longer : m.blk_buffer.max_size < length m.blk_buffer.buffer
  pub has : has_filename m.file_data ≡ true
  pub tail : (rest : List ℕ) × (memory m.file_data.filename ≡ name ++ (0 ∷ rest))
  pub visible : NoNul name
  pub name_bytes : IsBytes name
  pub some_name : 0 < length name
  pub fields : nb_meta_data m.file_data ≡ 4
  pub typed : IsTyped m.file_data
  pub short : length name + length (meta_data_text 4 m.file_data) ≤ 1021

-- The receiver has storage for the name, and checks blocks by CRC.
pub record CanTake {Q : Type 0} (name dst : List ℕ) (blksize : ℕ) (r : Modem Q) : Type 0 where
  pub table : r.crc16 ≡ Crc.init ccitt_polynome
  pub bytes : IsBytes r.blk_buffer.buffer
  pub whole : length r.blk_buffer.buffer ≤ r.blk_buffer.max_size
  pub mode : uses_crc r blksize ≡ true
  pub storage : r.file_data.filename ≡ some dst
  pub fits : r.file_data.filename_size ≤ length dst
  pub small : r.file_data.filename_size < 2 ^ 32
  pub room : length name + 1 < r.file_data.filename_size

-- A transmitter that has a name and all four fields of the metadata sends one block 0, and every
-- receiver whose block buffer starts with that block, without its first character, accepts it as
-- block 0 and takes the transmitter's name, size, date, serial number and the lower 15 bits of the
-- permission out of it. The transmitter has the CRC table of `lmodem_init` and a block buffer of
-- bytes, which is announced with 1029 bytes at least, below 2 ^ 31, and is longer than it is
-- announced; its name has one byte or more and no NUL, its numbers fit their C types, and name and fields fit
-- into 1021 bytes. The receiver has the same table, checks by CRC, has a block buffer of bytes that
-- is not longer than it is announced, and has storage for names of the announced size at least,
-- which fits a uint32_t and is at least two more than the length of the name.
pub decode_block0-build_and_send_block0 :
    {P Q : Type 0} (line : Line P) (name dst after : List ℕ) (m : Modem P) (r : Modem Q)
    → CanAnnounce name m
    → let short = is_short name (meta_data_text 4 m.file_data) in
      let msg = packet0 short name (meta_data_text 4 m.file_data) in
      CanTake name dst (size0 short) r
      → r.blk_buffer.buffer ≡ drop 1 msg ++ after
      → (m' : Modem P) × (bytes : List ℕ) × (build_and_send_block0 line m ≡ done (true, m'))
        × (m'.port ≡ line.putchar m.port msg)
        × (check_block_no_and_crc 0 (size0 short) r ≡ done (recv_ok, r))
        × (decode_block0 r
            ≡ done (
              true,
              with_block bytes
                  (record r { file_data = announced name dst m.file_data r.file_data }),
            ))
decode_block0-build_and_send_block0 line name dst after m r c t e =
    let text = meta_data_text 4 m.file_data in
    let blk = size0 (is_short name text) in
    let payload = payload0 blk name text in
    let (rest, f) = c.tail in
    let (m', run, port, _, _) =
      build_and_send_block0_lem line 3 name text rest m c.table c.bytes c.big c.small c.longer c.has
        f c.visible c.name_bytes c.fields refl (text-IsBytes m.file_data) c.short in
    let fits : length name + 1 + length text + 2 ≤ blk = ground (arith, c.short) in
    let size : length payload ≡ blk = length-payload0 blk name text (omega (arith, fits)) in
    let start : take (2 + blk + 2) r.blk_buffer.buffer ≡ block true 0 payload =
      ap (take (2 + blk + 2)) e
      ∙ ap (λ k. take k (block true 0 payload ++ after)) {y = length (block true 0 payload)}
          (omega (arith, length-block true 0 payload, size))
      ∙ take-append (block true 0 payload) after in
    let (ok, _) = accepted true 0 blk payload r size (omega arith) t.table t.bytes t.mode start in
    let j = blk - length name - 1 - length text - 2 in
    let nuls : zeros (blk - length name - 1 - length text) ≡ 0 ∷ 0 ∷ zeros j =
      ap zeros {y = suc (suc j)} (omega (arith, fits)) in
    let behind = trailer true payload ++ after in
    let shape : payload ++ behind ≡ name ++ (0 ∷ (text ++ (0 ∷ 0 ∷ (zeros j ++ behind)))) =
      ap (λ z. (name ++ (0 ∷ (text ++ z))) ++ behind) nuls
      ∙ append_assoc name (0 ∷ (text ++ (0 ∷ 0 ∷ zeros j))) behind
      ∙ ap (λ l. name ++ (0 ∷ l)) (append_assoc text (0 ∷ 0 ∷ zeros j) behind) in
    let e' =
      e ∙ ap (λ l. 0 ∷ 255 ∷ l) (append_assoc payload (trailer true payload) after ∙ shape) in
    let (bytes, decoded) =
      decode_block0-meta_data_text 0 255 name (zeros j ++ behind) dst m.file_data r e' t.whole
        c.typed t.storage t.fits t.small c.visible c.some_name t.room in
    (m', bytes, run, port, ok, decoded)
