-- ===== src/Ymodem/Overrun.antt =====
-- The end of the name in block 0: `lymodem_build_and_send_block0` of src/lmodem_tx.c at the end of
-- the block buffer.
use light_modem.Base.{
  ℕ, ◌+◌, ◌-◌, ◌^◌, ◌<◌, ◌≤◌, ◌≡◌, ◌∙◌, sym, true, false, List, [], ◌∷◌, ◌++◌, done, fault, arith,
  length, leb, put_bytes, length-put_bytes, store-done, store, replicate, length-replicate, ◌>>=◌,
  sub_u32, lt→leb_false, complement,
}
use light_modem.Modem.{Modem, Line, write_block}
use light_modem.Modem.Metadata.{memory, has_filename}
use light_modem.Modem.Names.{NoNul, filled_up, strncpy_lem}
use light_modem.Ymodem.Emit.{write_header, build_and_send_block0}
use light_modem.Ymodem.Fields.{with_block}
use light_modem.Ymodem.Decode.{length-filled_up}

module _ {P : Type 0} where
  pub write_inside :
      (off : ℕ) (bytes : List ℕ) (m : Modem P)
      → off + length bytes ≤ length m.blk_buffer.buffer
      → write_block off bytes m ≡ done (tt, with_block (put_bytes m.blk_buffer.buffer off bytes) m)
  unfolding write_block
  write_inside off bytes m h = rw (store-done m.blk_buffer.buffer off bytes h, ◌>>=◌)

  write_outside :
      (off : ℕ) (bytes : List ℕ) (m : Modem P)
      → length m.blk_buffer.buffer < off + length bytes
      → write_block off bytes m ≡ fault
  unfolding write_block store
  write_outside off bytes m h =
      let over : leb (off + length bytes) (length m.blk_buffer.buffer) ≡ false =
        lt→leb_false (off + length bytes) (length m.blk_buffer.buffer) h in
      rw (over)

  write_header_fault :
      (name rest : List ℕ) (m : Modem P)
      → m.blk_buffer.max_size ≡ length m.blk_buffer.buffer
      → m.blk_buffer.max_size < 2 ^ 32
      → NoNul name
      → length name + 3 < m.blk_buffer.max_size
      → memory m.file_data.filename ≡ name ++ (0 ∷ rest)
      → write_header m ≡ fault
  unfolding write_header
  write_header_fault name rest m exact small visible short f =
      let n = m.blk_buffer.max_size - 3 in
      let room : sub_u32 m.blk_buffer.max_size 3 ≡ n = omega arith in
      let field = filled_up n name in
      let len : length field ≡ n = length-filled_up n name (omega arith) in
      let m₁ = with_block (put_bytes m.blk_buffer.buffer 3 field) m in
      let kept = length-put_bytes m.blk_buffer.buffer 3 field (omega (arith, len, exact)) in
      rw (
        room,
        f,
        strncpy_lem n name rest visible (omega arith),
        ◌>>=◌,
        write_inside 3 field m (omega (arith, len, exact)),
        ◌>>=◌,
        room,
        write_outside (3 + n) (0 ∷ []) m₁ (omega (arith, kept, exact)),
      )

module _ {P : Type 0} (line : Line P) where
  -- On a context with a file name, without NUL and by four bytes or more shorter than the block
  -- buffer, whose size as it was announced is the size that it has, 4 at least and below 2 ^ 32,
  -- `lymodem_build_and_send_block0` writes outside the block buffer.
  pub build_and_send_block0_fault :
      (name rest : List ℕ) (m : Modem P)
      → m.blk_buffer.max_size ≡ length m.blk_buffer.buffer
      → m.blk_buffer.max_size < 2 ^ 32
      → has_filename m.file_data ≡ true
      → memory m.file_data.filename ≡ name ++ (0 ∷ rest)
      → NoNul name
      → length name + 3 < m.blk_buffer.max_size
      → build_and_send_block0 line m ≡ fault
  unfolding build_and_send_block0
  build_and_send_block0_fault name rest m exact small has f visible short =
      let n = m.blk_buffer.max_size in
      let zeros = replicate n 0 in
      let len : length zeros ≡ n = length-replicate {A = ℕ} n 0 in
      let m₁ = with_block (put_bytes m.blk_buffer.buffer 0 zeros) m in
      let kept₁ : length m₁.blk_buffer.buffer ≡ n =
        length-put_bytes m.blk_buffer.buffer 0 zeros (omega (arith, len, exact)) ∙ sym exact in
      let m₂ = with_block (put_bytes m₁.blk_buffer.buffer 1 (0 ∷ [])) m₁ in
      let kept₂ : length m₂.blk_buffer.buffer ≡ n =
        length-put_bytes m₁.blk_buffer.buffer 1 (0 ∷ []) (omega (arith, kept₁)) ∙ kept₁ in
      let m₃ = with_block (put_bytes m₂.blk_buffer.buffer 2 (complement 0 ∷ [])) m₂ in
      let kept₃ : length m₃.blk_buffer.buffer ≡ n =
        length-put_bytes m₂.blk_buffer.buffer 2 (complement 0 ∷ []) (omega (arith, kept₂))
        ∙ kept₂ in
      rw (
        write_inside 0 zeros m (omega (arith, len, exact)),
        ◌>>=◌,
        write_inside 1 (0 ∷ []) m₁ (omega (arith, kept₁)),
        ◌>>=◌,
        write_inside 2 (complement 0 ∷ []) m₂ (omega (arith, kept₂)),
        ◌>>=◌,
        has,
        write_header_fault name rest m₃ (sym kept₃) small visible short f,
      )
