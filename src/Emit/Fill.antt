-- ===== src/Emit/Fill.antt =====
-- How `lxmode_build_and_send_one_data_block` fills the block buffer from its start.
use light_modem.Base.{
  ◌>>◌, ℕ, ◌+◌, ◌/◌, ◌%◌, ◌≤◌, ◌≡◌, ap, ◌∙◌, sym, true, false, List, [], ◌∷◌, ◌++◌, arith, done,
  ◌>>=◌, IsBytes, IsBytes-drop, IsBytes-append, store-done, put_bytes, take, drop, length,
  length-append, length-drop, bit_and, ◌>>>◌, and_byte, and_high, xor-zero, append_assoc,
  take-append, drop-append, drop-drop,
}
use light_modem.Crc
use light_modem.Crc.Remainder.{do_calcul-remainder, remainder-lt}
use light_modem.Modem.{Modem, write_block, ccitt_polynome}
use light_modem.Frame.{sum, crc_of_payload, trailer}
use light_modem.Receive.Block.{calcul_chksum_lem}
use light_modem.Emit.{write_trailer}

pub drop_past : (pre rest : List ℕ) (n : ℕ) → drop (length pre + n) (pre ++ rest) ≡ drop n rest
drop_past pre rest n =
    sym (drop-drop n (length pre) (pre ++ rest)) ∙ ap (λ l. drop n l) (drop-append pre rest)

-- A buffer whose first bytes are replaced by `pre`.
abbrev pub overlay : List ℕ → List ℕ → List ℕ
overlay buf pre = pre ++ drop (length pre) buf

put_bytes-overlay :
    (buf pre bytes : List ℕ)
    → put_bytes (overlay buf pre) (length pre) bytes ≡ overlay buf (pre ++ bytes)
put_bytes-overlay buf pre bytes =
    let behind : drop (length pre + length bytes) (overlay buf pre)
        ≡ drop (length (pre ++ bytes)) buf =
      drop_past pre (drop (length pre) buf) (length bytes)
      ∙ drop-drop (length bytes) (length pre) buf
      ∙ ap (λ n. drop n buf) (sym (length-append pre bytes)) in
    rw (take-append pre (drop (length pre) buf), behind)
      (sym (append_assoc pre bytes (drop (length (pre ++ bytes)) buf)))

pub length-overlay :
    (buf pre : List ℕ) → length pre ≤ length buf → length (overlay buf pre) ≡ length buf
length-overlay buf pre h =
    omega (arith, length-append pre (drop (length pre) buf), length-drop (length pre) buf)

module _ {P : Type 0} where
  -- The context with the first bytes of the block buffer replaced.
  abbrev pub filled : Modem P → List ℕ → Modem P
  filled m pre = record m {
    blk_buffer = record m.blk_buffer { buffer = overlay m.blk_buffer.buffer pre };
  }

  pub write_block-filled :
      (off : ℕ) (pre bytes : List ℕ) (m : Modem P)
      → length pre ≡ off
      → off + length bytes ≤ length m.blk_buffer.buffer
      → write_block off bytes (filled m pre) ≡ done (tt, filled m (pre ++ bytes))
  unfolding write_block
  write_block-filled off pre bytes m at h =
      let buf = m.blk_buffer.buffer in
      let stored : put_bytes (overlay buf pre) off bytes ≡ overlay buf (pre ++ bytes) =
        ap (λ o. put_bytes (overlay buf pre) o bytes) (sym at) ∙ put_bytes-overlay buf pre bytes in
      rw (
        store-done (overlay buf pre) off bytes (omega (arith, length-overlay buf pre)),
        ◌>>=◌,
        stored,
      )

-- The front of a block, and its payload.
abbrev pub front : ℕ → ℕ → ℕ → List ℕ → List ℕ
front header number inverse payload = header ∷ number ∷ inverse ∷ payload

module _ {P : Type 0} (blksize header number inverse : ℕ) (payload : List ℕ) (m : Modem P)
    (size : length payload ≡ blksize) where
  pub write_crc :
      m.crc16 ≡ Crc.init ccitt_polynome
      → IsBytes payload
      → IsBytes m.blk_buffer.buffer
      → 3 + blksize + 2 ≤ length m.blk_buffer.buffer
      → write_trailer blksize true (filled m (front header number inverse payload))
        ≡ done (
          3 + blksize + 2,
          filled m (front header number inverse (payload ++ trailer true payload)),
        )
  unfolding write_trailer
  write_crc table bytes mem room =
      let crc = crc_of_payload payload in
      let rest = drop (length (front header number inverse payload)) m.blk_buffer.buffer in
      let whole : take blksize (payload ++ rest) ≡ payload =
        ap (λ n. take n (payload ++ rest)) (sym size) ∙ take-append payload rest in
      let computed : Crc.do_calcul m.crc16 (payload ++ rest) blksize 0 0 ≡ done crc =
        ap (λ c. Crc.do_calcul c (payload ++ rest) blksize 0 0) table
        ∙ do_calcul-remainder 0x1021 0 0 blksize (payload ++ rest) (omega arith) (omega arith)
            (IsBytes-append payload rest bytes
              (IsBytes-drop (length (front header number inverse payload)) m.blk_buffer.buffer mem))
            (omega (arith, length-append payload rest))
        ∙ ap done (xor-zero _ ∙ ap crc_of_payload whole) in
      let high : bit_and crc 0xff00 >>> 8 ≡ crc / 256 =
        omega
          (arith, and_high crc, remainder-lt 0x1021 (omega arith) 0 payload (omega arith) bytes) in
      let first =
        write_block-filled (3 + blksize) (front header number inverse payload) (crc / 256 ∷ []) m
          (omega (arith, size)) (omega arith) in
      let second =
        write_block-filled (3 + blksize + 1)
          (front header number inverse (payload ++ (crc / 256 ∷ []))) (crc % 256 ∷ []) m
          (omega (arith, size, length-append payload (crc / 256 ∷ []))) (omega arith) in
      let count : 3 + blksize + 1 + 1 ≡ 3 + blksize + 2 = omega arith in
      let last : write_block (3 + blksize + 1) (crc % 256 ∷ [])
            (filled m (front header number inverse (payload ++ (crc / 256 ∷ []))))
          ≡ done (tt, filled m (front header number inverse (payload ++ trailer true payload))) =
        second
        ∙ ap (λ l. done (tt, filled m (front header number inverse l)))
            (append_assoc payload (crc / 256 ∷ []) (crc % 256 ∷ [])) in
      rw (computed, ◌>>=◌, high, first, ◌>>=◌, ◌>>◌, and_byte crc, last, ◌>>=◌, count)

  pub write_chksum :
      3 + blksize + 1 ≤ length m.blk_buffer.buffer
      → write_trailer blksize false (filled m (front header number inverse payload))
        ≡ done (
          3 + blksize + 1,
          filled m (front header number inverse (payload ++ trailer false payload)),
        )
  unfolding write_trailer
  write_chksum room =
      let rest = drop (length (front header number inverse payload)) m.blk_buffer.buffer in
      let whole : take blksize (payload ++ rest) ≡ payload =
        ap (λ n. take n (payload ++ rest)) (sym size) ∙ take-append payload rest in
      let last =
        write_block-filled (3 + blksize) (front header number inverse payload)
          (sum payload % 256 ∷ []) m (omega (arith, size)) (omega arith) in
      let byte : bit_and (sum payload % 256) 0xff ≡ sum payload % 256 =
        omega (arith, and_byte (sum payload % 256)) in
      rw (
        calcul_chksum_lem (payload ++ rest) blksize
            (omega (arith, size, length-append payload rest)),
        ◌>>=◌,
        whole,
        byte,
        last,
      )
