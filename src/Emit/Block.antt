-- ===== src/Emit/Block.antt =====
-- The one block that `lxmode_build_and_send_one_data_block` sends.
use native.Mathlib.Nat.{add-zero}
use light_modem.Base.{
  Outcome, ℕ, ◌+◌, ◌-◌, ◌<◌, ◌≤◌, ◌≡◌, refl, ap, ◌∙◌, sym, Bool, true, false, List, [], ◌∷◌, ◌++◌,
  arith, done, ◌>>=◌, pure, if◌then◌else◌, IsBytes, IsBytes-drop, IsBytes-take, IsBytes-append,
  load-done, take, drop, length, length-append, length-replicate, length-take, take-length,
  take-take_le, min, append-nil, take-append, replicate, ltb, leb, ◌==◌, complement, Bool-cases,
  inl, inr, ◌⊎◌, zoom,
}
use light_modem.Buffer
use light_modem.Buffer.{Buffer}
use light_modem.Buffer.Laws.{contents, advanced, read_lem, get_size_lem, length-contents}
use light_modem.Modem.{Modem, Line, write_block, putchar, sub, soh, stx}
use light_modem.Frame.{trailer, packet, message, size_for}
use light_modem.Receive.Block.{trailer_size}
use light_modem.Emit.{
  send_block, send_eot, send_data, build_and_send_one_data_block, effective_blksize, min_c,
}
use light_modem.Emit.Fill.{overlay, length-overlay, filled, write_block-filled, front}
use light_modem.Emit.Sizes.{
  CanSend, write_trailer_lem, length-trailer, size_for_le, gap_lem, size_for_within, full,
  IsBytes-replicate, packet_lem, cong4,
}

module _ {P : Type 0} (line : Line P) where
  -- The context after `msg` went out of the block buffer, with `b` for the RAM file.
  abbrev pub sent : List ℕ → Buffer → Modem P → Modem P
  sent msg b m = record m {
    blk_buffer = record {
      buffer = overlay m.blk_buffer.buffer msg;
      current_size = length msg;
      max_size = m.blk_buffer.max_size;
    };
    ramfile = b;
    port = line.putchar m.port msg;
  }

  pub send_block-filled :
      (size : ℕ) (msg : List ℕ) (m : Modem P)
      → length msg ≡ size
      → size ≤ length m.blk_buffer.buffer
      → send_block line size (filled m msg) ≡ done (tt, sent msg m.ramfile m)
  unfolding send_block putchar
  send_block-filled size msg m len fits =
      let buf = overlay m.blk_buffer.buffer msg in
      let whole : take size buf ≡ msg =
        ap (λ n. take n buf) (sym len) ∙ take-append msg (drop (length msg) m.blk_buffer.buffer) in
      rw (
        load-done buf 0 size (omega (arith, length-overlay m.blk_buffer.buffer msg)),
        ◌>>=◌,
        whole,
        len,
      )

  -- The last block of a file is filled up; a longer one is not.
  padding_lem :
      (header number inverse n remaining blksize : ℕ) (chunk : List ℕ) (m : Modem P)
      → length chunk ≡ n
      → 3 + n + (blksize - remaining) ≤ length m.blk_buffer.buffer
      → (if ltb remaining blksize
            then write_block (3 + n) (replicate (blksize - remaining) sub)
            else pure tt)
          (filled m (front header number inverse chunk))
        ≡ done (
          tt,
          filled m (front header number inverse (chunk ++ replicate (blksize - remaining) sub)),
        )
  padding_lem header number inverse n remaining blksize chunk m len fits =
      let pad = replicate (blksize - remaining) sub in
      elim (Bool-cases (ltb remaining blksize)) [
        | inl lt ↦ rw lt (
            write_block-filled (3 + n) (front header number inverse chunk) pad m
              (omega (arith, len)) (omega (arith, length-replicate (blksize - remaining) sub)))
        | inr ge ↦
            let empty : blksize - remaining ≡ 0 = ground arith in
            let nothing : chunk ≡ chunk ++ pad =
              sym (ap (λ k. chunk ++ replicate k sub) empty ∙ append-nil chunk) in
            rw ge (ap (λ l. done (tt, filled m (front header number inverse l))) nothing)
      ]

  send_eot_lem :
      (m : Modem P)
      → 1 ≤ length m.blk_buffer.buffer
      → send_eot line m ≡ done ((true, 0), sent (4 ∷ []) m.ramfile m)
  unfolding send_eot
  send_eot_lem m room = rw (
    write_block-filled 0 [] (4 ∷ []) m refl (omega arith),
    ◌>>=◌,
    send_block-filled 1 (4 ∷ []) m refl room,
  )

  send_data_lem :
      (number n remaining : ℕ) (with_crc : Bool) (m : Modem P)
      → CanSend with_crc (size_for n) m
      → remaining ≡ length (contents m.ramfile)
      → n ≤ remaining
      → n ≤ 1024
      → (n ≡ remaining) ⊎ (size_for n ≡ n)
      → number < 256
      → let chunk = take n (contents m.ramfile) in
        send_data line number n remaining with_crc m
        ≡ done ((false, size_for n), sent (packet with_crc number chunk) (advanced m.ramfile n) m)
  unfolding send_data effective_blksize
  send_data_lem number n remaining with_crc m c len some small full byte =
      let chunk = take n (contents m.ramfile) in
      let blksize = size_for n in
      let size : length chunk ≡ n = omega (arith, length-take n (contents m.ramfile)) in
      let header = if leb n 128 then soh else stx in
      let m₁ = record m { ramfile = advanced m.ramfile n } in
      let payload = chunk ++ replicate (blksize - remaining) sub in
      let whole : length payload ≡ blksize = omega (
        arith,
        size,
        gap_lem n remaining some full,
        size_for_le n small,
        length-append chunk (replicate (blksize - remaining) sub),
        length-replicate (blksize - remaining) sub,
      ) in
      let payload_bytes : IsBytes payload =
        IsBytes-append chunk (replicate (blksize - remaining) sub)
          (IsBytes-take n (contents m.ramfile) (
            IsBytes-take (m.ramfile.write_offset - m.ramfile.read_offset)
              (drop m.ramfile.read_offset m.ramfile.buffer)
              (IsBytes-drop m.ramfile.read_offset m.ramfile.buffer c.file_bytes)))
          (IsBytes-replicate (blksize - remaining) sub (omega arith)) in
      let w₀ = write_block-filled 0 [] (header ∷ []) m refl (omega (arith, c.room)) in
      let w₁ = write_block-filled 1 (header ∷ []) (number ∷ []) m refl (omega (arith, c.room)) in
      let w₂ =
        write_block-filled 2 (header ∷ number ∷ []) (complement number ∷ []) m refl
          (omega (arith, c.room)) in
      let w₃ =
        write_block-filled 3 (header ∷ number ∷ complement number ∷ []) chunk m₁ refl
          (omega (arith, c.room, size, size_for_le n small)) in
      let got = read_lem n m.ramfile c.file (omega arith) in
      let all : min n (length (contents m.ramfile)) ≡ n = omega arith in
      let pad =
        padding_lem header number (complement number) n remaining blksize chunk m₁ size
          (omega (arith, c.room, size_for_le n small)) in
      let closed =
        write_trailer_lem with_crc blksize header number (complement number) payload m₁ whole
          c.table payload_bytes c.bytes c.room in
      let msg = front header number (complement number) (payload ++ trailer with_crc payload) in
      let out =
        send_block-filled (3 + blksize + trailer_size with_crc) msg m₁
          (omega (
            arith,
            whole,
            length-append payload (trailer with_crc payload),
            length-trailer with_crc payload,
          ))
          c.room in
      rw
        (
          w₀, ◌>>=◌, w₁, ◌>>=◌, w₂, ◌>>=◌, zoom, got, ◌>>=◌, all, w₃, ◌>>=◌, pad, ◌>>=◌, closed,
          ◌>>=◌, out,
        )
        (ap (λ l. done ((false, blksize), sent l (advanced m.ramfile n) m))
          (packet_lem with_crc number n remaining chunk size byte (gap_lem n remaining some full)))

  -- The outcome of sending the message of a chunk.
  abbrev pub chunk_sent : ℕ → Bool → List ℕ → Modem P → Outcome ((Bool × ℕ) × Modem P)
  chunk_sent number with_crc chunk m = done (
    (length chunk == 0, if length chunk == 0 then 0 else size_for (length chunk)),
    sent (message with_crc number chunk) (advanced m.ramfile (length chunk)) m,
  )

  same_outcome :
      {b b' : Bool} {k k' r r' : ℕ} {l l' : List ℕ}
      → b ≡ b'
      → k ≡ k'
      → l ≡ l'
      → r ≡ r'
      → (m : Modem P)
      → ◌≡◌ {A = Outcome ((Bool × ℕ) × Modem P)}
          (done ((b, k), sent l (advanced m.ramfile r) m))
          (done ((b', k'), sent l' (advanced m.ramfile r') m))
  same_outcome p q e f m = cong4 p q e f (λ b k l r. done ((b, k), sent l (advanced m.ramfile r) m))

  eot_result :
      (number : ℕ) (with_crc : Bool) (chunk : List ℕ) (m : Modem P)
      → length chunk ≡ 0
      → chunk_sent number with_crc chunk m ≡ done ((true, 0), sent (4 ∷ []) m.ramfile m)
  eot_result number with_crc chunk m e = rw (e, add-zero)

  data_result :
      (number n : ℕ) (with_crc : Bool) (chunk : List ℕ) (m : Modem P)
      → length chunk ≡ n
      → (n == 0) ≡ false
      → chunk_sent number with_crc chunk m
        ≡ done ((false, size_for n), sent (packet with_crc number chunk) (advanced m.ramfile n) m)
  data_result number n with_crc chunk m e p =
      let some : (length chunk == 0) ≡ false = rw e p in
      let msg : message with_crc number chunk ≡ packet with_crc number chunk = rw some in
      let count : (if length chunk == 0 then 0 else size_for (length chunk)) ≡ size_for n =
        rw (e, p) in
      same_outcome some count msg e m

  -- From a context that can send blocks of `default_blksize` bytes, which is 128 or 1024, and with a
  -- block number below 256, the function sends one message, which is in the block buffer afterwards, too: the next bytes of the
  -- file, as many as fill a block or all that are left, filled up with SUB and framed with the block
  -- number and the check, or EOT if no byte is left. Those bytes are read from the RAM file, and the
  -- results are whether it was EOT, and the size of the block.
  pub build_and_send_one_data_block_lem :
      (number default_blksize : ℕ) (with_crc : Bool) (m : Modem P)
      → CanSend with_crc default_blksize m
      → (default_blksize ≡ 128) ⊎ (default_blksize ≡ 1024)
      → number < 256
      → let chunk = take default_blksize (contents m.ramfile) in
        build_and_send_one_data_block line number default_blksize with_crc m
        ≡ chunk_sent number with_crc chunk m
  unfolding build_and_send_one_data_block
  build_and_send_one_data_block_lem number default_blksize with_crc m c allowed byte =
      let left = length (contents m.ramfile) in
      let n = min default_blksize left in
      let size : length (take default_blksize (contents m.ramfile)) ≡ n =
        length-take default_blksize (contents m.ramfile) in
      let chunk : take n (contents m.ramfile) ≡ take default_blksize (contents m.ramfile) =
        sym (take-take_le default_blksize left (contents m.ramfile))
        ∙ ap (take default_blksize) (take-length (contents m.ramfile)) in
      let remaining : Buffer.get_size m.ramfile ≡ left =
        get_size_lem m.ramfile c.file ∙ sym (length-contents m.ramfile c.file) in
      let least : min_c default_blksize left ≡ n = ground arith in
      elim (Bool-cases (n == 0)) [
        | inl z ↦
            let chosen : build_and_send_one_data_block line number default_blksize with_crc m
                ≡ send_eot line m =
              rw (remaining, least, z) in
            chosen
            ∙ send_eot_lem m (omega (arith, c.room))
            ∙ sym (
                eot_result number with_crc (take default_blksize (contents m.ramfile)) m
                  (size ∙ ground arith))
        | inr p ↦
            let c' : CanSend with_crc (size_for n) m = record {
              table = c.table;
              bytes = c.bytes;
              room = omega (arith, c.room, size_for_within n default_blksize allowed (omega arith));
              file = c.file;
              file_bytes = c.file_bytes;
            } in
            let chosen : build_and_send_one_data_block line number default_blksize with_crc m
                ≡ send_data line number n left with_crc m =
              rw (remaining, least, p) in
            let run =
              send_data_lem number n left with_crc m c' refl (omega arith) (ground arith)
                (full n left default_blksize allowed refl) byte in
            chosen
            ∙ run
            ∙ sym (
                data_result number n with_crc (take n (contents m.ramfile)) m
                  (ap length chunk ∙ size) p)
            ∙ ap (λ l. chunk_sent number with_crc l m) chunk
      ]
