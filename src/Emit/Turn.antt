-- ===== src/Emit/Turn.antt =====
-- One round of `lxmode_send_data_blocks`, against the answers of a receiver.
use light_modem.Base.{
  ℕ, ◌-◌, ◌<◌, ◌≤◌, ◌≡◌, refl, ap, sym, ◌∙◌, true, false, List, arith, done, ◌>>=◌, if◌then◌else◌,
  ◌⊎◌, inl, inr, ◌==◌, IsBytes-take, IsBytes-drop, take, drop, length, length-take, load-done, min,
  drop-min, take-append,
}
use light_modem.Buffer.Laws.{contents, advanced, contents-advanced}
use light_modem.Modem.{Modem, Line, putchar}
use light_modem.Frame.{message, size_for}
use light_modem.Emit.{Framing, Tx, transmit, reemit_previous_block}
use light_modem.Emit.Fill.{length-overlay}
use light_modem.Emit.Sizes.{CanSend}
use light_modem.Emit.Block.{sent, build_and_send_one_data_block_lem}
use light_modem.Emit.Message.{message_lem, sent-CanSend}
use light_modem.Emit.Transmit.{IsBlockSize}

module _ {P : Type 0} (line : Line P) (f : Framing) (allowed : IsBlockSize f.default_blksize) where
  abbrev pub chunk_of : List ℕ → List ℕ
  chunk_of file = take f.default_blksize file

  -- The block buffer holds the message for the first bytes of `file`, and the RAM file the rest.
  pub record Held (number : ℕ) (file : List ℕ) (s : Tx) (m : Modem P) : Type 0 where
    pub rest : contents m.ramfile ≡ drop f.default_blksize file
    pub fits : m.blk_buffer.current_size ≤ length m.blk_buffer.buffer
    pub holds :
        take m.blk_buffer.current_size m.blk_buffer.buffer
        ≡ message f.with_crc number (chunk_of file)
    pub last : s.is_last_block ≡ (length (chunk_of file) == 0)
    pub counted :
        s.nb_emitted
        ≡ (if length (chunk_of file) == 0 then 0 else size_for (length (chunk_of file)))

  -- Before a round in which block `number` is due for the bytes `file`, after `tries` refusals.
  pub record Due (tries number : ℕ) (file : List ℕ) (s : Tx) (m : Modem P) : Type 0 where
    pub sends : CanSend f.with_crc f.default_blksize m
    pub byte : number < 256
    pub due : s.blk_no ≡ number
    pub tried : s.retry ≡ tries
    pub running : s.finished ≡ false
    pub held : ((tries ≡ 0) × (contents m.ramfile ≡ file)) ⊎ ((1 ≤ tries) × Held number file s m)

  -- After the message for `file` went out.
  pub record Gone (tries number emitted : ℕ) (file : List ℕ) (s : Tx) (m : Modem P) : Type 0 where
    pub sends : CanSend f.with_crc f.default_blksize m
    pub byte : number < 256
    pub due : s.blk_no ≡ number
    pub tried : s.retry ≡ tries
    pub running : s.finished ≡ false
    pub same : s.emitted_bytes ≡ emitted
    pub held : Held number file s m

  fresh_lem :
      (number : ℕ) (file : List ℕ) (s : Tx) (m : Modem P)
      → Due 0 number file s m
      → contents m.ramfile ≡ file
      → (s₁ : Tx) × (m₁ : Modem P) × (transmit line f s m ≡ done (s₁, m₁))
        × Gone 0 number s.emitted_bytes file s₁ m₁
        × (m₁.port ≡ line.putchar m.port (message f.with_crc number (chunk_of file)))
  unfolding transmit
  fresh_lem number file s m d here =
      let all = contents m.ramfile in
      let chunk = take f.default_blksize all in
      let size : length chunk ≡ min f.default_blksize (length all) =
        length-take f.default_blksize all in
      let msg = message f.with_crc s.blk_no chunk in
      let (fits, bytes) =
        message_lem f.with_crc s.blk_no f.default_blksize chunk allowed (omega (arith, size))
          (omega (arith, d.byte, d.due))
          (IsBytes-take f.default_blksize all (
            IsBytes-take (m.ramfile.write_offset - m.ramfile.read_offset)
              (drop m.ramfile.read_offset m.ramfile.buffer)
              (IsBytes-drop m.ramfile.read_offset m.ramfile.buffer d.sends.file_bytes))) in
      let m₁ = sent line msg (advanced m.ramfile (length chunk)) m in
      let out =
        build_and_send_one_data_block_lem line s.blk_no f.default_blksize f.with_crc m d.sends
          allowed (omega (arith, d.byte, d.due)) in
      let same_msg : msg ≡ message f.with_crc number (chunk_of file) = rw (d.due, here) in
      let first : (s.retry == 0) ≡ true = rw (d.tried) in
      (
        record s {
          is_last_block = length chunk == 0;
          nb_emitted = if length chunk == 0 then 0 else size_for (length chunk);
        },
        m₁,
        rw (first, ◌>>=◌, out),
        record {
          sends =
              sent-CanSend line f.with_crc f.default_blksize (length chunk) msg m d.sends fits bytes
                (omega (arith, size));
          byte = d.byte;
          due = d.due;
          tried = d.tried;
          running = d.running;
          same = refl;
          held = record {
            rest =
                contents-advanced m.ramfile (length chunk)
                ∙ ap (λ n. drop n all) size
                ∙ drop-min f.default_blksize all
                ∙ ap (drop f.default_blksize) here;
            fits = omega (
              arith,
              length-overlay m.blk_buffer.buffer msg (omega (arith, d.sends.room)),
              d.sends.room,
            );
            holds = take-append msg (drop (length msg) m.blk_buffer.buffer) ∙ same_msg;
            last = rw here;
            counted = rw here;
          };
        },
        ap (line.putchar m.port) same_msg,
      )

  again_lem :
      (tries number : ℕ) (file : List ℕ) (s : Tx) (m : Modem P)
      → Due tries number file s m
      → 1 ≤ tries
      → Held number file s m
      → (s₁ : Tx) × (m₁ : Modem P) × (transmit line f s m ≡ done (s₁, m₁))
        × Gone tries number s.emitted_bytes file s₁ m₁
        × (m₁.port ≡ line.putchar m.port (message f.with_crc number (chunk_of file)))
  unfolding transmit reemit_previous_block putchar
  again_lem tries number file s m d more held =
      let later : (s.retry == 0) ≡ false = ground (arith, d.tried) in
      let out = take m.blk_buffer.current_size m.blk_buffer.buffer in
      (
        s,
        record m { port = line.putchar m.port out },
        rw (
          later,
          load-done m.blk_buffer.buffer 0 m.blk_buffer.current_size (omega (arith, held.fits)),
          ◌>>=◌,
        ),
        record {
          sends = record {
            table = d.sends.table;
            bytes = d.sends.bytes;
            room = d.sends.room;
            file = d.sends.file;
            file_bytes = d.sends.file_bytes;
          };
          byte = d.byte;
          due = d.due;
          tried = d.tried;
          running = d.running;
          same = refl;
          held = record {
            rest = held.rest;
            fits = held.fits;
            holds = held.holds;
            last = held.last;
            counted = held.counted;
          };
        },
        ap (line.putchar m.port) held.holds,
      )

  pub transmit-Due :
      (tries number : ℕ) (file : List ℕ) (s : Tx) (m : Modem P)
      → Due tries number file s m
      → (s₁ : Tx) × (m₁ : Modem P) × (transmit line f s m ≡ done (s₁, m₁))
        × Gone tries number s.emitted_bytes file s₁ m₁
        × (m₁.port ≡ line.putchar m.port (message f.with_crc number (chunk_of file)))
  transmit-Due tries number file s m d = elim d.held [
    | inl (first, here) ↦
        let d₀ : Due 0 number file s m = record {
          sends = d.sends;
          byte = d.byte;
          due = d.due;
          tried = d.tried ∙ first;
          running = d.running;
          held = inl (refl, here);
        } in
        let (s₁, m₁, run, g, port) = fresh_lem number file s m d₀ here in
        (
          s₁,
          m₁,
          run,
          record {
            sends = g.sends;
            byte = g.byte;
            due = g.due;
            tried = g.tried ∙ sym first;
            running = g.running;
            same = g.same;
            held = g.held;
          },
          port,
        )
    | inr (more, held) ↦ again_lem tries number file s m d more held
  ]
