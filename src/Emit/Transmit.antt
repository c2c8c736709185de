-- ===== src/Emit/Transmit.antt =====
-- What a round of `lxmode_send_data_blocks` sends, and what is left to send after it.
use light_modem.Base.{
  ℕ, zero, suc, ◌+◌, ◌-◌, ◌*◌, ◌<◌, ◌≤◌, ◌≡◌, refl, ap, ◌∙◌, true, false, List, arith, done, ◌>>=◌,
  if◌then◌else◌, Option, none, some, ◌⊎◌, inl, inr, ◌==◌, Bool-cases, IsBytes-take, IsBytes-drop,
  take, drop, length, length-take, length-drop, load-done, min, get_or,
}
use light_modem.Buffer.{Buffer}
use light_modem.Buffer.Laws.{contents, advanced, contents-advanced}
use light_modem.Modem.{Modem, Line, putchar, getchar}
use light_modem.Frame.{message, size_for}
use light_modem.Emit.{Framing, Tx, reemit_previous_block, wait_char, transmit}
use light_modem.Emit.Fill.{length-overlay}
use light_modem.Emit.Sizes.{CanSend}
use light_modem.Emit.Block.{sent, build_and_send_one_data_block_lem}
use light_modem.Emit.Message.{message_lem, sent-CanSend}
use light_modem.Emit.Answer.{base, measure, Sound}

abbrev pub IsBlockSize : ℕ → Type 0
IsBlockSize n = (n ≡ 128) ⊎ (n ≡ 1024)

module _ {P : Type 0} where
  -- The bytes of the file that were not read yet.
  abbrev pub unread : Modem P → ℕ
  unread m = length (contents m.ramfile)

  -- The context between two rounds: a block can be sent, and sent again where that may be asked for;
  -- the RAM file is that of the start but for its read offset.
  pub record Inv (start : Buffer) (f : Framing) (s : Tx) (m : Modem P) : Type 0 where
    pub sends : CanSend f.with_crc f.default_blksize m
    pub pending : (s.retry ≡ 0) ⊎ (m.blk_buffer.current_size ≤ length m.blk_buffer.buffer)
    pub same : m.ramfile ≡ record start { read_offset = m.ramfile.read_offset }
    pub sound : Sound s (unread m)

module _ {P : Type 0} (line : Line P) (start : Buffer) (f : Framing)
    (allowed : IsBlockSize f.default_blksize) where
  pub wait_char_lem :
      (n : ℕ) (m : Modem P)
      → (c : Option ℕ) × (q : P) × (wait_char line n m ≡ done (c, record m { port = q }))
  unfolding wait_char getchar
  wait_char_lem zero m = (none, m.port, refl)
  wait_char_lem (suc n) m = elim (Bool-cases (line.getchar m.port 1).0.ok) [
    | inl e ↦ (
      some (get_or (line.getchar m.port 1).0.bytes 0 0),
      (line.getchar m.port 1).1,
      rw (e, ◌>>=◌),
    )
    | inr e ↦
        let (c, q, run) = wait_char_lem n (record m { port = (line.getchar m.port 1).1 }) in
        (c, q, rw (e, ◌>>=◌) run)
  ]

  -- After the block went out: what the answer will be weighed against.
  pub record Out (s s' : Tx) (m m' : Modem P) : Type 0 where
    pub sends : CanSend f.with_crc f.default_blksize m'
    pub pending : m'.blk_buffer.current_size ≤ length m'.blk_buffer.buffer
    pub same : m'.ramfile ≡ record start { read_offset = m'.ramfile.read_offset }
    pub number : s'.blk_no < 256
    pub over : (s'.is_last_block ≡ false) ⊎ (unread m' ≡ 0)
    pub running : s'.finished ≡ false
    pub few : s'.retry ≤ 9
    pub nearer : base s' (unread m') + (10 - s'.retry) ≤ measure s (unread m)

  -- The variables and the context after a chunk was sent.
  abbrev taken : List ℕ → Tx → Tx
  taken chunk s = record s {
    is_last_block = length chunk == 0;
    nb_emitted = if length chunk == 0 then 0 else size_for (length chunk);
  }

  not_last :
      (s : Tx)
      → (s.finished ≡ true) ⊎ ((s.is_last_block ≡ false) ⊎ (1 ≤ s.retry))
      → s.finished ≡ false
      → s.retry ≡ 0
      → s.is_last_block ≡ false
  not_last s (inl ended) running first = cc
  not_last s (inr (inl h)) running first = h
  not_last s (inr (inr h)) running first = absurd (omega arith)

  empty_left :
      (n all c : ℕ) {left : ℕ}
      → IsBlockSize n
      → c ≡ min n all
      → (c == 0) ≡ true
      → left ≡ all - c
      → left ≡ 0
  empty_left n all c {left} size e z l = let zero_sent : c ≡ 0 = ground arith in ground arith

  shorter : (all c : ℕ) → c ≤ all → (c == 0) ≡ false → 11 * (all - c + 1) + 10 ≤ 11 * (all + 1) + 0
  shorter all c le h = let more : 0 < c = ground arith in omega arith

  fresh_Out :
      (s : Tx) (m : Modem P)
      → Inv start f s m
      → s.finished ≡ false
      → s.retry ≡ 0
      → let chunk = take f.default_blksize (contents m.ramfile) in
        Out s
          (taken chunk s)
          m
          (sent line (message f.with_crc s.blk_no chunk) (advanced m.ramfile (length chunk)) m)
  fresh_Out s m v running first =
      let all = contents m.ramfile in
      let chunk = take f.default_blksize all in
      let size : length chunk ≡ min f.default_blksize (length all) =
        length-take f.default_blksize all in
      let msg = message f.with_crc s.blk_no chunk in
      let (fits, bytes) =
        message_lem f.with_crc s.blk_no f.default_blksize chunk allowed (omega (arith, size))
          v.sound.number
          (IsBytes-take f.default_blksize all (
            IsBytes-take (m.ramfile.write_offset - m.ramfile.read_offset)
              (drop m.ramfile.read_offset m.ramfile.buffer)
              (IsBytes-drop m.ramfile.read_offset m.ramfile.buffer v.sends.file_bytes))) in
      let m' = sent line msg (advanced m.ramfile (length chunk)) m in
      let left : unread m' ≡ length all - length chunk =
        ap length (contents-advanced m.ramfile (length chunk)) ∙ length-drop (length chunk) all in
      let unfinished : s.is_last_block ≡ false = not_last s v.sound.fresh running first in
      record {
        sends =
            sent-CanSend line f.with_crc f.default_blksize (length chunk) msg m v.sends fits bytes
              (omega (arith, size));
        pending = omega (
          arith,
          length-overlay m.blk_buffer.buffer msg (omega (arith, v.sends.room)),
          v.sends.room,
        );
        same = ap (λ (b : Buffer). record b { read_offset = b.read_offset + length chunk }) v.same;
        number = v.sound.number;
        over = elim (Bool-cases (length chunk == 0)) [
          | inl e ↦
              inr (empty_left f.default_blksize (length all) (length chunk) allowed size e left)
          | inr e ↦ inl e
        ];
        running = running;
        few = omega arith;
        nearer = elim (Bool-cases (length chunk == 0)) [
          | inl e ↦ rw (e, first, unfinished) (omega arith)
          | inr e ↦
              rw (e, first, unfinished, left)
                (shorter (length all) (length chunk) (omega (arith, size)) e)
        ];
      }

  again_ready :
      (s : Tx) (m : Modem P)
      → (s.retry ≡ 0) ⊎ (m.blk_buffer.current_size ≤ length m.blk_buffer.buffer)
      → 1 ≤ s.retry
      → m.blk_buffer.current_size ≤ length m.blk_buffer.buffer
  again_ready s m (inl h) more = absurd (omega arith)
  again_ready s m (inr h) more = h

  pub transmit_lem :
      (s : Tx) (m : Modem P)
      → Inv start f s m
      → s.finished ≡ false
      → s.retry ≤ 9
      → (s' : Tx) × (m' : Modem P) × (transmit line f s m ≡ done (s', m')) × Out s s' m m'
  unfolding transmit reemit_previous_block putchar
  transmit_lem s m v running few = elim (Bool-cases (s.retry == 0)) [
    | inl e ↦
        let first : s.retry ≡ 0 = ground arith in
        let chunk = take f.default_blksize (contents m.ramfile) in
        let sending =
          build_and_send_one_data_block_lem line s.blk_no f.default_blksize f.with_crc m v.sends
            allowed v.sound.number in
        (
          taken chunk s,
          sent line (message f.with_crc s.blk_no chunk) (advanced m.ramfile (length chunk)) m,
          rw (e, ◌>>=◌, sending),
          fresh_Out s m v running first,
        )
    | inr e ↦
        let more : 1 ≤ s.retry = ground arith in
        let ready : m.blk_buffer.current_size ≤ length m.blk_buffer.buffer =
          again_ready s m v.pending more in
        let out = take m.blk_buffer.current_size m.blk_buffer.buffer in
        let m' = record m { port = line.putchar m.port out } in
        (
          s,
          m',
          rw (
            e,
            load-done m.blk_buffer.buffer 0 m.blk_buffer.current_size (omega (arith, ready)),
            ◌>>=◌,
          ),
          record {
            sends = record {
              table = v.sends.table;
              bytes = v.sends.bytes;
              room = v.sends.room;
              file = v.sends.file;
              file_bytes = v.sends.file_bytes;
            };
            pending = ready;
            same = v.same;
            number = v.sound.number;
            over = v.sound.over;
            running = running;
            few = few;
            nearer = rw e (omega arith);
          },
        )
  ]
