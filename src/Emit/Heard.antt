-- ===== src/Emit/Heard.antt =====
-- What the answer to a block, or silence, leaves for the next round of `lxmode_send_data_blocks`.
use light_modem.Base.{
  leb, Bool-cases, ℕ, suc, ◌+◌, ◌%◌, ◌^◌, ◌<◌, ◌≡◌, ◌≢◌, refl, ◌∙◌, true, false, List, [], ◌∷◌,
  arith, done, ◌>>=◌, some, none, ◌⊎◌, inl, inr, ◌==◌, length, length-take, length-drop, u32, u8,
  drop, take, take-nil,
}
use light_modem.Modem.{Modem, Line}
use light_modem.Modem.Wait.{Comes, Fails}
use light_modem.Frame.{message, size_for}
use light_modem.Emit.{Framing, Tx, answered, react, give_up, transmit, round, wait_char}
use light_modem.Emit.Transmit.{IsBlockSize}
use light_modem.Emit.Replies.{occupied, occupied-next, wait_char-Comes, wait_char-Fails}
use light_modem.Emit.Turn.{chunk_of, Due, Gone}

no_overflow : (a b c e : ℕ) → a + b ≡ c → e + c < 2 ^ 32 → u32 (e + a) ≡ e + a
no_overflow a b c e eq small = omega arith

module _ {P : Type 0} (line : Line P) (f : Framing) (allowed : IsBlockSize f.default_blksize) where
  abbrev pub msg_of : ℕ → List ℕ → List ℕ
  msg_of number file = message f.with_crc number (chunk_of line f allowed file)

  abbrev pub Before : ℕ → ℕ → List ℕ → Tx → Modem P → Type 0
  Before = Due line f allowed

  pub counted :
      (file : List ℕ)
      → length file ≢ 0
      → size_for (length (take f.default_blksize file))
          + occupied f.default_blksize (length (drop f.default_blksize file))
        ≡ occupied f.default_blksize (length file)
  counted file more =
      rw (length-take f.default_blksize file, length-drop f.default_blksize file)
        (occupied-next f.default_blksize (length file) allowed more)

  -- The variables after an acknowledged block.
  abbrev pub next_block : ℕ → List ℕ → Tx → Tx
  next_block number file s = record s {
    emitted_bytes = s.emitted_bytes + size_for (length (take f.default_blksize file));
    blk_no = (number + 1) % 256;
    retry = 0;
  }

  pub react_acked :
      (tries number emitted : ℕ) (file : List ℕ) (s : Tx) (m : Modem P)
      → Gone line f allowed tries number emitted file s m
      → length file ≢ 0
      → s.emitted_bytes + occupied f.default_blksize (length file) < 2 ^ 32
      → give_up (react (some 6) s) ≡ next_block number file s
  unfolding react give_up answered
  react_acked tries number emitted file s m g more small =
      let some_left : (length (take f.default_blksize file) == 0) ≡ false =
        ground (arith, length-take f.default_blksize file, allowed) in
      let last : s.is_last_block ≡ false = g.held.last ∙ some_left in
      let count : s.nb_emitted ≡ size_for (length (take f.default_blksize file)) =
        g.held.counted ∙ rw some_left refl in
      let next : u8 (s.blk_no + 1) ≡ (number + 1) % 256 = omega (arith, g.due) in
      let sum = no_overflow _ _ _ s.emitted_bytes (counted file more) small in
      rw (last, count, next, sum) refl

  pub acked_due :
      (tries number emitted : ℕ) (file : List ℕ) (s : Tx) (m : Modem P) (q : P)
      → Gone line f allowed tries number emitted file s m
      → Before 0
          ((number + 1) % 256)
          (drop f.default_blksize file)
          (next_block number file s)
          (record m { port = q })
  acked_due tries number emitted file s m q g = record {
    sends = record {
      table = g.sends.table;
      bytes = g.sends.bytes;
      room = g.sends.room;
      file = g.sends.file;
      file_bytes = g.sends.file_bytes;
    };
    byte = omega arith;
    due = refl;
    tried = refl;
    running = g.running;
    held = inl (refl, g.held.rest);
  }

  pub react_over :
      (tries number emitted : ℕ) (s : Tx) (m : Modem P)
      → Gone line f allowed tries number emitted [] s m
      → give_up (react (some 6) s)
        ≡ record s { blk_no = (number + 1) % 256; retry = 0; finished = true }
  unfolding react give_up answered
  react_over tries number emitted s m g =
      let nothing = take-nil {A = ℕ} f.default_blksize in
      let last : s.is_last_block ≡ true = g.held.last ∙ rw nothing refl in
      let next : u8 (s.blk_no + 1) ≡ (number + 1) % 256 = omega (arith, g.due) in rw (last, next)

  pub round_answered :
      (s s₁ s₂ : Tx) (m m₁ : Modem P) (byte failures : ℕ) (file : List ℕ) (number : ℕ) (q : P)
      → transmit line f s m ≡ done (s₁, m₁)
      → m₁.port ≡ line.putchar m.port (msg_of number file)
      → failures < 10
      → Comes line 1 (byte ∷ []) failures (line.putchar m.port (msg_of number file)) q
      → give_up (react (some byte) s₁) ≡ s₂
      → round line f s m ≡ done (s₂, record m₁ { port = q })
  unfolding round
  round_answered s s₁ s₂ m m₁ byte failures file number q run port few comes next =
      let heard : wait_char line 10 m₁ ≡ done (some byte, record m₁ { port = q }) =
        wait_char-Comes line 10 byte failures m₁ q few (rw port comes) in
      rw (run, ◌>>=◌, heard, next)

  pub round_silent :
      (s s₁ s₂ : Tx) (m m₁ : Modem P) (file : List ℕ) (number : ℕ) (q : P)
      → transmit line f s m ≡ done (s₁, m₁)
      → m₁.port ≡ line.putchar m.port (msg_of number file)
      → Fails line 10 (line.putchar m.port (msg_of number file)) q
      → give_up (react none s₁) ≡ s₂
      → round line f s m ≡ done (s₂, record m₁ { port = q })
  unfolding round
  round_silent s s₁ s₂ m m₁ file number q run port fails next =
      let heard : wait_char line 10 m₁ ≡ done (none, record m₁ { port = q }) =
        wait_char-Fails line 10 m₁ q (rw port fails) in
      rw (run, ◌>>=◌, heard, next)

  -- A try that was not acknowledged.
  pub tried_again :
      (tries number emitted : ℕ) (file : List ℕ) (s : Tx) (m : Modem P) (q : P)
      → Gone line f allowed tries number emitted file s m
      → Due line f allowed
          (suc tries)
          number
          file
          (record s { retry = suc tries })
          (record m { port = q })
  tried_again tries number emitted file s m q g = record {
    sends = record {
      table = g.sends.table;
      bytes = g.sends.bytes;
      room = g.sends.room;
      file = g.sends.file;
      file_bytes = g.sends.file_bytes;
    };
    byte = g.byte;
    due = g.due;
    tried = refl;
    running = g.running;
    held = inr (
      omega arith,
      record {
        rest = g.held.rest;
        fits = g.held.fits;
        holds = g.held.holds;
        last = g.held.last;
        counted = g.held.counted;
      },
    );
  }

  pub react_silent :
      (tries : ℕ) (s : Tx)
      → s.retry ≡ tries
      → tries < 9
      → give_up (react none s) ≡ record s { retry = suc tries }
  unfolding react give_up
  react_silent tries s tried few =
      let next : u32 (s.retry + 1) ≡ suc tries = omega arith in
      let going : leb 10 (suc tries) ≡ false = ground arith in rw (next, going)

  pub react_refused :
      (tries byte : ℕ) (s : Tx)
      → s.retry ≡ tries
      → tries < 9
      → byte ≢ 6
      → (byte ≡ 21) ⊎ (tries ≡ 0)
      → give_up (react (some byte) s) ≡ record s { retry = suc tries }
  unfolding react give_up answered
  react_refused tries byte s tried few other allowed =
      let next : u32 (s.retry + 1) ≡ suc tries = omega arith in
      let going : leb 10 (suc tries) ≡ false = ground arith in
      let refused : (byte == 6) ≡ false = ground arith in
      elim allowed [
        | inl e ↦ rw (e, next, going)
        | inr e ↦
            let first : leb 2 (suc tries) ≡ false = ground arith in
            elim (Bool-cases (byte == 21)) [
              | inl y ↦ rw (refused, y, next, going)
              | inr n ↦ rw (refused, n, next, first, going)
            ]
      ]
