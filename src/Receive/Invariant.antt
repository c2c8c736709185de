-- ===== src/Receive/Invariant.antt =====
-- What holds between the rounds of `lxmodem_receive`, and how a block is kept or tried again.
use light_modem.Base.{
  ℕ, ◌+◌, ◌-◌, ◌*◌, ◌^◌, ◌≤◌, ◌<◌, ◌≡◌, refl, ap, ◌∙◌, true, false, List, [], ◌∷◌, ◌++◌, arith,
  done, M, ◌>>=◌, take, drop, length, length-append, length-take, Bool-cases, inl, inr, ltb, leb,
  ◌==◌, u32, u8, minus_one, ◌⊎◌, append_assoc, zoom, ltb→lt,
}
use light_modem.Buffer.{Buffer}
use light_modem.Buffer.Laws.{
  IsValid, contents, appended, write_lem, contents-appended, appended-IsValid, length-contents,
}
use light_modem.Modem.{Modem, Line, putchar, can}
use light_modem.Receive.{Rx, retry, keep_block, build_and_send_cancel}
use light_modem.Receive.Ready.{IsReady}

-- The count is that of the bytes `kept`, or the transfer has failed.
abbrev pub Counts : Rx → List ℕ → Type 0
Counts s kept =
    (s.received_bytes ≡ length kept) ⊎ ((s.finished ≡ true) × (s.received_bytes ≡ minus_one))

-- The protocol, the size of the block buffer, the metadata, and where the RAM file is read and
-- ends are those of the start.
pub record IsFramed {P : Type 0} (start m : Modem P) : Type 0 where
  pub protocol : m.protocol ≡ start.protocol
  pub size : length m.blk_buffer.buffer ≡ length start.blk_buffer.buffer
  pub file_data : m.file_data ≡ start.file_data
  pub read_offset : m.ramfile.read_offset ≡ start.ramfile.read_offset
  pub max_size : m.ramfile.max_size ≡ start.ramfile.max_size

-- Rounds left at most: ten for each byte of room, and the retries left.
abbrev pub measure : {P : Type 0} → Rx → Modem P → ℕ
measure s m = 10 * (m.ramfile.max_size - m.ramfile.write_offset) + (10 - s.nb_retry)

module _ {P : Type 0} (start : Modem P) where
  pub record Inv (s : Rx) (m : Modem P) : Type 0 where
    pub ready : IsReady m
    pub number : s.expected_blk_number < 256
    pub retries : s.nb_retry ≤ 10
    pub few : (s.finished ≡ true) ⊎ (s.nb_retry ≤ 9)
    pub kept : List ℕ
    pub stored : contents m.ramfile ≡ contents start.ramfile ++ kept
    pub counted : Counts s kept
    pub frame : IsFramed start m

  -- What a part of a round, started at `m`, comes to: the loop ends, or less than `k` is left.
  abbrev pub Ends : M (Modem P) Rx → Modem P → ℕ → Type 0
  Ends run m k =
      (s' : Rx) × (m' : Modem P) × (run m ≡ done (s', m'))
      × Inv s' m'
      × ((s'.finished ≡ true) ⊎ (measure s' m' < k))

module _ {P : Type 0} (line : Line P) (start : Modem P) where
  -- `putchar` and `getchar` of one byte move the port only.
  abbrev pub moved :
      {s : Rx} {m : Modem P} (q : P) → Inv start s m → Inv start s (record m { port = q })
  moved {s} {m} q v = record {
    ready = record {
      table = v.ready.table;
      bytes = v.ready.bytes;
      room = v.ready.room;
      file = v.ready.file;
    };
    number = v.number;
    retries = v.retries;
    few = v.few;
    kept = v.kept;
    stored = v.stored;
    counted = v.counted;
    frame = record {
      protocol = v.frame.protocol;
      size = v.frame.size;
      file_data = v.frame.file_data;
      read_offset = v.frame.read_offset;
      max_size = v.frame.max_size;
    };
  }

  pub retry_lem :
      (s : Rx) (m : Modem P)
      → Inv start s m
      → s.nb_retry ≤ 9
      → Ends start (retry line s) m (measure s m)
  unfolding retry build_and_send_cancel putchar
  retry_lem s m v few =
      let again : leb 10 (u32 (s.nb_retry + 1)) ≡ false
          → Inv start (record s { nb_retry = u32 (s.nb_retry + 1) }) m =
        λ e. record {
          ready = v.ready;
          number = v.number;
          retries = omega arith;
          few = inr (ground arith);
          kept = v.kept;
          stored = v.stored;
          counted = v.counted;
          frame = record {
            protocol = v.frame.protocol;
            size = v.frame.size;
            file_data = v.frame.file_data;
            read_offset = v.frame.read_offset;
            max_size = v.frame.max_size;
          };
        } in
      elim (Bool-cases (leb 10 (u32 (s.nb_retry + 1)))) [
        | inl e ↦ (
          record s { nb_retry = u32 (s.nb_retry + 1); received_bytes = minus_one; finished = true },
          record m { port = line.putchar m.port (can ∷ can ∷ []) },
          rw e,
          record {
            ready = (moved (line.putchar m.port (can ∷ can ∷ [])) v).ready;
            number = v.number;
            retries = omega arith;
            few = inl refl;
            kept = v.kept;
            stored = v.stored;
            counted = inr (refl, refl);
            frame = record {
              protocol = v.frame.protocol;
              size = v.frame.size;
              file_data = v.frame.file_data;
              read_offset = v.frame.read_offset;
              max_size = v.frame.max_size;
            };
          },
          inl refl,
        )
        | inr e ↦
            (record s { nb_retry = u32 (s.nb_retry + 1) }, m, rw e, again e, inr (ground arith))
      ]

  -- The variables after a block was kept.
  abbrev next : ℕ → Rx → Rx
  next blksize s = record s {
    expected_blk_number = u8 (s.expected_blk_number + 1);
    received_bytes = u32 (s.received_bytes + blksize);
    nb_retry = 0;
  }

  -- What is kept fits an int32_t.
  kept_small :
      (m : Modem P) (kept : List ℕ)
      → IsValid m.ramfile
      → contents m.ramfile ≡ contents start.ramfile ++ kept
      → length kept < 2 ^ 31
  kept_small m kept v e =
      omega (
        arith,
        ap length e,
        length-append (contents start.ramfile) kept,
        length-contents m.ramfile v,
      )

  appended-Inv :
      (blksize : ℕ) (chunk : List ℕ) (s : Rx) (m : Modem P) (v : Inv start s m)
      → s.received_bytes ≡ length v.kept
      → length chunk ≡ blksize
      → blksize ≤ m.ramfile.max_size - m.ramfile.write_offset
      → Inv start (next blksize s) (record m { ramfile = appended m.ramfile chunk })
  appended-Inv blksize chunk s m v count len fits =
      let file = appended-IsValid m.ramfile chunk v.ready.file (omega (arith, len)) in
      let stored : contents (appended m.ramfile chunk)
          ≡ contents start.ramfile ++ (v.kept ++ chunk) =
        contents-appended m.ramfile chunk v.ready.file
        ∙ ap (λ l. l ++ chunk) v.stored
        ∙ append_assoc (contents start.ramfile) v.kept chunk in
      let small =
        kept_small (record m { ramfile = appended m.ramfile chunk }) (v.kept ++ chunk) file
          stored in
      record {
        ready = record {
          table = v.ready.table;
          bytes = v.ready.bytes;
          room = v.ready.room;
          file = file;
        };
        number = omega arith;
        retries = omega arith;
        few = inr (omega arith);
        kept = v.kept ++ chunk;
        stored = stored;
        counted = inl (omega (arith, length-append v.kept chunk, len, small, count));
        frame = record {
          protocol = v.frame.protocol;
          size = v.frame.size;
          file_data = v.frame.file_data;
          read_offset = v.frame.read_offset;
          max_size = v.frame.max_size;
        };
      }

  empty-Inv :
      (blksize : ℕ) (s : Rx) (m : Modem P) (v : Inv start s m)
      → s.received_bytes ≡ length v.kept
      → blksize ≡ 0
      → Inv start (next blksize s) m
  empty-Inv blksize s m v count none_left = record {
    ready = v.ready;
    number = omega arith;
    retries = omega arith;
    few = inr (omega arith);
    kept = v.kept;
    stored = v.stored;
    counted = inl (omega (arith, kept_small m v.kept v.ready.file v.stored, count));
    frame = record {
      protocol = v.frame.protocol;
      size = v.frame.size;
      file_data = v.frame.file_data;
      read_offset = v.frame.read_offset;
      max_size = v.frame.max_size;
    };
  }

  failed-Inv :
      (s : Rx) (m : Modem P) (q : P)
      → Inv start s m
      → Inv start (record s { finished = true; received_bytes = minus_one }) (record m { port = q })
  failed-Inv s m q v = record {
    ready = (moved q v).ready;
    number = v.number;
    retries = v.retries;
    few = inl refl;
    kept = v.kept;
    stored = v.stored;
    counted = inr (refl, refl);
    frame = record {
      protocol = v.frame.protocol;
      size = v.frame.size;
      file_data = v.frame.file_data;
      read_offset = v.frame.read_offset;
      max_size = v.frame.max_size;
    };
  }

  nearer :
      (blksize : ℕ) (s : Rx) (m : Modem P) (b : Buffer)
      → (128 ≤ blksize) ⊎ ((blksize ≡ 0) × (s.finished ≡ true))
      → s.nb_retry ≤ 10
      → blksize < m.ramfile.max_size - m.ramfile.write_offset
      → b.write_offset ≡ m.ramfile.write_offset + blksize
      → b.max_size ≡ m.ramfile.max_size
      → (s.finished ≡ true) ⊎ (measure (next blksize s) (record m { ramfile = b }) < measure s m)
  nearer blksize s m b (inl big) few room e f = inr (omega (arith, e, f))
  nearer blksize s m b (inr last) few room e f = inl last.1

  last : (n : ℕ) (F : Type 0) → (128 ≤ n) ⊎ ((n ≡ 0) × F) → n ≡ 0 → F
  last n F (inl big) none_left = absurd (omega arith)
  last n F (inr h) none_left = h.1

  -- A block of the buffer's bytes is kept: it fits, or nothing is stored and the transfer fails,
  -- unless the block is the empty one at the end.
  pub keep_lem :
      (blksize : ℕ) (s : Rx) (m : Modem P) (v : Inv start s m)
      → s.received_bytes ≡ length v.kept
      → blksize ≤ 1024
      → blksize ≤ length (drop 2 m.blk_buffer.buffer)
      → (128 ≤ blksize) ⊎ ((blksize ≡ 0) × (s.finished ≡ true))
      → Ends start (keep_block line blksize s) m (measure s m)
  unfolding keep_block putchar
  keep_lem blksize s m v count below enough kind =
      let b = m.ramfile in
      let src = drop 2 m.blk_buffer.buffer in
      let chunk = take blksize src in
      let len : length chunk ≡ blksize = omega (arith, length-take blksize src) in
      let written = write_lem src blksize b v.ready.file enough (omega arith) in
      elim (Bool-cases (ltb blksize (b.max_size - b.write_offset))) [
        | inl lt ↦
            let same : (blksize == blksize) ≡ true = ground arith in
            let room = ltb→lt blksize (b.max_size - b.write_offset) lt in
            (
              next blksize s,
              record m { ramfile = appended b chunk },
              rw (written, zoom, ◌>>=◌, lt, same),
              appended-Inv blksize chunk s m v count len (omega arith),
              nearer blksize s m (appended b chunk) kind v.retries room
                  (ap (λ n. b.write_offset + n) len) refl,
            )
        | inr ge ↦ elim (Bool-cases (0 == blksize)) [
          | inl z ↦
              let empty : blksize ≡ 0 = ground arith in
              (
                next blksize s,
                m,
                rw (written, zoom, ◌>>=◌, ge, z),
                empty-Inv blksize s m v count empty,
                inl (last blksize (s.finished ≡ true) kind empty),
              )
          | inr z ↦ (
            record s { finished = true; received_bytes = minus_one },
            record m { port = line.putchar m.port (can ∷ can ∷ []) },
            rw (written, zoom, ◌>>=◌, ge, z),
            failed-Inv s m (line.putchar m.port (can ∷ can ∷ [])) v,
            inl refl,
          )
        ]
      ]
