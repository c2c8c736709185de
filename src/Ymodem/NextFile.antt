-- ===== src/Ymodem/NextFile.antt =====
-- The end of a batch in the receiver: `lymodem_block_next_file` of src/lmodem_rx.c.
use light_modem.Base.{
  ℕ, zero, suc, ◌+◌, ◌≤◌, ◌≡◌, refl, ◌∙◌, true, arith, done, IsBytes, length, take, drop,
  Bool-cases, inl, inr, ◌==◌, ◌>>=◌, get_or, load-done, M, [], ◌∷◌,
}
use light_modem.Modem.{Modem, Line, byte_at, putchar, getchar, getchar_block, soh, stx, ack, can}
use light_modem.Receive.{
  build_and_send_preambule, build_and_send_reply, build_and_send_cancel, preambule,
}
use light_modem.Receive.Ready.{Kept, after_getchar, after_read, getchar_block_lem, after_read-Kept}
use light_modem.Ymodem.Receive.{read_next_file, answer_next_file, next_file_loop, block_next_file}

-- `m'` is `m` but for the port and the bytes in the block buffer, which keeps its sizes.
pub record Unchanged {P : Type 0} (m m' : Modem P) : Type 0 where
  pub kept : Kept m m'
  pub max_size : m'.blk_buffer.max_size ≡ m.blk_buffer.max_size
  pub current_size : m'.blk_buffer.current_size ≡ m.blk_buffer.current_size

module _ {P : Type 0} where
  pub Unchanged-trans : {m m' m'' : Modem P} → Unchanged m m' → Unchanged m' m'' → Unchanged m m''
  Unchanged-trans {m} {m'} {m''} a b = record {
    kept = record {
      protocol = b.kept.protocol ∙ a.kept.protocol;
      opts = b.kept.opts ∙ a.kept.opts;
      with_crc = b.kept.with_crc ∙ a.kept.with_crc;
      crc16 = b.kept.crc16 ∙ a.kept.crc16;
      ramfile = b.kept.ramfile ∙ a.kept.ramfile;
      file_data = b.kept.file_data ∙ a.kept.file_data;
      size = b.kept.size ∙ a.kept.size;
      bytes = b.kept.bytes;
    };
    max_size = b.max_size ∙ a.max_size;
    current_size = b.current_size ∙ a.current_size;
  }

  pub Unchanged-port :
      (q : P) (m : Modem P) → IsBytes m.blk_buffer.buffer → Unchanged m (record m { port = q })
  Unchanged-port q m bytes = record {
    kept = record {
      protocol = refl;
      opts = refl;
      with_crc = refl;
      crc16 = refl;
      ramfile = refl;
      file_data = refl;
      size = refl;
      bytes = bytes;
    };
    max_size = refl;
    current_size = refl;
  }

module _ {P : Type 0} (line : Line P) where
  -- What code that keeps the context returns.
  abbrev Keeps : {A : Type 0} → M (Modem P) A → Modem P → Type 0
  Keeps {A} f m = (a : A) × (m' : Modem P) × (f m ≡ done (a, m')) × Unchanged m m'

  read_lem :
      (size : ℕ) (m : Modem P)
      → IsBytes m.blk_buffer.buffer
      → size ≤ length m.blk_buffer.buffer
      → Keeps (getchar_block line size) m
  read_lem size m bytes room = (
    (line.getchar m.port size).0.ok,
    after_read line size m,
    getchar_block_lem line size m room,
    record { kept = after_read-Kept line size m room bytes; max_size = refl; current_size = refl },
  )

  read_next_file_lem :
      (header : ℕ) (m : Modem P)
      → IsBytes m.blk_buffer.buffer
      → 1028 ≤ length m.blk_buffer.buffer
      → Keeps (read_next_file line header) m
  unfolding read_next_file
  read_next_file_lem header m bytes room = elim (Bool-cases (header == soh)) [
    | inl e ↦ rw (e) (read_lem (128 + 2 + 2) m bytes (omega arith))
    | inr e ↦ elim (Bool-cases (header == stx)) [
      | inl f ↦ rw (e, f) (read_lem (1024 + 2 + 2) m bytes (omega arith))
      | inr f ↦ (true, m, rw (e, f), Unchanged-port m.port m bytes)
    ]
  ]

  answer_lem :
      (m : Modem P)
      → IsBytes m.blk_buffer.buffer
      → 1028 ≤ length m.blk_buffer.buffer
      → Keeps (answer_next_file line) m
  unfolding answer_next_file byte_at build_and_send_reply build_and_send_cancel putchar
  answer_lem m bytes room =
      let first = load-done m.blk_buffer.buffer 2 1 (omega arith) in
      let c = get_or (take 1 (drop 2 m.blk_buffer.buffer)) 0 0 in
      elim (Bool-cases (c == 0)) [
        | inl e ↦ (
          tt,
          record m { port = line.putchar m.port (ack ∷ []) },
          rw (first, ◌>>=◌, e),
          Unchanged-port (line.putchar m.port (ack ∷ [])) m bytes,
        )
        | inr e ↦ (
          tt,
          record m { port = line.putchar m.port (can ∷ can ∷ []) },
          rw (first, ◌>>=◌, e),
          Unchanged-port (line.putchar m.port (can ∷ can ∷ [])) m bytes,
        )
      ]

  next_file_loop_lem :
      (left : ℕ) (m : Modem P)
      → IsBytes m.blk_buffer.buffer
      → 1028 ≤ length m.blk_buffer.buffer
      → Keeps (next_file_loop line left) m
  unfolding next_file_loop getchar
  next_file_loop_lem zero m bytes room = (tt, m, refl, Unchanged-port m.port m bytes)
  next_file_loop_lem (suc left) m bytes room =
      let m₁ = after_getchar line m in
      let same = Unchanged-port (line.getchar m.port 1).1 m bytes in
      elim (Bool-cases (line.getchar m.port 1).0.ok) [
        | inr e ↦
            let (_, m', run, kept) = next_file_loop_lem left m₁ bytes room in
            (tt, m', rw (e, ◌>>=◌) run, Unchanged-trans same kept)
        | inl e ↦
            let header = get_or (line.getchar m.port 1).0.bytes 0 0 in
            let (ok, m₂, read, kept₂) = read_next_file_lem header m₁ bytes room in
            let room₂ : 1028 ≤ length m₂.blk_buffer.buffer = omega (arith, kept₂.kept.size) in
            let bytes₂ = kept₂.kept.bytes in
            elim (Bool-cases ok) [
              | inl f ↦
                  let (_, m₃, answered, kept₃) = answer_lem m₂ bytes₂ room₂ in
                  (
                    tt,
                    m₃,
                    rw (e, ◌>>=◌, read, ◌>>=◌, f) answered,
                    Unchanged-trans same (Unchanged-trans kept₂ kept₃),
                  )
              | inr f ↦
                  let (_, m₃, run, kept₃) = next_file_loop_lem left m₂ bytes₂ room₂ in
                  (
                    tt,
                    m₃,
                    rw (e, ◌>>=◌, read, ◌>>=◌, f) run,
                    Unchanged-trans same (Unchanged-trans kept₂ kept₃),
                  )
            ]
      ]

  -- With a block buffer of 1028 bytes or more, `lymodem_block_next_file` returns, whatever the line
  -- delivers, and accesses no memory outside the buffer; it changes nothing but the port and bytes
  -- of the block buffer: the sizes of that buffer, the RAM file, the metadata of the received file
  -- and all else of the context stay as they are.
  pub block_next_file_lem :
      (m : Modem P)
      → IsBytes m.blk_buffer.buffer
      → 1028 ≤ length m.blk_buffer.buffer
      → (m' : Modem P) × (block_next_file line m ≡ done (tt, m')) × Unchanged m m'
  unfolding block_next_file build_and_send_preambule putchar
  block_next_file_lem m bytes room =
      let q = line.putchar m.port (preambule m.protocol m.opts ∷ []) in
      let (_, m', run, kept) = next_file_loop_lem 10 (record m { port = q }) bytes room in
      (m', run, Unchanged-trans (Unchanged-port q m bytes) kept)
