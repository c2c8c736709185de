-- ===== src/Receive/Delivery.antt =====
-- The rounds of `lxmodem_receive` of src/lmodem_rx.c on a line that brings blocks one by one.
use light_modem.Base.{
  ℕ, zero, suc, ◌+◌, ◌-◌, ◌%◌, ◌<◌, ◌≤◌, ◌≡◌, ◌≢◌, ◌⊎◌, ◌↔◌, take-length, drop-take, refl, sym, ap,
  ◌∙◌, Bool, true, false, List, [], ◌∷◌, ◌++◌, done, arith, length, take, drop, ◌==◌, ◌>>=◌,
  put_bytes, inl, inr, Bool-cases, u8, u32, zoom, leb, ltb, lt→ltb,
}
use light_modem.Buffer.Laws.{IsValid, appended, write_lem}
use light_modem.Frame.{block}
use light_modem.Modem.{Modem, Line, getchar, getchar_block, putchar}
use light_modem.Receive.{
  Rx, Handled, Status, recv_ok, recv_previous_block, recv_error, uses_crc, is_ok, round,
  handle_header, handle_block, receive_block, settle, retry, keep_block, build_and_send_reply,
  check_block_no_and_crc,
}
use light_modem.Receive.Block.{trailer_size, payload_of}
use light_modem.Receive.Accept.{check_block_lem}
use light_modem.Receive.Ready.{
  IsReady, IsAllowed, takes_long, block_fits, Kept, after_getchar, after_read, getchar_block_lem,
  after_read-Kept,
}
use light_modem.Receive.Sequence.{header_of, size_of, bytes_of, heading, Gives, GivesBlock, behind}

pub Status-cases : (st : Status) → st ≢ recv_ok → st ≢ recv_previous_block → st ≡ recv_error
Status-cases recv_ok a b = absurd (a refl)
Status-cases recv_previous_block a b = absurd (b refl)
Status-cases recv_error a b = refl

-- What is read stands at the front of the buffer.
take_front :
    (n : ℕ) (bytes after : List ℕ) → n ≤ length bytes → take n (bytes ++ after) ≡ take n bytes
take_front zero bytes after h = refl
take_front (suc n) [] after h = absurd (omega arith)
take_front (suc n) (x ∷ bytes) after h = ap (λ l. x ∷ l) (take_front n bytes after (omega arith))

module _ {P : Type 0} (line : Line P) where
  -- The context after the bytes of a block were read.
  abbrev pub read_in : Modem P → Bool → Modem P
  read_in m long = after_read line (bytes_of (uses_crc m) long) (after_getchar line m)

  abbrev pub verdict_on : Status → Bool → Rx → Handled
  verdict_on status long s = record {
    status = status;
    blksize = size_of long;
    vars = record s { can_char_received = 0 };
  }

  header_lem :
      (long : Bool) (s : Rx) (m : Modem P)
      → (long ≡ false) ⊎ (takes_long m ≡ true)
      → handle_header line (header_of long) s m ≡ handle_block line (size_of long) s m
  unfolding handle_header
  header_lem false s m allowed = refl
  header_lem true s m (inl e) = cc
  header_lem true s m (inr e) = rw e

  IsAllowed-size :
      (long : Bool) (m : Modem P)
      → (long ≡ false) ⊎ (takes_long m ≡ true)
      → IsAllowed m (size_of long)
  IsAllowed-size false m allowed = inl refl
  IsAllowed-size true m (inl e) = cc
  IsAllowed-size true m (inr e) = inr (refl, e)

  block_room :
      (long : Bool) (m : Modem P)
      → IsReady m
      → (long ≡ false) ⊎ (takes_long m ≡ true)
      → bytes_of (uses_crc m) long ≤ length m.blk_buffer.buffer
  block_room long m r allowed =
      omega (arith, block_fits {m = m} (size_of long) r (IsAllowed-size long m allowed))

  receive_block_run :
      (long : Bool) (number : ℕ) (status : Status) (m m₁ : Modem P)
      → getchar_block line (bytes_of (uses_crc m) long) m ≡ done (true, m₁)
      → check_block_no_and_crc number (size_of long) m₁ ≡ done (status, m₁)
      → receive_block line number (size_of long) m ≡ done (status, m₁)
  unfolding receive_block
  receive_block_run long number status m m₁ reads check = rw (reads, ◌>>=◌, check)

  handle_block_run :
      (blksize : ℕ) (status : Status) (s : Rx) (m m₁ : Modem P)
      → receive_block line s.expected_blk_number blksize m ≡ done (status, m₁)
      → handle_block line blksize s m
        ≡ done (
          record { status = status; blksize = blksize; vars = record s { can_char_received = 0 } },
          m₁,
        )
  unfolding handle_block
  handle_block_run blksize status s m m₁ run = rw (run, ◌>>=◌)

  pub round_run :
      (header : ℕ) (s : Rx) (h : Handled) (m m₁ : Modem P)
      → Gives line m.port 1 (header ∷ [])
      → handle_header line header s (after_getchar line m) ≡ done (h, m₁)
      → round line s m ≡ settle line h m₁
  unfolding round getchar
  round_run header s h m m₁ gives run = rw (gives.0, ◌>>=◌, gives.1, run, ◌>>=◌)

  pub round_block :
      (long : Bool) (bytes : List ℕ) (status : Status) (s : Rx) (m : Modem P)
      → IsReady m
      → (long ≡ false) ⊎ (takes_long m ≡ true)
      → GivesBlock line (uses_crc m) m.port long bytes
      → check_block_no_and_crc s.expected_blk_number (size_of long) (read_in m long)
        ≡ done (status, read_in m long)
      → round line s m ≡ settle line (verdict_on status long s) (read_in m long)
  unfolding uses_crc
  round_block long bytes status s m r allowed gives check =
      let m₁ = after_getchar line m in
      let reads : getchar_block line (bytes_of (uses_crc m) long) m₁ ≡ done (true, read_in m long) =
        getchar_block_lem line (bytes_of (uses_crc m) long) m₁ (block_room long m r allowed)
        ∙ ap (λ ok. done (ok, read_in m long)) gives.1.0 in
      round_run (header_of long) s (verdict_on status long s) m (read_in m long) gives.0 (
        header_lem long s m₁ allowed
        ∙ handle_block_run (size_of long) status s m₁ (read_in m long)
            (receive_block_run long s.expected_blk_number status m₁ (read_in m long) reads check))

  -- What the buffer holds then, and that the context is still ready.
  pub read_in-Kept :
      (long : Bool) (m : Modem P)
      → IsReady m
      → (long ≡ false) ⊎ (takes_long m ≡ true)
      → Kept m (read_in m long)
  read_in-Kept long m r allowed =
      let k =
        after_read-Kept line (bytes_of (uses_crc m) long) (after_getchar line m)
          (block_room long m r allowed) r.bytes in
      record {
        protocol = refl;
        opts = refl;
        with_crc = refl;
        crc16 = refl;
        ramfile = refl;
        file_data = refl;
        size = k.size;
        bytes = k.bytes;
      }

  read_in_bytes :
      (long : Bool) (bytes : List ℕ) (m : Modem P)
      → GivesBlock line (uses_crc m) m.port long bytes
      → (read_in m long).blk_buffer.buffer ≡ bytes ++ drop (0 + length bytes) m.blk_buffer.buffer
  read_in_bytes long bytes m gives = ap (put_bytes m.blk_buffer.buffer 0) gives.1.1

  pub length-gives :
      (long : Bool) (bytes : List ℕ) (m : Modem P)
      → GivesBlock line (uses_crc m) m.port long bytes
      → length bytes ≡ bytes_of (uses_crc m) long
  length-gives long bytes m gives =
      sym (ap length gives.1.1)
      ∙ line.getchar_fills (behind line m.port 1) (bytes_of (uses_crc m) long) gives.1.0

  -- The answer to a status.
  abbrev pub answer_to : Status → ℕ
  answer_to recv_ok = 6
  answer_to recv_previous_block = 6
  answer_to recv_error = 21

  -- A try is lost.
  abbrev pub lost : Rx → Rx
  lost s = record s { nb_retry = suc s.nb_retry }

  pub retry_run : (s : Rx) (m : Modem P) → s.nb_retry < 9 → retry line s m ≡ done (lost s, m)
  unfolding retry
  retry_run s m few =
      let n : u32 (s.nb_retry + 1) ≡ suc s.nb_retry = omega arith in
      let more : leb 10 (suc s.nb_retry) ≡ false = ground arith in rw (n, more)

  pub settle-lost :
      (status : Status) (long : Bool) (s : Rx) (m : Modem P)
      → status ≢ recv_ok
      → s.nb_retry < 9
      → settle line (verdict_on status long s) m
        ≡ done (
          lost (record s { can_char_received = 0 }),
          record m { port = line.putchar m.port (answer_to status ∷ []) },
        )
  unfolding settle build_and_send_reply is_ok putchar
  settle-lost recv_ok long s m bad few = absurd (bad refl)
  settle-lost recv_previous_block long s m bad few =
      retry_run (record s { can_char_received = 0 })
        (record m { port = line.putchar m.port (6 ∷ []) }) few
  settle-lost recv_error long s m bad few =
      retry_run (record s { can_char_received = 0 })
        (record m { port = line.putchar m.port (21 ∷ []) }) few

  -- A block is kept.
  abbrev pub kept : ℕ → Rx → Rx
  kept size s = record s {
    expected_blk_number = u8 (s.expected_blk_number + 1);
    received_bytes = u32 (s.received_bytes + size);
    nb_retry = 0;
  }

  keep_run :
      (size : ℕ) (s : Rx) (m : Modem P)
      → IsValid m.ramfile
      → size ≤ length (drop 2 m.blk_buffer.buffer)
      → size < m.ramfile.max_size - m.ramfile.write_offset
      → keep_block line size s m
        ≡ done (
          kept size s,
          record m { ramfile = appended m.ramfile (take size (drop 2 m.blk_buffer.buffer)) },
        )
  unfolding keep_block
  keep_run size s m v there room =
      let written =
        write_lem (drop 2 m.blk_buffer.buffer) size m.ramfile v there (omega (arith, v.small)) in
      let fits : ltb size (m.ramfile.max_size - m.ramfile.write_offset) ≡ true = lt→ltb _ _ room in
      let same : (size == size) ≡ true = ground arith in rw (written, zoom, ◌>>=◌, fits, same)

  pub settle-kept :
      (size : ℕ) (s : Rx) (m : Modem P)
      → IsValid m.ramfile
      → size ≤ length (drop 2 m.blk_buffer.buffer)
      → size < m.ramfile.max_size - m.ramfile.write_offset
      → settle line (record { status = recv_ok; blksize = size; vars = s }) m
        ≡ done (
          kept size s,
          record m {
            port = line.putchar m.port (6 ∷ []);
            ramfile = appended m.ramfile (take size (drop 2 m.blk_buffer.buffer));
          },
        )
  unfolding settle build_and_send_reply is_ok putchar
  settle-kept size s m v there room =
      keep_run size s (record m { port = line.putchar m.port (6 ∷ []) }) v there room

  -- What the receiver says of the bytes of a block.
  module _ (long : Bool) (bytes : List ℕ) (number : ℕ) (m : Modem P) (r : IsReady m)
      (allowed : (long ≡ false) ⊎ (takes_long m ≡ true))
      (gives : GivesBlock line (uses_crc m) m.port long bytes) (byte : number < 256) where
    fills : 3 ≤ size_of long
    fills = elim (Bool-cases long) [ inl e ↦ rw e (omega arith) | inr e ↦ rw e (omega arith) ]

    front :
        (n : ℕ)
        → n ≤ bytes_of (uses_crc m) long
        → take n (read_in m long).blk_buffer.buffer ≡ take n bytes
    front n h =
        ap (take n) (read_in_bytes long bytes m gives)
        ∙ take_front n bytes (drop (0 + length bytes) m.blk_buffer.buffer)
            (omega (arith, length-gives long bytes m gives))

    pub payload_read :
        payload_of (read_in m long).blk_buffer.buffer (size_of long)
        ≡ take (size_of long) (drop 2 bytes)
    payload_read =
        let buf = (read_in m long).blk_buffer.buffer in
        let blk = size_of long in
        ap (λ k. take k (drop 2 buf)) {x = blk} {y = 2 + blk - 2} (omega arith)
        ∙ sym (drop-take 2 (2 + blk) buf)
        ∙ ap (drop 2) (front (2 + blk) (omega arith))
        ∙ drop-take 2 (2 + blk) bytes
        ∙ ap (λ k. take k (drop 2 bytes)) {x = 2 + blk - 2} {y = blk} (omega arith)

    pub verdict :
        (status : Status) × (check_block_no_and_crc number (size_of long) (read_in m long)
          ≡ done (status, read_in m long))
        × ((status ≡ recv_ok) ↔ (
            bytes ≡ block (uses_crc m (size_of long)) number (take (size_of long) (drop 2 bytes))))
        × ((status ≡ recv_previous_block) ↔ (take 2 bytes ≡ heading ((number + 255) % 256)))
    verdict =
        let buf = (read_in m long).blk_buffer.buffer in
        let blk = size_of long in
        let k = read_in-Kept long m r allowed in
        let same : uses_crc (read_in m long) ≡ uses_crc m = (unfold uses_crc in refl) in
        let n = bytes_of (uses_crc m) long in
        let order : 2 + blk + trailer_size (uses_crc m blk) ≡ n = omega arith in
        let (status, run, ok, previous) =
          check_block_lem number blk (read_in m long) r.table k.bytes byte
            (rw same (omega (arith, k.size, block_room long m r allowed))) in
        let all : take (2 + blk + trailer_size (uses_crc m blk)) buf ≡ bytes =
          front (2 + blk + trailer_size (uses_crc m blk)) (omega arith)
          ∙ ap (λ k. take k bytes) (order ∙ sym (length-gives long bytes m gives))
          ∙ take-length bytes in
        let inner = payload_read in
        let two : take 2 buf ≡ take 2 bytes = front 2 (omega arith) in
        (status, run, rw (same, all, inner) at ok, rw two at previous)
