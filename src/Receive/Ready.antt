-- ===== src/Receive/Ready.antt =====
-- The context in which `lxmodem_receive` is safe, and what one block read from the line does to it.
use light_modem.Base.{
  ℕ, ◌+◌, ◌≤◌, ◌<◌, ◌≡◌, refl, ◌∙◌, Bool, true, ◌||◌, arith, done, ◌>>=◌, ◌⊎◌, if◌then◌else◌,
  IsBytes, IsBytes-drop, IsBytes-append, drop, length, Bool-cases, inl, inr, put_bytes,
  length-put_bytes, store-done,
}
use light_modem.Crc
use light_modem.Buffer.Laws.{IsValid}
use light_modem.Modem.{
  Modem, Line, ccitt_polynome, is_ymodem, is_one_k, getchar_block, write_block, header_size,
  chksum_size, crc16_size,
}
use light_modem.Receive.{Status, recv_error, uses_crc, receive_block}
use light_modem.Receive.Block.{trailer_size}
use light_modem.Receive.Accept.{check_block_lem}

module _ {P : Type 0} where
  -- Blocks of 1024 bytes are taken.
  abbrev pub takes_long : Modem P → Bool
  takes_long m = is_one_k m.opts || is_ymodem m.protocol

  -- The bytes of the largest block that may come, without its first character.
  abbrev pub largest : Modem P → ℕ
  largest m = if takes_long m then 1028 else if m.with_crc then 132 else 131

  -- The CRC table is made, the block buffer holds bytes and the largest block, the RAM file is valid.
  pub record IsReady (m : Modem P) : Type 0 where
    pub table : m.crc16 ≡ Crc.init ccitt_polynome
    pub bytes : IsBytes m.blk_buffer.buffer
    pub room : largest m ≤ length m.blk_buffer.buffer
    pub file : IsValid m.ramfile

  -- `m'` is `m` but for the port and the bytes in the block buffer.
  pub record Kept (m m' : Modem P) : Type 0 where
    pub protocol : m'.protocol ≡ m.protocol
    pub opts : m'.opts ≡ m.opts
    pub with_crc : m'.with_crc ≡ m.with_crc
    pub crc16 : m'.crc16 ≡ m.crc16
    pub ramfile : m'.ramfile ≡ m.ramfile
    pub file_data : m'.file_data ≡ m.file_data
    pub size : length m'.blk_buffer.buffer ≡ length m.blk_buffer.buffer
    pub bytes : IsBytes m'.blk_buffer.buffer

  pub Kept-IsReady : {m m' : Modem P} → Kept m m' → IsReady m → IsReady m'
  Kept-IsReady {m} {m'} k r = record {
    table = k.crc16 ∙ r.table;
    bytes = k.bytes;
    room = rw (k.opts, k.protocol, k.with_crc, k.size) r.room;
    file = rw k.ramfile r.file;
  }

  -- A block of 128 bytes, or of 1024 where such blocks are taken, fits the buffer.
  abbrev pub IsAllowed : Modem P → ℕ → Type 0
  IsAllowed m blksize = (blksize ≡ 128) ⊎ ((blksize ≡ 1024) × (takes_long m ≡ true))

  pub block_fits :
      {m : Modem P} (blksize : ℕ)
      → IsReady m
      → IsAllowed m blksize
      → 2 + blksize + trailer_size (uses_crc m blksize) ≤ length m.blk_buffer.buffer
  unfolding uses_crc
  block_fits {m} blksize r allowed = ground arith

module _ {P : Type 0} (line : Line P) where
  -- The context after a call of `getchar` for one byte, and for `size` bytes of the block buffer.
  abbrev pub after_getchar : Modem P → Modem P
  after_getchar m = record m { port = (line.getchar m.port 1).1 }

  abbrev pub after_read : ℕ → Modem P → Modem P
  after_read size m = record m {
    port = (line.getchar m.port size).1;
    blk_buffer = record m.blk_buffer {
      buffer = put_bytes m.blk_buffer.buffer 0 (line.getchar m.port size).0.bytes;
    };
  }

  pub getchar_block_lem :
      (size : ℕ) (m : Modem P)
      → size ≤ length m.blk_buffer.buffer
      → getchar_block line size m ≡ done ((line.getchar m.port size).0.ok, after_read size m)
  unfolding getchar_block write_block
  getchar_block_lem size m h = rw (
    store-done m.blk_buffer.buffer 0 (line.getchar m.port size).0.bytes
        (omega (arith, line.getchar_fits m.port size)),
    ◌>>=◌,
  )

  pub after_read-Kept :
      (size : ℕ) (m : Modem P)
      → size ≤ length m.blk_buffer.buffer
      → IsBytes m.blk_buffer.buffer
      → Kept m (after_read size m)
  after_read-Kept size m h b =
      let got = (line.getchar m.port size).0.bytes in
      record {
        protocol = refl;
        opts = refl;
        with_crc = refl;
        crc16 = refl;
        ramfile = refl;
        file_data = refl;
        size =
            length-put_bytes m.blk_buffer.buffer 0 got
              (omega (arith, line.getchar_fits m.port size));
        bytes =
            IsBytes-append got (drop (0 + length got) m.blk_buffer.buffer)
              (line.getchar_bytes m.port size)
              (IsBytes-drop (0 + length got) m.blk_buffer.buffer b);
      }

  -- A block that is allowed is read and judged without an access outside the buffer.
  pub receive_block_lem :
      (number blksize : ℕ) (m : Modem P)
      → IsReady m
      → IsAllowed m blksize
      → number < 256
      → (status : Status) × (m' : Modem P) × (receive_block line number blksize m
          ≡ done (status, m'))
        × Kept m m'
  unfolding receive_block uses_crc
  receive_block_lem number blksize m r allowed h =
      let t = trailer_size (uses_crc m blksize) in
      let size = blksize + header_size + (if uses_crc m blksize then crc16_size else chksum_size) in
      let fits : size ≤ length m.blk_buffer.buffer =
        omega (arith, block_fits {m = m} blksize r allowed) in
      let m' = after_read size m in
      let k = after_read-Kept size m fits r.bytes in
      elim (Bool-cases (line.getchar m.port size).0.ok) [
        | inl e ↦
            let (status, run, _, _) =
              check_block_lem number blksize m' r.table k.bytes h
                (rw k.size (block_fits {m = m} blksize r allowed)) in
            (status, m', rw (getchar_block_lem size m fits, ◌>>=◌, e) run, k)
        | inr e ↦ (recv_error, m', rw (getchar_block_lem size m fits, ◌>>=◌, e), k)
      ]
