-- ===== src/Emit.antt =====
-- The XMODEM transmitter of src/lmodem_tx.c.
pub mod Fill
pub mod Sizes
pub mod Block
pub mod Message
pub mod Link
pub mod Answer
pub mod Replies
pub mod Turn
pub mod Heard
pub mod Whole
pub mod Transmit
pub mod Total
mod Tests
mod WholeTests
use light_modem.Base.{
  ℕ, zero, suc, ◌+◌, ◌-◌, Bool, true, false, [], ◌∷◌, Option, none, some, M, spent, ◌>>=◌, ◌>>◌,
  pure, lift, gets, modify, zoom, ◌||◌, u8, u32, minus_one, complement, ◌>>>◌, bit_and, ltb, leb,
  ◌==◌, if◌then◌else◌, drop, load, replicate, not,
}
use light_modem.Buffer
use light_modem.Crc
use light_modem.Modem.{
  Modem, Line, Protocol, xmodem, ymodem, Opts, with_chksum_128, with_crc_128, one_k, is_ymodem,
  write_block, putchar, getchar, soh, stx, eot, ack, nak, sub,
}
use light_modem.Receive.{calcul_chksum, build_and_send_cancel}

pub is_chksum : Opts → Bool
is_chksum with_chksum_128 = true
is_chksum _ = false

-- `lxmodem_decode_preambule`
pub decode_preambule : Protocol → Opts → ℕ → Bool
decode_preambule protocol opts preambule =
    if preambule == nak
    then is_chksum opts
    else if preambule == b'C'
    then is_ymodem protocol || not (is_chksum opts)
    else false

-- `min` of lmodem_priv.h.
abbrev pub min_c : ℕ → ℕ → ℕ
min_c a b = if ltb a b then a else b

-- The choice at the start of `lxmode_send_data_blocks`.
pub record Framing : Type 0 where
  pub default_blksize : ℕ
  pub with_crc : Bool

unfoldable pub framing : Protocol → Opts → Framing
framing xmodem with_chksum_128 = record { default_blksize = 128; with_crc = false }
framing xmodem with_crc_128 = record { default_blksize = 128; with_crc = true }
framing xmodem one_k = record { default_blksize = 1024; with_crc = true }
framing ymodem _ = record { default_blksize = 1024; with_crc = true }

-- The block size that goes with a number of bytes to send.
pub effective_blksize : ℕ → ℕ
effective_blksize bytes_to_read = if leb bytes_to_read 128 then 128 else 1024

-- The local variables of `lxmode_send_data_blocks` that live across rounds of its loop.
pub record Tx : Type 0 where
  pub emitted_bytes : ℕ
  pub finished : Bool
  pub blk_no : ℕ
  pub retry : ℕ
  pub is_last_block : Bool
  pub nb_emitted : ℕ

-- The first round sets `isLastBlock` and `nbEmitted` before they are read.
abbrev pub tx_start : Tx
tx_start = record {
  emitted_bytes = 0;
  finished = false;
  blk_no = 1;
  retry = 0;
  is_last_block = false;
  nb_emitted = 0;
}

-- What an answer does to the variables.
pub answered : ℕ → Tx → Tx
answered byte s =
    if byte == ack
    then (let next = record s { blk_no = u8 (s.blk_no + 1); retry = 0 } in
        if s.is_last_block
        then record next { finished = true }
        else record next { emitted_bytes = u32 (s.emitted_bytes + s.nb_emitted) })
    else (let again = record s { retry = u32 (s.retry + 1) } in
        if byte == nak
        then again
        else if leb 2 again.retry
        then record again { emitted_bytes = minus_one; finished = true }
        else again)

-- Silence counts as a failed try.
pub react : Option ℕ → Tx → Tx
react none s = record s { retry = u32 (s.retry + 1) }
react (some byte) s = answered byte s

pub give_up : Tx → Tx
give_up s = if leb 10 s.retry then record s { emitted_bytes = minus_one; finished = true } else s

module _ {P : Type 0} where
  -- The trailer: a CRC, high byte first, or a checksum. Returns the size of the block.
  pub write_trailer : ℕ → Bool → M (Modem P) ℕ
  write_trailer blksize with_crc = do
    m ← gets (λ m. m)
    let payload = drop 3 m.blk_buffer.buffer
    let crc_trailer = do
      crc ← lift (Crc.do_calcul m.crc16 payload blksize 0 0)
      write_block (3 + blksize) (bit_and crc 0xff00 >>> 8 ∷ [])
      write_block (3 + blksize + 1) (bit_and crc 0x00ff ∷ [])
      pure (3 + blksize + 1 + 1)
    let chksum_trailer = do
      chksum ← lift (calcul_chksum payload blksize)
      write_block (3 + blksize) (bit_and chksum 0x00ff ∷ [])
      pure (3 + blksize + 1)
    if with_crc then crc_trailer else chksum_trailer

module _ {P : Type 0} (line : Line P) where
  -- The first `size` bytes of the block buffer go out, and are kept for a repetition.
  pub send_block : ℕ → M (Modem P) (Unit {0})
  send_block size = do
    m ← gets (λ m. m)
    bytes ← lift (load m.blk_buffer.buffer 0 size)
    putchar line bytes
    modify λ m. record m { blk_buffer = record m.blk_buffer { current_size = size } }

  pub reemit_previous_block : M (Modem P) (Unit {0})
  reemit_previous_block = do
    m ← gets (λ m. m)
    bytes ← lift (load m.blk_buffer.buffer 0 m.blk_buffer.current_size)
    putchar line bytes

  -- The end of the transfer.
  pub send_eot : M (Modem P) (Bool × ℕ)
  send_eot = do write_block 0 (eot ∷ []); send_block 1; pure (true, 0)

  -- A block of `bytes_to_read` bytes of the file, filled up with SUB.
  pub send_data : ℕ → ℕ → ℕ → Bool → M (Modem P) (Bool × ℕ)
  send_data blk_no bytes_to_read remaining_bytes with_crc = do
    let blksize = effective_blksize bytes_to_read
    write_block 0 ((if leb bytes_to_read 128 then soh else stx) ∷ [])
    write_block 1 (blk_no ∷ [])
    write_block 2 (complement blk_no ∷ [])
    bytes ← zoom (λ m. m.ramfile) (λ b m. record m { ramfile = b }) (Buffer.read bytes_to_read)
    write_block 3 bytes
    let padding = replicate (blksize - remaining_bytes) sub
    if ltb remaining_bytes blksize then write_block (3 + bytes_to_read) padding else pure tt
    size ← write_trailer blksize with_crc
    send_block size
    pure (false, blksize)

  -- Returns whether it was the last one, and `*nbEmitted`.
  pub build_and_send_one_data_block : ℕ → ℕ → Bool → M (Modem P) (Bool × ℕ)
  build_and_send_one_data_block blk_no default_blksize with_crc = do
    remaining_bytes ← gets (λ m. Buffer.get_size m.ramfile)
    let bytes_to_read = min_c default_blksize remaining_bytes
    if bytes_to_read == 0 then send_eot else send_data blk_no bytes_to_read remaining_bytes with_crc

  -- Waiting for the answer: at most ten calls of `getchar`.
  unfoldable pub wait_char : ℕ → M (Modem P) (Option ℕ)
  wait_char zero = pure none
  wait_char (suc left) = do
    c ← getchar line
    elim c [ none ↦ wait_char left | some byte ↦ pure (some byte) ]

  -- A new block, or the last one again.
  pub transmit : Framing → Tx → M (Modem P) Tx
  transmit f s = do
    let fresh = do
      (is_last, nb) ← build_and_send_one_data_block s.blk_no f.default_blksize f.with_crc
      pure (record s { is_last_block = is_last; nb_emitted = nb })
    let repeated = do reemit_previous_block; pure s
    if s.retry == 0 then fresh else repeated

  -- One round of the loop of `lxmode_send_data_blocks`.
  pub round : Framing → Tx → M (Modem P) Tx
  round f s = do s' ← transmit f s; c ← wait_char 10; pure (give_up (react c s'))

  pub loop : Framing → ℕ → Tx → M (Modem P) ℕ
  loop f zero s = if s.finished then pure s.emitted_bytes else (λ m. spent)
  loop f (suc fuel) s =
      let next = (do s' ← round f s; loop f fuel s') in
      if s.finished then pure s.emitted_bytes else next

  pub send_data_blocks : ℕ → M (Modem P) ℕ
  send_data_blocks fuel = do m ← gets (λ m. m); loop (framing m.protocol m.opts) fuel tx_start

  -- The receiver has asked for a transfer by `preambule`.
  pub begin : ℕ → ℕ → M (Modem P) ℕ
  begin fuel preambule = do
    m ← gets (λ m. m)
    let refuse = do build_and_send_cancel line; pure minus_one
    if decode_preambule m.protocol m.opts preambule then send_data_blocks fuel else refuse

  -- `lxmodem_emit`: the bit pattern of its int32_t result.
  pub lxmodem_emit : ℕ → M (Modem P) ℕ
  lxmodem_emit fuel = do
    c ← wait_char 10
    elim c [ none ↦ pure 0 | some preambule ↦ begin fuel preambule ]
