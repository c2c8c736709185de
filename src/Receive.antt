-- ===== src/Receive.antt =====
-- The XMODEM receiver of src/lmodem_rx.c.
pub mod Block
pub mod Accept
pub mod Ready
pub mod Round
pub mod Invariant
pub mod Settle
pub mod Total
pub mod Sequence
pub mod Delivery
pub mod Steps
pub mod Keep
pub mod Whole
mod Tests
mod WholeTests
use light_modem.Base.{
  ℕ, zero, suc, ◌+◌, ◌-◌, Bool, true, false, List, [], ◌∷◌, none, some, M, Outcome, done, fault,
  spent, ◌^◌, ◌>>=◌, ◌>>◌, pure, lift, gets, zoom, ◌||◌, u8, u32, minus_one, complement, ◌>>>◌,
  bit_and, ltb, leb, ◌==◌, if◌then◌else◌, drop, load,
}
use light_modem.Buffer
use light_modem.Crc
use light_modem.Modem.{
  Modem, Line, Protocol, xmodem, ymodem, Opts, with_chksum_128, is_ymodem, is_one_k, byte_at,
  putchar, getchar, getchar_block, header_size, chksum_size, crc16_size, soh, stx, eot, ack, nak,
  can,
}

-- `lxmodem_reception_status`
pub data Status : Type 0 where
  recv_ok recv_previous_block recv_error : Status

unfoldable pub is_ok : Status → Bool
is_ok recv_ok = true
is_ok _ = false

-- The loop of `lxmodem_calcul_chksum`.
unfoldable pub sum_bytes : ℕ → List ℕ → ℕ
sum_bytes t [] = t
sum_bytes t (x ∷ xs) = sum_bytes (u8 (t + x)) xs

-- `buf` is the memory behind `buffer`.
unfoldable pub calcul_chksum : List ℕ → ℕ → Outcome ℕ
calcul_chksum buf size = elim (load buf 0 size) [
  | done bytes ↦ done (sum_bytes 0 bytes)
  | fault ↦ fault
  | spent ↦ spent
]

module _ {P : Type 0} where
  -- Blocks end in a CRC rather than in a checksum.
  unfoldable pub uses_crc : Modem P → ℕ → Bool
  uses_crc m blksize = m.with_crc || (is_ymodem m.protocol || ltb 128 blksize)

  -- `&&` of C: the second test runs only if the first holds.
  abbrev and_then : M (Modem P) Bool → M (Modem P) Bool → M (Modem P) Bool
  and_then p q = do a ← p; if a then q else pure false

  pub is_byte : ℕ → ℕ → M (Modem P) Bool
  is_byte i value = do b ← byte_at i; pure (b == value)

  -- The block buffer starts with a block number and its complement.
  pub is_numbered : ℕ → M (Modem P) Bool
  unfolding is_byte
  is_numbered number = and_then (is_byte 0 number) (is_byte 1 (complement number))

  -- The two branches of `lxmodem_check_crc`, and the function.
  pub check_by_crc : ℕ → M (Modem P) Status
  check_by_crc blksize = do
    m ← gets (λ m. m)
    crc ← lift (Crc.do_calcul m.crc16 (drop header_size m.blk_buffer.buffer) blksize 0 0)
    let hi_crc = bit_and crc 0xff00 >>> 8
    let lo_crc = bit_and crc 0xff
    same ←
        and_then (is_byte (header_size + blksize) hi_crc)
          (is_byte (header_size + blksize + 1) lo_crc)
    pure (if same then recv_ok else recv_error)

  pub check_by_chksum : ℕ → M (Modem P) Status
  check_by_chksum blksize = do
    m ← gets (λ m. m)
    chksum ← lift (calcul_chksum (drop header_size m.blk_buffer.buffer) blksize)
    same ← is_byte (blksize + header_size) chksum
    pure (if same then recv_ok else recv_error)

  pub check_crc : ℕ → M (Modem P) Status
  unfolding check_by_crc check_by_chksum
  check_crc blksize = do
    m ← gets (λ m. m)
    if uses_crc m blksize then check_by_crc blksize else check_by_chksum blksize

  pub check_block_no_and_crc : ℕ → ℕ → M (Modem P) Status
  check_block_no_and_crc expected_blk_number blksize = do
    expected ← is_numbered expected_blk_number
    let previous_blk_number = u8 (expected_blk_number + 2 ^ 8 - 1)
    let other = do
      previous ← is_numbered previous_blk_number
      pure (if previous then recv_previous_block else recv_error)
    if expected then check_crc blksize else other

-- The character that starts a transfer.
unfoldable pub preambule : Protocol → Opts → ℕ
preambule xmodem with_chksum_128 = nak
preambule xmodem _ = b'C'
preambule ymodem _ = b'C'

-- The local variables of `lxmodem_receive` that live across rounds of its loop.
pub record Rx : Type 0 where
  pub received_bytes : ℕ
  pub finished : Bool
  pub expected_blk_number : ℕ
  pub can_char_received : ℕ
  pub nb_retry : ℕ

abbrev pub rx_start : Rx
rx_start = record {
  received_bytes = 0;
  finished = false;
  expected_blk_number = 1;
  can_char_received = 0;
  nb_retry = 0;
}

-- What the `switch` on the header leaves: `rcvStatus`, `blksize` and the variables.
pub record Handled : Type 0 where
  pub status : Status
  pub blksize : ℕ
  pub vars : Rx

-- Where the C code leaves `blksize` alone it is not read; here it is 0.
abbrev pub no_block : Rx → Handled
no_block s = record { status = recv_error; blksize = 0; vars = s }

pub handle_can : Rx → Handled
handle_can s =
    let n = u32 (s.can_char_received + 1) in
    if leb 2 n
    then no_block (record s { can_char_received = n; finished = true; received_bytes = minus_one })
    else no_block (record s { can_char_received = n })

module _ {P : Type 0} (line : Line P) where
  unfoldable pub build_and_send_preambule : M (Modem P) (Unit {0})
  build_and_send_preambule = do m ← gets (λ m. m); putchar line (preambule m.protocol m.opts ∷ [])

  unfoldable pub build_and_send_reply : Status → M (Modem P) (Unit {0})
  build_and_send_reply recv_error = putchar line (nak ∷ [])
  build_and_send_reply _ = putchar line (ack ∷ [])

  unfoldable pub build_and_send_cancel : M (Modem P) (Unit {0})
  build_and_send_cancel = putchar line (can ∷ can ∷ [])

  pub receive_block : ℕ → ℕ → M (Modem P) Status
  receive_block expected_blk_number blksize = do
    m ← gets (λ m. m)
    let trailer = if uses_crc m blksize then crc16_size else chksum_size
    received ← getchar_block line (blksize + header_size + trailer)
    if received then check_block_no_and_crc expected_blk_number blksize else pure recv_error

  -- A block of `blksize` bytes is announced.
  pub handle_block : ℕ → Rx → M (Modem P) Handled
  handle_block blksize s = do
    status ← receive_block s.expected_blk_number blksize
    pure (record { status = status; blksize = blksize; vars = record s { can_char_received = 0 } })

  -- The `switch` on the header.
  pub handle_header : ℕ → Rx → M (Modem P) Handled
  handle_header header s = do
    m ← gets (λ m. m)
    let cleared = record s { can_char_received = 0 }
    let long = is_one_k m.opts || is_ymodem m.protocol
    let ended : Handled = record {
      status = recv_ok;
      blksize = 0;
      vars = record cleared { finished = true };
    }
    if header == soh
        then handle_block 128 s
        else if header == stx
        then (if long then handle_block 1024 s else pure (no_block cleared))
        else if header == eot
        then pure ended
        else if header == can
        then pure (handle_can s)
        else pure (no_block s)

  pub retry : Rx → M (Modem P) Rx
  retry s = do
    let n = u32 (s.nb_retry + 1)
    let stop = do
      build_and_send_cancel
      pure (record s { nb_retry = n; received_bytes = minus_one; finished = true })
    if leb 10 n then stop else pure (record s { nb_retry = n })

  -- An accepted block goes to the RAM file.
  pub keep_block : ℕ → Rx → M (Modem P) Rx
  keep_block blksize s = do
    m ← gets (λ m. m)
    nb ←
        zoom (λ m. m.ramfile) (λ b m. record m { ramfile = b })
          (Buffer.write (drop 2 m.blk_buffer.buffer) blksize)
    let stop = do
      putchar line (can ∷ can ∷ [])
      pure (record s { finished = true; received_bytes = minus_one })
    let next = record s {
      expected_blk_number = u8 (s.expected_blk_number + 1);
      received_bytes = u32 (s.received_bytes + blksize);
      nb_retry = 0;
    }
    if nb == blksize then pure next else stop

  -- The reply to what the header brought, and what follows from it.
  pub settle : Handled → M (Modem P) Rx
  settle h = do
    build_and_send_reply h.status
    if is_ok h.status then keep_block h.blksize h.vars else retry h.vars

  -- One round of the loop of `lxmodem_receive`.
  pub round : Rx → M (Modem P) Rx
  round s = do
    c ← getchar line
    elim c [ none ↦ retry s | some header ↦ do h ← handle_header header s; settle h ]

  -- The loop; fuel counts its rounds.
  pub loop : ℕ → Rx → M (Modem P) ℕ
  loop zero s = if s.finished then pure s.received_bytes else (λ m. spent)
  loop (suc fuel) s =
      let next = (do s' ← round s; loop fuel s') in
      if s.finished then pure s.received_bytes else next

  -- `lxmodem_receive`: the bit pattern of its int32_t result.
  pub lxmodem_receive : ℕ → M (Modem P) ℕ
  lxmodem_receive fuel = do build_and_send_preambule; loop fuel rx_start
