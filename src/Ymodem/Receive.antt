-- ===== src/Ymodem/Receive.antt =====
-- The YMODEM receiver: `lymodem_receive` of src/lmodem_rx.c.
use light_modem.Base.{
  ℕ, zero, suc, ◌+◌, Bool, true, none, some, M, spent, ◌>>=◌, ◌>>◌, pure, gets, zoom, u32,
  minus_one, bit_and, leb, ltb, ◌==◌, if◌then◌else◌,
}
use light_modem.Buffer
use light_modem.Modem.{Modem, Line, byte_at, getchar, getchar_block, soh, stx}
use light_modem.Modem.Metadata.{filesize_valid}
use light_modem.Receive.{
  Status, recv_ok, recv_error, is_ok, check_block_no_and_crc, build_and_send_preambule,
  build_and_send_reply, build_and_send_cancel, lxmodem_receive,
}
use light_modem.Ymodem.Header.{decode_block0}

module _ {P : Type 0} (line : Line P) where
  -- What follows a received block 0 in the loop of `lymodem_receive_block0`: `next` goes on with
  -- one retry more.
  unfoldable pub judge_block0 : ℕ → ℕ → M (Modem P) Status → M (Modem P) Status
  judge_block0 blksize retry next = do
    status ← check_block_no_and_crc 0 blksize
    build_and_send_reply line status
    let stop = do build_and_send_cancel line; pure status
    if is_ok status then pure status else if leb 10 (u32 (retry + 1)) then stop else next

  -- `lymodem_receive_block0`: a call of `getchar` that fails is repeated, however often.
  unfoldable pub receive_block0 : ℕ → ℕ → ℕ → M (Modem P) Status
  receive_block0 zero blksize retry = λ m. spent
  receive_block0 (suc fuel) blksize retry = do
    received ← getchar_block line (2 + blksize + 2)
    let again = receive_block0 fuel blksize retry
    let judged = judge_block0 blksize retry (receive_block0 fuel blksize (u32 (retry + 1)))
    if received then judged else again

  -- The loop of `lymodem_receive` that waits for the first character, `left` times at most.
  unfoldable pub wait_block0 : ℕ → ℕ → M (Modem P) Status
  wait_block0 fuel zero = pure recv_error
  wait_block0 fuel (suc left) = do
    c ← getchar line
    elim c [
      | none ↦ wait_block0 fuel left
      | some header ↦
          if header == soh
          then receive_block0 fuel 128 0
          else if header == stx
          then receive_block0 fuel 1024 0
          else pure recv_error
    ]

  -- The rest of the block that a character announces; any other character passes for one.
  unfoldable pub read_next_file : ℕ → M (Modem P) Bool
  read_next_file header =
      if header == soh
      then getchar_block line (128 + 2 + 2)
      else if header == stx
      then getchar_block line (1024 + 2 + 2)
      else pure true

  -- An empty name ends the batch, and a file is refused.
  unfoldable pub answer_next_file : M (Modem P) (Unit {0})
  answer_next_file = do
    c ← byte_at 2
    if c == 0 then build_and_send_reply line recv_ok else build_and_send_cancel line

  unfoldable pub next_file_loop : ℕ → M (Modem P) (Unit {0})
  next_file_loop zero = pure tt
  next_file_loop (suc left) = do
    c ← getchar line
    let again = next_file_loop left
    elim c [
      | none ↦ again
      | some header ↦ do
        received ← read_next_file header
        if received then answer_next_file else again
    ]

  -- `lymodem_block_next_file`
  unfoldable pub block_next_file : M (Modem P) (Unit {0})
  block_next_file = do build_and_send_preambule line; next_file_loop 10

  -- The file behind an accepted block 0.
  unfoldable pub receive_file : ℕ → M (Modem P) ℕ
  receive_file fuel = do
    named ← decode_block0
    let transfer = do
      received_bytes ← lxmodem_receive line fuel
      block_next_file
      pure received_bytes
    if named then transfer else pure minus_one

  -- The RAM file is cut to the size that block 0 announced.
  unfoldable pub cut_file : ℕ → M (Modem P) (Unit {0})
  cut_file received_bytes = do
    m ← gets (λ m. m)
    let cut = do
      ok ←
          zoom (λ m. m.ramfile) (λ b m. record m { ramfile = b })
            (Buffer.set_write_offset m.file_data.size)
      pure tt
    let sized = if bit_and m.file_data.valid filesize_valid == filesize_valid then cut else pure tt
    if ltb 0 received_bytes then sized else pure tt

  -- `lymodem_receive`: the bit pattern of its int32_t result.
  unfoldable pub lymodem_receive : ℕ → M (Modem P) ℕ
  lymodem_receive fuel = do
    build_and_send_preambule line
    status ← wait_block0 fuel 10
    received_bytes ← if is_ok status then receive_file fuel else pure minus_one
    cut_file received_bytes
    pure received_bytes
