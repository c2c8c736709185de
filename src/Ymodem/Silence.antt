-- ===== src/Ymodem/Silence.antt =====
-- What the YMODEM parts of src/lmodem_rx.c and src/lmodem_tx.c do while the other side is silent.
use light_modem.Base.{
  ℕ, zero, suc, ◌+◌, ◌<◌, ◌≤◌, ◌≡◌, refl, Bool, false, [], ◌∷◌, none, done, spent, arith, length,
  ◌==◌, leb, minus_one, bit_and, length-put_bytes, ◌>>=◌,
}
use light_modem.Modem.{Modem, Line, ymodem, getchar, putchar}
use light_modem.Modem.Metadata.{filesize_valid}
use light_modem.Receive.{recv_error, build_and_send_preambule, is_ok, preambule}
use light_modem.Receive.Ready.{after_getchar, after_read, getchar_block_lem}
use light_modem.Emit.{wait_char}
use light_modem.Ymodem.Receive.{receive_block0, wait_block0, lymodem_receive, cut_file}
use light_modem.Ymodem.Emit.{wait_reception_of, wait_reception, replies, lymodem_emit}
use light_modem.Transfer.{lmodem_receive, lmodem_emit, receive_with, emit_with}

-- Every call of `getchar` fails.
abbrev pub IsSilent : {P : Type 0} → Line P → Type 0
IsSilent line = (p : _) (n : ℕ) → (line.getchar p n).0.ok ≡ false

module _ {P : Type 0} (line : Line P) (silent : IsSilent line) where
  getchar_silent : (m : Modem P) → getchar line m ≡ done (none, after_getchar line m)
  unfolding getchar
  getchar_silent m = rw (silent m.port 1)

  -- With a block buffer that has room for a block 0 of `blksize` bytes, its header and its
  -- trailer, and while every call of `getchar` fails, the loop of `lymodem_receive_block0` goes on
  -- for ever: no number of rounds is enough for it, since a failed call counts as no retry.
  pub receive_block0-IsSilent :
      (fuel blksize retry : ℕ) (m : Modem P)
      → 2 + blksize + 2 ≤ length m.blk_buffer.buffer
      → receive_block0 line fuel blksize retry m ≡ spent
  unfolding receive_block0
  receive_block0-IsSilent zero blksize retry m room = refl
  receive_block0-IsSilent (suc fuel) blksize retry m room =
      let size = 2 + blksize + 2 in
      let m' = after_read line size m in
      let kept : length m'.blk_buffer.buffer ≡ length m.blk_buffer.buffer =
        length-put_bytes m.blk_buffer.buffer 0 (line.getchar m.port size).0.bytes
          (omega (arith, line.getchar_fits m.port size)) in
      rw (getchar_block_lem line size m room, ◌>>=◌, silent m.port size)
        (receive_block0-IsSilent fuel blksize retry m' (omega (arith, kept)))

  wait_char_silent :
      (left : ℕ) (m : Modem P)
      → (q : P) × (wait_char line left m ≡ done (none, record m { port = q }))
  unfolding wait_char
  wait_char_silent zero m = (m.port, refl)
  wait_char_silent (suc left) m =
      let (q, run) = wait_char_silent left (after_getchar line m) in
      (q, rw (getchar_silent m, ◌>>=◌) run)

  -- The loops of `lymodem_emit` on the reply to a block, with less than ten retries made and
  -- nothing received before, go on for ever while every call of `getchar` fails.
  pub replies-IsSilent :
      (fuel : ℕ) (ok : Bool) (retry : ℕ) (m : Modem P)
      → retry < 10
      → replies line fuel ok retry 0 m ≡ spent
  unfolding replies wait_reception
  replies-IsSilent zero ok retry m few = let more : leb 10 retry ≡ false = ground arith in rw (more)
  replies-IsSilent (suc fuel) ok retry m few =
      let more : leb 10 retry ≡ false = ground arith in
      let (q, waited) = wait_char_silent 10 m in
      rw (more, waited, ◌>>=◌) (replies-IsSilent fuel ok retry (record m { port = q }) few)

  wait_block0_silent :
      (fuel left : ℕ) (m : Modem P)
      → (q : P) × (wait_block0 line fuel left m ≡ done (recv_error, record m { port = q }))
  unfolding wait_block0
  wait_block0_silent fuel zero m = (m.port, refl)
  wait_block0_silent fuel (suc left) m =
      let (q, run) = wait_block0_silent fuel left (after_getchar line m) in
      (q, rw (getchar_silent m, ◌>>=◌) run)

  wait_reception_of_silent :
      (char left : ℕ) (m : Modem P)
      → (q : P) × (wait_reception_of line char left m ≡ done (false, record m { port = q }))
  unfolding wait_reception_of
  wait_reception_of_silent char zero m = (m.port, refl)
  wait_reception_of_silent char (suc left) m =
      let (q, run) = wait_reception_of_silent char left (after_getchar line m) in
      (q, rw (getchar_silent m, ◌>>=◌) run)

  -- While every call of `getchar` fails, and with the flag for the size of the file clear,
  -- `lmodem_receive` and `lmodem_emit` for YMODEM give up: however much fuel they get, they return
  -- the pattern of -1 and leave the context as it was but for the port and the protocol.
  pub transfer-IsSilent :
      (fuel : ℕ) (m : Modem P)
      → (bit_and m.file_data.valid filesize_valid == filesize_valid) ≡ false
      → (q : P) × (r : P) × (lmodem_receive line ymodem fuel m
          ≡ done (minus_one, record m { protocol = ymodem; port = q }))
        × (lmodem_emit line ymodem fuel m
            ≡ done (minus_one, record m { protocol = ymodem; port = r }))
  unfolding lmodem_receive receive_with lymodem_receive cut_file lmodem_emit emit_with lymodem_emit
      build_and_send_preambule putchar is_ok
  transfer-IsSilent fuel m clear =
      let m₁ = record m { protocol = ymodem } in
      let m₂ = record m₁ { port = line.putchar m₁.port (preambule ymodem m.opts ∷ []) } in
      let (q, waited) = wait_block0_silent fuel 10 m₂ in
      let (r, asked) = wait_reception_of_silent b'C' 10 m₁ in
      (q, r, rw (waited, ◌>>=◌, clear), rw (asked, ◌>>=◌))
