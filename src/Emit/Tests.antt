-- ===== src/Emit/Tests.antt =====
-- Runs of the transmitter of src/lmodem_tx.c, and the theorems at concrete contexts.
use light_modem.Base.{
  ℕ, List, [], ◌∷◌, ◌≡◌, refl, false, done, Outcome, fault, spent, replicate, load, store,
  minus_one, ◌⊎◌, inl, take, ◌++◌, IsBytes, IsBytes-append, arith,
}
use light_modem.Buffer
use light_modem.Buffer.Laws.{contents}
use light_modem.Modem.{Modem, with_chksum_128, init, set_line_buffer, write_block, putchar, getchar}
use light_modem.Modem.Script.{Script, script_line}
use light_modem.Frame.{padded}
use light_modem.Receive.{recv_ok, uses_crc, check_block_no_and_crc, calcul_chksum, sum_bytes}
use light_modem.Receive.Block.{payload_of}
use light_modem.Emit.{
  framing, lxmodem_emit, begin, send_data_blocks, loop, round, transmit, react, answered, give_up,
  wait_char, build_and_send_one_data_block, send_data, send_eot, send_block, write_trailer,
  effective_blksize, decode_preambule, is_chksum,
}
use light_modem.Emit.Sizes.{CanSend, IsBytes-replicate}
use light_modem.Emit.Block.{chunk_sent, build_and_send_one_data_block_lem}
use light_modem.Emit.Link.{sent-accepted}
use light_modem.Emit.Transmit.{unread}
use light_modem.Emit.Total.{lxmodem_emit_total}

-- A modem with a checksum and three bytes to send, to which the other side answers `pending`.
abbrev sender : List ℕ → Modem Script
sender pending =
    record (set_line_buffer (replicate 132 0) 132
      (init (record { pending = pending; sent = [] }) with_chksum_128)).1 {
        ramfile = record {
          buffer = 7 ∷ 8 ∷ 9 ∷ [];
          read_offset = 0;
          write_offset = 3;
          max_size = 3;
        };
      }

-- NAK, and then ACK twice.
abbrev answers : List ℕ
answers = 21 ∷ 6 ∷ 6 ∷ []

abbrev result : {S : Type 0} → Outcome (ℕ × S) → Outcome ℕ
result (done (n, s)) = done n
result fault = fault
result spent = spent

emitted : result (lxmodem_emit script_line 3 (sender answers)) ≡ done 128
unfolding lxmodem_emit begin send_data_blocks framing loop round transmit react answered give_up
    wait_char build_and_send_one_data_block send_data send_eot send_block write_trailer
    effective_blksize decode_preambule is_chksum calcul_chksum sum_bytes init set_line_buffer
    putchar getchar write_block Buffer.read Buffer.get_size load store
emitted = refl

sender-CanSend : CanSend false 128 (sender answers)
unfolding init set_line_buffer
sender-CanSend = record {
  table = refl;
  bytes = IsBytes-replicate 132 0 (omega arith);
  room = omega arith;
  file = record {
    read-le-write = omega arith;
    write-le-max = omega arith;
    in_storage = omega arith;
    small = omega arith;
  };
  file_bytes = (omega arith, (omega arith, (omega arith, tt)));
}

build_and_send_one_data_block_lem_example :
    build_and_send_one_data_block script_line 1 128 false (sender answers)
    ≡ chunk_sent script_line 1 false (take 128 (contents (sender answers).ramfile)) (sender answers)
build_and_send_one_data_block_lem_example =
    build_and_send_one_data_block_lem script_line 1 128 false (sender answers) sender-CanSend
      (inl refl) (omega arith)

-- A receiver whose block buffer holds the first message.
abbrev receiver : Modem Script
receiver = record (sender []) {
  blk_buffer = record {
    buffer = 1 ∷ 254 ∷ 7 ∷ 8 ∷ 9 ∷ (replicate 125 26 ++ (0xca ∷ []));
    current_size = 0;
    max_size = 131;
  };
}

receiver-IsBytes : IsBytes receiver.blk_buffer.buffer
receiver-IsBytes = (
  omega arith,
  (
    omega arith,
    (
      omega arith,
      (
        omega arith,
        (
          omega arith,
          IsBytes-append (replicate 125 26) (0xca ∷ []) (IsBytes-replicate 125 26 (omega arith))
              (omega arith, tt),
        ),
      ),
    ),
  ),
)

sent-accepted_example :
    (build_and_send_one_data_block script_line 1 128 false (sender answers)
      ≡ chunk_sent script_line 1 false (7 ∷ 8 ∷ 9 ∷ []) (sender answers))
    × (check_block_no_and_crc 1 128 receiver ≡ done (recv_ok, receiver))
    × (payload_of receiver.blk_buffer.buffer 128 ≡ padded (7 ∷ 8 ∷ 9 ∷ []))
unfolding uses_crc init set_line_buffer
sent-accepted_example =
    sent-accepted script_line 1 128 false (sender answers) receiver sender-CanSend (inl refl)
      (omega arith) (omega arith) refl receiver-IsBytes refl refl

lxmodem_emit_total_example :
    (n : ℕ) × (m' : Modem Script) × (lxmodem_emit script_line 45 (sender answers) ≡ done (n, m'))
    × CanSend false 128 m'
    × (m'.ramfile ≡ record (sender answers).ramfile { read_offset = m'.ramfile.read_offset })
    × ((n ≡ minus_one) ⊎ ((unread m' ≡ 0) ⊎ ((n ≡ 0) × (m'.ramfile ≡ (sender answers).ramfile))))
unfolding framing init set_line_buffer
lxmodem_emit_total_example =
    lxmodem_emit_total script_line 45 (sender answers) sender-CanSend (omega arith)
