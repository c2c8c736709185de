-- ===== src/Receive/Tests.antt =====
-- Runs of the receiver of src/lmodem_rx.c, and the theorems at concrete contexts.
use light_modem.Base.{
  ℕ, ◌+◌, List, [], ◌∷◌, ◌++◌, ◌≡◌, refl, done, Outcome, fault, spent, replicate, load, store,
  length, minus_one, ◌⊎◌, ◌↔◌, ◌<◌, IsBytes-append, drop, take, IsBytes, arith, zero, suc,
}
use light_modem.Buffer
use light_modem.Modem.{
  Modem, with_chksum_128, init, set_line_buffer, set_file_buffer, byte_at, write_block, putchar,
  getchar, getchar_block,
}
use light_modem.Frame.{block}
use light_modem.Buffer.Laws.{contents}
use light_modem.Receive.Block.{trailer_size, payload_of}
use light_modem.Receive.Accept.{check_block_lem}
use light_modem.Receive.Ready.{IsReady}
use light_modem.Receive.Total.{lxmodem_receive_total}
use light_modem.Modem.Script.{Script, script_line}
use light_modem.Receive.{
  lxmodem_receive, loop, round, settle, keep_block, retry, handle_header, handle_can, handle_block,
  receive_block, build_and_send_cancel, build_and_send_reply, build_and_send_preambule,
  check_block_no_and_crc, check_crc, is_numbered, uses_crc, calcul_chksum, sum_bytes, is_ok,
  preambule, Status, recv_ok, recv_previous_block,
}

-- A modem with a checksum and a RAM file of `n` bytes, which the other side sends `pending`.
abbrev modem : ℕ → List ℕ → Modem Script
modem n pending =
    set_file_buffer (replicate n 0) n
      (set_line_buffer (replicate 131 0) 131
        (init (record { pending = pending; sent = [] }) with_chksum_128)).1

-- Block 1, all its 128 bytes 7, and then EOT.
abbrev one_block : List ℕ
one_block = 1 ∷ 1 ∷ 254 ∷ (replicate 128 7 ++ (0x80 ∷ 4 ∷ []))

abbrev result : {S : Type 0} → Outcome (ℕ × S) → Outcome ℕ
result (done (n, s)) = done n
result fault = fault
result spent = spent

received : result (lxmodem_receive script_line 3 (modem 200 one_block)) ≡ done 128
unfolding lxmodem_receive loop round settle keep_block retry handle_header handle_can handle_block
    receive_block build_and_send_cancel build_and_send_reply build_and_send_preambule
    check_block_no_and_crc check_crc is_numbered uses_crc calcul_chksum sum_bytes is_ok preambule
    init set_line_buffer set_file_buffer byte_at putchar getchar getchar_block write_block
    Buffer.init Buffer.write Buffer.nb_to_copy Buffer.get_remaining_capacity load store
received = refl

abbrev replicate-IsBytes : (n x : ℕ) → x < 256 → IsBytes (replicate n x)
replicate-IsBytes zero x h = tt
replicate-IsBytes (suc n) x h = (h, replicate-IsBytes n x h)

modem-IsReady : IsReady (modem 200 one_block)
unfolding init set_line_buffer set_file_buffer Buffer.init
modem-IsReady = record {
  table = refl;
  bytes = replicate-IsBytes 131 0 (omega arith);
  room = omega arith;
  file = record {
    read-le-write = omega arith;
    write-le-max = omega arith;
    in_storage = omega arith;
    small = omega arith;
  };
}

lxmodem_receive_total_example :
    (result : ℕ) × (m' : Modem Script) × (added : List ℕ) × (lxmodem_receive script_line 2011
        (modem 200 one_block)
      ≡ done (result, m'))
    × IsReady m'
    × (contents m'.ramfile ≡ contents (modem 200 one_block).ramfile ++ added)
    × ((result ≡ length added) ⊎ (result ≡ minus_one))
unfolding init set_line_buffer set_file_buffer Buffer.init
lxmodem_receive_total_example =
    lxmodem_receive_total script_line 2011 (modem 200 one_block) modem-IsReady (omega arith)

abbrev loaded : Modem Script
loaded = record (modem 200 []) {
  blk_buffer = record { buffer = drop 1 one_block; current_size = 0; max_size = 132 };
}

check_block_lem_example :
    (status : Status) × (check_block_no_and_crc 1 128 loaded ≡ done (status, loaded))
    × ((status ≡ recv_ok) ↔ (
        take (2 + 128 + trailer_size (uses_crc loaded 128)) loaded.blk_buffer.buffer
        ≡ block (uses_crc loaded 128) 1 (payload_of loaded.blk_buffer.buffer 128)))
    × ((status ≡ recv_previous_block) ↔ (take 2 loaded.blk_buffer.buffer ≡ 0 ∷ 255 ∷ []))
unfolding uses_crc init set_line_buffer set_file_buffer Buffer.init
check_block_lem_example =
    check_block_lem 1 128 loaded refl
      (
        omega arith,
        (
          omega arith,
          IsBytes-append (replicate 128 7) (0x80 ∷ 4 ∷ []) (replicate-IsBytes 128 7 (omega arith))
              (omega arith, (omega arith, tt)),
        ),
      )
      (omega arith) (omega arith)
