-- ===== src/Receive/WholeTests.antt =====
-- A whole reception of src/lmodem_rx.c at a concrete line.
use light_modem.Base.{ℕ, ◌≡◌, refl, inl, false, List, [], ◌∷◌, ◌++◌, done, replicate, arith}
use light_modem.Buffer
use light_modem.Buffer.Laws.{contents}
use light_modem.Modem.{Modem, with_chksum_128, init, set_line_buffer, set_file_buffer}
use light_modem.Modem.Script.{Script, script_line}
use light_modem.Emit.Sizes.{IsBytes-replicate}
use light_modem.Receive.{lxmodem_receive, preambule, uses_crc}
use light_modem.Receive.Ready.{IsReady, takes_long}
use light_modem.Receive.Sequence.{joined, Brings, repeated, good, ended, rounds}
use light_modem.Receive.Whole.{lxmodem_receive_lem}

-- Block 0 once more, block 1, all its bytes 7, and EOT.
abbrev old_block : List ℕ
old_block = 0 ∷ 255 ∷ replicate 129 0

abbrev coming : List ℕ
coming = 1 ∷ (old_block ++ (1 ∷ 1 ∷ 254 ∷ (replicate 128 7 ++ (0x80 ∷ 4 ∷ []))))

-- A modem with a checksum and a RAM file of 200 bytes.
abbrev receiver : Modem Script
receiver =
    set_file_buffer (replicate 200 0) 200
      (set_line_buffer (replicate 131 0) 131
        (init (record { pending = coming; sent = [] }) with_chksum_128)).1

receiver-IsReady : IsReady receiver
unfolding init set_line_buffer set_file_buffer Buffer.init
receiver-IsReady = record {
  table = refl;
  bytes = IsBytes-replicate 131 0 (omega arith);
  room = omega arith;
  file = record {
    read-le-write = omega arith;
    write-le-max = omega arith;
    in_storage = omega arith;
    small = omega arith;
  };
}

abbrev Deliveries : Type 0
Deliveries =
    Brings script_line (takes_long receiver) (uses_crc receiver) 0 1 (replicate 128 7 ∷ [])
      (script_line.putchar receiver.port (preambule receiver.protocol receiver.opts ∷ []))

delivered : Deliveries
unfolding init set_line_buffer set_file_buffer Buffer.init uses_crc preambule
delivered =
    repeated false old_block (omega arith) (inl refl) ((refl, refl), (refl, refl)) refl
      (good false (replicate 128 7) (inl refl) refl ((refl, refl), (refl, refl))
        (ended (refl, refl)))

lxmodem_receive_lem_example :
    (m' : Modem Script) × (lxmodem_receive script_line 3 receiver ≡ done (128, m'))
    × (contents m'.ramfile ≡ contents receiver.ramfile ++ joined (replicate 128 7 ∷ []))
    × IsReady m'
unfolding init set_line_buffer set_file_buffer Buffer.init delivered rounds
lxmodem_receive_lem_example =
    lxmodem_receive_lem script_line 3 (replicate 128 7 ∷ []) receiver delivered receiver-IsReady
      (omega arith) (omega arith)
