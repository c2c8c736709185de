-- ===== src/Emit/WholeTests.antt =====
-- `lxmodem_emit` as a whole, on a file of three bytes.
use light_modem.Base.{[], ◌∷◌, ◌≡◌, refl, arith, inl, false, replicate, done}
use light_modem.Buffer.Laws.{contents}
use light_modem.Modem.{Modem, with_chksum_128, init, set_line_buffer}
use light_modem.Modem.Script.{Script, script_line}
use light_modem.Emit.{framing, lxmodem_emit, decode_preambule, is_chksum}
use light_modem.Emit.Sizes.{CanSend, IsBytes-replicate}
use light_modem.Emit.Replies.{Takes, over, acked, refused, rounds}
use light_modem.Emit.Whole.{lxmodem_emit_lem}

-- The answers to the preamble, to the block twice and to EOT.
abbrev sender : Modem Script
sender =
    record (set_line_buffer (replicate 132 0) 132
      (init (record { pending = 21 ∷ 21 ∷ 6 ∷ 6 ∷ []; sent = [] }) with_chksum_128)).1 {
        ramfile = record {
          buffer = 7 ∷ 8 ∷ 9 ∷ [];
          read_offset = 0;
          write_offset = 3;
          max_size = 3;
        };
      }

sender-CanSend : CanSend false 128 sender
unfolding init set_line_buffer
sender-CanSend = record {
  table = refl;
  bytes = IsBytes-replicate 132 0 (omega arith);
  room = omega arith;
  file = record {
    read-le-write = omega arith;
    write-le-max = omega arith;
    in_storage = omega arith;
    small = omega arith;
  };
  file_bytes = (omega arith, (omega arith, (omega arith, tt)));
}

abbrev Answers : Type 0
Answers =
    Takes script_line (framing sender.protocol sender.opts) 0 1 (7 ∷ 8 ∷ 9 ∷ [])
      (script_line.getchar sender.port 1).1

answers : Answers
unfolding init set_line_buffer framing
answers =
    refused 0 21 _ (omega arith) (omega arith) (omega arith) (inl refl) (refl, refl, refl)
      (acked 0 _ (omega arith) (omega arith) (refl, refl, refl)
        (over 0 _ (omega arith) (refl, refl, refl)))

lxmodem_emit_lem_example :
    (m' : Modem Script) × (lxmodem_emit script_line 3 sender ≡ done (128, m'))
    × (contents m'.ramfile ≡ [])
unfolding init set_line_buffer framing answers rounds decode_preambule is_chksum
lxmodem_emit_lem_example =
    lxmodem_emit_lem script_line 3 0 21 sender (script_line.getchar sender.port 1).1 (omega arith)
      (refl, refl, refl) refl sender-CanSend (omega arith) answers (omega arith)
