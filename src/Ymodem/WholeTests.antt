-- ===== src/Ymodem/WholeTests.antt =====
-- A whole reception by YMODEM at a concrete line, which brings one block 0 and then nothing.
use light_modem.Base.{
  ℕ, ◌≤◌, ◌≡◌, ◌⊎◌, inl, minus_one, refl, true, false, List, [], ◌∷◌, ◌++◌, some, done, arith,
  replicate,
}
use light_modem.Frame.{block}
use light_modem.Crc.Division.{remainder, feed_bits, feed_bit}
use light_modem.Modem.{
  Modem, FileCharacteristics, with_crc_128, ymodem, init, set_line_buffer, set_filename_buffer,
  set_file_buffer,
}
use light_modem.Modem.Script.{Script, script_line}
use light_modem.Emit.Sizes.{IsBytes-replicate}
use light_modem.Receive.Ready.{IsReady}
use light_modem.Modem.Wait.{Comes}
use light_modem.Transfer.{lmodem_receive}
use light_modem.Ymodem.Text.{decimal, octal, digits}
use light_modem.Ymodem.Emit.{meta_data_text}
use light_modem.Ymodem.RoundTrip.{announced}
use light_modem.Buffer
use light_modem.Receive.Sequence.{Brings, good, ended}
use light_modem.Ymodem.Whole.{CanStore, Announces, lymodem_receive_total}

abbrev name : List ℕ
name = b'a' ∷ b'.' ∷ b'c' ∷ []

-- "a.c", 100 bytes, rw-r--r--.
abbrev sent : FileCharacteristics
sent = record {
  valid = 0x1f;
  filename = some (name ++ (0 ∷ []));
  filename_size = 4;
  size = 100;
  modif_date = 8;
  permission = 0o644;
  serial_number = 0;
}

abbrev payload : List ℕ
payload = name ++ (0 ∷ (meta_data_text 4 sent ++ (0 ∷ 0 ∷ replicate 107 0)))

payload-Announces : Announces false name sent payload
unfolding meta_data_text decimal octal digits
payload-Announces = record {
  typed = record {
    size = omega arith;
    modif_date = omega arith;
    permission = omega arith;
    serial_number = omega arith;
  };
  visible = (omega arith, (omega arith, (omega arith, tt)));
  some_name = omega arith;
  size = refl;
  rest = replicate 107 0;
  text = refl;
}

-- The file, filled up to a block.
abbrev bytes_sent : List ℕ
bytes_sent = replicate 128 7

-- Block 0, block 1 and EOT are on the line.
abbrev behind_block0 : List ℕ
behind_block0 = 1 ∷ (block true 1 bytes_sent ++ 4 ∷ [])

abbrev port : Script
port = record { pending = 1 ∷ (block true 0 payload ++ behind_block0); sent = [] }

abbrev receiver : Modem Script
receiver = set_file_buffer (replicate 200 0) 200 (
    set_filename_buffer (replicate 16 0) 16
      (set_line_buffer (replicate 1030 0) 1030 (init port with_crc_128)).1)

receiver-IsReady : IsReady (record receiver { protocol = ymodem })
unfolding init set_filename_buffer set_line_buffer set_file_buffer Buffer.init
receiver-IsReady = record {
  table = refl;
  bytes = IsBytes-replicate 1030 0 (omega arith);
  room = omega arith;
  file = record {
    read-le-write = omega arith;
    write-le-max = omega arith;
    in_storage = omega arith;
    small = omega arith;
  };
}

receiver-CanStore : CanStore name (replicate 16 0) receiver
unfolding init set_filename_buffer set_line_buffer set_file_buffer Buffer.init
receiver-CanStore = record {
  whole = omega arith;
  storage = refl;
  fits = omega arith;
  small = omega arith;
  room = omega arith;
}

abbrev asked : Script
asked = script_line.putchar port (b'C' ∷ [])

abbrev behind_header : Script
behind_header = (script_line.getchar asked 1).1

header-Comes : Comes script_line 1 (1 ∷ []) 0 asked behind_header
unfolding meta_data_text decimal octal digits
header-Comes = (refl, refl, refl)

block-Comes :
    Comes script_line 132
      (block true 0 payload)
      0
      behind_header
      (script_line.getchar behind_header 132).1
unfolding meta_data_text decimal octal digits remainder feed_bits feed_bit
block-Comes = (refl, refl, refl)

lymodem_receive_total_example :
    (result : ℕ) × (m' : Modem Script) × (lmodem_receive script_line ymodem 2011 receiver
      ≡ done (result, m'))
    × (m'.file_data ≡ announced name (replicate 16 0) sent receiver.file_data)
    × IsReady m'
    × ((result ≤ 200) ⊎ (result ≡ minus_one))
unfolding init set_filename_buffer set_line_buffer set_file_buffer Buffer.init
lymodem_receive_total_example =
    lymodem_receive_total script_line 2011 0 0 false name (replicate 16 0) payload sent receiver
      behind_header (script_line.getchar behind_header 132).1 receiver-IsReady receiver-CanStore
      payload-Announces refl refl header-Comes (omega arith) block-Comes (omega arith) (omega arith)

abbrev Deliveries : Type 0
Deliveries =
    Brings script_line true (λ n. true) 0 1 (bytes_sent ∷ [])
      (script_line.putchar (script_line.putchar (script_line.getchar behind_header 132).1 (6 ∷ []))
        (b'C' ∷ []))

delivered : Deliveries
unfolding meta_data_text decimal octal digits remainder feed_bits feed_bit
delivered = good false bytes_sent (inl refl) refl ((refl, refl), (refl, refl)) (ended (refl, refl))
