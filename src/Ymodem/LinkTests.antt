-- ===== src/Ymodem/LinkTests.antt =====
-- The theorems on a sent block 0, and on the end of a batch, at a concrete transmitter and receiver.
use light_modem.Base.{
  ℕ, ◌≡◌, ◌⊎◌, minus_one, length, refl, true, List, [], ◌∷◌, ◌++◌, some, done, arith, replicate,
  IsBytes, IsBytes-append, length-append,
}
use light_modem.Modem.{
  Modem, FileCharacteristics, one_k, with_crc_128, ymodem, init, set_line_buffer,
  set_filename_buffer,
}
use light_modem.Modem.Metadata.{has_filename}
use light_modem.Modem.Script.{Script, script_line}
use light_modem.Frame.{block, trailer}
use light_modem.Receive.{recv_ok, uses_crc, check_block_no_and_crc}
use light_modem.Emit.Message.{length-block, trailer-IsBytes}
use light_modem.Emit.Sizes.{IsBytes-replicate}
use light_modem.Ymodem.Text.{decimal, octal, digits}
use light_modem.Ymodem.Header.{decode_block0}
use light_modem.Ymodem.Emit.{nb_meta_data, meta_data_text, build_and_send_block0}
use light_modem.Ymodem.Fields.{with_block}
use light_modem.Ymodem.RoundTrip.{announced}
use light_modem.Ymodem.Block0.{payload0}
use light_modem.Ymodem.Sent.{is_short, size0, packet0, payload0-IsBytes, length-payload0}
use light_modem.Ymodem.Announced.{HasFields, fields_of, build_and_send_block0-HasFields}
use light_modem.Buffer.Laws.{contents}
use light_modem.Receive.Ready.{IsReady}
use light_modem.Ymodem.Session.{receive_file_total}
use light_modem.Ymodem.Receive.{block_next_file, receive_file}
use light_modem.Ymodem.NextFile.{Unchanged, block_next_file_lem}
use light_modem.Ymodem.Link.{
  CanAnnounce, CanTake, text-IsBytes, decode_block0-build_and_send_block0,
}

abbrev name : List ℕ
name = b'a' ∷ b'.' ∷ b'c' ∷ []

abbrev sent : FileCharacteristics
sent = record {
  valid = 0x1f;
  filename = some (name ++ (0 ∷ []));
  filename_size = 4;
  size = 300;
  modif_date = 8;
  permission = 0o644;
  serial_number = 0;
}

abbrev port : Script
port = record { pending = []; sent = [] }

-- A transmitter whose block buffer has a byte more than is announced.
abbrev sender : Modem Script
sender = record (set_line_buffer (replicate 1030 0) 1029 (init port one_k)).1 { file_data = sent }

name_bytes : IsBytes name
name_bytes = (omega arith, (omega arith, (omega arith, tt)))

sent-HasFields : HasFields 4 sent
sent-HasFields = record {
  some_field = omega arith;
  four = omega arith;
  size = refl;
  modif_date = refl;
  permission = refl;
  serial_number = refl;
}

build_and_send_block0-HasFields_example :
    (m' : Modem Script) × (build_and_send_block0 script_line sender ≡ done (true, m'))
    × (m'.port
        ≡ script_line.putchar sender.port
            (packet0 (is_short name (fields_of 4 sent)) name (fields_of 4 sent)))
    × (m'.file_data ≡ sender.file_data)
    × (m'.ramfile ≡ sender.ramfile)
unfolding init set_line_buffer has_filename decimal octal digits
build_and_send_block0-HasFields_example =
    build_and_send_block0-HasFields script_line 4 name [] sender refl
      (IsBytes-replicate 1030 0 (omega arith)) (omega arith) (omega arith) (omega arith) refl refl
      (omega arith, (omega arith, (omega arith, tt))) name_bytes sent-HasFields (omega arith)

sender-CanAnnounce : CanAnnounce name sender
unfolding init set_line_buffer has_filename nb_meta_data meta_data_text decimal octal digits
sender-CanAnnounce = record {
  table = refl;
  bytes = IsBytes-replicate 1030 0 (omega arith);
  big = omega arith;
  small = omega arith;
  longer = omega arith;
  has = refl;
  tail = ([], refl);
  visible = (omega arith, (omega arith, (omega arith, tt)));
  name_bytes = name_bytes;
  some_name = omega arith;
  fields = refl;
  typed = record {
    size = omega arith;
    modif_date = omega arith;
    permission = omega arith;
    serial_number = omega arith;
  };
  short = omega arith;
}

abbrev payload : List ℕ
payload = payload0 128 name (meta_data_text 4 sent)

-- A receiver that has read the block, with one byte behind it.
abbrev receiver : Modem Script
receiver = record (set_filename_buffer (replicate 16 0) 16 (init port with_crc_128)) {
  protocol = ymodem;
  with_crc = true;
  blk_buffer = record {
    buffer = block true 0 payload ++ (0 ∷ []);
    current_size = 0;
    max_size = 133;
  };
}

payload-IsBytes : IsBytes payload
payload-IsBytes = payload0-IsBytes 128 name (meta_data_text 4 sent) name_bytes (text-IsBytes sent)

receiver-CanTake : CanTake name (replicate 16 0) 128 receiver
unfolding init set_filename_buffer uses_crc meta_data_text decimal octal digits
receiver-CanTake = record {
  table = refl;
  bytes = (
    omega arith,
    (
      omega arith,
      IsBytes-append (payload ++ trailer true payload) (0 ∷ [])
          (IsBytes-append payload (trailer true payload) payload-IsBytes
            (trailer-IsBytes true payload payload-IsBytes))
          (omega arith, tt),
    ),
  );
  whole = omega (
    arith,
    length-append (block true 0 payload) (0 ∷ []),
    length-block true 0 payload,
    length-payload0 128 name (meta_data_text 4 sent) (omega arith),
  );
  mode = refl;
  storage = refl;
  fits = omega arith;
  small = omega arith;
  room = omega arith;
}

decode_block0-build_and_send_block0_example :
    let short = is_short name (meta_data_text 4 sent) in
    let msg = packet0 short name (meta_data_text 4 sent) in
    (m' : Modem Script) × (bytes : List ℕ) × (build_and_send_block0 script_line sender
      ≡ done (true, m'))
    × (m'.port ≡ script_line.putchar sender.port msg)
    × (check_block_no_and_crc 0 (size0 short) receiver ≡ done (recv_ok, receiver))
    × (decode_block0 receiver
        ≡ done (
          true,
          with_block bytes (record receiver {
            file_data = announced name (replicate 16 0) sent receiver.file_data;
          }),
        ))
unfolding meta_data_text decimal octal digits
decode_block0-build_and_send_block0_example =
    decode_block0-build_and_send_block0 script_line name (replicate 16 0) (0 ∷ []) sender receiver
      sender-CanAnnounce receiver-CanTake refl

block_next_file_lem_example :
    (m' : Modem Script) × (block_next_file script_line sender ≡ done (tt, m')) × Unchanged sender m'
unfolding init set_line_buffer
block_next_file_lem_example =
    block_next_file_lem script_line sender (IsBytes-replicate 1030 0 (omega arith)) (omega arith)

-- A receiver for YMODEM with a block 0 of more than 1024 bytes in its buffer.
abbrev loaded : Modem Script
loaded = record receiver {
  blk_buffer = record {
    buffer = 0 ∷ 255 ∷ (name ++ (0 ∷ (meta_data_text 4 sent ++ (0 ∷ 0 ∷ replicate 1030 0))));
    current_size = 0;
    max_size = 1100;
  };
}

loaded-IsReady : IsReady loaded
unfolding init set_filename_buffer meta_data_text decimal octal digits
loaded-IsReady = record {
  table = refl;
  bytes = (
    omega arith,
    (
      omega arith,
      IsBytes-append name (0 ∷ (meta_data_text 4 sent ++ (0 ∷ 0 ∷ replicate 1030 0))) name_bytes (
        omega arith,
        IsBytes-append (meta_data_text 4 sent) (0 ∷ 0 ∷ replicate 1030 0) (text-IsBytes sent)
            (IsBytes-replicate 1032 0 (omega arith)),
      ),
    ),
  );
  room = omega arith;
  file = record {
    read-le-write = omega arith;
    write-le-max = omega arith;
    in_storage = omega arith;
    small = omega arith;
  };
}

receive_file_total_example :
    (result : ℕ) × (m' : Modem Script) × (added : List ℕ) × (receive_file script_line 11 loaded
      ≡ done (result, m'))
    × (m'.file_data ≡ announced name (replicate 16 0) sent loaded.file_data)
    × (contents m'.ramfile ≡ contents loaded.ramfile ++ added)
    × ((result ≡ length added) ⊎ (result ≡ minus_one))
    × IsReady m'
unfolding init set_filename_buffer meta_data_text decimal octal digits
receive_file_total_example =
    receive_file_total script_line 11 0 255 name (replicate 1030 0) (replicate 16 0) sent loaded
      loaded-IsReady refl refl (omega arith) sender-CanAnnounce.typed refl (omega arith)
      (omega arith) (omega arith, (omega arith, (omega arith, tt))) (omega arith) (omega arith)
      (omega arith)
