-- ===== src/Ymodem/Tests.antt =====
-- Runs of the YMODEM parts of src/lmodem_rx.c and src/lmodem_tx.c, and the theorems at concrete
-- contexts.
use light_modem.Base.{
  ℕ, ◌≡◌, refl, true, false, List, [], ◌∷◌, ◌++◌, some, done, fault, spent, arith, replicate,
  minus_one,
}
use light_modem.Modem.{
  Modem, Line, FileCharacteristics, with_crc_128, init, set_line_buffer, set_filename_buffer,
  ymodem,
}
use light_modem.Modem.Metadata.{has_filename}
use light_modem.Modem.Script.{Script, script_line}
use light_modem.Transfer.{lmodem_receive, lmodem_emit}
use light_modem.Ymodem.Text.{decimal, octal, digits}
use light_modem.Ymodem.Header.{get_number, field_mode, decode_block0}
use light_modem.Ymodem.Receive.{receive_block0}
use light_modem.Ymodem.Emit.{meta_data_text, replies, build_and_send_block0}
use light_modem.Ymodem.Fields.{with_block}
use light_modem.Ymodem.Number.{get_number-printed}
use light_modem.Ymodem.RoundTrip.{announced, decode_block0-meta_data_text}
use light_modem.Ymodem.Silence.{
  IsSilent, receive_block0-IsSilent, replies-IsSilent, transfer-IsSilent,
}
use light_modem.Ymodem.Overrun.{build_and_send_block0_fault}

-- "a.c", 300 bytes, rw-r--r--.
abbrev name : List ℕ
name = b'a' ∷ b'.' ∷ b'c' ∷ []

abbrev sent : FileCharacteristics
sent = record {
  valid = 0x1f;
  filename = some (name ++ (0 ∷ []));
  filename_size = 4;
  size = 300;
  modif_date = 8;
  permission = 0o644;
  serial_number = 0;
}

written :
    meta_data_text 4 sent
    ≡ b'3' ∷ b'0' ∷ b'0' ∷ b' ' ∷ b'1' ∷ b'0' ∷ b' ' ∷ b'1' ∷ b'0' ∷ b'0' ∷ b'6' ∷ b'4' ∷ b'4'
      ∷ b' ' ∷ b'0' ∷ []
unfolding meta_data_text decimal octal digits
written = refl

get_number-printed_example :
    (get_number (field_mode 0) (decimal 300 ++ (0 ∷ [])) ≡ done (300, true))
    × (get_number (field_mode 3) (octal 300 ++ (0 ∷ [])) ≡ done (300, true))
get_number-printed_example = get_number-printed 300 2 [] (omega arith)

abbrev port : Script
port = record { pending = []; sent = [] }

-- A modem with the bytes in its block buffer, which has the announced size.
abbrev modem : List ℕ → Modem Script
modem bytes =
    set_filename_buffer (replicate 16 0) 16 (set_line_buffer bytes 133 (init port with_crc_128)).1

abbrev block0 : List ℕ
block0 = 0 ∷ 255 ∷ (name ++ (0 ∷ (meta_data_text 4 sent ++ (0 ∷ 0 ∷ []))))

decode_block0-meta_data_text_example :
    (bytes : List ℕ) × (decode_block0 (modem block0)
      ≡ done (
        true,
        with_block bytes (record (modem block0) {
          file_data = announced name (replicate 16 0) sent (modem block0).file_data;
        }),
      ))
unfolding init set_line_buffer set_filename_buffer meta_data_text decimal octal digits
decode_block0-meta_data_text_example =
    decode_block0-meta_data_text 0 255 name [] (replicate 16 0) sent (modem block0) refl
      (omega arith)
      (record {
        size = omega arith;
        modif_date = omega arith;
        permission = omega arith;
        serial_number = omega arith;
      })
      refl (omega arith) (omega arith) (omega arith, (omega arith, (omega arith, tt))) (omega arith)
      (omega arith)

-- A line on which nothing comes.
abbrev dead_line : Line (Unit {0})
dead_line = record {
  getchar = λ p n. (record { ok = false; bytes = [] }, p);
  putchar = λ p bytes. p;
  getchar_fits = λ p n. omega arith;
  getchar_fills = λ p n e. cc;
  getchar_bytes = λ p n. tt;
}

abbrev silent : IsSilent dead_line
silent p n = refl

abbrev waiting : Modem (Unit {0})
waiting = (set_line_buffer (replicate 133 0) 133 (init tt with_crc_128)).1

receive_block0-IsSilent_example : receive_block0 dead_line 1000 128 0 waiting ≡ spent
unfolding init set_line_buffer
receive_block0-IsSilent_example =
    receive_block0-IsSilent dead_line silent 1000 128 0 waiting (omega arith)

replies-IsSilent_example : replies dead_line 1000 true 0 0 waiting ≡ spent
replies-IsSilent_example = replies-IsSilent dead_line silent 1000 true 0 waiting (omega arith)

transfer-IsSilent_example :
    (q : Unit {0}) × (r : Unit {0}) × (lmodem_receive dead_line ymodem 0 waiting
      ≡ done (minus_one, record waiting { protocol = ymodem; port = q }))
    × (lmodem_emit dead_line ymodem 0 waiting
        ≡ done (minus_one, record waiting { protocol = ymodem; port = r }))
unfolding init set_line_buffer
transfer-IsSilent_example = transfer-IsSilent dead_line silent 0 waiting refl

-- A modem with a name to send.
abbrev named_modem : Modem Script
named_modem = record (modem (replicate 133 0)) { file_data = sent }

build_and_send_block0_fault_example : build_and_send_block0 script_line named_modem ≡ fault
unfolding init set_line_buffer set_filename_buffer has_filename
build_and_send_block0_fault_example =
    build_and_send_block0_fault script_line name [] named_modem refl (omega arith) refl refl
      (omega arith, (omega arith, (omega arith, tt))) (omega arith)
