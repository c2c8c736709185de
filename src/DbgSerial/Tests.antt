-- ===== src/DbgSerial/Tests.antt =====
-- The serial tracer src/tools/dbg_serial.c on a port that brings one byte with each call of `read`.
use light_modem.Base.{
  ℕ, zero, suc, ◌≤◌, ◌<◌, ◌≡◌, ◌≢◌, ◌⊎◌, ◌%◌, ◌^◌, refl, true, false, List, [], ◌∷◌, ◌++◌, none,
  some, done, spent, arith, length, replicate, IsBytes, drop, ap, subst,
}
use light_modem.Frame
use light_modem.Frame.{sum, crc_of_payload}
use light_modem.Modem.Script.{to_bytes}
use light_modem.Serial.{Os, setup, set_interface, serial_read}
use light_modem.Serial.Scripted.{scripted_os}
use light_modem.Serial.Stream.{Stream, Piece, Got, serial_read-Got}
use light_modem.DbgSerial.{
  codes, get_ctrl_code, main, Tracer, trace_block, dump, newline, hex_of_byte,
}
use light_modem.DbgSerial.Ascii.{Control, value}
use light_modem.DbgSerial.Names.{spelling, get_ctrl_code_lem}
use light_modem.DbgSerial.Session.{Item, block, other, sent, shown, reply, all, eot_shown, main_lem}
use light_modem.DbgSerial.Sum.{trace_block_lem}
use light_modem.DbgSerial.Safe.{main_safe}

-- The bytes that come, and those that were written.
record Wire : Type 0 where
  coming : List ℕ
  gone : List ℕ

abbrev next_byte : ℕ → List ℕ → List ℕ
next_byte zero l = []
next_byte (suc n) [] = []
next_byte (suc n) (c ∷ l) = c % 2 ^ 8 ∷ []

abbrev behind : ℕ → List ℕ → List ℕ
behind zero l = l
behind (suc n) [] = []
behind (suc n) (c ∷ l) = l

next_byte-le : (n : ℕ) (l : List ℕ) → length (next_byte n l) ≤ n
next_byte-le zero l = omega arith
next_byte-le (suc n) [] = omega arith
next_byte-le (suc n) (c ∷ l) = omega arith

next_byte-IsBytes : (n : ℕ) (l : List ℕ) → IsBytes (next_byte n l)
next_byte-IsBytes zero l = tt
next_byte-IsBytes (suc n) [] = tt
next_byte-IsBytes (suc n) (c ∷ l) = (omega arith, tt)

content : {a b : List ℕ} → some a ≡ some b → a ≡ b
content {a} e = ap (λ o. elim o [ none ↦ a | some x ↦ x ]) e

abbrev wire_os : Os Wire
wire_os = record {
  masks = scripted_os.masks;
  speed_flag = λ s. 0;
  cfsetospeed = λ speed t. t;
  cfsetispeed = λ speed t. t;
  cfmakeraw = λ t. t;
  tcgetattr = λ fd w. (none, w);
  tcsetattr = λ fd t w. (true, w);
  tcflush = λ fd w. w;
  open_device = λ device w. (some 3, w);
  close = λ fd w. w;
  read = λ fd n w. (some (next_byte n w.coming), record w { coming = behind n w.coming });
  write = λ fd bytes w. (some (length bytes), record w { gone = w.gone ++ bytes });
  read_fits = λ fd n w bytes e. subst (λ l. length l ≤ n) (content e) (next_byte-le n w.coming);
  read_bytes = λ fd n w bytes e. subst IsBytes (content e) (next_byte-IsBytes n w.coming);
}

abbrev coming_bytes : Wire → List ℕ
coming_bytes w = to_bytes w.coming

one_byte :
    (n : ℕ) (coming gone : List ℕ)
    → 0 < n
    → 0 < length (to_bytes coming)
    → Piece wire_os 3 coming_bytes (λ w. w.gone) n (record { coming = coming; gone = gone })
one_byte zero coming gone h there = elim h [ ]
one_byte (suc n) [] gone h there = elim there [ ]
one_byte (suc n) (c ∷ coming) gone h there = record {
  count = 1;
  positive = omega arith;
  asked = omega arith;
  there = omega arith;
  brings = refl;
  leaves = refl;
  writes_none = refl;
}

abbrev wire : Stream wire_os 3
wire = record {
  pending = coming_bytes;
  written = λ w. w.gone;
  piece = λ n w h there. one_byte n w.coming w.gone h there;
  takes = λ bytes w. refl;
  keeps = λ bytes w. refl;
  appends = λ bytes w. refl;
}

-- A carriage return, a block of zeros, a letter, EOT, and a byte that is left.
abbrev some_items : List Item
some_items = other 13 ∷ block (replicate 132 0) ∷ other b'x' ∷ []

abbrev start : Wire
start = record { coming = all sent some_items ++ (4 ∷ 9 ∷ []); gone = [] }

opens : setup wire_os (codes "/dev/ttyUSB0") 115200 0 0 1 start ≡ done (some 3, start)
unfolding setup set_interface
opens = refl

main_lem_example :
    (w₂ : Wire) × (main wire_os 4 (record { world = start; out = [] })
      ≡ done (true, record { world = w₂; out = all shown some_items ++ eot_shown }))
    × (coming_bytes w₂ ≡ 9 ∷ [])
    × (w₂.gone ≡ [] ++ (b'C' ∷ (all reply some_items ++ 6 ∷ [])))
main_lem_example =
    main_lem wire some_items (9 ∷ []) 4 start start
      ((omega arith, omega arith), (refl, ((omega arith, omega arith), tt))) opens refl
      (omega arith)

get_ctrl_code_lem_example :
    ((k : Control) × (value k ≡ 13) × (get_ctrl_code 13 ≡ done (spelling k)))
    ⊎ (((k : Control) → value k ≢ 13) × (get_ctrl_code 13 ≡ done []))
get_ctrl_code_lem_example = get_ctrl_code_lem 13

-- A block with a checksum, and the EOT behind it.
abbrev checked_block : List ℕ
checked_block = Frame.block false 1 (replicate 128 7) ++ 4 ∷ []

abbrev before_block : Tracer Wire
before_block = record { world = record { coming = checked_block ++ 9 ∷ []; gone = [] }; out = [] }

trace_block_lem_example :
    (t' : Tracer Wire) × (trace_block wire_os 3 before_block ≡ done (tt, t'))
    × (t'.out
        ≡ codes "SOH: "
          ++ (dump checked_block
              ++ (newline ++ (codes "chksum = 0x" ++ (hex_of_byte 0 ++ newline)))))
    × (t'.world.gone ≡ [] ++ 6 ∷ [])
    × (coming_bytes t'.world ≡ 9 ∷ [])
trace_block_lem_example =
    trace_block_lem wire false 1 (replicate 128 7) (4 ∷ []) (9 ∷ []) before_block refl refl refl

main_safe_example :
    (main wire_os 2 (record { world = start; out = [] }) ≡ spent)
    ⊎ ((w' : Wire) × (main wire_os 2 (record { world = start; out = [] })
          ≡ done (false, record { world = w'; out = [] }))
        × ((wire_os.open_device (codes "/dev/ttyUSB0") start).0 ≡ none))
    ⊎ ((t' : Tracer Wire) × (text : List ℕ) × (main wire_os 2 (record { world = start; out = [] })
          ≡ done (true, t'))
        × (t'.out ≡ text ++ eot_shown))
main_safe_example = main_safe wire_os 2 start

serial_read-Got_example :
    Got wire
      (1 ∷ 0 ∷ [])
      (to_bytes (drop 3 start.coming))
      (record { coming = 1 ∷ 0 ∷ drop 3 start.coming; gone = [] })
      (serial_read wire_os 2 3 2 (record { coming = 1 ∷ 0 ∷ drop 3 start.coming; gone = [] }))
serial_read-Got_example =
    serial_read-Got wire 2 2 (record { coming = 1 ∷ 0 ∷ drop 3 start.coming; gone = [] })
      (omega arith) (omega arith)
