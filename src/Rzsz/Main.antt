-- ===== src/Rzsz/Main.antt =====
-- The main part of the command-line tool src/tools/rzsz.c. The files are the parameter `files` and
-- the system calls on the serial port are `os`; the messages are left out.
use light_modem.Base.{
  ℕ, ◌+◌, ◌*◌, ◌^◌, Bool, true, false, List, [], ◌∷◌, ◌++◌, Option, none, some, M, spent, fault,
  ◌≡◌, ◌>>=◌, ◌>>◌, pure, gets, modify, lift, zoom, load, done, length, IsBytes, u32, ltb, ◌==◌,
  if◌then◌else◌, replicate,
}
use light_modem.Buffer
use light_modem.Modem.{
  Modem, Protocol, xmodem, ymodem, Opts, with_chksum_128, with_crc_128, one_k, FileCharacteristics,
  init, set_line_buffer, set_file_buffer, set_filename_buffer,
}
use light_modem.Modem.Metadata.{
  set_filename, set_filesize, set_modif_time, set_permission, set_serial, get_filename,
}
use light_modem.Serial.{Os}
use light_modem.Serial
use light_modem.Transfer.{lmodem_receive, lmodem_emit}
use light_modem.Rzsz.Options.{Options}
use light_modem.Rzsz.Port.{serial_line}

-- `struct stat`
pub record Stat : Type 0 where
  pub st_size : ℕ
  pub st_mtime : ℕ
  pub st_mode : ℕ

-- The calls on files. `fread` gives the memory of the `size` bytes from `malloc` after the call,
-- whether they were read or not; `fopen` and `stat` give false and `none` for their failures.
pub record Files (W : Type 0) : Type 0 where
  pub stat : List ℕ → W → Option Stat × W
  pub fopen_read : List ℕ → W → Bool × W
  pub fopen_write : List ℕ → W → Bool × W
  pub fread : ℕ → W → List ℕ × W
  pub fwrite : List ℕ → W → W
  pub fclose : W → W
  pub fread_size : (size : ℕ) (w : W) → length (fread size w).0 ≡ size
  pub fread_bytes : (size : ℕ) (w : W) → IsBytes (fread size w).0

abbrev pub buffer_file_size : ℕ
buffer_file_size = 1024 * 1024

abbrev pub buffer_filename_size : ℕ
buffer_filename_size = 256

-- `xmodem_recvFile`, which starts as zeros.
unfoldable pub recv_file : List ℕ
recv_file = replicate buffer_file_size 0

-- The options of the library and the size of the block buffer.
unfoldable pub choose : Options → Protocol → Opts × ℕ
choose o xmodem =
    if ltb 0 o.xmodem_blksize
    then (one_k, 1 + 2 + 1024 + 2)
    else if ltb 0 o.crc
    then (with_crc_128, 1 + 2 + 128 + 2)
    else (with_chksum_128, 1 + 2 + 128 + 1)
choose o ymodem = (with_chksum_128, 1 + 2 + 1024 + 2)

-- The part of a text behind its last slash; `none` is the NULL of `strrchr`.
unfoldable pub behind_slash : List ℕ → Option (List ℕ)
behind_slash [] = none
behind_slash (c ∷ text) = elim (behind_slash text) [
  | some tail ↦ some tail
  | none ↦ if c == b'/' then some text else none
]

-- The signed test `>= 0`, and the exit code: true is EXIT_SUCCESS.
abbrev pub is_success : ℕ → Bool
is_success n = ltb n (2 ^ 31)

-- `assert`: an abort counts as a fault.
abbrev assert : {S : Type 0} → Bool → M S (Unit {0})
assert true = pure tt
assert false = λ s. fault

module _ {W : Type 0} where
  -- A call of the system, with the world as the port of the modem.
  abbrev pub on_port : {A : Type 0} → (W → A × W) → M (Modem W) A
  on_port f m = pure (f m.port).0 (record m { port = (f m.port).1 })

  abbrev on_metadata : (FileCharacteristics → FileCharacteristics) → M (Modem W) (Unit {0})
  on_metadata f = modify λ m. record m { file_data = f m.file_data }

  -- The context that `main` makes with the chosen options and size; `memory` is what `malloc` gave
  -- for the block buffer. The result is that of `lmodem_set_line_buffer`.
  unfoldable pub set_up_with : Opts → ℕ → List ℕ → W → Bool × Modem W
  set_up_with opts size memory world =
      let (ok, m) = set_line_buffer memory size (init world opts) in
      let named = set_filename_buffer (replicate buffer_filename_size 0) buffer_filename_size m in
      (ok, if ok then named else m)

  unfoldable pub set_up : Options → Protocol → List ℕ → W → Bool × Modem W
  set_up o protocol memory world =
      let (opts, size) = choose o protocol in set_up_with opts size memory world

  -- The metadata for YMODEM. A name without a slash makes the code read from the address 1.
  unfoldable pub describe : List ℕ → Stat → M (Modem W) (Unit {0})
  describe filename s = do
    name ←
        lift (elim (behind_slash filename) [ some name ↦ done (name ++ (0 ∷ [])) | none ↦ fault ])
    zoom (λ m. m.file_data) (λ d m. record m { file_data = d }) (set_filename name)
    on_metadata (set_filesize (u32 s.st_size))
    on_metadata (set_modif_time (u32 s.st_mtime))
    on_metadata (set_permission (u32 s.st_mode))
    on_metadata (set_serial 0)

module _ {W : Type 0} (os : Os W) (files : Files W) where
  -- The file with its size is ready to be sent.
  unfoldable pub load_file : Protocol → List ℕ → Stat → M (Modem W) (Unit {0})
  load_file protocol filename s = do
    datafile ← on_port (files.fread s.st_size)
    modify (set_file_buffer datafile (u32 s.st_size))
    ok ←
        zoom (λ m. m.ramfile) (λ b m. record m { ramfile = b })
          (Buffer.set_write_offset (u32 s.st_size))
    assert ok
    elim protocol [ xmodem ↦ pure tt | ymodem ↦ describe filename s ]

  -- `do_file_transmission`
  unfoldable pub do_file_transmission : ℕ → ℕ → Protocol → List ℕ → M (Modem W) Bool
  do_file_transmission fuel serial_fd protocol filename = do
    r ← on_port (files.stat filename)
    elim r [
      | none ↦ pure false
      | some s ↦ do
        opened ← on_port (files.fopen_read filename)
        let transfer = do
          load_file protocol filename s
          nb_bytes_emitted ← lmodem_emit (serial_line os serial_fd) protocol fuel
          pure (is_success nb_bytes_emitted)
        if opened then transfer else pure false
    ]

  -- The received file is written, if there is one.
  unfoldable pub save_file : ℕ → M (Modem W) (Unit {0})
  save_file nb_bytes_received = do
    m ← gets (λ m. m)
    let write = do
      bytes ← lift (load m.ramfile.buffer 0 m.ramfile.write_offset)
      on_port (λ w. (tt, files.fwrite bytes w))
    if is_success nb_bytes_received then write else pure tt

  -- The name is read for a message; the other getters only read numbers for theirs.
  unfoldable pub show_metadata : Protocol → M (Modem W) (Unit {0})
  show_metadata xmodem = pure tt
  show_metadata ymodem = do
    shown ←
        zoom (λ m. m.file_data) (λ d m. record m { file_data = d })
          (get_filename (some (replicate buffer_filename_size 0)) buffer_filename_size)
    pure tt

  -- `do_file_reception`
  unfoldable pub do_file_reception : ℕ → ℕ → Protocol → List ℕ → M (Modem W) Bool
  do_file_reception fuel serial_fd protocol filename = do
    modify (set_file_buffer recv_file buffer_file_size)
    opened ← on_port (files.fopen_write filename)
    let transfer = do
      nb_bytes_received ← lmodem_receive (serial_line os serial_fd) protocol fuel
      save_file nb_bytes_received
      show_metadata protocol
      on_port (λ w. (tt, files.fclose w))
      pure (is_success nb_bytes_received)
    if opened then transfer else pure false

  -- What `main` does with the context that is set up.
  unfoldable pub run : ℕ → ℕ → Options → Protocol → List ℕ → M (Modem W) Bool
  run fuel serial_fd o protocol filename = do
    received ← if o.rx == 0 then pure false else do_file_reception fuel serial_fd protocol filename
    if o.tx == 0 then pure received else do_file_transmission fuel serial_fd protocol filename

  -- `main` on accepted options; `memory` is what `malloc` gives for so many bytes. The result is
  -- the exit code.
  unfoldable pub main : ℕ → (ℕ → List ℕ) → Options → Protocol → List ℕ → List ℕ → M W Bool
  main fuel memory o protocol device filename world =
      elim (Serial.setup os device o.speed o.parity o.ctrl_flow o.nb_stop world) [
        | fault ↦ fault
        | spent ↦ spent
        | done (none, world') ↦ done (false, world')
        | done (some fd, world') ↦
            let (ok, m) = set_up o protocol (memory (choose o protocol).1) world' in
            elim (if ok then run fuel fd o protocol filename m else done (false, m)) [
              | fault ↦ fault
              | spent ↦ spent
              | done (code, m') ↦ done (code, os.close fd m'.port)
            ]
      ]
