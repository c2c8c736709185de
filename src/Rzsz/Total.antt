-- ===== src/Rzsz/Total.antt =====
-- Transfers of src/tools/rzsz.c by XMODEM, from the options to the exit code.
use light_modem.Base.{
  ℕ, ◌+◌, ◌-◌, ◌*◌, ◌^◌, ◌≤◌, ◌<◌, ◌≡◌, ◌⊎◌, refl, Bool, true, false, List, some, arith, length,
  IsBytes, Bool-cases, inl, inr, leb, ◌==◌, length-replicate, done, ◌>>=◌, load-done, zoom, u32,
  take, length-take, ==_iff, Option-cases,
}
use light_modem.Buffer
use light_modem.Buffer.{Buffer}
use light_modem.Buffer.Laws.{IsValid}
use light_modem.Modem.{Modem, xmodem, set_file_buffer}
use light_modem.Receive.Ready.{IsReady}
use light_modem.Receive.Total.{lxmodem_receive_total}
use light_modem.Emit.Total.{lxmodem_emit_total}
use light_modem.Transfer.{lmodem_receive, lmodem_emit, receive_with, emit_with}
use light_modem.Serial.{Os}
use light_modem.Serial.Calls.{setup_lem}
use light_modem.Rzsz.Options.{Options}
use light_modem.Rzsz.Port.{serial_line}
use light_modem.Rzsz.Main.{
  Files, Stat, choose, set_up, recv_file, buffer_file_size, do_file_reception, save_file,
  show_metadata, is_success, load_file, do_file_transmission, run, main,
}
use light_modem.Rzsz.Ready.{with_file, IsSetUp, set_up-IsSetUp}

length-recv_file : length recv_file ≡ buffer_file_size
unfolding recv_file
length-recv_file = length-replicate {A = ℕ} buffer_file_size 0

-- The RAM file at the start of a reception.
abbrev empty_file : Buffer
empty_file = record {
  buffer = recv_file;
  read_offset = 0;
  write_offset = 0;
  max_size = buffer_file_size;
}

empty_file-IsValid : IsValid empty_file
empty_file-IsValid = record {
  read-le-write = omega arith;
  write-le-max = omega arith;
  in_storage = omega (arith, length-recv_file);
  small = omega arith;
}

whole_file :
    (datafile : List ℕ) (size : ℕ)
    → Buffer.set_write_offset size (Buffer.init datafile size)
      ≡ done (true, record (Buffer.init datafile size) { write_offset = size })
unfolding Buffer.set_write_offset Buffer.init
whole_file datafile size = let fits : leb size size ≡ true = ground arith in rw (fits)

module _ {W : Type 0} (os : Os W) (files : Files W) where
  save_lem :
      (n : ℕ) (m : Modem W)
      → IsValid m.ramfile
      → (w : W) × (save_file os files n m ≡ done (tt, record m { port = w }))
  unfolding save_file
  save_lem n m v = elim (Bool-cases (is_success n)) [
    | inl e ↦ (
      files.fwrite (take m.ramfile.write_offset m.ramfile.buffer) m.port,
      rw (
        e,
        load-done m.ramfile.buffer 0 m.ramfile.write_offset
            (omega (arith, v.write-le-max, v.in_storage)),
        ◌>>=◌,
      ),
    )
    | inr e ↦ (m.port, rw (e))
  ]

  -- An XMODEM reception on a context that is set up.
  reception_lem :
      (fuel fd : ℕ) (filename : List ℕ) (m : Modem W)
      → IsReady (with_file xmodem empty_file m)
      → 10 * buffer_file_size + 10 < fuel
      → (code : Bool) × (m' : Modem W) × (do_file_reception os files fuel fd xmodem filename m
          ≡ done (code, m'))
  unfolding do_file_reception set_file_buffer Buffer.init lmodem_receive receive_with show_metadata
  reception_lem fuel fd filename m ready enough =
      let m₀ = record m { ramfile = empty_file } in
      let (opened, w) = files.fopen_write filename m.port in
      elim (Bool-cases opened) [
        | inr e ↦ (false, record m₀ { port = w }, rw (e))
        | inl e ↦
            let m₁ = with_file xmodem empty_file (record m { port = w }) in
            let (n, m₂, _, received, ready₂, _, _) =
              lxmodem_receive_total (serial_line os fd) fuel m₁
                (record {
                  table = ready.table;
                  bytes = ready.bytes;
                  room = ready.room;
                  file = ready.file;
                })
                enough in
            let (w₂, saved) = save_lem n m₂ ready₂.file in
            (
              is_success n,
              record m₂ { port = files.fclose w₂ },
              rw (e, received, ◌>>=◌, saved, ◌>>=◌),
            )
      ]

  -- The file is loaded for a transmission by XMODEM.
  load_lem :
      (filename : List ℕ) (s : Stat) (m : Modem W)
      → s.st_size < 2 ^ 31
      → (w : W) × (datafile : List ℕ) × (load_file os files xmodem filename s m
          ≡ done (
            tt,
            record m {
              port = w;
              ramfile = record {
                buffer = datafile;
                read_offset = 0;
                write_offset = s.st_size;
                max_size = s.st_size;
              };
            },
          ))
        × (length datafile ≡ s.st_size)
        × IsBytes datafile
  unfolding load_file set_file_buffer Buffer.init
  load_lem filename s m small =
      let whole : u32 s.st_size ≡ s.st_size = omega arith in
      (
        (files.fread s.st_size m.port).1,
        (files.fread s.st_size m.port).0,
        rw (whole, ◌>>=◌, zoom, whole_file (files.fread s.st_size m.port).0 s.st_size),
        files.fread_size s.st_size m.port,
        files.fread_bytes s.st_size m.port,
      )

  transmission_lem :
      (fuel fd limit : ℕ) (filename : List ℕ) (m : Modem W)
      → IsSetUp xmodem (true, m)
      → ((w : W) (s : Stat) → (files.stat filename w).0 ≡ some s → s.st_size ≤ limit)
      → limit < 2 ^ 31
      → 11 * (limit + 1) < fuel
      → (code : Bool) × (m' : Modem W) × (do_file_transmission os files fuel fd xmodem filename m
          ≡ done (code, m'))
  unfolding do_file_transmission lmodem_emit emit_with
  transmission_lem fuel fd limit filename m ready sized small enough =
      let (found, w) = files.stat filename m.port in
      let (opened, w₁) = files.fopen_read filename w in
      let m₁ = record m { port = w₁ } in
      elim (Option-cases found) [
        | inl e ↦ (false, record m { port = w }, rw (e))
        | inr (s, e) ↦ elim (Bool-cases opened) [
          | inr f ↦ (false, m₁, rw (e, f))
          | inl f ↦
              let size = sized m.port s e in
              let (w₂, datafile, loaded, len, bytes) =
                load_lem filename s m₁ (omega (arith, size)) in
              let file : Buffer = record {
                buffer = datafile;
                read_offset = 0;
                write_offset = s.st_size;
                max_size = s.st_size;
              } in
              let m₂ = with_file xmodem file (record m { port = w₂ }) in
              let valid : IsValid file = record {
                read-le-write = omega arith;
                write-le-max = omega arith;
                in_storage = omega (arith, len);
                small = omega (arith, size);
              } in
              let c = (ready.1 file valid).1 bytes in
              let (n, m₃, emitted, _, _, _) =
                lxmodem_emit_total (serial_line os fd) fuel m₂
                  (record {
                    table = c.table;
                    bytes = c.bytes;
                    room = c.room;
                    file = c.file;
                    file_bytes = c.file_bytes;
                  })
                  (omega (arith, size, length-take (s.st_size - 0) datafile)) in
              (is_success n, m₃, rw (e, f, loaded, ◌>>=◌, emitted, ◌>>=◌))
        ]
      ]

  run_lem :
      (fuel fd limit : ℕ) (o : Options) (filename : List ℕ) (m : Modem W)
      → IsSetUp xmodem (true, m)
      → (o.rx ≡ 0) ⊎ (o.tx ≡ 0)
      → ((w : W) (s : Stat) → (files.stat filename w).0 ≡ some s → s.st_size ≤ limit)
      → limit < 2 ^ 31
      → 11 * (limit + 1) + 10 * buffer_file_size + 10 < fuel
      → (code : Bool) × (m' : Modem W) × (run os files fuel fd o xmodem filename m
          ≡ done (code, m'))
  unfolding run
  run_lem fuel fd limit o filename m ready (inl no_rx) sized small enough =
      let off : (o.rx == 0) ≡ true = (==_iff o.rx 0).1 no_rx in
      let (code, m', sent) =
        transmission_lem fuel fd limit filename m ready sized small (omega (arith, enough)) in
      elim (Bool-cases (o.tx == 0)) [
        | inl e ↦ (false, m, rw (off, e))
        | inr e ↦ (code, m', rw (off, e) sent)
      ]
  run_lem fuel fd limit o filename m ready (inr no_tx) sized small enough =
      let off : (o.tx == 0) ≡ true = (==_iff o.tx 0).1 no_tx in
      let (code, m', received) =
        reception_lem fuel fd filename m (ready.1 empty_file empty_file-IsValid).0
          (omega (arith, enough)) in
      elim (Bool-cases (o.rx == 0)) [
        | inl e ↦ (false, m, rw (e, off))
        | inr e ↦ (code, m', rw (e, received, ◌>>=◌, off))
      ]

-- The tool run for XMODEM with one direction at most, and with memory of bytes from `malloc`, as
-- many as it asks for: if the file to send has at most `limit` bytes, below 2 ^ 31, then with fuel
-- above 11 (limit + 1) + 10 * 2 ^ 20 + 10 it comes to an exit code, whatever the serial port and
-- the files do. It does not run for ever and accesses no memory outside its buffers.
pub main_total :
    {W : Type 0} (os : Os W) (files : Files W) (fuel limit : ℕ) (memory : ℕ → List ℕ) (o : Options)
    (device filename : List ℕ) (world : W)
    → ((n : ℕ) → length (memory n) ≡ n)
    → ((n : ℕ) → IsBytes (memory n))
    → (o.rx ≡ 0) ⊎ (o.tx ≡ 0)
    → ((w : W) (s : Stat) → (files.stat filename w).0 ≡ some s → s.st_size ≤ limit)
    → limit < 2 ^ 31
    → 11 * (limit + 1) + 10 * buffer_file_size + 10 < fuel
    → (code : Bool) × (world' : W) × (main os files fuel memory o xmodem device filename world
        ≡ done (code, world'))
unfolding main
main_total os files fuel limit memory o device filename world sizes bytes one_way sized small
      enough =
    let (opened, w, run₁, _) = setup_lem os device o.speed o.parity o.ctrl_flow o.nb_stop world in
    elim (Option-cases opened) [
      | inl e ↦ (false, w, rw (main, run₁, e))
      | inr (fd, e) ↦
          let size = (choose o xmodem).1 in
          let r = set_up o xmodem (memory size) w in
          let ready = set_up-IsSetUp o xmodem (memory size) w (sizes size) (bytes size) in
          let (code, m', run₂) =
            run_lem os files fuel fd limit o filename r.1 (refl, ready.1) one_way sized small
              enough in
          (code, os.close fd m'.port, rw (main, run₁, e, ready.0, run₂))
    ]
