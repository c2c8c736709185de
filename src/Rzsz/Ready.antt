-- ===== src/Rzsz/Ready.antt =====
-- The context that `main` of src/tools/rzsz.c hands to the library.
use light_modem.Base.{
  ℕ, ◌+◌, ◌≤◌, ◌≡◌, refl, Bool, true, List, arith, length, IsBytes, ltb, Bool-cases, inl, inr,
}
use light_modem.Buffer.{Buffer}
use light_modem.Buffer.Laws.{IsValid}
use light_modem.Modem.{
  Modem, ccitt_polynome, Protocol, xmodem, ymodem, Opts, with_chksum_128, with_crc_128, one_k, init,
  set_line_buffer, set_filename_buffer,
}
use light_modem.Receive.Ready.{IsReady, largest}
use light_modem.Emit.{framing}
use light_modem.Emit.Sizes.{CanSend}
use light_modem.Crc
use light_modem.Receive.Block.{trailer_size}
use light_modem.Rzsz.Options.{Options}
use light_modem.Rzsz.Main.{choose, set_up, set_up_with}

-- The sizes that are chosen.
abbrev IsChosen : Protocol → Opts → ℕ → Type 0
IsChosen xmodem one_k size = size ≡ 1029
IsChosen xmodem with_crc_128 size = size ≡ 133
IsChosen xmodem with_chksum_128 size = size ≡ 132
IsChosen ymodem with_chksum_128 size = size ≡ 1029
IsChosen ymodem opts size = ⊥

choose-IsChosen :
    (o : Options) (protocol : Protocol)
    → IsChosen protocol (choose o protocol).0 (choose o protocol).1
unfolding choose
choose-IsChosen o ymodem = refl
choose-IsChosen o xmodem = elim (Bool-cases (ltb 0 o.xmodem_blksize)) [
  | inl e ↦ rw (e) refl
  | inr e ↦ elim (Bool-cases (ltb 0 o.crc)) [ inl c ↦ rw (e, c) refl | inr c ↦ rw (e, c) refl ]
]

module _ {W : Type 0} where
  -- The context at the start of a transfer of the RAM file `file`.
  abbrev pub with_file : Protocol → Buffer → Modem W → Modem W
  with_file protocol file m = record m { protocol = protocol; ramfile = file }

  -- A context that both directions of a transfer can start from.
  abbrev pub IsSetUp : Protocol → Bool × Modem W → Type 0
  IsSetUp protocol r =
      (r.0 ≡ true)
      × ((file : Buffer)
          → IsValid file
          → IsReady (with_file protocol file r.1)
            × (IsBytes file.buffer
                → CanSend (framing protocol r.1.opts).with_crc
                    (framing protocol r.1.opts).default_blksize (with_file protocol file r.1)))

  -- The context as it is before the RAM file is there.
  transfer_lem :
      (protocol : Protocol) (m : Modem W)
      → m.crc16 ≡ Crc.init ccitt_polynome
      → IsBytes m.blk_buffer.buffer
      → largest (record m { protocol = protocol }) ≤ length m.blk_buffer.buffer
      → 3
          + (framing protocol m.opts).default_blksize
          + trailer_size (framing protocol m.opts).with_crc
        ≤ length m.blk_buffer.buffer
      → IsSetUp protocol (true, m)
  transfer_lem protocol m table bytes room room' = (
    refl,
    λ file valid. (
      record { table = table; bytes = bytes; room = room; file = valid },
      λ file_bytes. record {
        table = table;
        bytes = bytes;
        room = room';
        file = valid;
        file_bytes = file_bytes;
      },
    ),
  )

  set_up_with_lem :
      (protocol : Protocol) (opts : Opts) (size : ℕ) (memory : List ℕ) (world : W)
      → IsChosen protocol opts size
      → length memory ≡ size
      → IsBytes memory
      → IsSetUp protocol (set_up_with opts size memory world)
  unfolding set_up_with init set_line_buffer set_filename_buffer framing
  set_up_with_lem xmodem one_k size memory world chosen len bytes = rw (chosen) (
      transfer_lem xmodem (set_up_with one_k 1029 memory world).1 refl bytes (omega (arith, len))
        (omega (arith, len)))
  set_up_with_lem xmodem with_crc_128 size memory world chosen len bytes = rw (chosen) (
      transfer_lem xmodem (set_up_with with_crc_128 133 memory world).1 refl bytes
        (omega (arith, len)) (omega (arith, len)))
  set_up_with_lem xmodem with_chksum_128 size memory world chosen len bytes = rw (chosen) (
      transfer_lem xmodem (set_up_with with_chksum_128 132 memory world).1 refl bytes
        (omega (arith, len)) (omega (arith, len)))
  set_up_with_lem ymodem with_chksum_128 size memory world chosen len bytes = rw (chosen) (
      transfer_lem ymodem (set_up_with with_chksum_128 1029 memory world).1 refl bytes
        (omega (arith, len)) (omega (arith, len)))
  set_up_with_lem ymodem with_crc_128 size memory world chosen len bytes = elim chosen [ ]
  set_up_with_lem ymodem one_k size memory world chosen len bytes = elim chosen [ ]

  pub set_up-IsSetUp :
      (o : Options) (protocol : Protocol) (memory : List ℕ) (world : W)
      → length memory ≡ (choose o protocol).1
      → IsBytes memory
      → IsSetUp protocol (set_up o protocol memory world)
  unfolding set_up
  set_up-IsSetUp o protocol memory world size bytes =
      set_up_with_lem protocol (choose o protocol).0 (choose o protocol).1 memory world
        (choose-IsChosen o protocol) size bytes

  -- Whatever the options are, the block buffer that `main` allocates for them, if it holds bytes,
  -- is accepted by `lmodem_set_line_buffer`, and with every valid RAM file of bytes the context is
  -- one in which `lxmodem_receive` is safe, and in which every data block of the protocol can be
  -- sent; it says nothing of block 0 of YMODEM, which clears more memory.
  pub set_up_lem :
      (o : Options) (protocol : Protocol) (memory : List ℕ) (world : W) (file : Buffer)
      → length memory ≡ (choose o protocol).1
      → IsBytes memory
      → IsValid file
      → IsBytes file.buffer
      → let (ok, m) = set_up o protocol memory world in
        let f = framing protocol m.opts in
        (ok ≡ true)
        × IsReady (with_file protocol file m)
        × CanSend f.with_crc f.default_blksize (with_file protocol file m)
  set_up_lem o protocol memory world file size bytes valid file_bytes =
      let ready = set_up-IsSetUp o protocol memory world size bytes in
      let (receives, sends) = ready.1 file valid in (ready.0, receives, sends file_bytes)
