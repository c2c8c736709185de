-- ===== src/Ymodem/Session.antt =====
-- A file behind an accepted block 0: the rest of `lymodem_receive` of src/lmodem_rx.c.
use light_modem.Base.{
  ℕ, ◌+◌, ◌-◌, ◌*◌, ◌^◌, ◌<◌, ◌≤◌, ◌≡◌, ◌⊎◌, ap, ◌∙◌, true, List, ◌∷◌, ◌++◌, some, done, arith,
  length, ◌>>=◌, minus_one, IsBytes,
}
use light_modem.Buffer.Laws.{contents, IsValid}
use light_modem.Modem.{Modem, Line, FileCharacteristics}
use light_modem.Modem.Names.{NoNul}
use light_modem.Receive.Ready.{IsReady, takes_long, Kept-IsReady}
use light_modem.Receive.Total.{receive_lem}
use light_modem.Ymodem.Receive.{receive_file}
use light_modem.Ymodem.Emit.{meta_data_text}
use light_modem.Ymodem.Fields.{with_block}
use light_modem.Ymodem.RoundTrip.{IsTyped, announced, announced_lem}
use light_modem.Ymodem.NextFile.{block_next_file_lem}

pub long_room :
    {P : Type 0} (m : Modem P) → IsReady m → takes_long m ≡ true → 1028 ≤ length m.blk_buffer.buffer
long_room m r long = ground (arith, r.room)

-- What the receiver makes of block 0 and of the file behind it, and what it leaves alone.
pub receive_file_lem :
    {P : Type 0} (line : Line P) (fuel number inverse : ℕ) (name rest dst : List ℕ)
    (d : FileCharacteristics) (m : Modem P)
    → IsReady m
    → takes_long m ≡ true
    → m.blk_buffer.buffer
      ≡ number ∷ inverse ∷ (name ++ (0 ∷ (meta_data_text 4 d ++ (0 ∷ 0 ∷ rest))))
    → length m.blk_buffer.buffer ≤ m.blk_buffer.max_size
    → IsTyped d
    → m.file_data.filename ≡ some dst
    → m.file_data.filename_size ≤ length dst
    → m.file_data.filename_size < 2 ^ 32
    → NoNul name
    → 0 < length name
    → length name + 1 < m.file_data.filename_size
    → 10 * (m.ramfile.max_size - m.ramfile.write_offset) + 10 < fuel
    → (result : ℕ) × (m' : Modem P) × (added : List ℕ) × (receive_file line fuel m
        ≡ done (result, m'))
      × (m'.file_data ≡ announced name dst d m.file_data)
      × (contents m'.ramfile ≡ contents m.ramfile ++ added)
      × ((result ≡ length added) ⊎ (result ≡ minus_one))
      × IsBytes m'.blk_buffer.buffer
      × IsValid m'.ramfile
      × (m'.ramfile.read_offset ≡ m.ramfile.read_offset)
      × (m'.ramfile.max_size ≡ m.ramfile.max_size)
      × IsReady m'
unfolding receive_file
receive_file_lem line fuel number inverse name rest dst d m r long e room typed f fits small visible
      some_name short enough =
    let (bytes, decoded, (len, fresh)) =
      announced_lem number inverse name rest dst d m e room typed f fits small visible some_name
        short in
    let m₁ = with_block bytes (record m { file_data = announced name dst d m.file_data }) in
    let r₁ : IsReady m₁ = record {
      table = r.table;
      bytes = fresh r.bytes;
      room = omega (arith, r.room, len);
      file = r.file;
    } in
    let (result, m₂, added, received, r₂, stored, counted, framed) =
      receive_lem line fuel m₁ r₁ enough in
    let room₂ : 1028 ≤ length m₂.blk_buffer.buffer =
      omega (arith, long_room m r long, len, framed.size) in
    let (m₃, ended, same) = block_next_file_lem line m₂ r₂.bytes room₂ in
    (
      result,
      m₃,
      added,
      rw (decoded, ◌>>=◌, received, ◌>>=◌, ended, ◌>>=◌),
      same.kept.file_data ∙ framed.file_data,
      ap contents same.kept.ramfile ∙ stored,
      counted,
      same.kept.bytes,
      rw (same.kept.ramfile) r₂.file,
      ap (λ b. b.read_offset) same.kept.ramfile ∙ framed.read_offset,
      ap (λ b. b.max_size) same.kept.ramfile ∙ framed.max_size,
      Kept-IsReady same.kept r₂,
    )

-- The block buffer of a ready context that takes blocks of 1024 bytes holds a block 0 in the format
-- of the transmitter, with a name of one byte or more without NUL and all four fields, whose
-- numbers fit their C types, and is not longer than it is announced; there is storage for names of
-- the announced size at least, which fits a uint32_t and is at least two more than the length of
-- the name. Then, with more fuel than ten rounds for each free byte of the RAM file and ten more,
-- the receiver takes block 0, receives the file and ends the batch, whatever the line delivers: it
-- does not run for ever and accesses no memory outside its buffers. The context is ready afterwards
-- and has the announced metadata, the RAM file holds what it held and some bytes more, and the
-- result is the number of those bytes or the pattern of -1.
pub receive_file_total :
    {P : Type 0} (line : Line P) (fuel number inverse : ℕ) (name rest dst : List ℕ)
    (d : FileCharacteristics) (m : Modem P)
    → IsReady m
    → takes_long m ≡ true
    → m.blk_buffer.buffer
      ≡ number ∷ inverse ∷ (name ++ (0 ∷ (meta_data_text 4 d ++ (0 ∷ 0 ∷ rest))))
    → length m.blk_buffer.buffer ≤ m.blk_buffer.max_size
    → IsTyped d
    → m.file_data.filename ≡ some dst
    → m.file_data.filename_size ≤ length dst
    → m.file_data.filename_size < 2 ^ 32
    → NoNul name
    → 0 < length name
    → length name + 1 < m.file_data.filename_size
    → 10 * (m.ramfile.max_size - m.ramfile.write_offset) + 10 < fuel
    → (result : ℕ) × (m' : Modem P) × (added : List ℕ) × (receive_file line fuel m
        ≡ done (result, m'))
      × (m'.file_data ≡ announced name dst d m.file_data)
      × (contents m'.ramfile ≡ contents m.ramfile ++ added)
      × ((result ≡ length added) ⊎ (result ≡ minus_one))
      × IsReady m'
receive_file_total line fuel number inverse name rest dst d m r long e room typed f fits small
      visible some_name short enough =
    let (result, m', added, run, known, stored, counted, _, _, _, _, ready) =
      receive_file_lem line fuel number inverse name rest dst d m r long e room typed f fits small
        visible some_name short enough in
    (result, m', added, run, known, stored, counted, ready)
